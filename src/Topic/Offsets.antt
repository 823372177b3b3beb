-- ===== src/Topic/Offsets.antt =====
-- pykafka/topic.py and pykafka/partition.py: the offsets that the leaders of partitions have. What a broker
-- does with the request is a parameter, on a state that the brokers share.
use pykafka.Prelude.{ℤ, pos, negsuc, none, some, List, [], ◌∷◌, ◌++◌, foldl}
use pykafka.Result.{Result, ok, err, key_error, index_error}
use pykafka.Action.{Action, pure, lift, ◌>>=◌}
use pykafka.Dict.{Dict, Eq, lookup, insert, get_default, int_eq, text_eq}
use pykafka.Partition.{Partition}
use pykafka.Protocol.Offset.{PartitionOffsetRequest}
use pykafka.Protocol.Response.{Text}
use pykafka.Prelude.{ℕ}

-- ([offset], err)
abbrev pub Limits : Type 0
Limits = List ℤ × ℤ

-- PartitionOffsetRequest(self.name, part.id, offsets_before, max_offsets)
abbrev pub limit_request : List ℕ → ℤ → ℤ → ℤ → PartitionOffsetRequest
limit_request name id offsets_before max_offsets = record {
  topic_name = name;
  partition_id = id;
  offsets_before = offsets_before;
  max_offsets = max_offsets;
}

-- d[k]
abbrev pub item_of {ℓ κ} : {K : Type ℓ} {V : Type κ} ⦃e : Eq K⦄ → K → Dict K V → Result V
item_of k d = elim (lookup k d) [ none ↦ err key_error | some v ↦ ok v ]

-- xs[0]
abbrev pub first_of {ℓ} : {A : Type ℓ} → List A → Result A
first_of [] = err index_error
first_of (x ∷ xs) = ok x

-- dict.update
abbrev pub update_with : Dict ℤ Limits → Dict ℤ Limits → Dict ℤ Limits
update_with output d = foldl (λ o p. insert p.0 p.1 o) output d

module _ {ℓ κ} {B : Type ℓ} {S : Type κ} ⦃e : Eq B⦄
    (request_offset_limits : B → List PartitionOffsetRequest → Action S (Dict Text (Dict ℤ Limits)))
    (name : List ℕ) where
  -- requests[part.leader].append(...)
  abbrev pub add_request :
      ℤ
      → ℤ
      → Dict B (List PartitionOffsetRequest)
      → Partition B
      → Dict B (List PartitionOffsetRequest)
  add_request offsets_before max_offsets requests part =
      insert part.leader
        (get_default [] part.leader requests
          ++ limit_request name part.id offsets_before max_offsets ∷ [])
        requests

  -- One request for each broker.
  unfoldable pub requests_by_leader :
      Dict ℤ (Partition B) → ℤ → ℤ → Dict B (List PartitionOffsetRequest)
  requests_by_leader partitions offsets_before max_offsets =
      foldl (λ requests p. add_request offsets_before max_offsets requests p.1) [] partitions

  -- The loop over the brokers.
  unfoldable pub ask_brokers :
      Dict B (List PartitionOffsetRequest) → Dict ℤ Limits → Action S (Dict ℤ Limits)
  ask_brokers [] output = pure output
  ask_brokers ((broker, reqs) ∷ requests) output = request_offset_limits broker reqs >>= λ topics.
      lift (item_of (some name) topics) >>= λ limits.
      ask_brokers requests (update_with output limits)

  -- Topic.fetch_offset_limits
  unfoldable pub fetch_offset_limits : Dict ℤ (Partition B) → ℤ → ℤ → Action S (Dict ℤ Limits)
  unfolding requests_by_leader ask_brokers
  fetch_offset_limits partitions offsets_before max_offsets =
      ask_brokers (requests_by_leader partitions offsets_before max_offsets) []

  -- OffsetType.EARLIEST and OffsetType.LATEST
  unfoldable pub earliest_available_offsets : Dict ℤ (Partition B) → Action S (Dict ℤ Limits)
  unfolding fetch_offset_limits
  earliest_available_offsets partitions = fetch_offset_limits partitions (negsuc 1) (pos 1)

  unfoldable pub latest_available_offsets : Dict ℤ (Partition B) → Action S (Dict ℤ Limits)
  unfolding fetch_offset_limits
  latest_available_offsets partitions = fetch_offset_limits partitions (negsuc 0) (pos 1)

  -- Partition.fetch_offset_limit
  unfoldable pub fetch_offset_limit : Partition B → ℤ → ℤ → Action S (List ℤ)
  fetch_offset_limit part offsets_before max_offsets =
      request_offset_limits part.leader (limit_request name part.id offsets_before max_offsets ∷ [])
      >>= λ topics. lift (item_of (some name) topics) >>= λ limits.
          lift (item_of part.id limits) >>= λ limit. pure limit.0

  unfoldable pub latest_available_offset : Partition B → Action S ℤ
  unfolding fetch_offset_limit
  latest_available_offset part =
      fetch_offset_limit part (negsuc 0) (pos 1) >>= λ offsets. lift (first_of offsets)

  unfoldable pub earliest_available_offset : Partition B → Action S ℤ
  unfolding fetch_offset_limit
  earliest_available_offset part =
      fetch_offset_limit part (negsuc 1) (pos 1) >>= λ offsets. lift (first_of offsets)
