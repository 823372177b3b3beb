-- ===== src/SimpleConsumer/Consumer.antt =====
-- pykafka/simpleconsumer.py: the state of a SimpleConsumer, its updates and its error handlers.
use pykafka.Prelude.{
  refl, ℕ, ℤ, pos, Bool, true, false, Option, none, some, List, [], ◌∷◌, ◌++◌, map, eq_ℤ,
  if◌then◌else◌,
}
use pykafka.Result.{Result, ok, err, Error, attribute_error, socket_error, protocol}
use pykafka.Action.{Action, pure, raise, lift, change, ◌>>=◌, ◌>>◌}
use pykafka.Dict.{Dict, Eq, insert, get_default, int_eq, text_eq}
use pykafka.ErrorHandlers.{Part, Handler}
use pykafka.SimpleConsumer.{OwnedPartition}
use pykafka.Protocol.Response.{Text}
use pykafka.Protocol.Response.Fetched.{FetchPartitionResponse}
use pykafka.Protocol.Fetch.{PartitionFetchRequest}
use pykafka.Protocol.Offset.{PartitionOffsetRequest}
use pykafka.Protocol.OffsetCommit.{PartitionOffsetCommitRequest}
use pykafka.Protocol.OffsetFetch.{PartitionOffsetFetchRequest}
use pykafka.Result.{is_disconnected}
use pykafka.Prelude.{◌≡◌}
use pykafka.Prelude.{◌==◌}
use pykafka.Prelude.{foldl}
use pykafka.Dict.{modify_at}
use pykafka.Prelude.{◌↔◌}
use pykafka.Prelude.{ap}
use pykafka.Prelude.{==_iff}
use pykafka.Result.{runtime_error}

-- (offset, metadata, err)
abbrev pub Committed : Type 0
Committed = ℤ × (Text × ℤ)

-- ([offset], err)
abbrev pub Limits : Type 0
Limits = List ℤ × ℤ

-- What a consumer calls of its cluster, of the partitions of its topic, and of brokers, which are named by
-- where they stand in the cluster's store.
pub record Services {ℓ} (C : Type ℓ) : Type ℓ where
  pub update : Action C (Unit {0})
  pub get_offset_manager : List ℕ → Action C (Option ℕ)
  pub leader : ℤ → C → Option ℕ
  pub id : ℕ → C → ℤ
  pub commit_consumer_group_offsets :
      ℕ → List ℕ → ℤ → List ℕ → List PartitionOffsetCommitRequest → Action C (Dict Text (Dict ℤ ℤ))
  pub fetch_consumer_group_offsets :
      ℕ → List ℕ → List PartitionOffsetFetchRequest → Action C (Dict Text (Dict ℤ Committed))
  pub request_offset_limits : ℕ → List PartitionOffsetRequest → Action C (Dict Text (Dict ℤ Limits))
  pub fetch_messages :
      ℕ → List PartitionFetchRequest → ℤ → ℤ → Action C (Dict Text (Dict ℤ FetchPartitionResponse))
  pub time : C → ℤ

pub record Settings : Type 0 where
  pub consumer_group : Option (List ℕ)
  pub auto_offset_reset : ℤ
  pub offsets_commit_max_retries : ℕ
  pub offsets_fetch_max_retries : ℕ
  pub offsets_reset_max_retries : ℕ
  pub queued_max_messages : ℕ
  pub fetch_message_max_bytes : ℤ
  pub fetch_min_bytes : ℤ
  pub fetch_wait_max_ms : ℤ

abbrev leader_beq : Option ℕ → Option ℕ → Bool
leader_beq none none = true
leader_beq (some a) (some b) = a == b
leader_beq _ _ = false

pub leader_beq_iff : (a b : Option ℕ) → (leader_beq a b ≡ true) ↔ (a ≡ b)
leader_beq_iff none none = (λ h. refl, λ h. refl)
leader_beq_iff (some a) (some b) = (λ h. ap some ((==_iff a b).0 h), λ h. (==_iff a b).1 (cc))
leader_beq_iff none (some b) = (λ h. cc, λ h. cc)
leader_beq_iff (some a) none = (λ h. cc, λ h. cc)

-- Brokers are compared by identity.
instance abbrev pub leader_eq : Eq (Option ℕ)
leader_eq = record { beq = leader_beq; beq_iff = leader_beq_iff }

-- An OwnedPartition is named by the id of its partition: `partitions` is both `_partitions` and
-- `_partitions_by_id`. `locks` has the id of a partition as often as the running thread holds its lock,
-- and `busy` those that another thread holds.
pub record Consumer {ℓ} (C : Type ℓ) : Type ℓ where
  pub cluster : C
  pub offset_manager : Option ℕ
  pub partitions : Dict ℤ OwnedPartition
  pub partitions_by_leader : Dict (Option ℕ) (List ℤ)
  pub locks : List ℤ
  pub busy : List ℤ
  pub running : Bool

-- `except (SocketDisconnectedError, IOError)`
abbrev pub is_lost : Error → Bool
is_lost socket_error = true
is_lost e = is_disconnected e

abbrev pub first_owned {ℓ} : {O R : Type ℓ} → O × R → Result (List (O × R)) → Result (List (O × R))
first_owned part (err e) = err e
first_owned part (ok parts) = ok (part ∷ parts)

-- The OwnedPartitions of all parts: an attribute of None is an AttributeError.
abbrev pub owned_parts {ℓ} : {O R : Type ℓ} → List (Part O R) → Result (List (O × R))
owned_parts [] = ok []
owned_parts ((none, res) ∷ parts) = err attribute_error
owned_parts ((some op, res) ∷ parts) = first_owned (op, res) (owned_parts parts)

module _ {ℓ} {C : Type ℓ} where
  abbrev pub at_partition : ℤ → (OwnedPartition → OwnedPartition) → Consumer C → Consumer C
  at_partition id f c = record c { partitions = modify_at id f c.partitions }

  abbrev pub with_cluster {κ} : {A : Type κ} → Consumer C → Result A × C → Result A × Consumer C
  with_cluster c (r, cluster) = (r, record c { cluster = cluster })

  -- A call of the cluster or of a broker.
  abbrev pub call_cluster {κ} : {A : Type κ} → Action C A → Action (Consumer C) A
  call_cluster action c = with_cluster c (action c.cluster)

  -- partitions_by_id
  abbrev pub by_id : Consumer C → Dict ℤ ℤ
  by_id c = map (λ p. (p.0, p.0)) c.partitions

abbrev pub behind : ℤ → Option (List ℤ) → Option (List ℤ)
behind lock none = none
behind lock (some locks) = some (lock ∷ locks)

abbrev pub release_one : ℤ → List ℤ → Option (List ℤ)
release_one id [] = none
release_one id (lock ∷ locks) =
    let rest = release_one id locks in if eq_ℤ lock id then some locks else behind lock rest

module _ {ℓ} {C : Type ℓ} where
  -- fetch_lock.acquire(True), which waits for other threads.
  abbrev pub acquire_lock : ℤ → Consumer C → Consumer C
  acquire_lock id c = record c { locks = id ∷ c.locks }

  abbrev pub released : Consumer C → Option (List ℤ) → Result (Unit {0}) × Consumer C
  released c none = (err runtime_error, c)
  released c (some locks) = (ok tt, record c { locks = locks })

  -- fetch_lock.release()
  unfoldable pub release_lock : ℤ → Action (Consumer C) (Unit {0})
  release_lock id c = released c (release_one id c.locks)

module _ {ℓ} {C : Type ℓ} (services : Services C) (settings : Settings) where
  open services use {update, get_offset_manager, leader}

  -- _setup_partitions_by_leader
  abbrev pub add_by_leader : C → Dict (Option ℕ) (List ℤ) → ℤ → Dict (Option ℕ) (List ℤ)
  add_by_leader cluster d id =
      insert (leader id cluster) (get_default [] (leader id cluster) d ++ id ∷ []) d

  unfoldable pub setup_partitions_by_leader : Consumer C → Consumer C
  setup_partitions_by_leader c = record c {
    partitions_by_leader = foldl (λ d p. add_by_leader c.cluster d p.0) [] c.partitions;
  }

  abbrev pub set_offset_manager : Option ℕ → Consumer C → Consumer C
  set_offset_manager manager c = record c { offset_manager = manager }

  abbrev pub discover : Option (List ℕ) → Action (Consumer C) (Unit {0})
  discover none = pure tt
  discover (some group) =
      call_cluster (get_offset_manager group) >>= λ manager. change (set_offset_manager manager)

  unfoldable pub discover_offset_manager : Action (Consumer C) (Unit {0})
  discover_offset_manager = discover settings.consumer_group

  -- _update
  unfoldable pub update_consumer : Action (Consumer C) (Unit {0})
  unfolding setup_partitions_by_leader discover_offset_manager
  update_consumer =
      call_cluster update >> change setup_partitions_by_leader >> discover_offset_manager

  -- _build_default_error_handlers, given `reset_offsets`.
  abbrev pub handle_out_of_range :
      {R : Type 0}
      → (List (ℤ × ℤ) → Action (Consumer C) (Unit {0}))
      → Handler (Part ℤ R) (Consumer C)
  handle_out_of_range reset parts = lift (owned_parts parts) >>= λ owned.
      reset (map (λ p. (p.0, settings.auto_offset_reset)) owned)

  unfoldable pub default_error_handlers :
      {R : Type 0}
      → (List (ℤ × ℤ) → Action (Consumer C) (Unit {0}))
      → Dict ℤ (Handler (Part ℤ R) (Consumer C))
  default_error_handlers reset =
      (pos 3, λ parts. raise (protocol (pos 3)))
      ∷ (pos 1, handle_out_of_range reset)
      ∷ (pos 6, λ parts. update_consumer)
      ∷ (pos 12, λ parts. raise (protocol (pos 12)))
      ∷ (pos 16, λ parts. update_consumer)
      ∷ []
