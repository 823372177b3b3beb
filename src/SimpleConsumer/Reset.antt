-- ===== src/SimpleConsumer/Reset.antt =====
-- pykafka/simpleconsumer.py: SimpleConsumer.reset_offsets. Its error handlers call it again, in which the
-- interpreter bounds the depth.
use pykafka.Prelude.{
  ℕ, zero, suc, ℤ, pos, ◌-ℤ◌, Option, none, some, List, [], ◌∷◌, ◌++◌, map, foldl,
}
use pykafka.Result.{
  Result, ok, err, key_error, attribute_error, runtime_error, offset_request_failed,
}
use pykafka.Action.{Action, pure, raise, lift, gets, change, ◌>>=◌, ◌>>◌, for_each}
use pykafka.Dict.{Dict, lookup, insert, get_default, int_eq, text_eq}
use pykafka.ErrorHandlers.{Part, Handler}
use pykafka.SimpleConsumer.Pairs.{owned_offsets, pop_each, sorted_offsets, failed}
use pykafka.SimpleConsumer.{OwnedPartition, set_offset, flush, build_offset_request}
use pykafka.SimpleConsumer.Consumer.{
  Consumer, Services, Settings, Limits, owned_parts, at_partition, call_cluster, leader_eq,
  acquire_lock, release_lock,
}
use pykafka.SimpleConsumer.Offsets.{build_at, errored, log_errors, handle_responses, commit_offsets}
use pykafka.Protocol.Response.{Text}
use pykafka.Protocol.Offset.{PartitionOffsetRequest}

module _ {ℓ} {C : Type ℓ} where
  -- The semaphore of the partition stays as the flush leaves it.
  abbrev pub put_partition : ℤ → Result OwnedPartition → Action (Consumer C) (Unit {0})
  put_partition id (err e) = raise e
  put_partition id (ok p) = change (at_partition id (λ _. p))

  abbrev pub flush_known : ℤ → Option OwnedPartition → Action (Consumer C) (Unit {0})
  flush_known id none = raise attribute_error
  flush_known id (some p) = put_partition id (flush p)

  -- The lock is acquired and the queue emptied.
  unfoldable pub lock_and_flush : ℤ × ℤ → Action (Consumer C) (Unit {0})
  unfolding flush
  lock_and_flush (id, offset) c = flush_known id (lookup id c.partitions) (acquire_lock id c)

  -- _handle_success: the last offset before the one that is answered, or the one that was given.
  abbrev pub set_reset : ℤ → Dict ℤ ℤ → List ℤ → Action (Consumer C) (Unit {0})
  set_reset id offsets (z ∷ zs) = change (at_partition id (set_offset (z -ℤ pos 1)))
  set_reset id offsets [] =
      lift (elim (lookup id offsets) [ none ↦ err key_error | some z ↦ ok z ]) >>= λ z.
      change (at_partition id (set_offset z))

  abbrev pub reset_one : Dict ℤ ℤ → Part ℤ Limits → Action (Consumer C) (Unit {0})
  reset_one offsets (none, ([], error)) = raise key_error
  reset_one offsets (none, (z ∷ zs, error)) = raise attribute_error
  reset_one offsets (some id, (zs, error)) = set_reset id offsets zs >> release_lock id

  unfoldable pub handle_reset : Dict ℤ ℤ → Handler (Part ℤ Limits) (Consumer C)
  unfolding release_lock
  handle_reset offsets parts = for_each (reset_one offsets) parts

-- The requests for the partitions of a leader.
abbrev pub offset_requests : List (ℤ × ℤ) → Dict ℤ OwnedPartition → List PartitionOffsetRequest
offset_requests [] partitions = []
offset_requests ((id, offset) ∷ pairs) partitions =
    build_at (build_offset_request offset) (lookup id partitions) (offset_requests pairs partitions)

module _ {ℓ} {C : Type ℓ} (services : Services C) (settings : Settings) where
  open services use {leader, request_offset_limits}

  -- by_leader[partition.partition.leader].append((partition, offset))
  abbrev pub add_pair : C → Dict (Option ℕ) (List (ℤ × ℤ)) → ℤ × ℤ → Dict (Option ℕ) (List (ℤ × ℤ))
  add_pair cluster d pair =
      insert (leader pair.0 cluster) (get_default [] (leader pair.0 cluster) d ++ pair ∷ []) d

  abbrev pub pairs_by_leader : Dict ℤ ℤ → Consumer C → Dict (Option ℕ) (List (ℤ × ℤ))
  pairs_by_leader pairs c = foldl (λ d pair. add_pair c.cluster d pair) [] pairs

  -- broker.request_offset_limits(reqs)
  abbrev pub request_limits :
      Option ℕ → List PartitionOffsetRequest → Action (Consumer C) (Dict Text (Dict ℤ Limits))
  request_limits none reqs = raise attribute_error
  request_limits (some broker) reqs = call_cluster (request_offset_limits broker reqs)

  -- The locks of all partitions that errored.
  abbrev pub release_failed : Dict ℤ (List (Part ℤ Limits)) → Action (Consumer C) (Unit {0})
  release_failed parts_by_error = lift (owned_parts (errored parts_by_error)) >>= λ parts.
      for_each (λ p. release_lock p.0) parts

  -- The rest of a round, where not all partitions were reset.
  abbrev pub unless_all : Dict ℤ (List (Part ℤ Limits)) → Action (Consumer C) (Unit {0})
  unless_all [] = pure tt
  unless_all (p ∷ ps) = log_errors (p ∷ ps) >> release_failed (p ∷ ps)

  module _ (reset : List (ℤ × ℤ) → Action (Consumer C) (Unit {0})) where
    -- One round of the loop over the leaders, with the offsets that are left.
    unfoldable pub ask_leader : Option ℕ × List (ℤ × ℤ) → Dict ℤ ℤ → Action (Consumer C) (Dict ℤ ℤ)
    unfolding pop_each handle_reset
    ask_leader (broker, pairs) offsets = gets (λ c. offset_requests pairs c.partitions) >>= λ reqs.
        request_limits broker reqs >>= λ response.
        handle_responses services settings reset (λ r. r.1) (some (handle_reset offsets)) response
        >>= λ parts_by_error.
            lift (owned_parts (get_default [] (pos 0) parts_by_error)) >>= λ successful.
            lift (pop_each (map (λ p. p.0) successful) offsets) >>= λ offsets'.
            unless_all (failed parts_by_error) >> pure offsets'

    unfoldable pub ask_leaders :
        Dict (Option ℕ) (List (ℤ × ℤ)) → Dict ℤ ℤ → Action (Consumer C) (Dict ℤ ℤ)
    ask_leaders [] offsets = pure offsets
    ask_leaders (p ∷ by_leader) offsets =
        ask_leader p offsets >>= λ offsets'. ask_leaders by_leader offsets'

    -- `if not owned_partition_offsets: break`
    abbrev pub unless_empty :
        (Dict ℤ ℤ → Action (Consumer C) (Dict ℤ ℤ)) → Dict ℤ ℤ → Action (Consumer C) (Dict ℤ ℤ)
    unless_empty retry [] = pure []
    unless_empty retry (p ∷ offsets) = retry (p ∷ offsets)

    -- The loop, with the tries that are left.
    unfoldable pub reset_tries : ℕ → Dict ℤ ℤ → Action (Consumer C) (Dict ℤ ℤ)
    unfolding lock_and_flush ask_leaders
    reset_tries zero offsets = pure offsets
    reset_tries (suc left) offsets =
        for_each lock_and_flush (sorted_offsets offsets)
        >> gets (pairs_by_leader (sorted_offsets offsets))
        >>= λ by_leader.
            ask_leaders by_leader offsets >>= unless_empty (λ offsets'. reset_tries left offsets')

    abbrev pub fail_unless_empty : Dict ℤ ℤ → Action (Consumer C) (Unit {0})
    fail_unless_empty [] = pure tt
    fail_unless_empty (p ∷ offsets) = raise offset_request_failed

    -- `if self._consumer_group is not None: self.commit_offsets()`
    abbrev pub commit_if : Option (List ℕ) → Action (Consumer C) (Unit {0})
    commit_if none = pure tt
    commit_if (some group) = commit_offsets services settings reset

    unfoldable pub reset_pairs : List (ℤ × ℤ) → Action (Consumer C) (Unit {0})
    unfolding owned_offsets reset_tries
    reset_pairs partition_offsets =
        (λ c. (owned_offsets c.partitions partition_offsets [], c))
        >>= reset_tries settings.offsets_reset_max_retries
        >>= λ offsets. fail_unless_empty offsets >> commit_if settings.consumer_group

  -- The calls of itself in its error handlers, down to the depth that is left.
  unfoldable pub reset_at : ℕ → List (ℤ × ℤ) → Action (Consumer C) (Unit {0})
  unfolding reset_pairs
  reset_at zero partition_offsets = raise runtime_error
  reset_at (suc depth) partition_offsets =
      reset_pairs (λ pairs. reset_at depth pairs) partition_offsets

  -- By default all partitions, to what is configured.
  abbrev pub given_pairs : Option (List (ℤ × ℤ)) → Consumer C → List (ℤ × ℤ)
  given_pairs (some partition_offsets) c = partition_offsets
  given_pairs none c = map (λ p. (p.0, settings.auto_offset_reset)) c.partitions

  unfoldable pub reset_offsets : ℕ → Option (List (ℤ × ℤ)) → Action (Consumer C) (Unit {0})
  unfolding reset_at
  reset_offsets depth partition_offsets c = reset_at depth (given_pairs partition_offsets c) c
