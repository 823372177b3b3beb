-- ===== src/SimpleConsumer/Offsets.antt =====
-- pykafka/simpleconsumer.py: SimpleConsumer.commit_offsets and SimpleConsumer.fetch_offsets. `reset` is
-- `self.reset_offsets`, which error handlers call.
use pykafka.Prelude.{
  ℕ, zero, suc, ℤ, pos, negsuc, ◌-ℤ◌, Bool, false, Option, none, some, List, [], ◌∷◌, ◌++◌, map,
  eq_ℤ, if◌then◌else◌,
}
use pykafka.Result.{Result, ok, err, Error, exception, key_error, attribute_error}
use pykafka.Action.{Action, pure, raise, lift, gets, change, ◌>>=◌, ◌>>◌, for_each}
use pykafka.Dict.{Dict, lookup, get_default, int_eq, text_eq}
use pykafka.ErrorHandlers.{Part, Handler, handle_partition_responses}
use pykafka.SimpleConsumer.{
  OwnedPartition, set_offset, build_offset_commit_request, build_offset_fetch_request,
}
use pykafka.SimpleConsumer.Consumer.{
  Consumer, Services, Settings, Committed, is_lost, owned_parts, at_partition, call_cluster, by_id,
  update_consumer, default_error_handlers,
}
use pykafka.Protocol.Header.{codes}
use pykafka.Protocol.Response.{Text, is_error_code}
use pykafka.Protocol.OffsetCommit.{PartitionOffsetCommitRequest}
use pykafka.Protocol.OffsetFetch.{PartitionOffsetFetchRequest}

-- `len(parts_by_error) == 1 and 0 in parts_by_error`
abbrev pub only_success {ℓ} : {P : Type ℓ} → Dict ℤ P → Bool
only_success [] = false
only_success ((code, parts) ∷ []) = eq_ℤ code (pos 0)
only_success (p ∷ q ∷ rest) = false

-- What the errors are logged as: the ids of the partitions, under ERROR_CODES[err]. The value comes first.
abbrev pub logged_code : ℤ → Result (Unit {0})
logged_code code = if is_error_code code then ok tt else err key_error

abbrev pub logged {ℓ} : {O R : Type ℓ} → ℤ → Result (List (O × R)) → Result (Unit {0})
logged code (err e) = err e
logged code (ok parts) = logged_code code

abbrev pub log_errors {ℓ κ} :
    {S : Type κ} {O R : Type ℓ} → Dict ℤ (List (Part O R)) → Action S (Unit {0})
log_errors parts_by_error = for_each (λ p. lift (logged p.0 (owned_parts p.1))) parts_by_error

-- The parts that errored, group by group.
abbrev pub errored {ℓ} : {P : Type ℓ} → Dict ℤ (List P) → List P
errored [] = []
errored ((code, parts) ∷ rest) = (if eq_ℤ code (pos 0) then [] else parts) ++ errored rest

-- What is built of each of the OwnedPartitions that are named.
abbrev pub build_at {ℓ} :
    {R : Type ℓ} → (OwnedPartition → R) → Option OwnedPartition → List R → List R
build_at build none rest = rest
build_at build (some p) rest = build p ∷ rest

abbrev pub build_each {ℓ} :
    {R : Type ℓ} → (OwnedPartition → R) → List ℤ → Dict ℤ OwnedPartition → List R
build_each build [] partitions = []
build_each build (id ∷ ids) partitions =
    build_at build (lookup id partitions) (build_each build ids partitions)

-- The last try raises, an earlier one goes on.
abbrev pub unless_last {ℓ κ} : {S : Type ℓ} {A : Type κ} → ℕ → Error → Action S A → Action S A
unless_last zero e next = raise e
unless_last (suc left) e next = next

-- self._offset_manager.id
abbrev pub manager_of {ℓ} : {C : Type ℓ} → Action (Consumer C) ℕ
manager_of c = (elim c.offset_manager [ none ↦ err attribute_error | some m ↦ ok m ], c)

module _ {ℓ} {C : Type ℓ} (services : Services C) (settings : Settings)
    (reset : List (ℤ × ℤ) → Action (Consumer C) (Unit {0})) where
  open services use {commit_consumer_group_offsets, fetch_consumer_group_offsets, time}

  -- handle_partition_responses with the default handlers.
  abbrev pub handle_responses :
      {R : Type 0}
      → (R → ℤ)
      → Option (Handler (Part ℤ R) (Consumer C))
      → Dict Text (Dict ℤ R)
      → Action (Consumer C) (Dict ℤ (List (Part ℤ R)))
  handle_responses error success_handler response = gets by_id >>= λ ids.
      handle_partition_responses error (default_error_handlers services settings reset) none
        success_handler response (some ids)

  -- [p.build_offset_commit_request() for p in partitions]
  abbrev pub commit_requests : List ℤ → Consumer C → List PartitionOffsetCommitRequest
  commit_requests ids c = build_each (build_offset_commit_request (time c.cluster)) ids c.partitions

  -- What is left to commit of the partitions that are grouped by error.
  abbrev pub commit_errored :
      Dict ℤ (List (Part ℤ ℤ)) → Action (Consumer C) (List PartitionOffsetCommitRequest)
  commit_errored parts_by_error =
      log_errors parts_by_error >> lift (owned_parts (errored parts_by_error)) >>= λ parts.
      gets (commit_requests (map (λ p. p.0) parts))

  -- The rest of a round: break, or the next round with what errored.
  abbrev pub commit_rest :
      (List PartitionOffsetCommitRequest → Action (Consumer C) (Unit {0}))
      → Dict ℤ (List (Part ℤ ℤ))
      → Action (Consumer C) (Unit {0})
  commit_rest retry parts_by_error =
      if only_success parts_by_error then pure tt else (commit_errored parts_by_error >>= retry)

  abbrev pub commit_answered :
      (List PartitionOffsetCommitRequest → Action (Consumer C) (Unit {0}))
      → (Error → Action (Consumer C) (Unit {0}))
      → Result (Dict Text (Dict ℤ ℤ)) × Consumer C
      → Result (Unit {0}) × Consumer C
  commit_answered retry lost (err e, c) = if is_lost e then lost e c else (err e, c)
  commit_answered retry lost (ok response, c) =
      (handle_responses (λ e. e) none response >>= commit_rest retry) c

  -- self._offset_manager.commit_consumer_group_offsets(...)
  abbrev pub commit_to :
      List ℕ → List PartitionOffsetCommitRequest → Action (Consumer C) (Dict Text (Dict ℤ ℤ))
  commit_to group reqs = manager_of >>= λ manager.
      call_cluster (commit_consumer_group_offsets manager group (pos 1) (codes "pykafka") reqs)

  -- The loop, with the tries that are left.
  unfoldable pub commit_tries :
      ℕ → List ℕ → List PartitionOffsetCommitRequest → Action (Consumer C) (Unit {0})
  commit_tries zero group reqs c = (ok tt, c)
  commit_tries (suc left) group reqs c =
      commit_answered (λ reqs'. commit_tries left group reqs')
        (λ e.
          unless_last left e
            (update_consumer services settings >> (λ c'. commit_tries left group reqs c')))
        (commit_to group reqs c)

  abbrev pub commit_group : Option (List ℕ) → Action (Consumer C) (Unit {0})
  commit_group none = raise exception
  commit_group (some []) = raise exception
  commit_group (some (ch ∷ group)) = λ c.
      let reqs = map (λ p. build_offset_commit_request (time c.cluster) p.1) c.partitions in
      (manager_of >>= λ m. commit_tries settings.offsets_commit_max_retries (ch ∷ group) reqs) c

  unfoldable pub commit_offsets : Action (Consumer C) (Unit {0})
  unfolding commit_tries
  commit_offsets = commit_group settings.consumer_group

  -- One round of the loop of fetch_offsets' _handle_success: an offset is set, unless there is none.
  abbrev pub set_fetched : Part ℤ Committed → Action (Consumer C) (Unit {0})
  set_fetched (none, res) = raise attribute_error
  set_fetched (some id, (offset, (metadata, error))) =
      if eq_ℤ offset (negsuc 0)
      then pure tt
      else change (at_partition id (set_offset (offset -ℤ pos 1)))

  -- partition_offsets_to_reset
  abbrev pub to_reset : List (Part ℤ Committed) → List (ℤ × ℤ)
  to_reset [] = []
  to_reset ((none, res) ∷ parts) = to_reset parts
  to_reset ((some id, (offset, rest)) ∷ parts) =
      let others = to_reset parts in
      if eq_ℤ offset (negsuc 0) then (id, settings.auto_offset_reset) ∷ others else others

  abbrev pub reset_if_any : List (ℤ × ℤ) → Action (Consumer C) (Unit {0})
  reset_if_any [] = pure tt
  reset_if_any (p ∷ ps) = reset (p ∷ ps)

  unfoldable pub handle_fetched : Handler (Part ℤ Committed) (Consumer C)
  handle_fetched parts = for_each set_fetched parts >> reset_if_any (to_reset parts)

  -- (partition id, response)
  abbrev pub Fetched : Type 0
  Fetched = List (ℤ × Committed)

  -- self._offset_manager.fetch_consumer_group_offsets(...)
  abbrev pub fetch_from :
      List ℕ → List PartitionOffsetFetchRequest → Action (Consumer C) (Dict Text (Dict ℤ Committed))
  fetch_from group reqs =
      manager_of >>= λ manager. call_cluster (fetch_consumer_group_offsets manager group reqs)

  -- Of the errors only OffsetsLoadInProgress and NotCoordinatorForConsumer are tried again.
  abbrev pub fetch_errored :
      Dict ℤ (List (Part ℤ Committed)) → Action (Consumer C) (List PartitionOffsetFetchRequest)
  fetch_errored parts_by_error =
      log_errors parts_by_error
      >> lift (
          owned_parts
            (get_default [] (pos 14) parts_by_error ++ get_default [] (pos 16) parts_by_error))
      >>= λ parts c.
          (ok (build_each build_offset_fetch_request (map (λ p. p.0) parts) c.partitions), c)

  -- The rest of a round: the responses, or the next round.
  abbrev pub fetch_rest :
      (List PartitionOffsetFetchRequest → Fetched → Action (Consumer C) (Option Fetched))
      → Fetched
      → Dict ℤ (List (Part ℤ Committed))
      → Action (Consumer C) (Option Fetched)
  fetch_rest retry success_responses parts_by_error =
      lift (owned_parts (get_default [] (pos 0) parts_by_error)) >>= λ parts.
      let success_responses' = success_responses ++ parts in
      if only_success parts_by_error
      then pure (some success_responses')
      else (fetch_errored parts_by_error >>= λ reqs. retry reqs success_responses')

  -- The loop, with the tries that are left. None is returned where they are used up.
  unfoldable pub fetch_tries :
      ℕ → List ℕ → List PartitionOffsetFetchRequest → Fetched → Action (Consumer C) (Option Fetched)
  unfolding handle_fetched
  fetch_tries zero group reqs success_responses = pure none
  fetch_tries (suc left) group reqs success_responses = fetch_from group reqs >>= λ response.
      handle_responses (λ r. r.1.1) (some handle_fetched) response
      >>= fetch_rest (λ reqs' rs. fetch_tries left group reqs' rs) success_responses

  abbrev pub fetch_group : Option (List ℕ) → Action (Consumer C) (Option Fetched)
  fetch_group none = raise exception
  fetch_group (some []) = raise exception
  fetch_group (some (ch ∷ group)) = λ c.
      let reqs = map (λ p. build_offset_fetch_request p.1) c.partitions in
      (manager_of >>= λ m. fetch_tries settings.offsets_fetch_max_retries (ch ∷ group) reqs []) c

  unfoldable pub fetch_offsets : Action (Consumer C) (Option Fetched)
  unfolding fetch_tries
  fetch_offsets = fetch_group settings.consumer_group
