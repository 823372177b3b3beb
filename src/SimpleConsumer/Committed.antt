-- ===== src/SimpleConsumer/Committed.antt =====
-- commit_offsets leaves with the offset manager what is committed, however often it is turned away first.
use pykafka.Prelude.{
  refl, ap, ◌∙◌, ◌≡◌, ◌≢◌, ℕ, zero, suc, ℤ, pos, ◌<◌, arith, Bool, Option, none, some, List, [],
  ◌∷◌, ◌++◌, length, map, All, if◌then◌else◌,
}
use pykafka.Result.{Result, ok}
use pykafka.Action.{Action, pure, go_on, ◌>>=◌}
use pykafka.Dict.{Dict, lookup, int_eq, text_eq}
use pykafka.Dict.Keys.{IsKeyset}
use pykafka.ErrorHandlers.{Part, Handler, build_parts_by_error, handle_parts, with_success}
use pykafka.SimpleConsumer.{OwnedPartition, build_offset_commit_request}
use pykafka.SimpleConsumer.Consumer.{Consumer, Settings, by_id, default_error_handlers}
use pykafka.SimpleConsumer.Offsets.{commit_errored, commit_tries, commit_rest}
use pykafka.SimpleConsumer.Parts.{
  keys, keys-some, named, lookup-named, parts, map-built, build_parts-some,
}
use pykafka.SimpleConsumer.Manager.{
  Store, IsRetried, IsRetried-fails, committed_by, keeping, managed, regrouped,
  handle_parts-retried, commit_errored-same,
}
use pykafka.Protocol.OffsetCommit.{PartitionOffsetCommitRequest}
use pykafka.ErrorHandlers.{handle_partition_responses}
use pykafka.ErrorHandlers.{parts_of}
use pykafka.ErrorHandlers.{call_handler}

-- The partitions of a consumer: some, each once and under its id.
pub record IsKept (ps : Dict ℤ OwnedPartition) : Type 0 where
  pub some_ps : ps ≢ []
  pub keyset : IsKeyset ps
  pub by_ids : All (λ p. p.1.partition_id ≡ p.0) ps

abbrev pub requests : Dict ℤ OwnedPartition → List PartitionOffsetCommitRequest
requests ps = map (λ p. build_offset_commit_request (pos 0) p.1) ps

module _ (settings : Settings) (topic : List ℕ) (manager : ℕ)
    (reset : List (ℤ × ℤ) → Action (Consumer Store) (Unit {0})) (group : List ℕ) where
  abbrev tries : ℕ → List PartitionOffsetCommitRequest → Action (Consumer Store) (Unit {0})
  tries n reqs = commit_tries (keeping topic manager) settings reset n group reqs

  module _ (c : Consumer Store) (k : IsKept c.partitions) where
    -- The response groups all partitions under one error.
    grouped :
        (e : ℤ)
        → build_parts_by_error
            (λ z. z)
            ((some topic, map (λ r. (r.partition_id, e)) (requests c.partitions)) ∷ [])
            (some (by_id c))
          ≡ (e, parts (λ id. e) (keys c.partitions)) ∷ []
    unfolding build_offset_commit_request
    grouped e =
        ap (λ (a : Dict ℤ ℤ). build_parts_by_error (λ z. z) ((some topic, a) ∷ []) (some (by_id c)))
          (map-built (λ id. e) (λ r. r.partition_id) (build_offset_commit_request (pos 0))
            c.partitions (λ p. refl) k.by_ids)
        ∙ build_parts-some (λ z. z) e (λ id. e) (λ id. refl) (some topic) (named c.partitions)
            (keys c.partitions) (keys-some c.partitions k.some_ps) (lookup-named c.partitions)

    tries-rejected :
        (left : ℕ) (e : ℤ) (es : List ℤ) (stored : Dict ℤ ℤ)
        → IsRetried e
        → (leaders : Dict (Option ℕ) (List ℤ)) × (tries
              (suc left)
              (requests c.partitions)
              (managed manager (record { stored = stored; rejects = e ∷ es }) c)
            ≡ tries left
                (requests c.partitions)
                (managed manager (record { stored = stored; rejects = es }) (regrouped leaders c)))
    unfolding commit_tries handle_partition_responses parts_of
    tries-rejected left e es stored h =
        let store : Store = record { stored = stored; rejects = es } in
        let s : Consumer Store = managed manager store c in
        let retry = tries left in
        let handlers : Dict ℤ (Handler (Part ℤ ℤ) (Consumer Store)) =
          default_error_handlers (keeping topic manager) settings reset in
        let rest = commit_rest (keeping topic manager) settings reset retry in
        let group : Dict ℤ (List (Part ℤ ℤ)) = (e, parts (λ id. e) (keys c.partitions)) ∷ [] in
        let (leaders, handled) =
          handle_parts-retried settings topic manager reset none e
            (parts (λ id. e) (keys c.partitions)) store c h in
        let s' : Consumer Store = managed manager store (regrouped leaders c) in
        (
          leaders,
          ap
                (λ (d : Dict ℤ (List (Part ℤ ℤ))).
                  go_on (go_on (handle_parts (with_success none handlers) d s) (λ _. pure d)) rest)
                (grouped e)
              ∙ ap
                  (λ (x : Result (Unit {0}) × Consumer Store).
                    go_on (go_on x (λ _. pure group)) rest)
                  handled
              ∙ ap
                  (λ (b : Bool).
                    (if b
                        then pure tt
                        else (commit_errored (keeping topic manager) settings reset group
                            >>= retry))
                      s')
                  (IsRetried-fails e h)
              ∙ ap
                  (λ (x : Result (List PartitionOffsetCommitRequest) × Consumer Store).
                    go_on x retry)
                  (commit_errored-same settings topic manager reset e store (regrouped leaders c) h
                    k.keyset),
        )

    tries-accepted :
        (left : ℕ) (stored : Dict ℤ ℤ)
        → tries
            (suc left)
            (requests c.partitions)
            (managed manager (record { stored = stored; rejects = [] }) c)
          ≡ (
            ok tt,
            managed manager
                (record { stored = committed_by (requests c.partitions) ++ stored; rejects = [] })
                c,
          )
    unfolding commit_tries handle_partition_responses parts_of handle_parts with_success
        call_handler lookup default_error_handlers
    tries-accepted left stored =
        let store : Store = record {
          stored = committed_by (requests c.partitions) ++ stored;
          rejects = [];
        } in
        let s : Consumer Store = managed manager store c in
        let handlers : Dict ℤ (Handler (Part ℤ ℤ) (Consumer Store)) =
          default_error_handlers (keeping topic manager) settings reset in
        let rest = commit_rest (keeping topic manager) settings reset (tries left) in
        ap
          (λ (d : Dict ℤ (List (Part ℤ ℤ))).
            go_on (go_on (handle_parts (with_success none handlers) d s) (λ _. pure d)) rest)
          (grouped (pos 0))

  pub commit_tries-stores :
      (es : List ℤ) (n : ℕ) (stored : Dict ℤ ℤ) (c : Consumer Store)
      → IsKept c.partitions
      → All IsRetried es
      → length es < n
      → (leaders : Dict (Option ℕ) (List ℤ)) × (tries n
            (requests c.partitions)
            (managed manager (record { stored = stored; rejects = es }) c)
          ≡ (
            ok tt,
            managed manager
                (record { stored = committed_by (requests c.partitions) ++ stored; rejects = [] })
                (regrouped leaders c),
          ))
  commit_tries-stores es zero stored c k h less = absurd (omega (arith, less))
  commit_tries-stores [] (suc n) stored c k h less =
      (c.partitions_by_leader, tries-accepted c k n stored)
  commit_tries-stores (e ∷ es) (suc n) stored c k (r, h) less =
      let (leaders, step) = tries-rejected c k n e es stored r in
      let (leaders', rest) =
        commit_tries-stores es n stored (regrouped leaders c) k h (omega (arith, less)) in
      (leaders', step ∙ rest)
