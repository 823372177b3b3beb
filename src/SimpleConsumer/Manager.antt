-- ===== src/SimpleConsumer/Manager.antt =====
-- An offset manager that keeps the offsets that are committed, and what commit_offsets leaves with it.
use pykafka.Prelude.{
  refl, ap, ◌∙◌, ◌≡◌, ℕ, ℤ, pos, negsuc, inl, inr, Bool, true, false, Option, none, some, List, [],
  ◌∷◌, ◌++◌, append-nil, map, eq_ℤ, if◌then◌else◌,
}
use pykafka.Result.{Result, ok, err, exception}
use pykafka.Action.{Action, pure, raise, lift, go_on, gets}
use pykafka.Dict.{Dict, lookup, insert, int_eq, text_eq}
use pykafka.Dict.Keys.{IsKeyset}
use pykafka.ErrorHandlers.{Part}
use pykafka.SimpleConsumer.{build_offset_commit_request}
use pykafka.SimpleConsumer.Consumer.{Consumer, Services, Settings, Committed, owned_parts}
use pykafka.SimpleConsumer.Offsets.{errored, logged, commit_errored}
use pykafka.SimpleConsumer.Parts.{
  keys-answers, keys, parts, answers, owned_parts-parts, build_each-keys,
}
use pykafka.Protocol.Response.{Text, is_error_code}
use pykafka.Protocol.OffsetCommit.{PartitionOffsetCommitRequest}
use pykafka.Protocol.OffsetFetch.{PartitionOffsetFetchRequest}
use pykafka.Prelude.{◌⊎◌}
use pykafka.SimpleConsumer.Offsets.{commit_requests}
use pykafka.ErrorHandlers.{handle_parts}
use pykafka.Result.{key_error}
use pykafka.ErrorHandlers.{with_success}
use pykafka.SimpleConsumer.Consumer.{default_error_handlers}
use pykafka.ErrorHandlers.{call_handler}
use pykafka.ErrorHandlers.{Handler}
use pykafka.SimpleConsumer.Consumer.{update_consumer}
use pykafka.SimpleConsumer.Consumer.{discover}
use pykafka.SimpleConsumer.Consumer.{setup_partitions_by_leader}
use pykafka.SimpleConsumer.Consumer.{discover_offset_manager}
use pykafka.Prelude.{foldl}
use pykafka.SimpleConsumer.Consumer.{add_by_leader}

-- The offsets that are kept, the last ones first, and the errors with which the next requests are answered,
-- for all of their partitions.
pub record Store : Type 0 where
  pub stored : Dict ℤ ℤ
  pub rejects : List ℤ

-- OffsetsLoadInProgress or NotCoordinatorForConsumer
abbrev pub IsRetried : ℤ → Type 0
IsRetried e = (e ≡ pos 14) ⊎ (e ≡ pos 16)

abbrev pub kept : Option ℤ → ℤ
kept none = negsuc 0
kept (some offset) = offset

abbrev pub committed_by : List PartitionOffsetCommitRequest → Dict ℤ ℤ
committed_by reqs = map (λ r. (r.partition_id, r.offset)) reqs

module _ (topic : List ℕ) (manager : ℕ) where
  abbrev pub answer_commit :
      List ℤ → List PartitionOffsetCommitRequest → Action Store (Dict Text (Dict ℤ ℤ))
  answer_commit [] reqs s = (
    ok ((some topic, map (λ r. (r.partition_id, pos 0)) reqs) ∷ []),
    record s { stored = committed_by reqs ++ s.stored },
  )
  answer_commit (e ∷ es) reqs s =
      (ok ((some topic, map (λ r. (r.partition_id, e)) reqs) ∷ []), record s { rejects = es })

  abbrev pub fetched : Dict ℤ ℤ → ℤ → ℤ → Committed
  fetched stored e id = (kept (lookup id stored), (some [], e))

  abbrev pub answer_fetch :
      List ℤ → List PartitionOffsetFetchRequest → Action Store (Dict Text (Dict ℤ Committed))
  answer_fetch [] reqs s = (
    ok (
        (some topic, map (λ r. (r.partition_id, fetched s.stored (pos 0) r.partition_id)) reqs)
        ∷ []),
    s,
  )
  answer_fetch (e ∷ es) reqs s = (
    ok ((some topic, map (λ r. (r.partition_id, fetched s.stored e r.partition_id)) reqs) ∷ []),
    record s { rejects = es },
  )

  abbrev pub keeping : Services Store
  keeping = record {
    update = pure tt;
    get_offset_manager = λ group. pure (some manager);
    leader = λ id s. none;
    id = λ broker s. pos broker;
    commit_consumer_group_offsets =
        λ m group generation consumer reqs s. answer_commit s.rejects reqs s;
    fetch_consumer_group_offsets = λ m group reqs s. answer_fetch s.rejects reqs s;
    request_offset_limits = λ broker reqs. raise exception;
    fetch_messages = λ broker reqs timeout bytes. raise exception;
    time = λ s. pos 0;
  }

-- A consumer whose offset manager is known, and its cluster.
abbrev pub managed : ℕ → Store → Consumer Store → Consumer Store
managed manager store c = record c { cluster = store; offset_manager = some manager }

-- The same, but for the grouping by leaders.
abbrev pub regrouped : Dict (Option ℕ) (List ℤ) → Consumer Store → Consumer Store
regrouped leaders c = record c { partitions_by_leader = leaders }

pub IsRetried-known : (e : ℤ) → IsRetried e → is_error_code e ≡ true
IsRetried-known e (inl p) = ap is_error_code p
IsRetried-known e (inr p) = ap is_error_code p

pub IsRetried-fails : (e : ℤ) → IsRetried e → eq_ℤ e (pos 0) ≡ false
IsRetried-fails e (inl p) = ap (λ (z : ℤ). eq_ℤ z (pos 0)) p
IsRetried-fails e (inr p) = ap (λ (z : ℤ). eq_ℤ z (pos 0)) p

module _ (settings : Settings) (topic : List ℕ) (manager : ℕ)
    (reset : List (ℤ × ℤ) → Action (Consumer Store) (Unit {0})) where
  discover-managed :
      (group : Option (List ℕ)) (store : Store) (c : Consumer Store)
      → discover (keeping topic manager) settings group (managed manager store c)
        ≡ (ok tt, managed manager store c)
  discover-managed none store c = refl
  discover-managed (some group) store c = refl

  update_consumer-managed :
      (store : Store) (c : Consumer Store)
      → (leaders : Dict (Option ℕ) (List ℤ)) × (update_consumer
            (keeping topic manager)
            settings
            (managed manager store c)
          ≡ (ok tt, managed manager store (regrouped leaders c)))
  unfolding update_consumer setup_partitions_by_leader discover_offset_manager
  update_consumer-managed store c = (
    foldl (λ d p. add_by_leader (keeping topic manager) settings store d p.0) [] c.partitions,
    discover-managed settings.consumer_group store (regrouped _ c),
  )

  -- The handlers of these two errors at most update the cluster.
  pub handle_parts-retried :
      {R : Type 0} (success : Option (Handler (Part ℤ R) (Consumer Store))) (e : ℤ)
      (group : List (Part ℤ R)) (store : Store) (c : Consumer Store)
      → IsRetried e
      → (leaders : Dict (Option ℕ) (List ℤ)) × (handle_parts
            (with_success success (default_error_handlers (keeping topic manager) settings reset))
            ((e, group) ∷ [])
            (managed manager store c)
          ≡ (ok tt, managed manager store (regrouped leaders c)))
  unfolding handle_parts with_success default_error_handlers lookup insert call_handler
  handle_parts-retried {R = R} success e group store c h =
      let handlers : Dict ℤ (Handler (Part ℤ R) (Consumer Store)) =
        default_error_handlers (keeping topic manager) settings reset in
      let s : Consumer Store = managed manager store c in
      let run : ℤ → Result (Unit {0}) × Consumer Store =
        λ z. handle_parts (with_success success handlers) ((z, group) ∷ []) s in
      elim h [
        | inl p ↦ (
          c.partitions_by_leader,
          ap run p
              ∙ elim success
                  as (λ x.
                    handle_parts (with_success x handlers) ((pos 14, group) ∷ []) s ≡ (ok tt, s)) [
                      | none ↦ refl
                      | some f ↦ refl
                    ],
        )
        | inr p ↦
            let (leaders, e') = update_consumer-managed store c in
            (
              leaders,
              ap run p
                  ∙ elim success
                      as (λ x.
                        handle_parts (with_success x handlers) ((pos 16, group) ∷ []) s
                        ≡ go_on (update_consumer (keeping topic manager) settings s)
                            (λ _. pure tt)) [ none ↦ refl | some f ↦ refl ]
                  ∙ ap (λ (x : Result (Unit {0}) × Consumer Store). go_on x (λ _. pure tt)) e',
            )
      ]

  -- What is left of a group that errored is asked again.
  pub commit_errored-same :
      (e : ℤ) (store : Store) (c : Consumer Store)
      → IsRetried e
      → IsKeyset c.partitions
      → commit_errored
          (keeping topic manager)
          settings
          reset
          ((e, parts (λ id. e) (keys c.partitions)) ∷ [])
          (managed manager store c)
        ≡ (
          ok (map (λ p. build_offset_commit_request (pos 0) p.1) c.partitions),
          managed manager store c,
        )
  commit_errored-same e store c h keyset =
      let ids : List ℤ = keys c.partitions in
      let P : List (Part ℤ ℤ) = parts (λ id. e) ids in
      let A : List (ℤ × ℤ) = answers (λ id. e) ids in
      let s : Consumer Store = managed manager store c in
      let build = commit_requests (keeping topic manager) settings reset in
      let end : Result (List (ℤ × ℤ))
          → Result (List PartitionOffsetCommitRequest) × Consumer Store =
        λ r. go_on (r, s) (λ xs. gets (build (map (λ p. p.0) xs))) in
      let logs : Result (Unit {0})
          → Result (List (ℤ × ℤ))
          → Result (List PartitionOffsetCommitRequest) × Consumer Store =
        λ r owned.
          go_on (go_on (go_on (r, s) (λ _. pure tt)) (λ _. lift owned))
            (λ xs. gets (build (map (λ p. p.0) xs))) in
      ap (λ (r : Result (List (ℤ × ℤ))). logs (logged e r) (owned_parts (errored ((e, P) ∷ []))))
        (owned_parts-parts (λ id. e) ids)
      ∙ ap
          (λ (b : Bool).
            logs (if b then ok tt else err key_error) (owned_parts (errored ((e, P) ∷ []))))
          (IsRetried-known e h)
      ∙ ap (λ (b : Bool). end (owned_parts ((if b then [] else P) ++ []))) (IsRetried-fails e h)
      ∙ ap (λ (l : List (Part ℤ ℤ)). end (owned_parts l)) (append-nil P)
      ∙ ap end (owned_parts-parts (λ id. e) ids)
      ∙ ap (λ (l : List ℤ). (ok (build l s), s)) (keys-answers (λ id. e) ids)
      ∙ ap (λ (l : List PartitionOffsetCommitRequest). (ok l, s))
          (build_each-keys (build_offset_commit_request (pos 0)) c.partitions keyset)
