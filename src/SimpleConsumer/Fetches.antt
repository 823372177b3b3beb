-- ===== src/SimpleConsumer/Fetches.antt =====
-- fetch_offsets sets the offsets that are kept, however often it is turned away first.
use pykafka.Prelude.{
  refl, ap, ◌∙◌, ◌≡◌, ℕ, zero, suc, ℤ, pos, ◌<◌, arith, Bool, Option, some, List, [], ◌∷◌, length,
  map, All, if◌then◌else◌,
}
use pykafka.Result.{Result, ok}
use pykafka.Action.{Action, pure, lift, go_on, ◌>>=◌}
use pykafka.Dict.{Dict, lookup, get_default, int_eq, text_eq}
use pykafka.ErrorHandlers.{Part, Handler, build_parts_by_error, handle_parts, with_success}
use pykafka.SimpleConsumer.{build_offset_fetch_request}
use pykafka.SimpleConsumer.Consumer.{
  Consumer, Settings, Committed, by_id, default_error_handlers, owned_parts,
}
use pykafka.SimpleConsumer.Offsets.{handle_fetched, fetch_errored, fetch_tries, fetch_rest, Fetched}
use pykafka.SimpleConsumer.Parts.{
  keys, keys-some, named, lookup-named, answers, map-built, build_parts-some, owned_parts-parts,
}
use pykafka.SimpleConsumer.Manager.{
  Store, IsRetried, IsRetried-fails, fetched, keeping, managed, regrouped, handle_parts-retried,
}
use pykafka.SimpleConsumer.Committed.{IsKept}
use pykafka.SimpleConsumer.Fetching.{
  fetch_requests, IsStored, set_kept, got, handle_fetched-sets, fetch_errored-same,
}
use pykafka.Protocol.OffsetFetch.{PartitionOffsetFetchRequest}
use pykafka.ErrorHandlers.{handle_partition_responses}
use pykafka.ErrorHandlers.{parts_of}
use pykafka.ErrorHandlers.{call_handler}
use pykafka.Dict.{insert}

module _ (settings : Settings) (topic : List ℕ) (manager : ℕ)
    (reset : List (ℤ × ℤ) → Action (Consumer Store) (Unit {0})) (group : List ℕ)
    (stored : Dict ℤ ℤ) where
  abbrev tries :
      ℕ
      → List PartitionOffsetFetchRequest
      → Fetched (keeping topic manager) settings reset
      → Action (Consumer Store) (Option (List (ℤ × Committed)))
  tries n reqs acc = fetch_tries (keeping topic manager) settings reset n group reqs acc

  module _ (c : Consumer Store) (k : IsKept c.partitions) where
    grouped :
        (e : ℤ)
        → build_parts_by_error
            (λ (r : Committed). r.1.1)
            ((
              some topic,
              map
                  (λ r. (r.partition_id, fetched topic manager stored e r.partition_id))
                  (fetch_requests c.partitions),
            )
              ∷ [])
            (some (by_id c))
          ≡ (e, got settings topic manager reset stored e (keys c.partitions)) ∷ []
    unfolding build_offset_fetch_request
    grouped e =
        ap
          (λ (a : Dict ℤ Committed).
            build_parts_by_error (λ (r : Committed). r.1.1) ((some topic, a) ∷ []) (some (by_id c)))
          (map-built (fetched topic manager stored e) (λ r. r.partition_id)
            build_offset_fetch_request c.partitions (λ p. refl) k.by_ids)
        ∙ build_parts-some (λ (r : Committed). r.1.1) e (fetched topic manager stored e)
            (λ id. refl) (some topic) (named c.partitions) (keys c.partitions)
            (keys-some c.partitions k.some_ps) (lookup-named c.partitions)

    tries-rejected :
        (left : ℕ) (e : ℤ) (es : List ℤ)
        → IsRetried e
        → (leaders : Dict (Option ℕ) (List ℤ)) × (tries
              (suc left)
              (fetch_requests c.partitions)
              []
              (managed manager (record { stored = stored; rejects = e ∷ es }) c)
            ≡ tries left
                (fetch_requests c.partitions)
                []
                (managed manager (record { stored = stored; rejects = es }) (regrouped leaders c)))
    unfolding fetch_tries handle_partition_responses parts_of get_default
    tries-rejected left e es h =
        let store : Store = record { stored = stored; rejects = es } in
        let s : Consumer Store = managed manager store c in
        let retry = tries left in
        let handlers : Dict ℤ (Handler (Part ℤ Committed) (Consumer Store)) =
          default_error_handlers (keeping topic manager) settings reset in
        let success = some (handle_fetched (keeping topic manager) settings reset) in
        let rest = fetch_rest (keeping topic manager) settings reset retry [] in
        let P = got settings topic manager reset stored e (keys c.partitions) in
        let group : Dict ℤ (List (Part ℤ Committed)) = (e, P) ∷ [] in
        let (leaders, handled) =
          handle_parts-retried settings topic manager reset success e P store c h in
        let s' : Consumer Store = managed manager store (regrouped leaders c) in
        (
          leaders,
          ap
                (λ (d : Dict ℤ (List (Part ℤ Committed))).
                  go_on (go_on (handle_parts (with_success success handlers) d s) (λ _. pure d))
                    rest)
                (grouped e)
              ∙ ap
                  (λ (x : Result (Unit {0}) × Consumer Store).
                    go_on (go_on x (λ _. pure group)) rest)
                  handled
              ∙ ap
                  (λ (b : Bool). go_on (lift (owned_parts (if b then P else [])) s') (λ parts.
                    (if b
                      then pure (some parts)
                      else (fetch_errored (keeping topic manager) settings reset group >>= λ reqs.
                          retry reqs parts))))
                  (IsRetried-fails e h)
              ∙ ap
                  (λ (x : Result (List PartitionOffsetFetchRequest) × Consumer Store).
                    go_on x (λ reqs. retry reqs []))
                  (fetch_errored-same settings topic manager reset stored e s' h k.keyset),
        )

    tries-accepted :
        (left : ℕ)
        → All (IsStored stored) (keys c.partitions)
        → tries
            (suc left)
            (fetch_requests c.partitions)
            []
            (managed manager (record { stored = stored; rejects = [] }) c)
          ≡ (
            ok (some (answers (fetched topic manager stored (pos 0)) (keys c.partitions))),
            managed manager
                (record { stored = stored; rejects = [] })
                (record c { partitions = map (λ p. (p.0, set_kept stored p.0 p.1)) c.partitions }),
          )
    unfolding fetch_tries handle_partition_responses parts_of handle_parts with_success call_handler
        lookup insert default_error_handlers get_default
    tries-accepted left h =
        let store : Store = record { stored = stored; rejects = [] } in
        let s : Consumer Store = managed manager store c in
        let handlers : Dict ℤ (Handler (Part ℤ Committed) (Consumer Store)) =
          default_error_handlers (keeping topic manager) settings reset in
        let success = some (handle_fetched (keeping topic manager) settings reset) in
        let rest = fetch_rest (keeping topic manager) settings reset (tries left) [] in
        let P = got settings topic manager reset stored (pos 0) (keys c.partitions) in
        let group : Dict ℤ (List (Part ℤ Committed)) = (pos 0, P) ∷ [] in
        let s' : Consumer Store = record s {
          partitions = map (λ p. (p.0, set_kept stored p.0 p.1)) c.partitions;
        } in
        ap
          (λ (d : Dict ℤ (List (Part ℤ Committed))).
            go_on (go_on (handle_parts (with_success success handlers) d s) (λ _. pure d)) rest)
          (grouped (pos 0))
        ∙ ap
            (λ (x : Result (Unit {0}) × Consumer Store).
              go_on (go_on (go_on x (λ _. pure tt)) (λ _. pure group)) rest)
            (handle_fetched-sets settings topic manager reset stored (pos 0) s k.keyset h)
        ∙ ap (λ (r : Result (List (ℤ × Committed))). go_on (r, s') (λ parts. pure (some parts)))
            (owned_parts-parts (fetched topic manager stored (pos 0)) (keys c.partitions))

  pub fetch_tries-sets :
      (es : List ℤ) (n : ℕ) (c : Consumer Store)
      → IsKept c.partitions
      → All (IsStored stored) (keys c.partitions)
      → All IsRetried es
      → length es < n
      → (leaders : Dict (Option ℕ) (List ℤ)) × (tries n
            (fetch_requests c.partitions)
            []
            (managed manager (record { stored = stored; rejects = es }) c)
          ≡ (
            ok (some (answers (fetched topic manager stored (pos 0)) (keys c.partitions))),
            managed manager
                (record { stored = stored; rejects = [] })
                (regrouped leaders (record c {
                  partitions = map (λ p. (p.0, set_kept stored p.0 p.1)) c.partitions;
                })),
          ))
  fetch_tries-sets es zero c k s h less = absurd (omega (arith, less))
  fetch_tries-sets [] (suc n) c k s h less = (c.partitions_by_leader, tries-accepted c k n s)
  fetch_tries-sets (e ∷ es) (suc n) c k s (r, h) less =
      let (leaders, step) = tries-rejected c k n e es r in
      let (leaders', rest) =
        fetch_tries-sets es n (regrouped leaders c) k s h (omega (arith, less)) in
      (leaders', step ∙ rest)
