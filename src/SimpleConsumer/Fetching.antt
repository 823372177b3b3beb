-- ===== src/SimpleConsumer/Fetching.antt =====
-- One round of fetch_offsets, where the offset manager keeps offsets: what is set, and what is asked again.
use pykafka.Prelude.{
  refl, ap, ◌∙◌, ◌≡◌, ◌≢◌, ℕ, ℤ, pos, negsuc, ◌-ℤ◌, Bool, Bool-cases, false, List, [], ◌∷◌, ◌++◌,
  append-nil, map, All, eq_ℤ, if◌then◌else◌, inl, inr,
}
use pykafka.Result.{Result, ok, err, key_error}
use pykafka.Action.{Action, pure, lift, go_on, for_each}
use pykafka.Dict.{Dict, lookup, get_default, modify_at, int_eq, text_eq}
use pykafka.Dict.Keys.{IsKeyset}
use pykafka.Dict.Laws.{beq_refl}
use pykafka.ErrorHandlers.{Part}
use pykafka.SimpleConsumer.{OwnedPartition, set_offset, build_offset_fetch_request}
use pykafka.SimpleConsumer.Consumer.{Consumer, Settings, Committed, owned_parts}
use pykafka.SimpleConsumer.Offsets.{
  set_fetched, to_reset, handle_fetched, fetch_errored, logged, build_each,
}
use pykafka.SimpleConsumer.Parts.{
  keys, parts, answers, owned_parts-parts, keys-answers, build_each-keys,
}
use pykafka.SimpleConsumer.Manager.{Store, IsRetried, IsRetried-known, kept, fetched, keeping}
use pykafka.Protocol.OffsetFetch.{PartitionOffsetFetchRequest}
use pykafka.Prelude.{eq_ℤ_iff}
use pykafka.SimpleConsumer.Offsets.{reset_if_any}
use pykafka.SimpleConsumer.Consumer.{at_partition}
use pykafka.Action.{change}

abbrev pub fetch_requests : Dict ℤ OwnedPartition → List PartitionOffsetFetchRequest
fetch_requests ps = map (λ p. build_offset_fetch_request p.1) ps

-- An offset that is kept.
abbrev pub IsStored : Dict ℤ ℤ → ℤ → Type 0
IsStored stored id = kept (lookup id stored) ≢ negsuc 0

stored-test :
    (stored : Dict ℤ ℤ) (id : ℤ)
    → IsStored stored id
    → eq_ℤ (kept (lookup id stored)) (negsuc 0) ≡ false
stored-test stored id h = elim (Bool-cases (eq_ℤ (kept (lookup id stored)) (negsuc 0))) [
  | inl e ↦ absurd (h ((eq_ℤ_iff (kept (lookup id stored)) (negsuc 0)).0 e))
  | inr e ↦ e
]

-- The partitions at the offsets that are kept.
abbrev pub set_kept : Dict ℤ ℤ → ℤ → OwnedPartition → OwnedPartition
set_kept stored id p = set_offset (kept (lookup id stored) -ℤ pos 1) p

abbrev set_all : Dict ℤ ℤ → List ℤ → Dict ℤ OwnedPartition → Dict ℤ OwnedPartition
set_all stored [] d = d
set_all stored (id ∷ ids) d = set_all stored ids (modify_at id (set_kept stored id) d)

set_all-apart :
    (stored : Dict ℤ ℤ) (k : ℤ) (v : OwnedPartition) (d xs : Dict ℤ OwnedPartition)
    → All (λ p. k ≢ p.0) xs
    → set_all stored (keys xs) ((k, v) ∷ d) ≡ (k, v) ∷ set_all stored (keys xs) d
unfolding modify_at
set_all-apart stored k v d [] a = refl
set_all-apart stored k v d ((j, w) ∷ xs) (ne, a) = elim (Bool-cases (eq_ℤ k j)) [
  | inl e ↦ absurd (ne ((eq_ℤ_iff k j).0 e))
  | inr e ↦
      ap
        (λ (b : Bool).
          set_all stored (keys xs) (
            if b then (k, set_kept stored j v) ∷ d else (k, v) ∷ modify_at j (set_kept stored j) d))
        e
      ∙ set_all-apart stored k v (modify_at j (set_kept stored j) d) xs a
]

set_all-keys :
    (stored : Dict ℤ ℤ) (d : Dict ℤ OwnedPartition)
    → IsKeyset d
    → set_all stored (keys d) d ≡ map (λ p. (p.0, set_kept stored p.0 p.1)) d
unfolding modify_at
set_all-keys stored [] h = refl
set_all-keys stored ((k, v) ∷ d) (a, h) =
    ap
      (λ (b : Bool).
        set_all stored (keys d)
          (if b then (k, set_kept stored k v) ∷ d else (k, v) ∷ modify_at k (set_kept stored k) d))
      (beq_refl k)
    ∙ set_all-apart stored k (set_kept stored k v) d d a
    ∙ ap (λ (l : Dict ℤ OwnedPartition). (k, set_kept stored k v) ∷ l) (set_all-keys stored d h)

module _ (settings : Settings) (topic : List ℕ) (manager : ℕ)
    (reset : List (ℤ × ℤ) → Action (Consumer Store) (Unit {0})) (stored : Dict ℤ ℤ) where
  abbrev pub got : ℤ → List ℤ → List (Part ℤ Committed)
  got e ids = parts (fetched topic manager stored e) ids

  -- Offsets are set one partition after another.
  for_each-set_fetched :
      (e : ℤ) (ids : List ℤ) (c : Consumer Store)
      → All (IsStored stored) ids
      → for_each (set_fetched (keeping topic manager) settings reset) (got e ids) c
        ≡ (ok tt, record c { partitions = set_all stored ids c.partitions })
  for_each-set_fetched e [] c h = refl
  for_each-set_fetched e (id ∷ ids) c (x, h) =
      let next : Consumer Store = at_partition id (set_kept stored id) c in
      ap
        (λ (b : Bool).
          go_on ((if b then pure tt else change (at_partition id (set_kept stored id))) c)
            (λ _. for_each (set_fetched (keeping topic manager) settings reset) (got e ids)))
        (stored-test stored id x)
      ∙ for_each-set_fetched e ids next h

  -- None is to be reset.
  to_reset-none :
      (e : ℤ) (ids : List ℤ)
      → All (IsStored stored) ids
      → to_reset (keeping topic manager) settings reset (got e ids) ≡ []
  to_reset-none e [] h = refl
  to_reset-none e (id ∷ ids) (x, h) =
      ap
        (λ (b : Bool).
          if b
          then (id, settings.auto_offset_reset)
            ∷ to_reset (keeping topic manager) settings reset (got e ids)
          else to_reset (keeping topic manager) settings reset (got e ids))
        (stored-test stored id x)
      ∙ to_reset-none e ids h

  pub handle_fetched-sets :
      (e : ℤ) (c : Consumer Store)
      → IsKeyset c.partitions
      → All (IsStored stored) (keys c.partitions)
      → handle_fetched (keeping topic manager) settings reset (got e (keys c.partitions)) c
        ≡ (ok tt, record c { partitions = map (λ p. (p.0, set_kept stored p.0 p.1)) c.partitions })
  unfolding handle_fetched
  handle_fetched-sets e c k h =
      let resets = reset_if_any (keeping topic manager) settings reset in
      ap
        (λ (x : Result (Unit {0}) × Consumer Store). go_on x (λ _.
          resets (to_reset (keeping topic manager) settings reset (got e (keys c.partitions)))))
        (for_each-set_fetched e (keys c.partitions) c h)
      ∙ ap
          (λ (l : List (ℤ × ℤ)).
            resets l (record c { partitions = set_all stored (keys c.partitions) c.partitions }))
          (to_reset-none e (keys c.partitions) h)
      ∙ ap (λ (d : Dict ℤ OwnedPartition). (ok tt, record c { partitions = d }))
          (set_all-keys stored c.partitions k)

  -- Of the errors that are tried again, the whole group is asked for.
  asked_again :
      {P : Type 0} (e : ℤ) (group : List P)
      → IsRetried e
      → get_default [] (pos 14) ((e, group) ∷ []) ++ get_default [] (pos 16) ((e, group) ∷ [])
        ≡ group
  unfolding get_default
  asked_again e group (inl p) =
      ap
        (λ (z : ℤ).
          get_default [] (pos 14) ((z, group) ∷ []) ++ get_default [] (pos 16) ((z, group) ∷ []))
        p
      ∙ append-nil group
  asked_again e group (inr p) =
      ap
        (λ (z : ℤ).
          get_default [] (pos 14) ((z, group) ∷ []) ++ get_default [] (pos 16) ((z, group) ∷ []))
        p

  pub fetch_errored-same :
      (e : ℤ) (c : Consumer Store)
      → IsRetried e
      → IsKeyset c.partitions
      → fetch_errored (keeping topic manager) settings reset ((e, got e (keys c.partitions)) ∷ []) c
        ≡ (ok (fetch_requests c.partitions), c)
  fetch_errored-same e c h keyset =
      let ids : List ℤ = keys c.partitions in
      let P : List (Part ℤ Committed) = got e ids in
      let A : List (ℤ × Committed) = answers (fetched topic manager stored e) ids in
      let again : List (Part ℤ Committed) =
        get_default [] (pos 14) ((e, P) ∷ []) ++ get_default [] (pos 16) ((e, P) ∷ []) in
      let build : List ℤ → Result (List PartitionOffsetFetchRequest) × Consumer Store =
        λ l. (ok (build_each build_offset_fetch_request l c.partitions), c) in
      let end : Result (List (ℤ × Committed))
          → Result (List PartitionOffsetFetchRequest) × Consumer Store =
        λ r.
          go_on (r, c)
            (λ xs s.
              (ok (build_each build_offset_fetch_request (map (λ p. p.0) xs) s.partitions), s)) in
      let logs : Result (Unit {0}) → Result (List PartitionOffsetFetchRequest) × Consumer Store =
        λ r. go_on (go_on (go_on (r, c) (λ _. pure tt)) (λ _. lift (owned_parts again))) (λ xs s.
          (ok (build_each build_offset_fetch_request (map (λ p. p.0) xs) s.partitions), s)) in
      ap (λ (r : Result (List (ℤ × Committed))). logs (logged e r))
        (owned_parts-parts (fetched topic manager stored e) ids)
      ∙ ap (λ (b : Bool). logs (if b then ok tt else err key_error)) (IsRetried-known e h)
      ∙ ap (λ (l : List (Part ℤ Committed)). end (owned_parts l)) (asked_again e P h)
      ∙ ap end (owned_parts-parts (fetched topic manager stored e) ids)
      ∙ ap build (keys-answers (fetched topic manager stored e) ids)
      ∙ ap (λ (l : List PartitionOffsetFetchRequest). (ok l, c))
          (build_each-keys build_offset_fetch_request c.partitions keyset)
