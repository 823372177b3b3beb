-- ===== src/SimpleConsumer/Parts.antt =====
-- Responses in which all partitions have the same error, and the OwnedPartitions that they name.
use pykafka.Prelude.{
  refl, sym, ap, ◌∙◌, ◌≡◌, ◌≢◌, ℤ, inl, inr, Bool-cases, true, Option, some, List, [], ◌∷◌, ◌++◌,
  append_assoc, map, All, eq_ℤ, eq_ℤ_iff,
}
use pykafka.Result.{ok}
use pykafka.Dict.{Dict, lookup, insert, get_default, int_eq, text_eq}
use pykafka.Dict.Laws.{lookup-cons, lookup-cons_self, beq_refl, insert-cons_eq, get_default-cons_eq}
use pykafka.Dict.Keys.{IsKeyset}
use pykafka.ErrorHandlers.{Part, owned_partition, add_part, add_partitions, build_parts_by_error}
use pykafka.SimpleConsumer.{OwnedPartition}
use pykafka.SimpleConsumer.Consumer.{owned_parts}
use pykafka.SimpleConsumer.Offsets.{build_at, build_each}
use pykafka.Protocol.Response.{Text}
use pykafka.SimpleConsumer.Consumer.{first_owned}
use pykafka.Prelude.{append-nil}
use pykafka.Result.{Result, ◌>>=◌, err}
use pykafka.SimpleConsumer.{flush, drain, set_offset}
use pykafka.Prelude.{ℕ}

abbrev pub keys {ℓ} : {V : Type ℓ} → Dict ℤ V → List ℤ
keys d = map (λ p. p.0) d

abbrev pub named {ℓ} : {V : Type ℓ} → Dict ℤ V → Dict ℤ ℤ
named d = map (λ p. (p.0, p.0)) d

module _ (k : ℤ) (ds : Dict ℤ ℤ) where
  keeps-named :
      (ids : List ℤ)
      → All (λ id. lookup id ds ≡ some id) ids
      → All (λ id. lookup id ((k, k) ∷ ds) ≡ some id) ids
  keeps-named [] h = tt
  keeps-named (id ∷ ids) (x, h) = (
    lookup-cons k id k ds
        ∙ elim (Bool-cases (eq_ℤ k id)) [ inl e ↦ rw (e, (eq_ℤ_iff k id).0 e) | inr e ↦ rw (e, x) ],
    keeps-named ids h,
  )

pub lookup-named {ℓ} :
    {V : Type ℓ} (d : Dict ℤ V) → All (λ id. lookup id (named d) ≡ some id) (keys d)
lookup-named [] = tt
lookup-named ((k, v) ∷ d) =
    (lookup-cons_self k k (named d), keeps-named k (named d) (keys d) (lookup-named d))

module _ {R : Type 0} (f : ℤ → R) where
  abbrev pub parts : List ℤ → List (Part ℤ R)
  parts ids = map (λ id. (some id, f id)) ids

  abbrev pub answers : List ℤ → Dict ℤ R
  answers ids = map (λ id. (id, f id)) ids

  pub owned_parts-parts : (ids : List ℤ) → owned_parts (parts ids) ≡ ok (answers ids)
  owned_parts-parts [] = refl
  owned_parts-parts (id ∷ ids) = ap (first_owned (id, f id)) (owned_parts-parts ids)

  pub keys-answers : (ids : List ℤ) → map (λ p. p.0) (answers ids) ≡ ids
  keys-answers [] = refl
  keys-answers (id ∷ ids) = ap (λ (l : List ℤ). id ∷ l) (keys-answers ids)

  -- What is built of the partitions names them by their ids.
  pub map-built :
      {Q : Type 0} (pid : Q → ℤ) (build : OwnedPartition → Q) (ps : Dict ℤ OwnedPartition)
      → ((p : OwnedPartition) → pid (build p) ≡ p.partition_id)
      → All (λ p. p.1.partition_id ≡ p.0) ps
      → map (λ r. (pid r, f (pid r))) (map (λ p. build p.1) ps) ≡ answers (keys ps)
  map-built pid build [] same h = refl
  map-built pid build ((k, v) ∷ ps) same (e, h) =
      ap (λ (i : ℤ). (i, f i) ∷ map (λ r. (pid r, f (pid r))) (map (λ p. build p.1) ps))
        (same v ∙ e)
      ∙ ap (λ (l : Dict ℤ R). (k, f k) ∷ l) (map-built pid build ps same h)

module _ {R : Type 0} (error : R → ℤ) (e : ℤ) (f : ℤ → R) (same : (id : ℤ) → error (f id) ≡ e) where
  one_part :
      (ds : Dict ℤ ℤ) (got : List (Part ℤ R)) (id : ℤ)
      → lookup id ds ≡ some id
      → add_part (error (f id)) (owned_partition (some ds) id, f id) ((e, got) ∷ [])
        ≡ (e, got ++ (some id, f id) ∷ []) ∷ []
  unfolding owned_partition add_part
  one_part ds got id x =
      let self : eq_ℤ e e ≡ true = beq_refl e in
      let group : Dict ℤ (List (Part ℤ R)) = (e, got) ∷ [] in
      ap (λ (z : ℤ). add_part z (owned_partition (some ds) id, f id) group) (same id)
      ∙ ap (λ (o : Option ℤ). add_part e (o, f id) group) x
      ∙ insert-cons_eq e e (get_default [] e group ++ (some id, f id) ∷ []) got [] self
      ∙ ap (λ (l : List (Part ℤ R)). (e, l ++ (some id, f id) ∷ []) ∷ [])
          (get_default-cons_eq e e [] got [] self)

  add_parts :
      (ds : Dict ℤ ℤ) (got : List (Part ℤ R)) (ids : List ℤ)
      → All (λ id. lookup id ds ≡ some id) ids
      → add_partitions error (some ds) ((e, got) ∷ []) (answers f ids)
        ≡ (e, got ++ parts f ids) ∷ []
  unfolding add_partitions
  add_parts ds got [] h = ap (λ (l : List (Part ℤ R)). (e, l) ∷ []) (sym (append-nil got))
  add_parts ds got (id ∷ ids) (x, h) =
      ap (λ (d : Dict ℤ (List (Part ℤ R))). add_partitions error (some ds) d (answers f ids))
        (one_part ds got id x)
      ∙ add_parts ds (got ++ (some id, f id) ∷ []) ids h
      ∙ ap (λ (l : List (Part ℤ R)). (e, l) ∷ [])
          (append_assoc got ((some id, f id) ∷ []) (parts f ids))

  -- They make up one group.
  build_parts-same :
      (topic : Text) (ds : Dict ℤ ℤ) (id : ℤ) (ids : List ℤ)
      → All (λ id. lookup id ds ≡ some id) (id ∷ ids)
      → build_parts_by_error error ((topic, answers f (id ∷ ids)) ∷ []) (some ds)
        ≡ (e, parts f (id ∷ ids)) ∷ []
  unfolding build_parts_by_error add_partitions add_part owned_partition insert get_default
  build_parts-same topic ds id ids (x, h) =
      ap
        (λ (z : ℤ).
          add_partitions error (some ds) (add_part z (owned_partition (some ds) id, f id) [])
            (answers f ids))
        (same id)
      ∙ ap
          (λ (o : Option ℤ).
            add_partitions error (some ds) (add_part e (o, f id) []) (answers f ids))
          x
      ∙ add_parts ds ((some id, f id) ∷ []) ids h

  pub build_parts-some :
      (topic : Text) (ds : Dict ℤ ℤ) (ids : List ℤ)
      → ids ≢ []
      → All (λ id. lookup id ds ≡ some id) ids
      → build_parts_by_error error ((topic, answers f ids) ∷ []) (some ds) ≡ (e, parts f ids) ∷ []
  build_parts-some topic ds [] ne h = absurd (ne refl)
  build_parts-some topic ds (id ∷ ids) ne h = build_parts-same topic ds id ids h

pub keys-some {ℓ} : {V : Type ℓ} (d : Dict ℤ V) → d ≢ [] → keys d ≢ []
keys-some [] ne = absurd (ne refl)
keys-some (p ∷ d) ne = λ e. absurd cc

pub lookup-apart {ℓ} :
    {V : Type ℓ} (k : ℤ) (v : V) (d : Dict ℤ V) (j : ℤ) → k ≢ j → lookup j ((k, v) ∷ d) ≡ lookup j d
lookup-apart k v d j ne = elim (Bool-cases (eq_ℤ k j)) [
  | inl e ↦ absurd (ne ((eq_ℤ_iff k j).0 e))
  | inr e ↦ rw (lookup-cons k j v d, e)
]

build_each-apart :
    {R : Type 0} (build : OwnedPartition → R) (k : ℤ) (v : OwnedPartition)
    (d : Dict ℤ OwnedPartition) (ids : List (ℤ × OwnedPartition))
    → All (λ p. k ≢ p.0) ids
    → build_each build (keys ids) ((k, v) ∷ d) ≡ build_each build (keys ids) d
build_each-apart build k v d [] a = refl
build_each-apart build k v d (p ∷ ids) (ne, a) =
    ap (λ (o : Option OwnedPartition). build_at build o (build_each build (keys ids) ((k, v) ∷ d)))
      (lookup-apart k v d p.0 ne)
    ∙ ap (build_at build (lookup p.0 d)) (build_each-apart build k v d ids a)

-- What is built of all partitions.
pub build_each-keys :
    {R : Type 0} (build : OwnedPartition → R) (d : Dict ℤ OwnedPartition)
    → IsKeyset d
    → build_each build (keys d) d ≡ map (λ p. build p.1) d
build_each-keys build [] h = refl
build_each-keys build ((k, v) ∷ d) (a, h) =
    ap (λ (o : Option OwnedPartition). build_at build o (build_each build (keys d) ((k, v) ∷ d)))
      (lookup-cons_self k v d)
    ∙ ap (build_at build (some v)) (build_each-apart build k v d d a ∙ build_each-keys build d h)

-- A flush and a new offset leave a partition its id.
pub flush-partition_id : (p q : OwnedPartition) → flush p ≡ ok q → q.partition_id ≡ p.partition_id
unfolding flush
flush-partition_id p q e = by_drain (drain p.messages p.semaphore) e
  where
    by_drain :
        (r : Result (Option ℕ))
        → (r >>= λ s. ok (record p { messages = []; semaphore = s })) ≡ ok q
        → q.partition_id ≡ p.partition_id
    by_drain (ok s) h =
        (let same : record p { messages = []; semaphore = s } ≡ q = cc in
          sym (ap (λ (x : OwnedPartition). x.partition_id) same))
    by_drain (err e) h = cc

pub set_offset-partition_id :
    (z : ℤ) (p : OwnedPartition) → (set_offset z p).partition_id ≡ p.partition_id
unfolding set_offset
set_offset-partition_id z p = refl
