-- ===== src/Topic/Asked.antt =====
-- Which partitions fetch_offset_limits asks which broker for.
use pykafka.Prelude.{
  refl, sym, ap, subst, ◌∙◌, ◌≡◌, ◌≢◌, ℕ, ◌+◌, ℤ, inl, inr, Bool-cases, Option, arith, none, some,
  List, [], ◌∷◌, ◌++◌, map, foldl, total, All, eq_ℤ,
}
use pykafka.Result.{ok}
use pykafka.Action.{Action}
use pykafka.Dict.{Dict, Eq, lookup, insert, get_default, int_eq, text_eq}
use pykafka.Dict.Laws.{lookup-cons_self, total-insert}
use pykafka.Dict.Keys.{IsKeyset}
use pykafka.Partition.{Partition}
use pykafka.Protocol.Offset.{PartitionOffsetRequest}
use pykafka.Protocol.Response.{Text}
use pykafka.Topic.Offsets.{Limits, limit_request, add_request}
use pykafka.SimpleConsumer.Held.{one, times}
use pykafka.SimpleConsumer.Parts.{keys, lookup-apart}
use pykafka.SimpleConsumer.Parts.{lookup-apart}

module _ {ℓ κ} {K : Type ℓ} {V : Type κ} ⦃e : Eq K⦄ (P : K → V → Type 0) where
  -- What holds of all entries, and of the new one, holds after an assignment.
  pub All-assigned :
      (k : K) (v : V) (d : Dict K V)
      → P k v
      → All (λ m. P m.0 m.1) d
      → All (λ m. P m.0 m.1) (insert k v d)
  unfolding insert
  All-assigned k v [] p h = (p, tt)
  All-assigned k v ((j, w) ∷ d) p (x, h) = elim (Bool-cases (e.beq j k)) [
    | inl t ↦ rw t (subst (λ (i : K). P i v) (sym ((e.beq_iff j k).0 t)) p, h)
    | inr t ↦ rw t (x, All-assigned k v d p h)
  ]

  -- What holds of all entries holds of the one that is found.
  pub Found : (k : K) (v : V) (d : Dict K V) → All (λ m. P m.0 m.1) d → lookup k d ≡ some v → P k v
  unfolding lookup
  Found k v [] h found = absurd cc
  Found k v ((j, w) ∷ d) (x, h) found = elim (Bool-cases (e.beq j k)) [
    | inl t ↦
        let here : some w ≡ some v = rw t at found in
        let same : w ≡ v = cc in subst (λ (i : K). P i v) ((e.beq_iff j k).0 t) (subst (P j) same x)
    | inr t ↦ Found k v d h (rw t at found)
  ]

  Default :
      (k : K) (base : V) (d : Dict K V)
      → P k base
      → All (λ m. P m.0 m.1) d
      → P k (get_default base k d)
  unfolding get_default
  Default k base [] p h = p
  Default k base ((j, w) ∷ d) p (x, h) = elim (Bool-cases (e.beq j k)) [
    | inl t ↦ rw t (subst (λ (i : K). P i w) ((e.beq_iff j k).0 t) x)
    | inr t ↦ rw t (Default k base d p h)
  ]

-- Each entry of a dict is found under its key.
module _ {V : Type 0} where
  found-later :
      (k : ℤ) (v : V) (d xs : Dict ℤ V)
      → All (λ m. k ≢ m.0) xs
      → All (λ m. lookup m.0 d ≡ some m.1) xs
      → All (λ m. lookup m.0 ((k, v) ∷ d) ≡ some m.1) xs
  found-later k v d [] a h = tt
  found-later k v d (m ∷ xs) (ne, a) (x, h) =
      (lookup-apart k v d m.0 ne ∙ x, found-later k v d xs a h)

  pub all-found : (d : Dict ℤ V) → IsKeyset d → All (λ m. lookup m.0 d ≡ some m.1) d
  all-found [] h = tt
  all-found ((k, v) ∷ d) (a, h) = (lookup-cons_self k v d, found-later k v d d a (all-found d h))

-- Each broker answers with what it has of each partition that it is asked for.
abbrev pub limiting :
    {B S : Type 0}
    → (B → ℤ → Limits)
    → List ℕ
    → B
    → List PartitionOffsetRequest
    → Action S (Dict Text (Dict ℤ Limits))
limiting limit name broker reqs s =
    (ok ((some name, map (λ r. (r.partition_id, limit broker r.partition_id)) reqs) ∷ []), s)

abbrev pub limit_of : {B : Type 0} → (B → ℤ → Limits) → ℤ → Option (Partition B) → Option Limits
limit_of limit id none = none
limit_of limit id (some p) = some (limit p.leader id)

-- How often a partition is asked for.
abbrev pub asks : ℤ → List PartitionOffsetRequest → ℕ
asks id reqs = times id (map (λ r. r.partition_id) reqs)

asks-append :
    (id : ℤ) (reqs : List PartitionOffsetRequest) (r : PartitionOffsetRequest)
    → asks id (reqs ++ r ∷ []) ≡ asks id reqs + one (eq_ℤ r.partition_id id)
asks-append id [] r = omega arith
asks-append id (q ∷ reqs) r = omega (arith, asks-append id reqs r)

module _ {B : Type 0} ⦃e : Eq B⦄ (limit : B → ℤ → Limits) (name : List ℕ)
    (ps : Dict ℤ (Partition B)) where
  abbrev pub asked : ℤ → Dict B (List PartitionOffsetRequest) → ℕ
  asked id d = total (λ g. asks id g.1) d

  abbrev pub IsLed : B → ℤ → Type 0
  IsLed b id = (p : Partition B) × (lookup id ps ≡ some p) × (p.leader ≡ b)

  -- A broker is asked for partitions that it leads.
  abbrev pub IsFor : B → List PartitionOffsetRequest → Type 0
  IsFor b reqs = All (λ r. IsLed b r.partition_id) reqs

  IsFor-append :
      (b : B) (reqs : List PartitionOffsetRequest) (r : PartitionOffsetRequest)
      → IsFor b reqs
      → IsLed b r.partition_id
      → IsFor b (reqs ++ r ∷ [])
  IsFor-append b [] r h l = (l, tt)
  IsFor-append b (q ∷ reqs) r (x, h) l = (x, IsFor-append b reqs r h l)

  module _ (before max : ℤ) where
    abbrev add :
        Dict B (List PartitionOffsetRequest)
        → ℤ × Partition B
        → Dict B (List PartitionOffsetRequest)
    add d p = add_request (limiting {B = B} {S = Unit {0}} limit name) name before max d p.1

    pub added-IsFor :
        (qs : Dict ℤ (Partition B)) (d : Dict B (List PartitionOffsetRequest))
        → All (λ m. lookup m.0 ps ≡ some m.1) qs
        → All (λ m. m.1.id ≡ m.0) qs
        → All (λ g. IsFor g.0 g.1) d
        → All (λ g. IsFor g.0 g.1) (foldl add d qs)
    added-IsFor [] d f i h = h
    added-IsFor (q ∷ qs) d (x, f) (y, i) h =
        let r : PartitionOffsetRequest = limit_request name q.1.id before max in
        let led : IsLed q.1.leader q.1.id = (q.1, ap (λ (z : ℤ). lookup z ps) y ∙ x, refl) in
        added-IsFor qs (add d q) f i (
          All-assigned IsFor q.1.leader (get_default [] q.1.leader d ++ r ∷ []) d
            (IsFor-append q.1.leader (get_default [] q.1.leader d) r
              (Default IsFor q.1.leader [] d tt h) led)
            h)

    pub added-asked :
        (id : ℤ) (qs : Dict ℤ (Partition B)) (d : Dict B (List PartitionOffsetRequest))
        → All (λ m. m.1.id ≡ m.0) qs
        → asked id (foldl add d qs) ≡ asked id d + times id (keys qs)
    added-asked id [] d i = omega arith
    added-asked id (q ∷ qs) d (y, i) =
        let r : PartitionOffsetRequest = limit_request name q.1.id before max in
        let old : List PartitionOffsetRequest = get_default [] q.1.leader d in
        let assigned = total-insert (asks id) q.1.leader (old ++ r ∷ []) [] d refl in
        let more = asks-append id old r in
        let same : one (eq_ℤ q.1.id id) ≡ one (eq_ℤ q.0 id) = ap (λ (z : ℤ). one (eq_ℤ z id)) y in
        omega (arith, added-asked id qs (add d q) i, assigned, more, same)
