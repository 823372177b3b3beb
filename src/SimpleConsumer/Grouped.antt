-- ===== src/SimpleConsumer/Grouped.antt =====
-- Sums over the groups of a dict of lists, to which items were added one by one.
use pykafka.Prelude.{
  sym, ap, ◌∙◌, ◌≡◌, refl, ℕ, ◌+◌, ℤ, pos, inl, inr, Bool-cases, Option, arith, none, some, List,
  [], ◌∷◌, ◌++◌, eq_ℤ, if◌then◌else◌, total, foldl, total-append,
}
use pykafka.Result.{ok, err, Result-cases}
use pykafka.Dict.{Eq, Dict, insert, get_default, int_eq, text_eq}
use pykafka.Dict.Laws.{insert-cons_ne, get_default-cons_ne}
use pykafka.ErrorHandlers.{Part, owned_partition, add_part, add_partitions, build_parts_by_error}
use pykafka.Protocol.Response.{Text}
use pykafka.SimpleConsumer.Consumer.{owned_parts, first_owned}
use pykafka.SimpleConsumer.Offsets.{errored}
use pykafka.SimpleConsumer.Pairs.{failed}
use pykafka.SimpleConsumer.Held.{one}

-- The sum over all groups.
abbrev pub grouped {ℓ κ} : {K : Type κ} {P : Type ℓ} → (P → ℕ) → Dict K (List P) → ℕ
grouped f d = total (λ g. total f g.1) d

pub grouped-insert {ℓ κ} :
    {K : Type κ} {P : Type ℓ} ⦃e : Eq K⦄ (f : P → ℕ) (k : K) (x : P) (d : Dict K (List P))
    → grouped f (insert k (get_default [] k d ++ x ∷ []) d) ≡ grouped f d + f x
unfolding insert get_default
grouped-insert f k x [] = omega arith
grouped-insert {K = K} {P = P} ⦃e⦄ f k x ((j, xs) ∷ d) = elim (Bool-cases (e.beq j k)) [
  | inl q ↦ rw q (omega (arith, total-append f xs (x ∷ [])))
  | inr q ↦
      ap (λ (g : Dict K (List P)). grouped f g)
        (insert-cons_ne j k (get_default [] k ((j, xs) ∷ d) ++ x ∷ []) xs d q)
      ∙ ap (λ (l : List P). total f xs + grouped f (insert k (l ++ x ∷ []) d))
          (get_default-cons_ne j k [] xs d q)
      ∙ omega (arith, grouped-insert f k x d)
]

-- The OwnedPartition of a part is the one with the id.
abbrev pub own : ℤ → Option ℤ → ℕ
own id none = 0
own id (some k) = one (eq_ℤ k id)

module _ {R : Type 0} (id : ℤ) where
  abbrev pub own_part : Part ℤ R → ℕ
  own_part part = own id part.0

  module _ (error : R → ℤ) (ids : Option (Dict ℤ ℤ)) where
    add_partitions-grouped :
        (partitions : Dict ℤ R) (d : Dict ℤ (List (Part ℤ R)))
        → grouped own_part (add_partitions error ids d partitions)
          ≡ grouped own_part d + total (λ p. own id (owned_partition ids p.0)) partitions
    unfolding add_partitions add_part
    add_partitions-grouped [] d = omega arith
    add_partitions-grouped (p ∷ ps) d =
        let part : Part ℤ R = (owned_partition ids p.0, p.1) in
        add_partitions-grouped ps (add_part (error p.1) part d)
        ∙ omega (arith, grouped-insert own_part (error p.1) part d)

    topics-grouped :
        (topics : Dict Text (Dict ℤ R)) (d : Dict ℤ (List (Part ℤ R)))
        → grouped own_part (foldl (λ d t. add_partitions error ids d t.1) d topics)
          ≡ grouped own_part d
            + total (λ t. total (λ p. own id (owned_partition ids p.0)) t.1) topics
    topics-grouped [] d = omega arith
    topics-grouped (t ∷ ts) d =
        topics-grouped ts (add_partitions error ids d t.1)
        ∙ omega (arith, add_partitions-grouped t.1 d)

    pub build_parts_by_error-grouped :
        (topics : Dict Text (Dict ℤ R))
        → grouped own_part (build_parts_by_error error topics ids)
          ≡ total (λ t. total (λ p. own id (owned_partition ids p.0)) t.1) topics
    unfolding build_parts_by_error
    build_parts_by_error-grouped topics = topics-grouped topics [] ∙ omega arith

  -- The parts without an error, and those with one.
  abbrev pub succeeded : Dict ℤ (List (Part ℤ R)) → ℕ
  succeeded d = total (λ g. if eq_ℤ g.0 (pos 0) then total own_part g.1 else 0) d

  pub succeeded-errored :
      (d : Dict ℤ (List (Part ℤ R)))
      → succeeded d + total own_part (errored (failed d)) ≡ grouped own_part d
  succeeded-errored [] = refl
  succeeded-errored ((k, parts) ∷ d) = elim (Bool-cases (eq_ℤ k (pos 0))) [
    | inl e ↦ rw e (omega (arith, succeeded-errored d))
    | inr e ↦
        rw (e, e)
          (omega (arith, total-append own_part parts (errored (failed d)), succeeded-errored d))
  ]

  -- Those that are owned.
  pub owned_parts-total :
      (parts : List (Part ℤ R)) (owned : List (ℤ × R))
      → owned_parts parts ≡ ok owned
      → total (λ p. one (eq_ℤ p.0 id)) owned ≡ total own_part parts
  owned_parts-total [] owned e =
      (let same : [] ≡ owned = cc in
        ap (λ (l : List (ℤ × R)). total (λ p. one (eq_ℤ p.0 id)) l) (sym same))
  owned_parts-total ((none, r) ∷ parts) owned e = absurd cc
  owned_parts-total ((some k, r) ∷ parts) owned e = elim (Result-cases (owned_parts parts)) [
    | inl (rest, q) ↦
        let whole : ok ((k, r) ∷ rest) ≡ ok owned = sym (ap (first_owned (k, r)) q) ∙ e in
        let same : (k, r) ∷ rest ≡ owned = cc in
        ap (λ (l : List (ℤ × R)). total (λ p. one (eq_ℤ p.0 id)) l) (sym same)
        ∙ ap (λ (n : ℕ). one (eq_ℤ k id) + n) (owned_parts-total parts rest q)
    | inr (e', q) ↦ let clash : err e' ≡ ok owned = sym (ap (first_owned (k, r)) q) ∙ e in absurd cc
  ]
