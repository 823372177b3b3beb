-- ===== src/Sorted/Laws.antt =====
-- Sorting keeps the length, the sums, and what holds of all.
use pykafka.Prelude.{
  ℕ, suc, ◌+◌, ◌≡◌, refl, ap, ◌∙◌, arith, Bool, Bool-cases, inl, inr, List, [], ◌∷◌, length, All,
  total,
}
use pykafka.Sorted.{insert_sorted, sorted}

module _ {ℓ} {P : Type ℓ} (before : P → P → Bool) where
  length-insert_sorted :
      (p : P) (ps : List P) → length (insert_sorted before p ps) ≡ suc (length ps)
  unfolding insert_sorted
  length-insert_sorted p [] = refl
  length-insert_sorted p (q ∷ qs) = elim (Bool-cases (before p q)) [
    | inl e ↦ rw e
    | inr e ↦ rw e (ap suc (length-insert_sorted p qs))
  ]

  pub length-sorted : (ps : List P) → length (sorted before ps) ≡ length ps
  unfolding sorted
  length-sorted [] = refl
  length-sorted (p ∷ ps) = length-insert_sorted p (sorted before ps) ∙ ap suc (length-sorted ps)

  total-insert_sorted :
      (f : P → ℕ) (p : P) (ps : List P) → total f (insert_sorted before p ps) ≡ f p + total f ps
  unfolding insert_sorted
  total-insert_sorted f p [] = refl
  total-insert_sorted f p (q ∷ qs) = elim (Bool-cases (before p q)) [
    | inl e ↦ rw e refl
    | inr e ↦ rw e (omega (arith, total-insert_sorted f p qs))
  ]

  pub total-sorted : (f : P → ℕ) (ps : List P) → total f (sorted before ps) ≡ total f ps
  unfolding sorted
  total-sorted f [] = refl
  total-sorted f (p ∷ ps) =
      total-insert_sorted f p (sorted before ps) ∙ ap (λ (n : ℕ). f p + n) (total-sorted f ps)

  pub All-insert_sorted {κ} :
      (Q : P → Type κ) (p : P) (ps : List P) → Q p → All Q ps → All Q (insert_sorted before p ps)
  unfolding insert_sorted
  All-insert_sorted Q p [] q h = (q, tt)
  All-insert_sorted Q p (r ∷ rs) q (qr, h) = elim (Bool-cases (before p r)) [
    | inl e ↦ rw e (q, (qr, h))
    | inr e ↦ rw e (qr, All-insert_sorted Q p rs q h)
  ]

  pub All-sorted {κ} : (Q : P → Type κ) (ps : List P) → All Q ps → All Q (sorted before ps)
  unfolding sorted
  All-sorted Q [] h = tt
  All-sorted Q (p ∷ ps) (q, h) = All-insert_sorted Q p (sorted before ps) q (All-sorted Q ps h)
