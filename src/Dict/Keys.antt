-- ===== src/Dict/Keys.antt =====
-- Dicts in which no key stands twice, as all that are made by assignments.
use pykafka.Prelude.{
  ◌≡◌, ◌≢◌, refl, sym, ◌∙◌, inl, inr, true, false, Bool-cases, All, [], ◌∷◌, none,
}
use pykafka.Dict.{Eq, Dict, lookup, insert}

module _ {ℓ κ} {K : Type ℓ} {V : Type κ} ⦃e : Eq K⦄ where
  abbrev pub IsKeyset : Dict K V → Type ℓ
  IsKeyset [] = Unit {ℓ}
  IsKeyset ((k, v) ∷ d) = All (λ (p : K × V). k ≢ p.0) d × IsKeyset d

  apart-insert :
      (j k : K) (v : V) (d : Dict K V)
      → j ≢ k
      → All (λ (p : K × V). j ≢ p.0) d
      → All (λ (p : K × V). j ≢ p.0) (insert k v d)
  unfolding insert
  apart-insert j k v [] ne a = (ne, tt)
  apart-insert j k v ((i, w) ∷ d) ne (n, a) = elim (Bool-cases (e.beq i k)) [
    | inl p ↦ rw p (n, a)
    | inr p ↦ rw p (n, apart-insert j k v d ne a)
  ]

  pub insert-IsKeyset : (k : K) (v : V) (d : Dict K V) → IsKeyset d → IsKeyset (insert k v d)
  unfolding insert
  insert-IsKeyset k v [] h = (tt, tt)
  insert-IsKeyset k v ((i, w) ∷ d) (a, h) = elim (Bool-cases (e.beq i k)) [
    | inl p ↦ rw p (a, h)
    | inr p ↦
        let ne : i ≢ k =
          λ q. (let clash : true ≡ false = sym ((e.beq_iff i k).1 q) ∙ p in absurd cc) in
        rw p (apart-insert i k v d ne a, insert-IsKeyset k v d h)
  ]

  -- No other key is found.
  pub apart-lookup : (k : K) (d : Dict K V) → All (λ (p : K × V). k ≢ p.0) d → lookup k d ≡ none
  unfolding lookup
  apart-lookup k [] a = refl
  apart-lookup k ((j, v) ∷ d) (ne, a) = elim (Bool-cases (e.beq j k)) [
    | inl p ↦ absurd (ne (sym ((e.beq_iff j k).0 p)))
    | inr p ↦ rw p (apart-lookup k d a)
  ]
