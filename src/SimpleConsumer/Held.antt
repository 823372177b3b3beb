-- ===== src/SimpleConsumer/Held.antt =====
-- How often locks are held: what acquires and releases them, and what leaves them alone.
use pykafka.Prelude.{
  refl, sym, ap, ◌∙◌, ◌≡◌, ℕ, ◌+◌, ℤ, inl, inr, Bool, Bool-cases, true, false, Option, arith, none,
  some, List, [], ◌∷◌, eq_ℤ, eq_ℤ_iff,
}
use pykafka.Result.{ok, err}
use pykafka.Dict.{Dict, insert, int_eq, text_eq}
use pykafka.Sorted.{sorted, insert_sorted}
use pykafka.SimpleConsumer.Consumer.{Consumer, release_one, behind, release_lock, released}
use pykafka.SimpleConsumer.Parts.{keys}
use pykafka.Prelude.{Option-cases}
use pykafka.Result.{runtime_error}

-- How often an id is in a list.
abbrev pub one : Bool → ℕ
one true = 1
one false = 0

abbrev pub times : ℤ → List ℤ → ℕ
times id [] = 0
times id (j ∷ ids) = one (eq_ℤ j id) + times id ids

times-insert_sorted :
    (id : ℤ) (before : ℤ → ℤ → Bool) (j : ℤ) (ids : List ℤ)
    → times id (insert_sorted before j ids) ≡ one (eq_ℤ j id) + times id ids
unfolding insert_sorted
times-insert_sorted id before j [] = refl
times-insert_sorted id before j (k ∷ ids) = elim (Bool-cases (before j k)) [
  | inl e ↦ rw e refl
  | inr e ↦ rw e (omega (arith, times-insert_sorted id before j ids))
]

pub times-sorted :
    (id : ℤ) (before : ℤ → ℤ → Bool) (ids : List ℤ) → times id (sorted before ids) ≡ times id ids
unfolding sorted
times-sorted id before [] = refl
times-sorted id before (j ∷ ids) =
    times-insert_sorted id before j (sorted before ids)
    ∙ ap (λ (n : ℕ). one (eq_ℤ j id) + n) (times-sorted id before ids)

-- A new key is added.
pub times-insert :
    {V : Type 0} (id k : ℤ) (v : V) (d : Dict ℤ V)
    → times k (keys d) ≡ 0
    → times id (keys (insert k v d)) ≡ one (eq_ℤ k id) + times id (keys d)
unfolding insert
times-insert id k v [] h = refl
times-insert id k v ((j, w) ∷ d) h = elim (Bool-cases (eq_ℤ j k)) [
  | inl e ↦ let clash : 1 + times k (keys d) ≡ 0 = rw e at h in absurd (omega (arith, clash))
  | inr e ↦
      let shifted : 0 + times k (keys d) ≡ 0 = rw e at h in
      let rest : times k (keys d) ≡ 0 = omega (arith, shifted) in
      rw e (omega (arith, times-insert id k v d rest))
]

-- A release takes out one of a lock's places.
release_one-times :
    (id k : ℤ) (locks rest : List ℤ)
    → release_one k locks ≡ some rest
    → one (eq_ℤ k id) + times id rest ≡ times id locks
release_one-times id k [] rest h = absurd cc
release_one-times id k (lock ∷ locks) rest h = elim (Bool-cases (eq_ℤ lock k)) [
  | inl e ↦
      let here : some locks ≡ some rest = rw e at h in
      let same : locks ≡ rest = cc in
      ap (λ (z : ℤ). one (eq_ℤ z id) + times id rest) (sym ((eq_ℤ_iff lock k).0 e))
      ∙ ap (λ (l : List ℤ). one (eq_ℤ lock id) + times id l) (sym same)
  | inr e ↦
      let later : behind lock (release_one k locks) ≡ some rest = rw e at h in
      elim (Option-cases (release_one k locks)) [
        | inl n ↦ let clash : none ≡ some rest = sym (ap (behind lock) n) ∙ later in absurd cc
        | inr (r, s) ↦
            let found : some (lock ∷ r) ≡ some rest = sym (ap (behind lock) s) ∙ later in
            let same : lock ∷ r ≡ rest = cc in
            let ih : one (eq_ℤ k id) + times id r ≡ times id locks =
              release_one-times id k locks r s in
            ap (λ (l : List ℤ). one (eq_ℤ k id) + times id l) (sym same) ∙ omega (arith, ih)
      ]
]

module _ {C : Type 0} where
  -- How often the lock of a partition is held.
  abbrev pub held : ℤ → Consumer C → ℕ
  held id c = times id c.locks

  abbrev pub Same : Consumer C → Consumer C → Type 0
  Same c c' = (id : ℤ) → held id c' ≡ held id c

  pub release_lock-held :
      (id k : ℤ) (c : Consumer C) (u : Unit {0})
      → (release_lock k c).0 ≡ ok u
      → one (eq_ℤ k id) + held id (release_lock k c).1 ≡ held id c
  unfolding release_lock
  release_lock-held id k c u h = elim (Option-cases (release_one k c.locks)) [
    | inl e ↦
        let clash : err runtime_error ≡ ok u =
          ap (λ (o : Option (List ℤ)). (released c o).0) (sym e) ∙ h in
        absurd cc
    | inr (rest, e) ↦ rw e (release_one-times id k c.locks rest e)
  ]
