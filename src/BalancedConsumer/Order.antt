-- ===== src/BalancedConsumer/Order.antt =====
-- Sorted ids that differ: each is found at its place.
use pykafka.Prelude.{
  ℕ, zero, suc, ◌≡◌, ◌≢◌, refl, sym, ap₂, ◌∙◌, Bool-cases, List, [], ◌∷◌, map, length, inl, inr,
  All,
}
use pykafka.Sorted.Laws.{All-insert_sorted, All-sorted}
use pykafka.Sorted.{insert_sorted, sorted}
use pykafka.Result.{Result, ok, ◌>>=◌}
use pykafka.Dict.{bytes_beq, bytes_beq_iff}
use pykafka.BalancedConsumer.{index_from, bytes_leb}

-- range(n, n + len)
abbrev pub range_from : ℕ → ℕ → List ℕ
range_from n zero = []
range_from n (suc len) = n ∷ range_from (suc n) len

-- No id twice.
abbrev pub Distinct : List (List ℕ) → Type 0
Distinct [] = Unit
Distinct (x ∷ xs) = All (λ y. x ≢ y) xs × Distinct xs

index_from-other :
    (n : ℕ) (x y : List ℕ) (ys : List (List ℕ))
    → y ≢ x
    → index_from n x (y ∷ ys) ≡ index_from (suc n) x ys
unfolding index_from
index_from-other n x y ys ne = elim (Bool-cases (bytes_beq y x)) [
  | inl p ↦ absurd (ne ((bytes_beq_iff y x).0 p))
  | inr p ↦ rw p
]

index_from-first : (n : ℕ) (x : List ℕ) (ys : List (List ℕ)) → index_from n x (x ∷ ys) ≡ ok n
unfolding index_from
index_from-first n x ys = rw ((bytes_beq_iff x x).1 refl)

-- Among ids that differ, each stands at its place.
pub indices {ℓ} :
    {P : Type ℓ} (f : ℕ → P) (n : ℕ) (xs : List (List ℕ))
    → Distinct xs
    → map (λ x. index_from n x xs >>= λ i. ok (f i)) xs
      ≡ map (λ i. ok (f i)) (range_from n (length xs))
indices f n [] h = refl
indices f n (x ∷ xs) (apart, h) =
    ap₂ (λ (a : Result _) (l : List (Result _)). a ∷ l) (rw (index_from-first n x xs))
      (others xs apart ∙ indices f (suc n) xs h)
  where
    others :
        (ys : List (List ℕ))
        → All (λ y. x ≢ y) ys
        → map (λ y. index_from n y (x ∷ xs) >>= λ i. ok (f i)) ys
          ≡ map (λ y. index_from (suc n) y xs >>= λ i. ok (f i)) ys
    others [] h = refl
    others (y ∷ ys) (ne, h) =
        ap₂ (λ (a : Result _) (l : List (Result _)). a ∷ l) (rw (index_from-other n y x xs ne))
          (others ys h)

insert_sorted-Distinct :
    (x : List ℕ) (xs : List (List ℕ))
    → All (λ y. x ≢ y) xs
    → Distinct xs
    → Distinct (insert_sorted bytes_leb x xs)
unfolding insert_sorted
insert_sorted-Distinct x [] a h = (tt, tt)
insert_sorted-Distinct x (y ∷ ys) (ne, a) (b, h) = elim (Bool-cases (bytes_leb x y)) [
  | inl p ↦ rw p ((ne, a), (b, h))
  | inr p ↦ rw p (
    All-insert_sorted bytes_leb (λ z. y ≢ z) x ys (λ e. ne (sym e)) b,
    insert_sorted-Distinct x ys a h,
  )
]

pub sorted-Distinct : (xs : List (List ℕ)) → Distinct xs → Distinct (sorted bytes_leb xs)
unfolding sorted
sorted-Distinct [] h = tt
sorted-Distinct (x ∷ xs) (a, h) =
    insert_sorted-Distinct x (sorted bytes_leb xs) (All-sorted bytes_leb (λ y. x ≢ y) xs a)
      (sorted-Distinct xs h)
