-- ===== src/Partitioners/Chosen.antt =====
-- The partition that is chosen stands at the place in the order that the hash of the key says.
use pykafka.Prelude.{
  ℕ, zero, suc, ℤ, ◌%◌, ◌<◌, ◌≡◌, ◌≢◌, refl, ap, ◌∙◌, arith, Bool, Bool-cases, true, false, inl,
  inr, none, some, List, [], ◌∷◌, length, All, total, if◌then◌else◌, sym, ltb,
}
use pykafka.Result.{ok, err, type_error, ◌>>=◌}
use pykafka.Sorted.{insert_sorted, sorted}
use pykafka.Sorted.Laws.{length-sorted, total-sorted, All-insert_sorted, All-sorted}
use pykafka.Partitioners.{item, abs, pick, sorted_partitions, hashing_partitioner}

-- Each partition once.
abbrev pub IsDistinct {ℓ} : {P : Type ℓ} → List P → Type ℓ
IsDistinct [] = Unit
IsDistinct (p ∷ ps) = All (λ q. p ≢ q) ps × IsDistinct ps

module _ {ℓ} {P : Type ℓ} (before : P → P → Bool) where
  -- An order in which of two partitions one is before the other.
  pub record IsOrder : Type ℓ where
    pub irreflexive : (p : P) → before p p ≡ false
    pub transitive : (p q r : P) → before p q ≡ true → before q r ≡ true → before p r ≡ true
    pub total_order : (p q : P) → p ≢ q → before p q ≡ false → before q p ≡ true

  -- How many of the partitions are before `p`.
  abbrev pub rank : P → List P → ℕ
  rank p ps = total (λ q. if before q p then 1 else 0) ps

  -- Each is before all that follow.
  abbrev IsAscending : List P → Type ℓ
  IsAscending [] = Unit
  IsAscending (p ∷ ps) = All (λ q. before p q ≡ true) ps × IsAscending ps

  module _ (order : IsOrder) where
    All-before :
        (p q : P) (qs : List P)
        → before p q ≡ true
        → All (λ r. before q r ≡ true) qs
        → All (λ r. before p r ≡ true) qs
    All-before p q [] e h = tt
    All-before p q (r ∷ rs) e (x, h) = (order.transitive p q r e x, All-before p q rs e h)

    insert_sorted-IsAscending :
        (p : P) (ps : List P)
        → All (λ q. p ≢ q) ps
        → IsAscending ps
        → IsAscending (insert_sorted before p ps)
    unfolding insert_sorted
    insert_sorted-IsAscending p [] ne a = (tt, tt)
    insert_sorted-IsAscending p (q ∷ qs) (n, ne) (h, a) = elim (Bool-cases (before p q)) [
      | inl e ↦ rw e ((e, All-before p q qs e h), (h, a))
      | inr e ↦ rw e (
        All-insert_sorted before (λ r. before q r ≡ true) p qs (order.total_order p q n e) h,
        insert_sorted-IsAscending p qs ne a,
      )
    ]

    sorted-IsAscending : (ps : List P) → IsDistinct ps → IsAscending (sorted before ps)
    unfolding sorted
    sorted-IsAscending [] d = tt
    sorted-IsAscending (p ∷ ps) (ne, d) =
        insert_sorted-IsAscending p (sorted before ps) (All-sorted before (λ q. p ≢ q) ps ne)
          (sorted-IsAscending ps d)

    -- None that follows is before one.
    rank-first : (p : P) (ps : List P) → All (λ q. before p q ≡ true) ps → rank p ps ≡ 0
    rank-first p [] h = refl
    rank-first p (q ∷ qs) (x, h) = elim (Bool-cases (before q p)) [
      | inl e ↦
          let clash : true ≡ false = sym (order.transitive p q p x e) ∙ order.irreflexive p in
          absurd cc
      | inr e ↦ rw e (omega (arith, rank-first p qs h))
    ]

    -- What stands at a place has as many before it.
    record Stands (ps : List P) (n : ℕ) (p : P) : Type (1 ⊔ ℓ) where
      found : item ps n ≡ ok p
      ranked : rank p ps ≡ n
      inside : (Q : P → Type 0) → All Q ps → Q p

    item-rank : (ps : List P) (n : ℕ) → n < length ps → IsAscending ps → (p : P) × Stands ps n p
    unfolding item
    item-rank [] n h a = absurd (omega arith)
    item-rank (p ∷ ps) zero h (x, a) = (
      p,
      record {
        found = refl;
        ranked = rw (order.irreflexive p) (omega (arith, rank-first p ps x));
        inside = λ Q q. q.0;
      },
    )
    item-rank (p ∷ ps) (suc n) h (x, a) =
        let (r, i) = item-rank ps n (omega arith) a in
        let first : before p r ≡ true = i.inside (λ q. before p q ≡ true) x in
        (
          r,
          record {
            found = i.found;
            ranked = rw first (omega (arith, i.ranked));
            inside = λ Q q. i.inside Q q.1;
          },
        )

    pick-rank :
        (ps : List P) (hash : ℕ)
        → 0 < length ps
        → IsAscending ps
        → (p : P) × (pick ps hash ≡ ok p) × Stands ps (hash % length ps) p
    unfolding pick
    pick-rank [] hash h a = absurd (omega arith)
    pick-rank (p ∷ ps) hash h a =
        let (r, i) = item-rank (p ∷ ps) (hash % length (p ∷ ps)) (omega arith) a in (r, i.found, i)

  no_order :
      (hash : ℕ) (partitions : List P)
      → (sorted_partitions none partitions >>= λ ps. pick ps hash) ≡ (
          if ltb 1 (length partitions)
          then err type_error
          else pick (sorted before partitions) hash)
  unfolding sorted_partitions sorted insert_sorted
  no_order hash [] = refl
  no_order hash (p ∷ []) = refl
  no_order hash (p ∷ (q ∷ ps)) =
      let many : ltb 1 (suc (suc (length ps))) ≡ true = ground arith in
      let sorted_list : List P = sorted before (p ∷ (q ∷ ps)) in
      ap (λ (b : Bool). if b then err type_error else pick sorted_list hash) (sym many)

  -- For any key but None, any hash function, negative hashes included, and any partitions but none, each
  -- once, where these have a strict order in which of two one is before the other: HashingPartitioner
  -- returns that of them which has as many before it as the absolute hash modulo their number says, and what
  -- holds of all of them holds of it. Where partitions have no order it raises TypeError if there are two or
  -- more of them, and returns the same otherwise.
  pub hashing_partitioner_lem {κ} :
      {K : Type κ} (hash_func : K → ℤ) (key : K) (partitions : List P) (Q : P → Type 0)
      → IsOrder
      → 0 < length partitions
      → IsDistinct partitions
      → All Q partitions
      → ((p : P) × (hashing_partitioner (some before) hash_func partitions (some key) ≡ ok p)
          × (rank p partitions ≡ abs (hash_func key) % length partitions)
          × Q p)
        × (hashing_partitioner none hash_func partitions (some key) ≡ (
            if ltb 1 (length partitions)
            then err type_error
            else hashing_partitioner (some before) hash_func partitions (some key)))
  unfolding hashing_partitioner
  hashing_partitioner_lem hash_func key partitions Q order h d all =
      let hash : ℕ = abs (hash_func key) in
      let (p, chosen, i) =
        pick-rank order (sorted before partitions) hash
          (omega (arith, length-sorted before partitions))
          (sorted-IsAscending order partitions d) in
      (
        (
          p,
          chosen,
          sym (total-sorted before (λ q. if before q p then 1 else 0) partitions)
              ∙ i.ranked
              ∙ ap (λ (n : ℕ). hash % n) (length-sorted before partitions),
          i.inside Q (All-sorted before Q partitions all),
        ),
        no_order hash partitions,
      )
