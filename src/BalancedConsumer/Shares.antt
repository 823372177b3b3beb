-- ===== src/BalancedConsumer/Shares.antt =====
-- The shares of the participants make up the topic, and none is larger than another by more than one.
use pykafka.Prelude.{
  ℕ, zero, suc, ◌+◌, ◌-◌, ◌*◌, ◌/◌, ◌%◌, ◌<◌, ◌≤◌, ◌≡◌, refl, sym, ap, subst, ◌∙◌, arith, min, ltb,
  List, [], ◌∷◌, ◌++◌, map, concat, length, length-take, length-drop, take-length, take, drop,
  append-nil, append_assoc, if◌then◌else◌,
}
use pykafka.Sorted.{sorted}
use pykafka.Result.{Result, ok}
use pykafka.BalancedConsumer.Order.{range_from, Distinct, indices, sorted-Distinct}
use pykafka.Sorted.Laws.{length-sorted}
use pykafka.BalancedConsumer.{start, num_parts, share, decide_partitions, bytes_leb}

-- A share ends where the next one starts.
start-suc : (parts n idx : ℕ) → start parts n idx + num_parts parts n idx ≡ start parts n (suc idx)
unfolding start num_parts
start-suc parts n idx =
    let q : ℕ = parts / n in
    let more : q * suc idx ≡ q * idx + q = omega arith in rw more (ground arith)

start-end : (parts n : ℕ) → 0 < n → start parts n n ≡ parts
unfolding start
start-end parts n h = omega arith

start-zero : (parts n : ℕ) → start parts n 0 ≡ 0
unfolding start
start-zero parts n = omega arith

start-le : (parts n idx d : ℕ) → start parts n idx ≤ start parts n (idx + d)
start-le parts n idx zero = let e : idx + 0 ≡ idx = omega arith in rw e (omega arith)
start-le parts n idx (suc d) =
    let e : idx + suc d ≡ suc (idx + d) = omega arith in
    rw e (omega (arith, start-le parts n idx d, start-suc parts n (idx + d)))

-- No share reaches over the end.
share_room : (parts n idx : ℕ) → idx < n → start parts n idx + num_parts parts n idx ≤ parts
share_room parts n idx h =
    let d : ℕ = n - suc idx in
    let e : suc idx + d ≡ n = omega arith in
    let below : start parts n (suc idx) ≤ start parts n n =
      subst (λ (k : ℕ). start parts n (suc idx) ≤ start parts n k) e
        (start-le parts n (suc idx) d) in
    omega (arith, start-suc parts n idx, below, start-end parts n (omega arith))

num_parts-if :
    (parts n idx : ℕ) → num_parts parts n idx ≡ parts / n + (if ltb idx (parts % n) then 1 else 0)
unfolding num_parts
num_parts-if parts n idx = ground arith

module _ {ℓ} {P : Type ℓ} where
  take-nil : (n : ℕ) → take {A = P} n [] ≡ []
  take-nil zero = refl
  take-nil (suc n) = refl

  take-add : (n m : ℕ) (xs : List P) → take (n + m) xs ≡ take n xs ++ take m (drop n xs)
  take-add zero m xs = ap (λ (k : ℕ). take k xs) (omega arith)
  take-add (suc n) m [] = take-nil (suc n + m) ∙ sym (take-nil m)
  take-add (suc n) m (x ∷ xs) =
      let e : suc n + m ≡ suc (n + m) = omega arith in
      rw e (ap (λ (l : List P). x ∷ l) (take-add n m xs))

  -- The shares from `idx` on are what stands behind the start of that one.
  shares_from :
      (all_parts : List P) (n idx len : ℕ)
      → take (start (length all_parts) n idx) all_parts
          ++ concat (map (share all_parts n) (range_from idx len))
        ≡ take (start (length all_parts) n (idx + len)) all_parts
  unfolding share
  shares_from all_parts n idx zero =
      append-nil _ ∙ ap (λ (k : ℕ). take (start (length all_parts) n k) all_parts) (omega arith)
  shares_from all_parts n idx (suc len) =
      let parts : ℕ = length all_parts in
      let next : suc idx + len ≡ idx + suc len = omega arith in
      sym (append_assoc (take (start parts n idx) all_parts) _ _)
      ∙ ap (λ (l : List P). l ++ concat (map (share all_parts n) (range_from (suc idx) len)))
          (sym (take-add (start parts n idx) (num_parts parts n idx) all_parts)
            ∙ ap (λ (k : ℕ). take k all_parts) (start-suc parts n idx))
      ∙ shares_from all_parts n (suc idx) len
      ∙ ap (λ (k : ℕ). take (start parts n k) all_parts) next

  all_shares :
      (all_parts : List P) (n : ℕ)
      → 0 < n
      → concat (map (share all_parts n) (range_from 0 n)) ≡ all_parts
  all_shares all_parts n h =
      let e : 0 + n ≡ n = omega arith in
      let whole : take (start (length all_parts) n 0) all_parts
            ++ concat (map (share all_parts n) (range_from 0 n))
          ≡ take (start (length all_parts) n n) all_parts =
        shares_from all_parts n 0 n
        ∙ ap (λ (k : ℕ). take (start (length all_parts) n k) all_parts) e in
      let first = ap (λ (k : ℕ). take k all_parts) (start-zero (length all_parts) n) in
      ap (λ (l : List P). l ++ concat (map (share all_parts n) (range_from 0 n))) (sym first)
      ∙ whole
      ∙ ap (λ (k : ℕ). take k all_parts) (start-end (length all_parts) n h)
      ∙ take-length all_parts

  -- The partitions of one participant are as many as those of another, or one more or less: the quotient,
  -- or one more than it for the first ones.
  pub length-share :
      (all_parts : List P) (n idx : ℕ)
      → idx < n
      → length (share all_parts n idx)
        ≡ length all_parts / n + (if ltb idx (length all_parts % n) then 1 else 0)
  unfolding share
  length-share all_parts n idx h =
      let parts : ℕ = length all_parts in
      let room : min (num_parts parts n idx) (parts - start parts n idx) ≡ num_parts parts n idx =
        omega (arith, share_room parts n idx h) in
      rw (length-take, length-drop, room) (num_parts-if parts n idx)

map_ok {ℓ} : {P : Type ℓ} (f : ℕ → P) (xs : List ℕ) → map (λ i. ok (f i)) xs ≡ map ok (map f xs)
map_ok f [] = refl
map_ok f (x ∷ xs) = ap (λ (l : List (Result _)). ok (f x) ∷ l) (map_ok f xs)

-- The participants of a group, at least one and none of them twice, each by itself decide on shares that
-- make up the partitions of the topic: put together in the order of the participants they are its
-- partitions in their order, none left out and none owned twice.
pub decide_partitions-concat {ℓ} :
    {P : Type ℓ} (key : P → List ℕ) (partitions : List P) (participants : List (List ℕ))
    → Distinct participants
    → 0 < length participants
    → (shares : List (List P)) × (map
          (λ p. decide_partitions key partitions p participants)
          (sorted bytes_leb participants)
        ≡ map ok shares)
      × (concat shares ≡ sorted (λ p q. bytes_leb (key p) (key q)) partitions)
unfolding decide_partitions
decide_partitions-concat key partitions participants d h =
    let ps : List (List ℕ) = sorted bytes_leb participants in
    let parts : List _ = sorted (λ p q. bytes_leb (key p) (key q)) partitions in
    let each = indices (share parts (length ps)) 0 ps (sorted-Distinct participants d) in
    (
      map (share parts (length ps)) (range_from 0 (length ps)),
      each ∙ map_ok _ _,
      all_shares parts (length ps) (omega (arith, length-sorted bytes_leb participants)),
    )
