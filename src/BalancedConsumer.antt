-- ===== src/BalancedConsumer.antt =====
-- pykafka/balancedconsumer.py: which partitions a consumer of a group owns.
pub mod Order
pub mod Shares
use pykafka.Prelude.{
  ℕ, zero, suc, ◌+◌, ◌-◌, ◌*◌, ◌/◌, ◌%◌, min, leb, ltb, Bool, true, false, ◌||◌, ◌&&◌, ◌==◌, List,
  [], ◌∷◌, length, take, drop, if◌then◌else◌,
}
use pykafka.Sorted.{insert_sorted, sorted}
use pykafka.Result.{Result, ok, err, value_error, ◌>>=◌}
use pykafka.Dict.{bytes_beq}

-- Python's order on byte strings.
abbrev pub bytes_leb : List ℕ → List ℕ → Bool
bytes_leb [] ys = true
bytes_leb (x ∷ xs) [] = false
bytes_leb (x ∷ xs) (y ∷ ys) = ltb x y || (x == y && bytes_leb xs ys)

-- list.index, from a number on.
unfoldable pub index_from : ℕ → List ℕ → List (List ℕ) → Result ℕ
index_from n x [] = err value_error
index_from n x (y ∷ ys) = let rest = index_from (suc n) x ys in if bytes_beq y x then ok n else rest

-- Where the share of the consumer at `idx` starts, and how many partitions it has.
unfoldable pub start : ℕ → ℕ → ℕ → ℕ
start parts participants idx = (parts / participants) * idx + min idx (parts % participants)

unfoldable pub num_parts : ℕ → ℕ → ℕ → ℕ
num_parts parts participants idx =
    parts / participants + (if ltb (parts % participants) (idx + 1) then 0 else 1)

-- itertools.islice(all_parts, start, start + num_parts)
unfoldable pub share {ℓ} : {P : Type ℓ} → List P → ℕ → ℕ → List P
share all_parts participants idx =
    take (num_parts (length all_parts) participants idx)
      (drop (start (length all_parts) participants idx) all_parts)

-- _decide_partitions. `key` is `p_to_str`.
unfoldable pub decide_partitions {ℓ} :
    {P : Type ℓ} → (P → List ℕ) → List P → List ℕ → List (List ℕ) → Result (List P)
decide_partitions key partitions consumer_id participants = do
  let all_parts = sorted (λ p q. bytes_leb (key p) (key q)) partitions
  let ps = sorted bytes_leb participants
  idx ← index_from 0 consumer_id ps
  ok (share all_parts (length ps) idx)
