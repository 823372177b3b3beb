-- ===== src/Partitioners.antt =====
-- pykafka/partitioners.py: HashingPartitioner.
pub mod Chosen
use pykafka.Prelude.{
  ℕ, zero, suc, ℤ, pos, negsuc, ◌%◌, Bool, Option, none, some, List, [], ◌∷◌, length, pos_part,
  neg_part, ◌+◌,
}
use pykafka.Sorted.{sorted}
use pykafka.Result.{
  Result, ok, err, type_error, ◌>>=◌, value_error, index_error, zero_division_error,
}

-- xs[n]
unfoldable pub item {ℓ} : {P : Type ℓ} → List P → ℕ → Result P
item [] n = err index_error
item (x ∷ xs) zero = ok x
item (x ∷ xs) (suc n) = item xs n

-- abs
abbrev pub abs : ℤ → ℕ
abs z = pos_part z + neg_part z

-- `partitions[abs(self.hash_func(key)) % len(partitions)]`
unfoldable pub pick {ℓ} : {P : Type ℓ} → List P → ℕ → Result P
pick [] hash = err zero_division_error
pick (p ∷ ps) hash = item (p ∷ ps) (hash % length (p ∷ ps))

-- sorted(partitions), where partitions have an order, as all objects have in Python 2. Where they have none,
-- as in Python 3, comparing two of them is a TypeError.
unfoldable pub sorted_partitions {ℓ} :
    {P : Type ℓ} → Option (P → P → Bool) → List P → Result (List P)
sorted_partitions (some before) partitions = ok (sorted before partitions)
sorted_partitions none [] = ok []
sorted_partitions none (p ∷ []) = ok (p ∷ [])
sorted_partitions none (p ∷ (q ∷ partitions)) = err type_error

-- __call__. `order` is the order of partitions, if they have one, `hash_func` the field of this name.
unfoldable pub hashing_partitioner {ℓ κ} :
    {P : Type ℓ} {K : Type κ} → Option (P → P → Bool) → (K → ℤ) → List P → Option K → Result P
unfolding sorted_partitions
hashing_partitioner order hash_func partitions none = err value_error
hashing_partitioner order hash_func partitions (some key) =
    sorted_partitions order partitions >>= λ sorted_list. pick sorted_list (abs (hash_func key))
