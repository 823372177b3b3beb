-- ===== src/Slice.antt =====
-- Slices of Python's sequences, whose bounds may be negative.
use pykafka.Prelude.{ℕ, suc, ℤ, pos, negsuc, ◌-◌, List, length, take, drop}

-- Where a bound of a slice stands in a sequence of `len` items.
abbrev pub index : ℕ → ℤ → ℕ
index len (pos n) = n
index len (negsuc n) = len - suc n

-- buff[lo:hi]
unfoldable pub slice : List ℕ → ℤ → ℤ → List ℕ
slice buff lo hi =
    let len = length buff in take (index len hi - index len lo) (drop (index len lo) buff)

-- buff[lo:]
unfoldable pub slice_from : List ℕ → ℤ → List ℕ
slice_from buff lo = drop (index (length buff) lo) buff
