-- ===== src/Struct/Numbers.antt =====
-- A number that fits its format comes back from its bytes.
use Prim.Native.Nat.{◌^◌}
use native.Mathlib.Nat.{pow-suc}
use pykafka.Prelude.{
  ℕ, zero, suc, ℤ, ◌+◌, ◌*◌, ◌/◌, ◌%◌, ◌<◌, ◌≡◌, refl, ◌∙◌, true, arith, List, [], ◌∷◌, ◌++◌,
  length, length-append,
}
use pykafka.Struct.{Format, int8, size, fits, word, of_word, to_bytes, from_bytes}

pub length-to_bytes : (k n : ℕ) → length (to_bytes k n) ≡ k
unfolding to_bytes
length-to_bytes zero n = refl
length-to_bytes (suc k) n =
    length-append (to_bytes k (n / 256)) (n % 256 ∷ []) ∙ omega (arith, length-to_bytes k (n / 256))

from_bytes-snoc :
    (acc : ℕ) (bs : List ℕ) (b : ℕ) → from_bytes acc (bs ++ b ∷ []) ≡ from_bytes acc bs * 256 + b
unfolding from_bytes
from_bytes-snoc acc [] b = refl
from_bytes-snoc acc (x ∷ bs) b = from_bytes-snoc (acc * 256 + x) bs b

div_bound : (k n : ℕ) → n < 256 ^ suc k → n / 256 < 256 ^ k
div_bound k n h = omega (arith, pow-suc 256 k)

pub from_bytes-to_bytes : (k n : ℕ) → n < 256 ^ k → from_bytes 0 (to_bytes k n) ≡ n
unfolding to_bytes
from_bytes-to_bytes zero n h = unfold from_bytes in omega arith
from_bytes-to_bytes (suc k) n h =
    from_bytes-snoc 0 (to_bytes k (n / 256)) (n % 256)
    ∙ omega (arith, from_bytes-to_bytes k (n / 256) (div_bound k n h))

word_bound : (f : Format) (z : ℤ) → fits f z ≡ true → word f z < 256 ^ size f
unfolding word
word_bound int8 z h = ground arith
word_bound _ z h = ground arith

of_word-word : (f : Format) (z : ℤ) → fits f z ≡ true → of_word f (word f z) ≡ z
unfolding word of_word
of_word-word int8 z h = ground arith
of_word-word _ z h = ground arith

pub of_word-from_bytes :
    (f : Format) (z : ℤ)
    → fits f z ≡ true
    → of_word f (from_bytes 0 (to_bytes (size f) (word f z))) ≡ z
of_word-from_bytes f z h =
    rw (from_bytes-to_bytes (size f) (word f z) (word_bound f z h)) (of_word-word f z h)
