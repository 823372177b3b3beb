-- ===== src/Struct.antt =====
-- Python's `struct` with the network byte order ('!'), as far as pykafka/protocol.py and
-- pykafka/utils/struct_helpers.py use it. A buffer is a list of bytes, each a number below 256.
pub mod Numbers
pub mod Pack
use pykafka.Prelude.{
  ℕ, zero, suc, ℤ, pos, negsuc, ◌+◌, ◌-◌, ◌*◌, ◌/◌, ◌%◌, Bool, List, [], ◌∷◌, ◌++◌, ltb, leb,
  length, take, drop, replicate, if◌then◌else◌,
}
use pykafka.Result.{Result, ok, err, struct_error, ◌>>=◌, ◌>>◌, require}

-- The letters b, B, h, i, I and q of a format.
pub data Format : Type 0 where
  int8 uint8 int16 int32 uint32 int64 : Format

abbrev pub size : Format → ℕ
size int8 = 1
size uint8 = 1
size int16 = 2
size int32 = 4
size uint32 = 4
size int64 = 8

-- One more than the largest value.
abbrev pub upper : Format → ℕ
upper int8 = 0x80
upper uint8 = 0x100
upper int16 = 0x8000
upper int32 = 0x8000_0000
upper uint32 = 0x1_0000_0000
upper int64 = 0x8000_0000_0000_0000

-- How many negative values there are.
abbrev pub lower : Format → ℕ
lower uint8 = 0
lower uint32 = 0
lower f = upper f

abbrev pub fits : Format → ℤ → Bool
fits f (pos n) = ltb n (upper f)
fits f (negsuc n) = ltb n (lower f)

-- Two's complement, and back.
unfoldable pub word : Format → ℤ → ℕ
word f (pos n) = n
word f (negsuc n) = upper f + lower f - 1 - n

unfoldable pub of_word : Format → ℕ → ℤ
of_word f w = if ltb w (upper f) then pos w else negsuc (upper f + lower f - 1 - w)

-- Big-endian digits.
unfoldable pub to_bytes : ℕ → ℕ → List ℕ
to_bytes zero n = []
to_bytes (suc k) n = to_bytes k (n / 256) ++ n % 256 ∷ []

unfoldable pub from_bytes : ℕ → List ℕ → ℕ
from_bytes acc [] = acc
from_bytes acc (b ∷ bs) = from_bytes (acc * 256 + b) bs

-- A format letter with its argument: a number, or '%ds' % n with a byte string.
pub data Field : Type 0 where
  int : Format → ℤ → Field
  text : ℕ → List ℕ → Field

unfoldable pub pack_field : Field → Result (List ℕ)
unfolding word to_bytes
pack_field (int f z) = if fits f z then ok (to_bytes (size f) (word f z)) else err struct_error
pack_field (text n s) = ok (take n (s ++ replicate n 0))

-- struct.pack('!...', ...)
unfoldable pub pack : List Field → Result (List ℕ)
unfolding pack_field
pack [] = ok []
pack (f ∷ fs) = do head ← pack_field f; rest ← pack fs; ok (head ++ rest)

abbrev pub field_size : Field → ℕ
field_size (int f z) = size f
field_size (text n s) = n

-- struct.calcsize('!...')
abbrev pub calcsize : List Field → ℕ
calcsize [] = 0
calcsize (f ∷ fs) = field_size f + calcsize fs

-- Assignment of a slice that has the length of the bytes written.
unfoldable pub overwrite : List ℕ → ℕ → List ℕ → List ℕ
overwrite buff offset bytes = take offset buff ++ bytes ++ drop (offset + length bytes) buff

-- struct.pack_into('!...', buff, offset, ...): the buffer after it.
unfoldable pub pack_into : List Field → List ℕ → ℕ → Result (List ℕ)
unfolding pack overwrite
pack_into fs buff offset = do
  bytes ← pack fs
  require (leb (offset + calcsize fs) (length buff)) struct_error
  ok (overwrite buff offset bytes)

-- The bytes that struct.unpack_from reads, `n` of them at `offset`.
unfoldable pub read : ℕ → List ℕ → ℕ → Result (List ℕ)
read n buff offset =
    require (leb (offset + n) (length buff)) struct_error >> ok (take n (drop offset buff))

-- struct.unpack_from('!' + letter, buff, offset)[0]
unfoldable pub unpack_int : Format → List ℕ → ℕ → Result ℤ
unpack_int f buff offset = do bytes ← read (size f) buff offset; ok (of_word f (from_bytes 0 bytes))
