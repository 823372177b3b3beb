-- ===== src/Unpack.antt =====
-- pykafka/utils/struct_helpers.py: `unpack_from` with the formats `[...]`, `S` and `Y`.
pub mod Schema
pub mod Reading
pub mod Brackets
pub mod Arrays
pub mod RoundTrip
pub mod Ended
use pykafka.Prelude.{
  ℕ, zero, suc, ℤ, pos, negsuc, ◌+◌, Bool, true, false, ◌&&◌, ◌||◌, Option, none, some, List, [],
  ◌∷◌, ◌++◌, pos_part, length, ◌==◌, if◌then◌else◌,
}
use pykafka.Result.{Result, ok, err, struct_error, index_error, out_of_fuel, ◌>>=◌}
use pykafka.Struct.{Format, int8, uint8, int16, int32, uint32, int64, size, read, unpack_int}

-- What unpacking returns: numbers, byte strings, None, tuples and lists.
mutual
  pub data Value : Type 0 where
    int : ℤ → Value
    bytes : List ℕ → Value
    null : Value
    tuple : Values → Value
    list : Values → Value

  pub data Values : Type 0 where
    nil : Values
    cons : Value → Values → Values

abbrev pub append : Values → Values → Values
append nil ws = ws
append (cons v vs) ws = cons v (append vs ws)

abbrev pub count_values : Values → ℕ
count_values nil = 0
count_values (cons v vs) = suc (count_values vs)

-- The letters of `struct` that the formats of this program use.
abbrev pub letter : ℕ → Option Format
letter ch =
    if ch == b'b'
    then some int8
    else if ch == b'B'
    then some uint8
    else if ch == b'h'
    then some int16
    else if ch == b'i'
    then some int32
    else if ch == b'I'
    then some uint32
    else if ch == b'q'
    then some int64
    else none

-- str.count of one character
abbrev pub count : ℕ → List ℕ → ℕ
count ch [] = 0
count ch (x ∷ xs) = let rest = count ch xs in if x == ch then suc rest else rest

-- '%ds' % len, which is no format where `len` is negative, and None where it is -1.
unfoldable pub unpack_text : ℤ → List ℕ → ℕ → Result (Value × ℕ)
unpack_text (pos n) buff offset = do s ← read n buff offset; ok (bytes s, offset + n)
unpack_text (negsuc zero) buff offset = ok (null, offset)
unpack_text (negsuc (suc n)) buff offset = err struct_error

-- 'S' and 'Y'
unfoldable pub unpack_counted : Format → List ℕ → ℕ → Result (Value × ℕ)
unpack_counted f buff offset = do
  len ← unpack_int f buff offset
  unpack_text len buff (offset + size f)

unfoldable pub unpack_letter : Option Format → List ℕ → ℕ → Result (Value × ℕ)
unpack_letter none buff offset = err struct_error
unpack_letter (some f) buff offset = do z ← unpack_int f buff offset; ok (int z, offset + size f)

-- The last branch of the loop in `_unpack`: one item that is no array.
unfoldable pub unpack_item : ℕ → List ℕ → ℕ → Result (Value × ℕ)
unpack_item ch buff offset =
    if ch == b'S'
    then unpack_counted int16 buff offset
    else if ch == b'Y'
    then unpack_counted int32 buff offset
    else unpack_letter (letter ch) buff offset

-- The recursive call `_unpack(fmt, buff, offset)` on the buffer at hand.
abbrev pub Unpacker : Type 0
Unpacker = List ℕ → ℕ → Result (Values × ℕ)

-- The loop of `_unpack_array`: `n` items, each a tuple.
unfoldable pub unpack_rows : Unpacker → List ℕ → ℕ → ℕ → Result (Values × ℕ)
unpack_rows rec fmt zero offset = ok (nil, offset)
unpack_rows rec fmt (suc n) offset = do
  (item, offset') ← rec fmt offset
  (rest, offset'') ← unpack_rows rec fmt n offset'
  ok (cons (tuple item) rest, offset'')

-- itertools.chain.from_iterable of tuples
abbrev pub chain : Values → Values
chain nil = nil
chain (cons (tuple vs) rest) = append vs (chain rest)
chain (cons v rest) = cons v (chain rest)

unfoldable pub unpack_array : Unpacker → List ℕ → ℕ → ℤ → Result (Values × ℕ)
unpack_array rec fmt offset n = do
  (output, offset') ← unpack_rows rec fmt (pos_part n) offset
  ok (if length fmt == 1 then chain output else output, offset')

-- The loop of `_unpack` over the characters of the format. `array_fmt` is none where the code has
-- None: outside of brackets.
unfoldable pub scan :
    Unpacker → List ℕ → List ℕ → Values → Option (List ℕ) → ℕ → Result (Values × ℕ)
scan rec buff [] items array_fmt offset = ok (items, offset)
scan rec buff (ch ∷ fmt) items (some array_fmt) offset =
    let done = unpack_int int32 buff offset >>= λ n.
    unpack_array rec array_fmt (offset + 4) n >>= λ p.
    scan rec buff fmt (append items (cons (list p.0) nil)) none p.1 in
    let more = scan rec buff fmt items (some (array_fmt ++ ch ∷ [])) offset in
    if ch == b']' && count b'[' array_fmt == count b']' array_fmt then done else more
scan rec buff (ch ∷ fmt) items none offset =
    let array = scan rec buff fmt items (some []) offset in
    let item = unpack_item ch buff offset >>= λ p.
    scan rec buff fmt (append items (cons p.0 nil)) none p.1 in
    if ch == b'[' then array else item

-- `_unpack`. The fuel bounds how deep arrays nest.
unfoldable pub unpack : ℕ → List ℕ → List ℕ → ℕ → Result (Values × ℕ)
unpack zero fmt buff offset = err out_of_fuel
unpack (suc n) fmt buff offset = scan (λ f o. unpack n f buff o) buff fmt nil none offset

-- fmt.replace(' ', '')
abbrev pub without_spaces : List ℕ → List ℕ
without_spaces [] = []
without_spaces (ch ∷ fmt) = let rest = without_spaces fmt in if ch == b' ' then rest else ch ∷ rest

-- `if fmt[0] in '!><': fmt = fmt[1:]`
abbrev pub without_order : List ℕ → List ℕ
without_order [] = []
without_order (ch ∷ fmt) = if ch == b'!' || ch == b'>' || ch == b'<' then fmt else ch ∷ fmt

-- `if fmt[0] == '[' and len(output) == 1: output = output[0]`
unfoldable pub unwrap : List ℕ → Values → Result Value
unwrap [] output = err index_error
unwrap (ch ∷ fmt) (cons v nil) = if ch == b'[' then ok v else ok (tuple (cons v nil))
unwrap (ch ∷ fmt) output = ok (tuple output)

-- No format nests arrays deeper than it is long, so its length is fuel enough.
unfoldable pub unpack_from : List ℕ → List ℕ → ℕ → Result Value
unfolding unwrap
unpack_from fmt buff offset =
    let fmt' = without_order (without_spaces fmt) in
    unpack (suc (length fmt')) fmt' buff offset >>= λ p. unwrap fmt' p.0
