-- ===== src/Unpack/Reading.antt =====
-- Reading back what was packed: numbers and counted byte strings at an offset of a buffer.
use pykafka.Prelude.{
  ℕ, ℤ, pos, negsuc, ◌+◌, ◌≡◌, sym, ap, ◌∙◌, arith, true, false, List, [], ◌∷◌, ◌++◌, append-nil,
  append_assoc, length, length-append, drop, take-append, drop-append, drop-add, le→leb, leb, inl,
  inr, Bool-cases,
}
use pykafka.Slice.{slice, slice_from}
use pykafka.Result.{ok, >>=-eq-ok}
use pykafka.Struct.{
  Format, int8, uint8, int16, int32, uint32, int64, size, fits, word, to_bytes, pack, text, read,
  unpack_int,
}
use pykafka.Struct.{int as int_field}
use pykafka.Struct.{of_word, from_bytes}
use pykafka.Struct.Pack.{cat, pack-append}
use pykafka.Struct.Numbers.{length-to_bytes, of_word-from_bytes}
use pykafka.Unpack.{
  Value, int, bytes, null, tuple, list, unpack_text, unpack_counted, unpack_letter, unpack_item,
}
use pykafka.Unpack.Schema.{letter_of, counted_bytes, int_bytes}
use pykafka.Prelude.{◌-◌}
use pykafka.Prelude.{length-drop}

-- At `offset` the buffer holds `content`, and `rest` behind it.
pub record Holds (buff : List ℕ) (offset : ℕ) (content rest : List ℕ) : Type 0 where
  pub fits : offset + length content + length rest ≡ length buff
  pub at : drop offset buff ≡ content ++ rest

pub Holds-first :
    {buff : List ℕ} {offset : ℕ} (x y : List ℕ) {rest : List ℕ}
    → Holds buff offset (x ++ y) rest
    → Holds buff offset x (y ++ rest)
Holds-first x y {rest} h = record {
  fits = omega (arith, h.fits, length-append x y, length-append y rest);
  at = h.at ∙ append_assoc x y rest;
}

pub Holds-then :
    {buff : List ℕ} {offset : ℕ} (x y : List ℕ) {rest : List ℕ}
    → Holds buff offset (x ++ y) rest
    → Holds buff (offset + length x) y rest
Holds-then {buff} {offset} x y {rest} h = record {
  fits = omega (arith, h.fits, length-append x y);
  at =
      drop-add offset (length x) buff
      ∙ rw (h.at, append_assoc x y rest) (drop-append x (y ++ rest));
}

pub read-Holds :
    {buff : List ℕ} {offset : ℕ} (content : List ℕ) {rest : List ℕ}
    → Holds buff offset content rest
    → read (length content) buff offset ≡ ok content
unfolding read
read-Holds {buff} {offset} content {rest} h =
    let room : leb (offset + length content) (length buff) ≡ true =
      le→leb _ _ (omega (arith, h.fits)) in
    rw (room, h.at, take-append)

-- A number that `pack` accepted.
pub pack_int-eq :
    (f : Format) (z : ℤ) (content : List ℕ)
    → pack (int_field f z ∷ []) ≡ ok content
    → (fits f z ≡ true) × (to_bytes (size f) (word f z) ≡ content)
unfolding pack
pack_int-eq f z content h = elim (Bool-cases (fits f z)) [
  | inl p ↦
      let e : ok (to_bytes (size f) (word f z) ++ []) ≡ ok content = rw p at h in
      (p, sym (append-nil _) ∙ cc)
  | inr p ↦ absurd (pack_ne p h)
]
  where
    pack_ne : fits f z ≡ false → pack (int_field f z ∷ []) ≡ ok content → ⊥
    pack_ne p h = ground arith

pub unpack_int-Holds :
    {buff : List ℕ} {offset : ℕ} (f : Format) (z : ℤ) (content : List ℕ) {rest : List ℕ}
    → pack (int_field f z ∷ []) ≡ ok content
    → Holds buff offset content rest
    → (unpack_int f buff offset ≡ ok z) × (length content ≡ size f)
unfolding unpack_int
unpack_int-Holds {buff} {offset} f z content h holds =
    let (in_range, e) = pack_int-eq f z content h in
    let sized : length content ≡ size f = ap length (sym e) ∙ length-to_bytes (size f) (word f z) in
    let number : of_word f (from_bytes 0 content) ≡ z =
      rw (← e) (of_word-from_bytes f z in_range) in
    (rw (← sized, read-Holds content holds, number), sized)

pack_text : (s : List ℕ) → pack (text (length s) s ∷ []) ≡ ok s
unfolding pack
pack_text s = rw (take-append, append-nil s)

-- A length and the bytes behind it.
counted_parts :
    (f : Format) (s content : List ℕ)
    → counted_bytes f (bytes s) ≡ ok content
    → (x : List ℕ) × (pack (int_field f (pos (length s)) ∷ []) ≡ ok x) × (x ++ s ≡ content)
counted_parts f s content h =
    let parts : cat (pack (int_field f (pos (length s)) ∷ [])) (ok s) ≡ ok content =
      ap (cat (pack (int_field f (pos (length s)) ∷ []))) (sym (pack_text s))
      ∙ sym (pack-append (int_field f (pos (length s)) ∷ []) (text (length s) s ∷ []))
      ∙ h in
    let (x, ex, e) = >>=-eq-ok (pack (int_field f (pos (length s)) ∷ [])) _ parts in (x, ex, cc)

-- `extend` by '%ds' % n reads the bytes that `pack` wrote for it.
pub unpack_counted-Holds :
    {buff : List ℕ} {offset : ℕ} (f : Format) (v : Value) (content : List ℕ) {rest : List ℕ}
    → counted_bytes f v ≡ ok content
    → Holds buff offset content rest
    → unpack_counted f buff offset ≡ ok (v, offset + length content)
unfolding unpack_counted unpack_text
unpack_counted-Holds {buff} {offset} f (bytes s) content {rest} h holds =
    let (x, ex, e) = counted_parts f s content h in
    let whole : Holds buff offset (x ++ s) rest = rw e holds in
    let (number, sized) = unpack_int-Holds f (pos (length s)) x ex (Holds-first x s whole) in
    let there : Holds buff (offset + size f) s rest = rw (← sized) (Holds-then x s whole) in
    let next : offset + size f + length s ≡ offset + length content =
      rw (← e) (omega (arith, sized, length-append x s)) in
    rw (number, read-Holds s there, next)
unpack_counted-Holds {buff} {offset} f null content {rest} h holds =
    let (number, sized) = unpack_int-Holds f (negsuc 0) content h holds in rw (number, sized)
unpack_counted-Holds f (int z) content h holds = cc
unpack_counted-Holds f (tuple vs) content h holds = cc
unpack_counted-Holds f (list vs) content h holds = cc

-- The item that the letter of a number's format reads.
pub unpack_item-num :
    {buff : List ℕ} {offset : ℕ} (f : Format) (v : Value) (content : List ℕ) {rest : List ℕ}
    → int_bytes f v ≡ ok content
    → Holds buff offset content rest
    → unpack_item (letter_of f) buff offset ≡ ok (v, offset + length content)
unfolding unpack_item unpack_letter
unpack_item-num {buff} {offset} f (int z) content h holds =
    let (number, sized) = unpack_int-Holds f z content h holds in by_letter f number sized
  where
    by_letter :
        (f : Format)
        → unpack_int f buff offset ≡ ok z
        → length content ≡ size f
        → unpack_item (letter_of f) buff offset ≡ ok (int z, offset + length content)
    by_letter int8 number sized = rw (number, sized)
    by_letter uint8 number sized = rw (number, sized)
    by_letter int16 number sized = rw (number, sized)
    by_letter int32 number sized = rw (number, sized)
    by_letter uint32 number sized = rw (number, sized)
    by_letter int64 number sized = rw (number, sized)
unpack_item-num f (bytes s) content h holds = cc
unpack_item-num f null content h holds = cc
unpack_item-num f (tuple vs) content h holds = cc
unpack_item-num f (list vs) content h holds = cc

pub unpack_item-string :
    {buff : List ℕ} {offset : ℕ} (v : Value) (content : List ℕ) {rest : List ℕ}
    → counted_bytes int16 v ≡ ok content
    → Holds buff offset content rest
    → unpack_item b'S' buff offset ≡ ok (v, offset + length content)
unfolding unpack_item
unpack_item-string v content h holds = unpack_counted-Holds int16 v content h holds

pub unpack_item-blob :
    {buff : List ℕ} {offset : ℕ} (v : Value) (content : List ℕ) {rest : List ℕ}
    → counted_bytes int32 v ≡ ok content
    → Holds buff offset content rest
    → unpack_item b'Y' buff offset ≡ ok (v, offset + length content)
unfolding unpack_item
unpack_item-blob v content h holds = unpack_counted-Holds int32 v content h holds

-- The slice of what the buffer holds.
pub slice-Holds :
    {buff : List ℕ} {offset : ℕ} (content : List ℕ) {rest : List ℕ}
    → Holds buff offset content rest
    → slice buff (pos offset) (pos (offset + length content)) ≡ content
unfolding slice
slice-Holds {buff} {offset} content {rest} holds =
    let n : offset + length content - offset ≡ length content = omega arith in
    rw (n, holds.at) (take-append content rest)

-- What follows an offset, as a buffer of its own.
pub Holds-slice_from :
    {buff : List ℕ} {offset : ℕ} {content rest : List ℕ}
    → Holds buff offset content rest
    → Holds (slice_from buff (pos offset)) 0 content rest
unfolding slice_from
Holds-slice_from {buff} {offset} {content} {rest} h = record {
  fits = omega (arith, h.fits, length-drop offset buff);
  at = h.at;
}
