-- ===== src/Unpack/Arrays.antt =====
-- Reading one letter, and reading an array, when its items can be read.
use pykafka.Prelude.{
  ℕ, ℤ, pos, ◌+◌, ◌≡◌, refl, ap, ◌∙◌, arith, Bool, true, false, some, none, List, [], ◌∷◌, ◌++◌,
  append_assoc, ◌==◌, ==_refl, length, length-append, if◌then◌else◌,
}
use pykafka.Result.{Result, ok, ◌>>=◌, >>=-eq-ok}
use pykafka.Struct.{Format, int8, uint8, int16, int32, uint32, int64, pack, unpack_int}
use pykafka.Struct.{int as int_field}
use pykafka.Unpack.{
  Value, Values, int, bytes, null, tuple, list, nil, cons, append, count_values, Unpacker, count,
  unpack_item, unpack_rows, unpack_array, chain, scan, unpack,
}
use pykafka.Unpack.Schema.{
  Schemas, array, show, show_all, letter_of, rows_bytes, row_values, is_single, encode, encode_all,
}
use pykafka.Unpack.Reading.{Holds, Holds-first, Holds-then, unpack_int-Holds}
use pykafka.Unpack.Brackets.{collect_array, show_all-balanced_lem}

pub append-nil_values : (vs : Values) → append vs nil ≡ vs
append-nil_values nil = refl
append-nil_values (cons v vs) = ap (cons v) (append-nil_values vs)

pub append_assoc_values : (us vs ws : Values) → append (append us vs) ws ≡ append us (append vs ws)
append_assoc_values nil vs ws = refl
append_assoc_values (cons u us) vs ws = ap (cons u) (append_assoc_values us vs ws)

-- The output of an array over one letter is flattened.
abbrev flat : Bool → Values → Values
flat single output = if single then chain output else output

flat-row :
    (single : Bool) (v : Value) (ws rows : Values)
    → row_values single v ≡ ok ws
    → flat single (cons (tuple ws) rows) ≡ cons v (flat single rows)
flat-row true v ws rows h = let e : cons v nil ≡ ws = cc in rw (← e)
flat-row false (tuple vs) ws rows h = let e : vs ≡ ws = cc in rw (← e)
flat-row false (int z) ws rows h = cc
flat-row false (bytes s) ws rows h = cc
flat-row false null ws rows h = cc
flat-row false (list vs) ws rows h = cc

-- `rec` reads back what `enc` wrote.
abbrev pub Reads : List ℕ → Unpacker → List ℕ → (Values → Result (List ℕ)) → Type 0
Reads buff rec fmt enc =
    (ws : Values) (content : List ℕ) (offset : ℕ) (rest : List ℕ)
    → enc ws ≡ ok content
    → Holds buff offset content rest
    → rec fmt offset ≡ ok (ws, offset + length content)

module _ (buff : List ℕ) (rec : Unpacker) (fmt : List ℕ) (single : Bool)
    (enc : Values → Result (List ℕ)) where
  abbrev row_bytes : Value → Result (List ℕ)
  row_bytes row = row_values single row >>= enc

  unpack_rows-Holds :
      Reads buff rec fmt enc
      → (vs : Values) (content : List ℕ) (offset : ℕ) (rest : List ℕ)
      → rows_bytes row_bytes vs ≡ ok content
      → Holds buff offset content rest
      → (rows : Values) × (unpack_rows rec fmt (count_values vs) offset
          ≡ ok (rows, offset + length content))
        × (flat single rows ≡ vs)
  unfolding unpack_rows
  unpack_rows-Holds reads nil content offset rest h holds =
      let e : [] ≡ content = cc in
      (nil, rw (← e) (ap (λ k. ok (nil, k)) (omega arith)), ground arith)
  unpack_rows-Holds reads (cons v vs) content offset rest h holds =
      let (x, ex, h1) = >>=-eq-ok (row_bytes v) _ h in
      let (y, ey, h2) = >>=-eq-ok (rows_bytes row_bytes vs) _ h1 in
      let e : x ++ y ≡ content = cc in
      let (ws, ew, enc_ws) = >>=-eq-ok (row_values single v) enc ex in
      let whole : Holds buff offset (x ++ y) rest = rw e holds in
      let first = reads ws x offset (y ++ rest) enc_ws (Holds-first x y whole) in
      let (rows, eq, same) =
        unpack_rows-Holds reads vs y (offset + length x) rest ey (Holds-then x y whole) in
      let next : offset + length x + length y ≡ offset + length content =
        rw (← e) (omega (arith, length-append x y)) in
      (cons (tuple ws) rows, rw (first, eq, next), flat-row single v ws rows ew ∙ ap (cons v) same)

abbrev pub unpacker : List ℕ → ℕ → Unpacker
unpacker buff n = λ f o. unpack n f buff o

pub no_bracket : (f : Format) → (letter_of f == b'[') ≡ false
no_bracket int8 = refl
no_bracket uint8 = refl
no_bracket int16 = refl
no_bracket int32 = refl
no_bracket uint32 = refl
no_bracket int64 = refl

module _ (rec : Unpacker) (buff : List ℕ) where
  pub scan_one :
      (ch : ℕ) (fmt : List ℕ) (items : Values) (offset : ℕ) (v : Value) (offset' : ℕ)
      → (ch == b'[') ≡ false
      → unpack_item ch buff offset ≡ ok (v, offset')
      → scan rec buff (ch ∷ fmt) items none offset
        ≡ scan rec buff fmt (append items (cons v nil)) none offset'
  unfolding scan
  scan_one ch fmt items offset v offset' h e = rw (h, e)

  scan_close :
      (ss : Schemas) (fmt : List ℕ) (items vs : Values) (n : ℤ) (offset offset' : ℕ)
      → unpack_int int32 buff offset ≡ ok n
      → unpack_array rec (show_all ss) (offset + 4) n ≡ ok (vs, offset')
      → scan rec buff (b']' ∷ fmt) items (some (show_all ss)) offset
        ≡ scan rec buff fmt (append items (cons (list vs) nil)) none offset'
  unfolding scan
  scan_close ss fmt items vs n offset offset' h e =
      rw (show_all-balanced_lem ss, ==_refl (count b']' (show_all ss)), h, e)

  unpack_array-Holds :
      (ss : Schemas) (vs : Values) (content : List ℕ) (offset : ℕ) (rest : List ℕ)
      → Reads buff rec (show_all ss) (encode_all ss)
      → rows_bytes (row_bytes buff rec (show_all ss) (is_single ss) (encode_all ss)) vs ≡ ok content
      → Holds buff offset content rest
      → unpack_array rec (show_all ss) offset (pos (count_values vs))
        ≡ ok (vs, offset + length content)
  unfolding unpack_array
  unpack_array-Holds ss vs content offset rest reads h holds =
      let (rows, e, same) =
        unpack_rows-Holds buff rec (show_all ss) (is_single ss) (encode_all ss) reads vs content
          offset rest h holds in
      rw (e, same)

  pub scan_array :
      (ss : Schemas) (fmt : List ℕ) (items : Values) (offset : ℕ) (v : Value)
      (content rest : List ℕ)
      → Reads buff rec (show_all ss) (encode_all ss)
      → encode (array ss) v ≡ ok content
      → Holds buff offset content rest
      → scan rec buff (show (array ss) ++ fmt) items none offset
        ≡ scan rec buff fmt (append items (cons v nil)) none (offset + length content)
  unfolding scan show encode
  scan_array ss fmt items offset (list vs) content rest reads h holds =
      let (x, ex, h1) = >>=-eq-ok (pack (int_field int32 (pos (count_values vs)) ∷ [])) _ h in
      let (y, ey, h2) =
        >>=-eq-ok (rows_bytes (row_bytes buff rec (show_all ss) (is_single ss) (encode_all ss)) vs)
          _ h1 in
      let e : x ++ y ≡ content = cc in
      let whole : Holds buff offset (x ++ y) rest = rw e holds in
      let (number, sized) =
        unpack_int-Holds int32 (pos (count_values vs)) x ex (Holds-first x y whole) in
      let there : Holds buff (offset + 4) y rest = rw (← sized) (Holds-then x y whole) in
      let next : offset + 4 + length y ≡ offset + length content =
        rw (← e) (omega (arith, sized, length-append x y)) in
      rw (append_assoc (show_all ss) (b']' ∷ []) fmt) (
        collect_array rec buff items offset ss (b']' ∷ fmt)
        ∙ scan_close ss fmt items vs (pos (count_values vs)) offset (offset + length content) number
            (rw (← next) (unpack_array-Holds ss vs y (offset + 4) rest reads ey there)))
  scan_array ss fmt items offset (int z) content rest reads h holds = cc
  scan_array ss fmt items offset (bytes s) content rest reads h holds = cc
  scan_array ss fmt items offset null content rest reads h holds = cc
  scan_array ss fmt items offset (tuple vs) content rest reads h holds = cc
