-- ===== src/Unpack/RoundTrip.antt =====
-- `unpack_from` reads back a value of a schema from its bytes, by the schema's text.
use pykafka.Prelude.{
  ℕ, zero, suc, ◌+◌, ◌≤◌, ◌<◌, ◌≡◌, refl, sym, ap, ◌∙◌, arith, none, List, [], ◌∷◌, ◌++◌,
  append_assoc, append-nil, length, length-append,
}
use pykafka.Result.{ok, >>=-eq-ok}
use pykafka.Unpack.{
  Value, Values, nil, cons, append, scan, unpack, unpack_from, unwrap, without_spaces,
  without_order,
}
use pykafka.Unpack.Schema.{
  Schema, Schemas, num, string, blob, array, end, also, show, show_all, depth, depth_all, letter_of,
  encode, encode_all,
}
use pykafka.Unpack.Reading.{
  Holds, Holds-first, Holds-then, unpack_item-string, unpack_item-blob, unpack_item-num,
}
use pykafka.Unpack.Arrays.{
  append-nil_values, append_assoc_values, Reads, unpacker, no_bracket, scan_one, scan_array,
}

module _ (buff : List ℕ) where
  -- The loop passes over the text of `ss` and adds the values that it reads.
  abbrev Scans : Schemas → ℕ → Type 0
  Scans ss n =
      (fmt : List ℕ) (items : Values) (offset : ℕ) (vs : Values) (content rest : List ℕ)
      → encode_all ss vs ≡ ok content
      → Holds buff offset content rest
      → scan (unpacker buff n) buff (show_all ss ++ fmt) items none offset
        ≡ scan (unpacker buff n) buff fmt (append items vs) none (offset + length content)

  Scans-Reads :
      (ss : Schemas) (n : ℕ)
      → Scans ss n
      → Reads buff (unpacker buff (suc n)) (show_all ss) (encode_all ss)
  unfolding unpack scan
  Scans-Reads ss n h vs content offset rest e holds =
      ap (λ f. scan (unpacker buff n) buff f nil none offset) (sym (append-nil (show_all ss)))
      ∙ h [] nil offset vs content rest e holds

  mutual
    unfolding show encode depth

    scan_item :
        (s : Schema) (n : ℕ) (fmt : List ℕ) (items : Values) (offset : ℕ) (v : Value)
        (content rest : List ℕ)
        → depth s ≤ n
        → encode s v ≡ ok content
        → Holds buff offset content rest
        → scan (unpacker buff n) buff (show s ++ fmt) items none offset
          ≡ scan
              (unpacker buff n)
              buff
              fmt
              (append items (cons v nil))
              none
              (offset + length content)
    scan_item (num f) n fmt items offset v content rest d h holds =
        scan_one _ buff (letter_of f) fmt items offset v _ (no_bracket f)
          (unpack_item-num f v content h holds)
    scan_item string n fmt items offset v content rest d h holds =
        scan_one _ buff b'S' fmt items offset v _ refl (unpack_item-string v content h holds)
    scan_item blob n fmt items offset v content rest d h holds =
        scan_one _ buff b'Y' fmt items offset v _ refl (unpack_item-blob v content h holds)
    scan_item (array ss) zero fmt items offset v content rest d h holds = absurd (omega arith)
    scan_item (array ss) (suc n) fmt items offset v content rest d h holds =
        scan_array (unpacker buff (suc n)) buff ss fmt items offset v content rest
          (Scans-Reads ss n
            (λ f is o ws x r e there. scan_all ss n f is o ws x r (omega arith) e there))
          h holds

    scan_all :
        (ss : Schemas) (n : ℕ) (fmt : List ℕ) (items : Values) (offset : ℕ) (vs : Values)
        (content rest : List ℕ)
        → depth_all ss ≤ n
        → encode_all ss vs ≡ ok content
        → Holds buff offset content rest
        → scan (unpacker buff n) buff (show_all ss ++ fmt) items none offset
          ≡ scan (unpacker buff n) buff fmt (append items vs) none (offset + length content)
    scan_all end n fmt items offset nil content rest d h holds =
        let e : [] ≡ content = cc in
        let next : offset + 0 ≡ offset = omega arith in rw (← e, append-nil_values items, next)
    scan_all end n fmt items offset (cons v vs) content rest d h holds = cc
    scan_all (also s ss) n fmt items offset nil content rest d h holds = cc
    scan_all (also s ss) n fmt items offset (cons v vs) content rest d h holds =
        let (x, ex, h1) = >>=-eq-ok (encode s v) _ h in
        let (y, ey, h2) = >>=-eq-ok (encode_all ss vs) _ h1 in
        let e : x ++ y ≡ content = cc in
        let whole : Holds buff offset (x ++ y) rest = rw e holds in
        let next : offset + length x + length y ≡ offset + length content =
          rw (← e) (omega (arith, length-append x y)) in
        rw (append_assoc (show s) (show_all ss) fmt) (
          scan_item s n (show_all ss ++ fmt) items offset v x (y ++ rest) (omega arith) ex
            (Holds-first x y whole)
          ∙ scan_all ss n fmt (append items (cons v nil)) (offset + length x) vs y rest
              (omega arith) ey (Holds-then x y whole)
          ∙ rw (append_assoc_values items (cons v nil) vs, next))

  scans : (ss : Schemas) (n : ℕ) → depth_all ss ≤ n → Scans ss n
  scans ss n d fmt items offset vs content rest e holds =
      scan_all ss n fmt items offset vs content rest d e holds

  -- `_unpack` reads back the values of a format from their bytes, wherever in the buffer they stand
  -- and whatever follows them, and moves behind them, if its fuel is more than the arrays nest.
  pub unpack-encode :
      (ss : Schemas) (n : ℕ) (vs : Values) (content : List ℕ) (offset : ℕ) (rest : List ℕ)
      → depth_all ss < n
      → encode_all ss vs ≡ ok content
      → Holds buff offset content rest
      → unpack n (show_all ss) buff offset ≡ ok (vs, offset + length content)
  unpack-encode ss zero vs content offset rest d e holds = absurd (omega arith)
  unpack-encode ss (suc n) vs content offset rest d e holds =
      Scans-Reads ss n (scans ss n (omega arith)) vs content offset rest e holds

-- The text of a format is longer than its arrays nest.
mutual
  unfolding show depth

  depth-le : (s : Schema) → depth s ≤ length (show s)
  depth-le (num f) = omega arith
  depth-le string = omega arith
  depth-le blob = omega arith
  depth-le (array ss) = omega (arith, length-append (show_all ss) (b']' ∷ []), depth_all-le ss)

  depth_all-le : (ss : Schemas) → depth_all ss ≤ length (show_all ss)
  depth_all-le end = omega arith
  depth_all-le (also s ss) =
      omega (arith, length-append (show s) (show_all ss), depth-le s, depth_all-le ss)

-- `unpack_from` returns the values of a format from any buffer that begins with their bytes: the only
-- item of a format that is one array as it is, and otherwise the tuple of all items. Its fuel is
-- enough, and spaces and an order mark in the format make no difference.
pub unpack_from-encode :
    (ss : Schemas) (fmt : List ℕ) (vs : Values) (content rest : List ℕ)
    → without_order (without_spaces fmt) ≡ show_all ss
    → encode_all ss vs ≡ ok content
    → unpack_from fmt (content ++ rest) 0 ≡ unwrap (show_all ss) vs
unfolding unpack_from
unpack_from-encode ss fmt vs content rest f e =
    let here : Holds (content ++ rest) 0 content rest = record {
      fits = omega (arith, length-append content rest);
      at = refl;
    } in
    let all_read =
      unpack-encode (content ++ rest) ss (suc (length (show_all ss))) vs content 0 rest
        (omega (arith, depth_all-le ss)) e here in
    rw (f, all_read)
