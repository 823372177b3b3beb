-- ===== src/Unpack/Brackets.antt =====
-- Inside of a bracket, the loop of `_unpack` collects the text up to the bracket that closes it.
use pykafka.Prelude.{
  ℕ, ◌+◌, ◌≤◌, ◌<◌, ◌≡◌, refl, ap, ◌∙◌, arith, false, ◌&&◌, some, List, [], ◌∷◌, ◌++◌, append_assoc,
  append-nil, ◌==◌,
}
use pykafka.Struct.{int8, uint8, int16, int32, uint32, int64}
use pykafka.Unpack.{Values, Unpacker, count, scan}
use pykafka.Unpack.Schema.{Schema, Schemas, num, string, blob, array, end, also, show, show_all}

count-append : (ch : ℕ) (xs ys : List ℕ) → count ch (xs ++ ys) ≡ count ch xs + count ch ys
count-append ch [] ys = omega arith
count-append ch (x ∷ xs) ys = ground (arith, count-append ch xs ys)

abbrev opens : List ℕ → ℕ
opens = count b'['

abbrev closes : List ℕ → ℕ
closes = count b']'

mutual
  unfolding show

  show_balanced : (s : Schema) → opens (show s) ≡ closes (show s)
  show_balanced (num int8) = refl
  show_balanced (num uint8) = refl
  show_balanced (num int16) = refl
  show_balanced (num int32) = refl
  show_balanced (num uint32) = refl
  show_balanced (num int64) = refl
  show_balanced string = refl
  show_balanced blob = refl
  show_balanced (array ss) = omega (
    arith,
    count-append b'[' (show_all ss) (b']' ∷ []),
    count-append b']' (show_all ss) (b']' ∷ []),
    show_all_balanced ss,
  )

  show_all_balanced : (ss : Schemas) → opens (show_all ss) ≡ closes (show_all ss)
  show_all_balanced end = refl
  show_all_balanced (also s ss) = omega (
    arith,
    count-append b'[' (show s) (show_all ss),
    count-append b']' (show s) (show_all ss),
    show_balanced s,
    show_all_balanced ss,
  )

-- The text of a format closes all that it opens.
pub show_all-balanced_lem : (ss : Schemas) → count b'[' (show_all ss) ≡ count b']' (show_all ss)
show_all-balanced_lem ss = show_all_balanced ss

module _ (rec : Unpacker) (buff : List ℕ) (items : Values) (offset : ℕ) where
  collect_char :
      (ch : ℕ) (fmt array_fmt : List ℕ)
      → (ch == b']' && opens array_fmt == closes array_fmt) ≡ false
      → scan rec buff (ch ∷ fmt) items (some array_fmt) offset
        ≡ scan rec buff fmt items (some (array_fmt ++ ch ∷ [])) offset
  unfolding scan
  collect_char ch fmt array_fmt h = rw h

  collect_other :
      (ch : ℕ) (fmt array_fmt : List ℕ)
      → (ch == b']') ≡ false
      → scan rec buff (ch ∷ fmt) items (some array_fmt) offset
        ≡ scan rec buff fmt items (some (array_fmt ++ ch ∷ [])) offset
  collect_other ch fmt array_fmt h = collect_char ch fmt array_fmt (rw h)

  collect_inner :
      (fmt array_fmt : List ℕ)
      → closes array_fmt < opens array_fmt
      → scan rec buff (b']' ∷ fmt) items (some array_fmt) offset
        ≡ scan rec buff fmt items (some (array_fmt ++ b']' ∷ [])) offset
  collect_inner fmt array_fmt h = collect_char b']' fmt array_fmt (ground arith)

  mutual
    unfolding show

    collect :
        (s : Schema) (fmt array_fmt : List ℕ)
        → closes array_fmt ≤ opens array_fmt
        → scan rec buff (show s ++ fmt) items (some array_fmt) offset
          ≡ scan rec buff fmt items (some (array_fmt ++ show s)) offset
    collect (num int8) fmt array_fmt h = collect_other _ fmt array_fmt refl
    collect (num uint8) fmt array_fmt h = collect_other _ fmt array_fmt refl
    collect (num int16) fmt array_fmt h = collect_other _ fmt array_fmt refl
    collect (num int32) fmt array_fmt h = collect_other _ fmt array_fmt refl
    collect (num uint32) fmt array_fmt h = collect_other _ fmt array_fmt refl
    collect (num int64) fmt array_fmt h = collect_other _ fmt array_fmt refl
    collect string fmt array_fmt h = collect_other _ fmt array_fmt refl
    collect blob fmt array_fmt h = collect_other _ fmt array_fmt refl
    collect (array ss) fmt array_fmt h =
        let opened : List ℕ = array_fmt ++ b'[' ∷ [] in
        let inside : List ℕ = opened ++ show_all ss in
        rw (append_assoc (show_all ss) (b']' ∷ []) fmt, collect_other b'[' _ array_fmt refl)
          (collect_all ss (b']' ∷ fmt) opened (
              omega (
                arith,
                count-append b'[' array_fmt (b'[' ∷ []),
                count-append b']' array_fmt (b'[' ∷ []),
              ))
            ∙ collect_inner fmt inside (
                omega (
                  arith,
                  count-append b'[' array_fmt (b'[' ∷ []),
                  count-append b']' array_fmt (b'[' ∷ []),
                  count-append b'[' opened (show_all ss),
                  count-append b']' opened (show_all ss),
                  show_all_balanced ss,
                ))
            ∙ ap (λ t. scan rec buff fmt items (some t) offset)
                (ap (λ l. l ++ b']' ∷ []) (append_assoc array_fmt (b'[' ∷ []) (show_all ss))
                  ∙ append_assoc array_fmt (b'[' ∷ show_all ss) (b']' ∷ [])))

    collect_all :
        (ss : Schemas) (fmt array_fmt : List ℕ)
        → closes array_fmt ≤ opens array_fmt
        → scan rec buff (show_all ss ++ fmt) items (some array_fmt) offset
          ≡ scan rec buff fmt items (some (array_fmt ++ show_all ss)) offset
    collect_all end fmt array_fmt h = rw append-nil
    collect_all (also s ss) fmt array_fmt h =
        rw
          (append_assoc (show s) (show_all ss) fmt, ← append_assoc array_fmt (show s) (show_all ss))
          (collect s (show_all ss ++ fmt) array_fmt h
            ∙ collect_all ss fmt (array_fmt ++ show s) (
                omega (
                  arith,
                  count-append b'[' array_fmt (show s),
                  count-append b']' array_fmt (show s),
                  show_balanced s,
                )))

  -- From just behind the bracket that opens an array, the loop comes to the one that closes it with
  -- the text between them.
  pub collect_array :
      (ss : Schemas) (fmt : List ℕ)
      → scan rec buff (show_all ss ++ fmt) items (some []) offset
        ≡ scan rec buff fmt items (some (show_all ss)) offset
  collect_array ss fmt = collect_all ss fmt [] (omega arith)
