-- ===== src/Compression/RoundTrip.antt =====
-- encode_snappy and decode_snappy: the xerial framing read back.
use pykafka.Prelude.{
  ℕ, zero, suc, pos, ◌+◌, +ℤ-pos, ◌<◌, ◌≤◌, ltb, ◌≡◌, refl, sym, ap, ◌∙◌, arith, true, false, List,
  [], ◌∷◌, ◌++◌, subst, concat, take-drop, append-nil, append_assoc, length, length-append,
  length-drop, take, drop, lt→ltb, some,
}
use pykafka.Result.{ok, ◌>>=◌, >>=-eq-ok}
use pykafka.Struct.{int, int32, pack}
use pykafka.Unpack.Reading.{
  Holds, Holds-first, Holds-then, unpack_int-Holds, slice-Holds, Holds-slice_from,
}
use pykafka.Compression.{
  Codec, xerial_fields, detect_xerial_stream, chunker, write_blocks, encode_snappy, read_blocks,
  decode_snappy,
}

-- The chunks are the buffer, cut.
concat-chunker :
    (n k : ℕ) (buff : List ℕ) → length buff ≤ n → concat (chunker n (suc k) buff) ≡ buff
unfolding chunker
concat-chunker zero k [] h = refl
concat-chunker zero k (b ∷ buff) h = absurd (omega arith)
concat-chunker (suc n) k [] h = refl
concat-chunker (suc n) k (b ∷ buff) h =
    rw (concat-chunker n k (drop k buff) (omega (arith, length-drop k buff)))
      (ap (λ (l : List ℕ). b ∷ l) (take-drop k buff))

abbrev header : List ℕ
header = 0x82 ∷ 0x53 ∷ 0x4e ∷ 0x41 ∷ 0x50 ∷ 0x50 ∷ 0x59 ∷ 0 ∷ 0 ∷ 0 ∷ 0 ∷ 1 ∷ 0 ∷ 0 ∷ 0 ∷ 1 ∷ []

header_lem : pack xerial_fields ≡ ok header
unfolding pack
header_lem = refl

detect-header :
    (blocks : List ℕ) → 0 < length blocks → detect_xerial_stream (header ++ blocks) ≡ true
unfolding detect_xerial_stream
detect-header blocks h =
    let long : ltb 16 (length (header ++ blocks)) ≡ true = lt→ltb _ _ (omega (arith, h)) in
    rw (long, header_lem)

module _ (c : Codec) (reads : (s : List ℕ) → c.snappy_decompress (c.snappy_compress s) ≡ ok s) where
  no_blocks : (content : List ℕ) → write_blocks c [] ≡ ok content → [] ≡ content
  unfolding write_blocks
  no_blocks content h = cc

  block_parts :
      (chunk : List ℕ) (chunks : List (List ℕ)) (content : List ℕ)
      → write_blocks c (chunk ∷ chunks) ≡ ok content
      → (size : List ℕ) × (rest : List ℕ) × (pack
            (int int32 (pos (length (c.snappy_compress chunk))) ∷ [])
          ≡ ok size)
        × (write_blocks c chunks ≡ ok rest)
        × (size ++ (c.snappy_compress chunk ++ rest) ≡ content)
  unfolding write_blocks
  block_parts chunk chunks content h =
      let (size, es, h1) =
        >>=-eq-ok (pack (int int32 (pos (length (c.snappy_compress chunk))) ∷ [])) _ h in
      let (rest, er, h2) = >>=-eq-ok (write_blocks c chunks) _ h1 in
      let e : ok (size ++ (c.snappy_compress chunk ++ rest)) ≡ ok content = h2 in
      (size, rest, es, er, cc)

  read_blocks-write_blocks :
      (chunks : List (List ℕ)) (n : ℕ) {body : List ℕ} {offset : ℕ} (content out : List ℕ)
      → write_blocks c chunks ≡ ok content
      → Holds body offset content []
      → length content < n
      → read_blocks c n body (pos offset) out ≡ ok (out ++ concat chunks)
  unfolding read_blocks
  read_blocks-write_blocks chunks zero content out h holds f = absurd (omega arith)
  read_blocks-write_blocks [] (suc n) {body} {offset} content out h holds f =
      let e : [] ≡ content = no_blocks content h in
      let here : Holds body offset [] [] =
        subst (λ (l : List ℕ). Holds body offset l []) (sym e) holds in
      let past : ltb (offset + 0) (length body + 0) ≡ false = ground (arith, here.fits) in
      rw (past, append-nil out)
  read_blocks-write_blocks (chunk ∷ chunks) (suc n) {body} {offset} content out h holds f =
      let block : List ℕ = c.snappy_compress chunk in
      let (size, rest, es, er, parts) = block_parts chunk chunks content h in
      let whole : Holds body offset (size ++ (block ++ rest)) [] = rw parts holds in
      let head : Holds body offset size ((block ++ rest) ++ []) =
        Holds-first size (block ++ rest) whole in
      let (number, four) =
        unpack_int-Holds int32 (pos (length block)) size es (Holds-slice_from head) in
      let there : Holds body (offset + 4) (block ++ rest) [] =
        rw (← four) (Holds-then size (block ++ rest) whole) in
      let taken = slice-Holds block (Holds-first block rest there) in
      let inside : ltb (offset + 0) (length body + 0) ≡ true = ground (arith, there.fits) in
      let sizes : length content ≡ 4 + (length block + length rest) =
        rw (← parts)
          (omega (arith, four, length-append size (block ++ rest), length-append block rest)) in
      rw (inside, number, +ℤ-pos offset 4, +ℤ-pos (offset + 4) (length block), taken, reads chunk)
        (read_blocks-write_blocks chunks n rest (out ++ chunk) er (Holds-then block rest there)
            (omega arith)
          ∙ ap ok (append_assoc out chunk (concat chunks)))

  blocks_length :
      (chunk : List ℕ) (chunks : List (List ℕ)) (content : List ℕ)
      → write_blocks c (chunk ∷ chunks) ≡ ok content
      → 4 ≤ length content
  blocks_length chunk chunks content h =
      let block : List ℕ = c.snappy_compress chunk in
      let (size, rest, es, er, parts) = block_parts chunk chunks content h in
      let here : Holds size 0 size [] = record { fits = omega arith; at = sym (append-nil size) } in
      let four = (unpack_int-Holds int32 (pos (length block)) size es here).1 in
      rw (← parts) (omega (arith, four, length-append size (block ++ rest)))

  first_block :
      (b : ℕ) (buff : List ℕ) (k : ℕ) (blocks : List ℕ)
      → write_blocks c (chunker (length (b ∷ buff)) (suc k) (b ∷ buff)) ≡ ok blocks
      → 4 ≤ length blocks
  unfolding chunker
  first_block b buff k blocks h =
      blocks_length (take (suc k) (b ∷ buff))
        (chunker (length buff) (suc k) (drop (suc k) (b ∷ buff))) blocks h

  -- If snappy decompresses what it compressed, decode_snappy returns, with the xerial framing and any
  -- block size but 0, what encode_snappy was given, unless that is empty.
  pub decode_snappy-encode_snappy :
      (buff content : List ℕ) (xerial_blocksize : ℕ)
      → 0 < length buff
      → encode_snappy c buff true xerial_blocksize ≡ ok content
      → decode_snappy c (some content) ≡ ok buff
  unfolding encode_snappy decode_snappy
  decode_snappy-encode_snappy buff content zero h e = cc
  decode_snappy-encode_snappy [] content (suc k) h e = absurd (omega arith)
  decode_snappy-encode_snappy (b ∷ buff) content (suc k) h e =
      let chunks : List (List ℕ) = chunker (length (b ∷ buff)) (suc k) (b ∷ buff) in
      let e1 : (write_blocks c chunks >>= λ blocks. ok (header ++ blocks)) ≡ ok content =
        rw header_lem at e in
      let (blocks, eb, h1) = >>=-eq-ok (write_blocks c chunks) _ e1 in
      let whole : header ++ blocks ≡ content = cc in
      let some_block : 4 ≤ length blocks = first_block b buff k blocks eb in
      let here : Holds blocks 0 blocks [] = record {
        fits = omega arith;
        at = sym (append-nil blocks);
      } in
      rw (← whole, detect-header blocks (omega arith))
        (read_blocks-write_blocks chunks (suc (length blocks)) blocks [] eb here (omega arith)
          ∙ ap ok (concat-chunker (length (b ∷ buff)) k (b ∷ buff) (omega arith)))
