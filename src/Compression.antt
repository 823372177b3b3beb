-- ===== src/Compression.antt =====
-- pykafka/utils/compression.py. The gzip and snappy codecs themselves are not part of the repository:
-- they are the fields of a `Codec`. What the file does itself is the framing of the xerial library.
pub mod RoundTrip
use pykafka.Prelude.{
  ℕ, zero, suc, ℤ, pos, negsuc, ◌+ℤ◌, ltb, ltb_ℤ, Bool, true, false, ◌&&◌, Option, none, some, List,
  [], ◌∷◌, ◌++◌, length, take, drop, if◌then◌else◌, ◌==◌,
}
use pykafka.Result.{Result, ok, err, type_error, value_error, out_of_fuel, ◌>>=◌}
use pykafka.Struct.{Field, int, text, int8, uint8, int32, pack, unpack_int}
use pykafka.Slice.{slice, slice_from}
use pykafka.Dict.{bytes_beq}

-- Compression returns bytes, decompression may find its input corrupt.
pub record Codec : Type 0 where
  pub gzip_compress : List ℕ → List ℕ
  pub gzip_decompress : List ℕ → Result (List ℕ)
  pub snappy_compress : List ℕ → List ℕ
  pub snappy_decompress : List ℕ → Result (List ℕ)

-- _XERIAL_V1_FORMAT with _XERIAL_V1_HEADER: 'c' takes one byte.
abbrev pub xerial_fields : List Field
xerial_fields =
    int int8 (negsuc 125)
    ∷ text 1 (b'S' ∷ [])
    ∷ text 1 (b'N' ∷ [])
    ∷ text 1 (b'A' ∷ [])
    ∷ text 1 (b'P' ∷ [])
    ∷ text 1 (b'P' ∷ [])
    ∷ text 1 (b'Y' ∷ [])
    ∷ int uint8 (pos 0)
    ∷ int int32 (pos 1)
    ∷ int int32 (pos 1)
    ∷ []

-- _detect_xerial_stream. Comparing the unpacked values is comparing the bytes.
unfoldable pub detect_xerial_stream : List ℕ → Bool
detect_xerial_stream buff =
    ltb 16 (length buff)
    && elim (pack xerial_fields) [ ok header ↦ bytes_beq (take 16 buff) header | err e ↦ false ]

-- _chunker: the slices of `blocksize` bytes, on fuel.
unfoldable pub chunker : ℕ → ℕ → List ℕ → List (List ℕ)
chunker zero blocksize buff = []
chunker (suc n) blocksize [] = []
chunker (suc n) blocksize (b ∷ buff) =
    take blocksize (b ∷ buff) ∷ chunker n blocksize (drop blocksize (b ∷ buff))

module _ (c : Codec) where
  -- The loop over the chunks.
  unfoldable pub write_blocks : List (List ℕ) → Result (List ℕ)
  write_blocks [] = ok []
  write_blocks (chunk ∷ chunks) = do
    let block = c.snappy_compress chunk
    size ← pack (int int32 (pos (length block)) ∷ [])
    rest ← write_blocks chunks
    ok (size ++ (block ++ rest))

  -- encode_snappy. A range with a step of 0 is a ValueError. A chunk takes one byte at least, so the
  -- length of the buffer is fuel enough.
  unfoldable pub encode_snappy : List ℕ → Bool → ℕ → Result (List ℕ)
  encode_snappy buff false xerial_blocksize = ok (c.snappy_compress buff)
  encode_snappy buff true zero = err value_error
  encode_snappy buff true (suc k) = do
    header ← pack xerial_fields
    blocks ← write_blocks (chunker (length buff) (suc k) buff)
    ok (header ++ blocks)

  -- The loop of decode_snappy, on fuel, with what it has written.
  unfoldable pub read_blocks : ℕ → List ℕ → ℤ → List ℕ → Result (List ℕ)
  read_blocks zero body cursor out = err out_of_fuel
  read_blocks (suc n) body cursor out =
      if ltb_ℤ cursor (pos (length body))
      then (unpack_int int32 (slice_from body cursor) 0 >>= λ block_size.
          c.snappy_decompress (slice body (cursor +ℤ pos 4) (cursor +ℤ pos 4 +ℤ block_size))
          >>= λ block. read_blocks n body (cursor +ℤ pos 4 +ℤ block_size) (out ++ block))
      else ok out

  -- decode_snappy. `len(None)` is a TypeError. A block whose size is not negative takes four bytes at
  -- least, so the length of the body is fuel enough for those.
  unfoldable pub decode_snappy : Option (List ℕ) → Result (List ℕ)
  decode_snappy none = err type_error
  decode_snappy (some buff) =
      if detect_xerial_stream buff
      then read_blocks (suc (length (drop 16 buff))) (drop 16 buff) (pos 0) []
      else c.snappy_decompress buff
