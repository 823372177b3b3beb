-- ===== src/Protocol/Response/Unpacked.antt =====
-- FetchResponse on what a broker sends: the messages of nested, compressed sets, in order.
use pykafka.Prelude.{ℕ, suc, ℤ, ◌<◌, ◌≡◌, refl, ◌∙◌, arith, List, [], ◌∷◌, ◌++◌, map, take, length}
use pykafka.Result.{Result, ok}
use pykafka.Compression.{Codec, decode_snappy}
use pykafka.Writer.Writes.{cat_all}
use pykafka.Protocol.Message.{Message, or_empty}
use pykafka.Protocol.Message.RoundTrip.{received}
use pykafka.Protocol.MessageSet.Entries.{stored_bytes}
use pykafka.Protocol.MessageSet.RoundTrip.{decode_message_set-stored}
use pykafka.Protocol.Response.Fetched.{expand_message, expand, unpack_message_set}

-- A set as it is stored: whole entries, then the first bytes of another one.
pub record IsStored (es : List (ℤ × Message)) (buff : List ℕ) : Type 0 where
  pub content : List ℕ
  pub last : ℤ × Message
  pub last_bytes : List ℕ
  pub k : ℕ
  pub encoded : cat_all stored_bytes es ≡ ok content
  pub last_encoded : stored_bytes last ≡ ok last_bytes
  pub shorter : k < length last_bytes
  pub whole : content ++ take k last_bytes ≡ buff

module _ (c : Codec) where
  -- The bytes that a compressed message holds, by its compression.
  pub data Compressed : Message → List ℕ → Type 0 where
    by_gzip :
        {m : Message} {buff : List ℕ}
        → m.compression_type ≡ 1
        → c.gzip_decompress (or_empty m.value) ≡ ok buff
        → Compressed m buff
    by_snappy :
        {m : Message} {buff : List ℕ}
        → m.compression_type ≡ 2
        → decode_snappy c m.value ≡ ok buff
        → Compressed m buff

  -- Which messages the entries of a set stand for, where sets nest less than `depth` deep: a message
  -- that is not compressed for itself, a compressed one for the messages of the set that it holds, and
  -- one of unknown compression for none.
  pub data Contains (partition_id : ℤ) : ℕ → List (ℤ × Message) → List Message → Type 0 where
    nothing : {depth : ℕ} → Contains partition_id depth [] []
    plain :
        {depth : ℕ} {e : ℤ × Message} {es : List (ℤ × Message)} {out : List Message}
        → e.1.compression_type ≡ 0
        → Contains partition_id depth es out
        → Contains partition_id depth (e ∷ es) (received e.1 e.0 partition_id ∷ out)
    nested :
        {depth : ℕ} {e i : ℤ × Message} {es inner : List (ℤ × Message)}
        {out inner_out : List Message} {buff : List ℕ}
        → Compressed e.1 buff
        → IsStored (i ∷ inner) buff
        → Contains partition_id depth (i ∷ inner) inner_out
        → Contains partition_id (suc depth) es out
        → Contains partition_id (suc depth) (e ∷ es) (inner_out ++ out)
    unknown :
        {depth : ℕ} {e : ℤ × Message} {es : List (ℤ × Message)} {out : List Message}
        → 2 < e.1.compression_type
        → Contains partition_id depth es out
        → Contains partition_id depth (e ∷ es) out

  module _ (partition_id : ℤ) where
    abbrev receive : List (ℤ × Message) → List Message
    receive es = map (λ e. received e.1 e.0 partition_id) es

    abbrev recurse : ℕ → List ℕ → Result (List Message)
    recurse depth b = unpack_message_set c depth b partition_id

    plain_message :
        (rec : List ℕ → Result (List Message)) (m : Message)
        → m.compression_type ≡ 0
        → expand_message c rec m ≡ ok (m ∷ [])
    unfolding expand_message
    plain_message rec m h = ground arith

    unknown_message :
        (rec : List ℕ → Result (List Message)) (m : Message)
        → 2 < m.compression_type
        → expand_message c rec m ≡ ok []
    unfolding expand_message
    unknown_message rec m h = ground arith

    Compressed-expand_message :
        (rec : List ℕ → Result (List Message)) (m m' : Message) (buff : List ℕ)
        → m'.compression_type ≡ m.compression_type
        → m'.value ≡ m.value
        → Compressed m buff
        → expand_message c rec m' ≡ rec buff
    unfolding expand_message
    Compressed-expand_message rec m m' buff et ev (by_gzip h d) = rw (ev) (rw (et, h, d) refl)
    Compressed-expand_message rec m m' buff et ev (by_snappy h d) = rw (et, h, ev, d)

    unpacked :
        (depth : ℕ) (e : ℤ × Message) (es : List (ℤ × Message)) (buff : List ℕ)
        → IsStored (e ∷ es) buff
        → unpack_message_set c (suc depth) buff partition_id
          ≡ expand c (recurse depth) (receive (e ∷ es))
    unfolding unpack_message_set
    unpacked depth e es buff s = rw (
      ← s.whole,
      decode_message_set-stored (e ∷ es) s.last s.content s.last_bytes s.k partition_id s.encoded
          s.last_encoded s.shorter,
    )

    expand-Contains :
        {depth : ℕ} {es : List (ℤ × Message)} {out : List Message}
        → Contains partition_id depth es out
        → expand c (recurse depth) (receive es) ≡ ok out
    unfolding expand
    expand-Contains nothing = refl
    expand-Contains (plain {depth} {e} {es} {out} h d) =
        rw (plain_message (recurse depth) (received e.1 e.0 partition_id) h, expand-Contains d)
    expand-Contains (unknown {depth} {e} {es} {out} h d) =
        rw (unknown_message (recurse depth) (received e.1 e.0 partition_id) h, expand-Contains d)
    expand-Contains (nested {depth} {e} {i} {es} {inner} {out} {inner_out} {buff} p s d d') = rw (
      Compressed-expand_message (recurse (suc depth)) e.1 (received e.1 e.0 partition_id) buff refl
          refl p,
      unpacked depth i inner buff s,
      expand-Contains d,
      expand-Contains d',
    )

    -- FetchResponse takes out of a partition's bytes, a stored set with whole entries, exactly the messages
    -- that its entries stand for, in order: with their offsets, those of nested compressed sets in
    -- place of the message that holds the set, and none for a compression that is unknown. The depth
    -- that the interpreter allows must exceed that of the nesting.
    pub unpack_message_set-Contains :
        (depth : ℕ) (e : ℤ × Message) (es : List (ℤ × Message)) (buff : List ℕ) (out : List Message)
        → IsStored (e ∷ es) buff
        → Contains partition_id depth (e ∷ es) out
        → unpack_message_set c (suc depth) buff partition_id ≡ ok out
    unpack_message_set-Contains depth e es buff out s d =
        unpacked depth e es buff s ∙ expand-Contains d
