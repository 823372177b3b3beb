-- ===== src/Protocol/MessageSet.antt =====
-- pykafka/protocol.py, class MessageSet: a set of messages, compressed or not, its length, and how it
-- is written.
pub mod Bytes
pub mod Decode
pub mod Entries
pub mod RoundTrip
use pykafka.Prelude.{
  ℕ, ℤ, pos, negsuc, ◌+◌, ◌*◌, Option, none, some, List, [], ◌∷◌, length, ◌++◌, if◌then◌else◌, ◌==◌,
}
use pykafka.Result.{Result, ok, err, type_error, ◌>>=◌}
use pykafka.Struct.{int, int32, int64}
use pykafka.Struct.Pack.{zeros}
use pykafka.Writer.{Cursor, Writer, put, advance, ◌>>>◌, for_each}
use pykafka.Prelude.{total}
use pykafka.Compression.{Codec}
use pykafka.Protocol.Message.{
  Message, none_type, gzip_type, snappy_type, message_length, pack_message,
}

-- `compressed` is `_compressed`: the compressed form, kept once it has been computed.
pub record MessageSet : Type 0 where
  pub compression_type : ℕ
  pub contents : List Message
  pub compressed : Option Message

-- __init__
abbrev pub message_set : ℕ → List Message → MessageSet
message_set compression_type messages = record {
  compression_type = compression_type;
  contents = messages;
  compressed = none;
}

-- The sum in __len__.
abbrev pub entries_length : List Message → ℕ
entries_length messages = (8 + 4) * length messages + total message_length messages

-- One round of the loop in pack_into.
unfoldable pub write_entry : Message → Writer
write_entry m =
    put (int int64 (negsuc 0) ∷ int int32 (pos (message_length m)) ∷ [])
    >>> advance 12
    >>> (pack_message m >>> advance (message_length m))

unfoldable pub write_entries : List Message → Writer
write_entries messages = for_each messages write_entry

-- `tmp_mset.pack_into(uncompressed, 0)` of a set that is not compressed.
unfoldable pub uncompressed_bytes : List Message → Result (List ℕ)
uncompressed_bytes messages = do
  end ← write_entries messages (record { buff = zeros (entries_length messages); offset = 0 })
  ok end.buff

-- Message(compressed, compression_type=...)
abbrev pub wrapper : ℕ → List ℕ → Message
wrapper compression_type bytes = record {
  value = some bytes;
  partition_key = none;
  compression_type = compression_type;
  offset = negsuc 0;
  partition_id = negsuc 0;
  produce_attempt = 0;
}

module _ (c : Codec) where
  -- _get_compressed
  unfoldable pub get_compressed : ℕ → List Message → Result Message
  get_compressed compression_type messages = do
    uncompressed ← uncompressed_bytes messages
    if compression_type == gzip_type
        then ok (wrapper compression_type (c.gzip_compress uncompressed))
        else if compression_type == snappy_type
        then ok (wrapper compression_type (c.snappy_compress uncompressed))
        else err type_error

  -- `if self._compressed is None: self._compressed = self._get_compressed()`
  unfoldable pub compress_once : MessageSet → Result Message
  compress_once s = elim s.compressed [
    | some m ↦ ok m
    | none ↦ get_compressed s.compression_type s.contents
  ]

  -- How __len__ and pack_into begin: the messages that are sent, and the set with what it now keeps.
  unfoldable pub entries : MessageSet → Result (List Message × MessageSet)
  entries s =
      if s.compression_type == none_type
      then ok (s.contents, s)
      else (compress_once s >>= λ m. ok (m ∷ [], record s { compressed = some m }))

  -- __len__, with the set after it.
  unfoldable pub message_set_length : MessageSet → Result (ℕ × MessageSet)
  message_set_length s = entries s >>= λ p. ok (entries_length p.0, p.1)

  unfoldable pub pack_message_set : MessageSet → Writer
  pack_message_set s cursor = entries s >>= λ p. write_entries p.0 cursor

-- `mset.messages.append(message)`: reading the property drops the compressed form.
unfoldable pub append_message : Message → MessageSet → MessageSet
append_message m s = record s { contents = s.contents ++ m ∷ []; compressed = none }
