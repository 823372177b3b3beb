-- ===== src/Protocol/Message.antt =====
-- pykafka/protocol.py, class Message: a message, its length, and how it is written and read.
pub mod Bytes
pub mod RoundTrip
use pykafka.Prelude.{
  ℕ, ℤ, pos, negsuc, ◌+◌, ◌%◌, ◌^◌, Option, none, some, List, [], ◌∷◌, length, take, drop,
}
use pykafka.Unpack.{Value, int, bytes, null, tuple, nil, cons, unpack_from}
use pykafka.Protocol.Header.{codes}
use pykafka.Result.{Result, ok, err, type_error, ◌>>=◌}
use pykafka.Struct.{int as int_field}
use pykafka.Struct.{Field, text, uint8, int32, uint32, pack_into, calcsize}
use pykafka.Crc.{crc32}
use pykafka.Writer.{Cursor, Writer}

-- common.py, class CompressionType
abbrev pub none_type : ℕ
none_type = 0

abbrev pub gzip_type : ℕ
gzip_type = 1

abbrev pub snappy_type : ℕ
snappy_type = 2

-- `partition`, which only the consumer sets, is left out.
pub record Message : Type 0 where
  pub value : Option (List ℕ)
  pub partition_key : Option (List ℕ)
  pub compression_type : ℕ
  pub offset : ℤ
  pub partition_id : ℤ
  pub produce_attempt : ℕ

abbrev pub magic : ℕ
magic = 0

-- `len(x)`, with 0 where `x` is None.
abbrev pub optional_length : Option (List ℕ) → ℕ
optional_length none = 0
optional_length (some x) = length x

-- `-1 if x is None else len(x)`
abbrev pub length_or_null : Option (List ℕ) → ℤ
length_or_null none = negsuc 0
length_or_null (some x) = pos (length x)

-- `x or b""`
abbrev pub or_empty : Option (List ℕ) → List ℕ
or_empty none = []
or_empty (some x) = x

-- __len__
unfoldable pub message_length : Message → ℕ
message_length m = 4 + 1 + 1 + 4 + 4 + optional_length m.value + optional_length m.partition_key

-- '!BBi%dsi%ds' with its arguments.
abbrev pub message_fields : Message → List Field
message_fields m =
    int_field uint8 (pos magic)
    ∷ int_field uint8 (pos m.compression_type)
    ∷ int_field int32 (length_or_null m.partition_key)
    ∷ text (optional_length m.partition_key) (or_empty m.partition_key)
    ∷ int_field int32 (length_or_null m.value)
    ∷ text (optional_length m.value) (or_empty m.value)
    ∷ []

abbrev pub crc_fields : List ℕ → List Field
crc_fields content = int_field uint32 (pos (crc32 content % 2 ^ 32)) ∷ []

-- The fields behind the checksum are written first, then read back for the checksum.
unfoldable pub pack_message : Message → Writer
pack_message m c = do
  out ← pack_into (message_fields m) c.buff (c.offset + 4)
  let content = take (calcsize (message_fields m)) (drop (c.offset + 4) out)
  out' ← pack_into (crc_fields content) out c.offset
  ok (record c { buff = out' })

-- What struct_helpers returns of a byte array.
abbrev pub as_bytes : Value → Result (Option (List ℕ))
as_bytes null = ok none
as_bytes (bytes s) = ok (some s)
as_bytes v = err type_error

-- The checksum and the magic byte are read and not looked at.
unfoldable pub from_fields : Value → ℤ → ℤ → Result Message
from_fields (tuple (cons crc (cons _ (cons (int (pos attr)) (cons key (cons val nil)))))) msg_offset
      partition_id =
    do
      key' ← as_bytes key
      val' ← as_bytes val
      ok (record {
        value = val';
        partition_key = key';
        compression_type = attr;
        offset = msg_offset;
        partition_id = partition_id;
        produce_attempt = 0;
      })
from_fields v msg_offset partition_id = err type_error

-- Message.decode
unfoldable pub decode_message : List ℕ → ℤ → ℤ → Result Message
decode_message buff msg_offset partition_id = do
  response ← unpack_from (codes "iBBYY") buff 0
  from_fields response msg_offset partition_id
