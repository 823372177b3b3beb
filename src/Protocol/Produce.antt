-- ===== src/Protocol/Produce.antt =====
-- pykafka/protocol.py: ProduceRequest.
pub mod Measured
pub mod Bytes
pub mod Sound
pub mod Counted
use pykafka.Prelude.{ℕ, ℤ, pos, ◌+◌, Bool, List, [], ◌∷◌, ◌++◌, length, map, none}
use pykafka.Result.{Result, ok, ◌>>=◌}
use pykafka.Struct.{int, int16, int32}
use pykafka.Writer.{Cursor, Writer, put, advance, call, ◌>>>◌}
use pykafka.Dict.{Dict, insert, get_default, bytes_eq, int_eq}
use pykafka.Compression.{Codec}
use pykafka.Protocol.Header.{header_len, get_bytes}
use pykafka.Protocol.Topics.{write_topics}
use pykafka.Protocol.Message.{Message}
use pykafka.Protocol.MessageSet.{
  MessageSet, message_set, message_set_length, pack_message_set, append_message,
}
use pykafka.Prelude.{concat}

-- {topic_name: {partition_id: MessageSet}}
abbrev pub Msets : Type 0
Msets = Dict (List ℕ) (Dict ℤ MessageSet)

-- `compression_type` is what the factory of the default dict makes new sets with.
pub record ProduceRequest : Type 0 where
  pub compression_type : ℕ
  pub msets : Msets
  pub required_acks : ℤ
  pub timeout : ℤ
  pub message_count : ℕ

-- __init__
abbrev pub produce_request : ℕ → ℤ → ℤ → ProduceRequest
produce_request compression_type required_acks timeout = record {
  compression_type = compression_type;
  msets = [];
  required_acks = required_acks;
  timeout = timeout;
  message_count = 0;
}

-- self.msets[topic_name][partition_id], made where it is missing.
abbrev pub mset_of : ProduceRequest → List ℕ → ℤ → MessageSet
mset_of r topic_name partition_id =
    get_default (message_set r.compression_type []) partition_id (get_default [] topic_name r.msets)

unfoldable pub add_message : ProduceRequest → Message → List ℕ → ℤ → ProduceRequest
add_message r message topic_name partition_id = record r {
  msets =
      insert topic_name
        (insert partition_id (append_message message (mset_of r topic_name partition_id))
          (get_default [] topic_name r.msets))
        r.msets;
  message_count = r.message_count + 1;
}

-- The property `messages`: all messages, set by set. Reading a set drops its compressed form.
unfoldable pub messages : ProduceRequest → List Message × ProduceRequest
messages r = (
  concat (map (λ t. concat (map (λ p. p.1.contents) t.1)) r.msets),
  record r {
    msets = map (λ t. (t.0, map (λ p. (p.0, record p.1 { compressed = none })) t.1)) r.msets;
  },
)

module _ (c : Codec) where
  -- sum(4 + 4 + len(mset) for mset in itervalues(parts)), with the sets after it.
  unfoldable pub partitions_length : Dict ℤ MessageSet → Result (ℕ × Dict ℤ MessageSet)
  partitions_length [] = ok (0, [])
  partitions_length ((partition_id, s) ∷ rest) = do
    (n, s') ← message_set_length c s
    (m, rest') ← partitions_length rest
    ok (4 + 4 + n + m, (partition_id, s') ∷ rest')

  unfoldable pub msets_length : Msets → Result (ℕ × Msets)
  msets_length [] = ok (0, [])
  msets_length ((topic, parts) ∷ rest) = do
    (n, parts') ← partitions_length parts
    (m, rest') ← msets_length rest
    ok (2 + length topic + 4 + n + m, (topic, parts') ∷ rest')

  -- __len__, with the request after it.
  unfoldable pub produce_length : ProduceRequest → Result (ℕ × ProduceRequest)
  produce_length r = do
    (n, msets') ← msets_length r.msets
    ok (header_len + 2 + 4 + 4 + n, record r { msets = msets' })

  unfoldable pub write_mset : ℤ × MessageSet → Writer
  write_mset (partition_id, s) cursor = do
    (mset_len, s') ← message_set_length c s
    (put (int int32 partition_id ∷ int int32 (pos mset_len) ∷ [])
          >>> advance 8
          >>> (call (pack_message_set c s') >>> advance mset_len))
        cursor

  -- get_bytes, with the request after it.
  unfoldable pub produce_get_bytes : ProduceRequest → Result (List ℕ × ProduceRequest)
  produce_get_bytes r = do
    (n, r') ← produce_length r
    output ← get_bytes n (pos 0) (pos 0) (
        put (
          int int16 r'.required_acks
          ∷ int int32 r'.timeout
          ∷ int int32 (pos (length r'.msets))
          ∷ [])
        >>> advance 10
        >>> write_topics write_mset r'.msets)
    ok (output, r')
