-- ===== src/Tests/Requests.antt =====
-- tests/pykafka/test_protocol.py, the requests.
use pykafka.Prelude.{pos, negsuc, ◌≡◌, refl, [], ◌∷◌, ◌++◌, some}
use pykafka.Result.{ok, ◌>>=◌}
use pykafka.Struct.{pack_into}
use pykafka.Crc.{crc32}
use pykafka.Writer.{put, advance, ◌>>>◌, call, for_each}
use pykafka.Dict.{insert, get_default}
use pykafka.Compression.{Codec}
use pykafka.Protocol.Header.{codes, get_bytes, write_header}
use pykafka.Protocol.Topics.{write_topic, write_topics}
use pykafka.Protocol.Message.{Message, pack_message, message_length}
use pykafka.Protocol.MessageSet.{
  write_entry, write_entries, entries, message_set_length, pack_message_set, append_message,
}
use pykafka.Protocol.Metadata.{metadata_get_bytes, write_topic_name}
use pykafka.Protocol.Produce.{
  ProduceRequest, produce_request, add_message, produce_get_bytes, produce_length, msets_length,
  partitions_length, write_mset,
}

pub all_topics :
    metadata_get_bytes (record { topics = [] })
    ≡ ok (
        0 ∷ 0 ∷ 0 ∷ 0x15 ∷ 0 ∷ 3 ∷ 0 ∷ 0 ∷ 0 ∷ 0 ∷ 0 ∷ 0 ∷ 0 ∷ 7 ∷ codes "pykafka"
        ++ 0 ∷ 0 ∷ 0 ∷ 0 ∷ [])
unfolding metadata_get_bytes get_bytes write_header pack_into put advance ◌>>>◌ for_each
    write_topic_name
all_topics = refl

-- No compression is used in these runs.
abbrev pub identity : Codec
identity = record {
  gzip_compress = λ s. s;
  gzip_decompress = λ s. ok s;
  snappy_compress = λ s. s;
  snappy_decompress = λ s. ok s;
}

abbrev pub test_message : Message
test_message = record {
  value = some (codes "this is a test message");
  partition_key = some (codes "asdf");
  compression_type = 0;
  offset = negsuc 0;
  partition_id = negsuc 0;
  produce_attempt = 0;
}

abbrev pub test_request : ProduceRequest
test_request =
    add_message (produce_request 0 (pos 1) (pos 10000)) test_message (codes "test") (pos 0)

produced :
    (produce_get_bytes identity test_request >>= λ p. ok p.0)
    ≡ ok (
        0 ∷ 0 ∷ 0 ∷ 0x61 ∷ 0 ∷ 0 ∷ 0 ∷ 0 ∷ 0 ∷ 0 ∷ 0 ∷ 0 ∷ 0 ∷ 7 ∷ codes "pykafka"
        ++ (0 ∷ 1 ∷ 0 ∷ 0 ∷ 0x27 ∷ 0x10 ∷ 0 ∷ 0 ∷ 0 ∷ 1 ∷ 0 ∷ 4 ∷ codes "test")
        ++ (0 ∷ 0 ∷ 0 ∷ 1 ∷ 0 ∷ 0 ∷ 0 ∷ 0 ∷ 0 ∷ 0 ∷ 0 ∷ 0x34 ∷ [])
        ++ (255 ∷ 255 ∷ 255 ∷ 255 ∷ 255 ∷ 255 ∷ 255 ∷ 255 ∷ 0 ∷ 0 ∷ 0 ∷ 0x28 ∷ 0x0e ∷ 0x8a ∷ 0x19
            ∷ 0x4f ∷ [])
        ++ (0 ∷ 0 ∷ 0 ∷ 0 ∷ 0 ∷ 4 ∷ codes "asdf")
        ++ (0 ∷ 0 ∷ 0 ∷ 0x16 ∷ codes "this is a test message"))
unfolding add_message insert get_default append_message produce_get_bytes produce_length
    msets_length partitions_length write_mset message_set_length entries pack_message_set
    write_entries write_entry pack_message message_length crc32 get_bytes write_header pack_into put
    advance ◌>>>◌ for_each call write_topic write_topics
produced = refl
