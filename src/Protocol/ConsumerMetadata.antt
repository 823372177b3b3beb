-- ===== src/Protocol/ConsumerMetadata.antt =====
-- pykafka/protocol.py: ConsumerMetadataRequest.
pub mod Bytes
use pykafka.Prelude.{
  ℕ, ℤ, pos, negsuc, ◌+◌, ◌*◌, List, [], ◌∷◌, ◌++◌, length, foldl, if◌then◌else◌, ◌==◌,
}
use pykafka.Result.{Result}
use pykafka.Struct.{Field, int, text, int16, int32, int64, calcsize}
use pykafka.Writer.{Writer, put, advance, ◌>>>◌}
use pykafka.Prelude.{total}
use pykafka.Dict.{Dict, insert, get_default, bytes_eq, int_eq}
use pykafka.Protocol.Header.{header_len, get_bytes}
use pykafka.Protocol.Topics.{write_topics}

pub record ConsumerMetadataRequest : Type 0 where
  pub consumer_group : List ℕ

-- __len__
unfoldable pub consumer_metadata_length : ConsumerMetadataRequest → ℕ
consumer_metadata_length r = header_len + 2 + length r.consumer_group

unfoldable pub consumer_metadata_get_bytes : ConsumerMetadataRequest → Result (List ℕ)
unfolding consumer_metadata_length
consumer_metadata_get_bytes r = get_bytes (consumer_metadata_length r) (pos 10) (pos 0) (
    put (
      int int16 (pos (length r.consumer_group))
      ∷ text (length r.consumer_group) r.consumer_group
      ∷ []))
