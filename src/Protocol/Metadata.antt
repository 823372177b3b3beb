-- ===== src/Protocol/Metadata.antt =====
-- pykafka/protocol.py: MetadataRequest.
pub mod Bytes
use pykafka.Prelude.{ℕ, ℤ, pos, ◌+◌, List, [], ◌∷◌, length}
use pykafka.Result.{Result}
use pykafka.Struct.{Field, int, text, int16, int32}
use pykafka.Writer.{Writer, put, advance, ◌>>>◌, for_each}
use pykafka.Prelude.{total}
use pykafka.Protocol.Header.{header_len, get_bytes}

-- An empty list of topics asks for all of them.
pub record MetadataRequest : Type 0 where
  pub topics : List (List ℕ)

-- __len__
unfoldable pub metadata_length : MetadataRequest → ℕ
metadata_length r = header_len + 4 + total (λ t. length t + 2) r.topics

unfoldable pub write_topic_name : List ℕ → Writer
write_topic_name t =
    put (int int16 (pos (length t)) ∷ text (length t) t ∷ []) >>> advance (2 + length t)

unfoldable pub metadata_get_bytes : MetadataRequest → Result (List ℕ)
unfolding metadata_length
metadata_get_bytes r = get_bytes (metadata_length r) (pos 3) (pos 0) (
    put (int int32 (pos (length r.topics)) ∷ [])
    >>> advance 4
    >>> for_each r.topics write_topic_name)
