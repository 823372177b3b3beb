-- ===== src/Protocol/Metadata/Bytes.antt =====
-- MetadataRequest.get_bytes against the grammar in its docstring.
use pykafka.Prelude.{ℕ, pos, ◌+◌, ◌≡◌, refl, arith, List, length}
use pykafka.Writer.Writes.{Writes, Writes-put, Writes-then, Writes-for_each, Writes-resize}
use pykafka.Protocol.Header.Framed.{frame, framed}
use pykafka.Protocol.Topics.Bytes.{string_bytes, array_bytes}
use pykafka.Protocol.Metadata.{MetadataRequest, write_topic_name, metadata_get_bytes}

Writes-topic_name : (t : List ℕ) → Writes (write_topic_name t) (length t + 2) (string_bytes t)
unfolding write_topic_name
Writes-topic_name t = Writes-resize (omega arith) (Writes-put _ (2 + length t) (omega arith))

-- MetadataRequest.get_bytes returns the frame of API key 3 around the array of the topic names, or
-- raises `struct.error` exactly where a part of that does not fit its format.
pub metadata_get_bytes_lem :
    (r : MetadataRequest)
    → metadata_get_bytes r ≡ frame (pos 3) (pos 0) (array_bytes string_bytes r.topics)
unfolding metadata_get_bytes
metadata_get_bytes_lem r =
    framed (Writes-then (Writes-put _ 4 refl) (Writes-for_each _ _ _ Writes-topic_name r.topics)) _
      _ _ (omega arith)
