-- ===== src/Protocol/ConsumerMetadata/Bytes.antt =====
-- ConsumerMetadataRequest.get_bytes against the grammar in its docstring.
use pykafka.Prelude.{ℕ, pos, ◌+◌, ◌≡◌, ◌∙◌, arith, length}
use pykafka.Writer.Writes.{Writes-put}
use pykafka.Protocol.Header.Framed.{frame, framed, get_bytes-advance}
use pykafka.Protocol.Topics.Bytes.{string_bytes}
use pykafka.Protocol.ConsumerMetadata.{ConsumerMetadataRequest, consumer_metadata_get_bytes}

-- ConsumerMetadataRequest.get_bytes returns the frame of API key 10 around the string of the group's
-- name, or raises `struct.error` exactly where a part of that does not fit its format.
pub consumer_metadata_get_bytes_lem :
    (r : ConsumerMetadataRequest)
    → consumer_metadata_get_bytes r ≡ frame (pos 10) (pos 0) (string_bytes r.consumer_group)
unfolding consumer_metadata_get_bytes
consumer_metadata_get_bytes_lem r =
    let n : ℕ = 2 + length r.consumer_group in
    get_bytes-advance _ n _ _ _ ∙ framed (Writes-put _ n (omega arith)) _ _ _ (omega arith)
