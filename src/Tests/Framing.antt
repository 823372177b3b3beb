-- ===== src/Tests/Framing.antt =====
-- The theorems on requests, on concrete requests.
use pykafka.Prelude.{pos, negsuc, ◌≡◌, [], ◌∷◌, arith}
use pykafka.Result.{ok, ◌>>=◌}
use pykafka.Protocol.Header.{codes}
use pykafka.Protocol.Header.Framed.{frame}
use pykafka.Protocol.Fetch.{FetchRequest, fetch_request, fetch_get_bytes}
use pykafka.Protocol.Fetch.Bytes.{fetch_body, fetch_get_bytes_lem}
use pykafka.Protocol.Metadata.{MetadataRequest}
use pykafka.Protocol.Offset.{OffsetRequest, offset_request, offset_get_bytes}
use pykafka.Protocol.Offset.Bytes.{offset_body, offset_get_bytes_lem}
use pykafka.Protocol.OffsetCommit.{
  OffsetCommitRequest, offset_commit_request, offset_commit_get_bytes,
}
use pykafka.Protocol.OffsetCommit.Bytes.{offset_commit_body, offset_commit_get_bytes_lem}
use pykafka.Protocol.OffsetFetch.{OffsetFetchRequest, offset_fetch_request, offset_fetch_get_bytes}
use pykafka.Protocol.OffsetFetch.Bytes.{offset_fetch_body, offset_fetch_get_bytes_lem}
use pykafka.Protocol.ConsumerMetadata.{ConsumerMetadataRequest}
use pykafka.Protocol.MessageSet.{append_message}
use pykafka.Protocol.MessageSet.Bytes.{
  IsCoherent, append_message-IsCoherent, uncompressed_bytes_lem, entries_bytes,
}
use pykafka.Protocol.MessageSet.{uncompressed_bytes}
use pykafka.Protocol.Produce.{produce_request, produce_get_bytes}
use pykafka.Protocol.Produce.Sound.{
  IsSound, sent_body, produce_get_bytes_lem, produce_request-IsSound, add_message-IsSound,
}
use pykafka.Protocol.Produce.Counted.{IsCounted, produce_request-IsCounted, add_message-IsCounted}
use pykafka.Tests.Requests.{identity, test_message, test_request}
use pykafka.Prelude.{some}

abbrev test_fetch : FetchRequest
test_fetch =
    fetch_request
      (record { topic_name = codes "test"; partition_id = pos 0; offset = pos 1; max_bytes = pos 2 }
        ∷ [])
      (pos 1000) (pos 1024)

fetch_get_bytes_lem_example :
    fetch_get_bytes test_fetch ≡ frame (pos 1) (pos 0) (fetch_body test_fetch)
fetch_get_bytes_lem_example = fetch_get_bytes_lem test_fetch

abbrev two_topics : MetadataRequest
two_topics = record { topics = codes "a" ∷ codes "bc" ∷ [] }

abbrev test_offset : OffsetRequest
test_offset = offset_request (
    record {
      topic_name = codes "test";
      partition_id = pos 0;
      offsets_before = negsuc 0;
      max_offsets = pos 1;
    }
    ∷ [])

offset_get_bytes_lem_example :
    offset_get_bytes test_offset ≡ frame (pos 2) (pos 0) (offset_body test_offset)
offset_get_bytes_lem_example = offset_get_bytes_lem test_offset

abbrev test_commit : OffsetCommitRequest
test_commit = offset_commit_request (codes "test") (pos 1) (codes "pykafka") (
    record {
      topic_name = codes "emptytopic";
      partition_id = pos 0;
      offset = pos 68;
      timestamp = pos 1426632066;
      metadata = codes "testmetadata";
    }
    ∷ [])

offset_commit_get_bytes_lem_example :
    offset_commit_get_bytes test_commit ≡ frame (pos 8) (pos 1) (offset_commit_body test_commit)
offset_commit_get_bytes_lem_example = offset_commit_get_bytes_lem test_commit

abbrev test_offset_fetch : OffsetFetchRequest
test_offset_fetch =
    offset_fetch_request (codes "test")
      (record { topic_name = codes "emptytopic"; partition_id = pos 0 } ∷ [])

offset_fetch_get_bytes_lem_example :
    offset_fetch_get_bytes test_offset_fetch
    ≡ frame (pos 9) (pos 1) (offset_fetch_body test_offset_fetch)
offset_fetch_get_bytes_lem_example = offset_fetch_get_bytes_lem test_offset_fetch

abbrev test_group : ConsumerMetadataRequest
test_group = record { consumer_group = codes "test" }

uncompressed_bytes_lem_example :
    uncompressed_bytes (test_message ∷ test_message ∷ [])
    ≡ entries_bytes (test_message ∷ test_message ∷ [])
uncompressed_bytes_lem_example = uncompressed_bytes_lem (test_message ∷ test_message ∷ [])

append_message-IsCoherent_example : IsCoherent identity (
    append_message test_message
      (record { compression_type = 1; contents = []; compressed = some test_message }))
append_message-IsCoherent_example =
    append_message-IsCoherent identity test_message
      (record { compression_type = 1; contents = []; compressed = some test_message })

new_IsSound : IsSound identity (produce_request 0 (pos 1) (pos 10000))
new_IsSound = produce_request-IsSound identity 0 (pos 1) (pos 10000) (omega arith)

add_message-IsSound_example : IsSound identity test_request
add_message-IsSound_example =
    add_message-IsSound identity (produce_request 0 (pos 1) (pos 10000)) test_message (codes "test")
      (pos 0) new_IsSound

test_IsSound : IsSound identity test_request
test_IsSound =
    add_message-IsSound identity (produce_request 0 (pos 1) (pos 10000)) test_message (codes "test")
      (pos 0) new_IsSound

produce_get_bytes_lem_example :
    (produce_get_bytes identity test_request >>= λ p. ok p.0)
    ≡ frame (pos 0) (pos 0) (sent_body identity test_request)
produce_get_bytes_lem_example = produce_get_bytes_lem identity test_request test_IsSound

add_message-IsCounted_example : IsCounted test_request
add_message-IsCounted_example =
    add_message-IsCounted (produce_request 0 (pos 1) (pos 10000)) test_message (codes "test")
      (pos 0) (produce_request-IsCounted 0 (pos 1) (pos 10000))
