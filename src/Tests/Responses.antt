-- ===== src/Tests/Responses.antt =====
-- The theorems on responses, on concrete bytes.
use pykafka.Prelude.{ℕ, ℤ, pos, ◌≡◌, refl, List, [], ◌∷◌, ◌++◌, some, none}
use pykafka.Result.{ok, err, protocol}
use pykafka.Struct.{pack}
use pykafka.Dict.{insert, int_eq, text_eq}
use pykafka.Protocol.Header.{codes}
use pykafka.Protocol.Topics.Bytes.{array_bytes}
use pykafka.Protocol.Response.{Text, produce_response, offset_fetch_response, raise_error}
use pykafka.Protocol.Response.Brokers.{
  metadata_response, consumer_metadata_response, BrokerMetadata, PartitionMetadata,
  ConsumerMetadataResponse,
}
use pykafka.Protocol.Response.Brokers.Grammar.{SentTopic, metadata_of, broker_bytes, topic_bytes}
use pykafka.Protocol.Response.Brokers.Bytes.{
  metadata_response_lem, coordinator_bytes, consumer_metadata_response_lem,
}
use pykafka.Struct.Pack.{cat}
use pykafka.Protocol.Response.Encoded.{response_topic}
use pykafka.Protocol.Response.Partitions.{
  produce_item, offset_fetch_item, produce_response_lem, offset_fetch_response_lem,
}
use pykafka.Prelude.{negsuc}

abbrev one_topic : List ℕ
one_topic = 0 ∷ 0 ∷ 0 ∷ 1 ∷ 0 ∷ 4 ∷ codes "test" ++ 0 ∷ 0 ∷ 0 ∷ 1 ∷ []

abbrev produced_topics : List (Text × List (ℤ × (ℤ × ℤ)))
produced_topics = (some (codes "test"), (pos 0, (pos 3, pos 2)) ∷ []) ∷ []

abbrev produced_content : List ℕ
produced_content = one_topic ++ 0 ∷ 0 ∷ 0 ∷ 0 ∷ 0 ∷ 3 ∷ 0 ∷ 0 ∷ 0 ∷ 0 ∷ 0 ∷ 0 ∷ 0 ∷ 2 ∷ []

produced_bytes : array_bytes (response_topic produce_item) produced_topics ≡ ok produced_content
unfolding pack
produced_bytes = refl

produce_response_lem_example :
    produce_response (produced_content ++ [])
    ≡ ok ((some (codes "test"), (pos 0, (pos 3, pos 2)) ∷ []) ∷ [])
unfolding insert
produce_response_lem_example =
    produce_response_lem produced_topics produced_content [] produced_bytes

abbrev fetched_topics : List (Text × List (ℤ × (ℤ × (Text × ℤ))))
fetched_topics = (some (codes "test"), (pos 0, (pos 1, (none, pos 3))) ∷ []) ∷ []

abbrev fetched_content : List ℕ
fetched_content =
    one_topic ++ 0 ∷ 0 ∷ 0 ∷ 0 ∷ 0 ∷ 0 ∷ 0 ∷ 0 ∷ 0 ∷ 0 ∷ 0 ∷ 1 ∷ 255 ∷ 255 ∷ 0 ∷ 3 ∷ []

fetched_bytes : array_bytes (response_topic offset_fetch_item) fetched_topics ≡ ok fetched_content
unfolding pack
fetched_bytes = refl

offset_fetch_response_lem_example :
    offset_fetch_response (fetched_content ++ [])
    ≡ ok ((some (codes "test"), (pos 0, (pos 1, (none, pos 3))) ∷ []) ∷ [])
unfolding insert
offset_fetch_response_lem_example =
    offset_fetch_response_lem fetched_topics fetched_content [] fetched_bytes

abbrev pub test_brokers : List BrokerMetadata
test_brokers = record { id = pos 0; host = some (codes "localhost"); port = pos 9092 } ∷ []

abbrev pub test_partition : PartitionMetadata
test_partition = record {
  id = pos 1;
  leader = pos 0;
  replicas = pos 0 ∷ [];
  isr = [];
  error = pos 0;
}

abbrev pub test_topics : List SentTopic
test_topics =
    record { error = pos 0; name = some (codes "test"); partitions = test_partition ∷ [] } ∷ []

abbrev pub metadata_content : List ℕ
metadata_content =
    0 ∷ 0 ∷ 0 ∷ 1 ∷ 0 ∷ 0 ∷ 0 ∷ 0 ∷ 0 ∷ 9 ∷ codes "localhost"
    ++ (0 ∷ 0 ∷ 0x23 ∷ 0x84 ∷ 0 ∷ 0 ∷ 0 ∷ 1 ∷ 0 ∷ 0 ∷ 0 ∷ 4 ∷ codes "test")
    ++ (0 ∷ 0 ∷ 0 ∷ 1 ∷ 0 ∷ 0 ∷ 0 ∷ 0 ∷ 0 ∷ 1 ∷ 0 ∷ 0 ∷ 0 ∷ 0 ∷ 0 ∷ 0 ∷ 0 ∷ 1 ∷ 0 ∷ 0 ∷ 0 ∷ 0 ∷ 0
        ∷ 0 ∷ 0 ∷ 0 ∷ [])

pub metadata_lem :
    cat (array_bytes broker_bytes test_brokers) (array_bytes topic_bytes test_topics)
    ≡ ok metadata_content
unfolding pack
metadata_lem = refl

metadata_response_lem_example :
    metadata_response (metadata_content ++ []) ≡ ok (metadata_of test_brokers test_topics)
metadata_response_lem_example =
    metadata_response_lem test_brokers test_topics metadata_content [] metadata_lem

abbrev no_coordinator : ConsumerMetadataResponse
no_coordinator = record {
  coordinator_id = negsuc 0;
  coordinator_host = some [];
  coordinator_port = negsuc 0;
}

abbrev coordinator_content : List ℕ
coordinator_content = 0 ∷ 15 ∷ 255 ∷ 255 ∷ 255 ∷ 255 ∷ 0 ∷ 0 ∷ 255 ∷ 255 ∷ 255 ∷ 255 ∷ []

coordinator_lem : coordinator_bytes (pos 15) no_coordinator ≡ ok coordinator_content
unfolding pack
coordinator_lem = refl

consumer_metadata_response_lem_example :
    consumer_metadata_response (coordinator_content ++ []) ≡ err (protocol (pos 15))
unfolding raise_error
consumer_metadata_response_lem_example =
    consumer_metadata_response_lem (pos 15) no_coordinator coordinator_content [] coordinator_lem
