-- ===== src/Protocol/Response/Brokers/Bytes.antt =====
-- MetadataResponse and ConsumerMetadataResponse, read back from their bytes.
use pykafka.Protocol.Response.Brokers.Grammar.{
  SentTopic, number, broker_bytes, topic_bytes, topic_of, metadata_of, broker_schema, topic_schema,
  broker_value, partition_value, topic_value, encode-brokers, encode-topics,
}
use pykafka.Prelude.{◌||◌, Bool, false, negsuc}
use pykafka.Result.{err, protocol, key_error}
use pykafka.Protocol.Response.{is_error_code}
use pykafka.Prelude.{
  ℕ, ℤ, pos, ◌≡◌, refl, ap₂, ◌∙◌, none, some, List, [], ◌++◌, eq_ℤ, if◌then◌else◌,
}
use pykafka.Result.{Result, ok}
use pykafka.Struct.{int16, int32}
use pykafka.Struct.{int as int_field}
use pykafka.Struct.Pack.{cat, cat-nil}
use pykafka.Dict.{Dict, insert, int_eq, text_eq}
use pykafka.Unpack.{Values, int, tuple, list, nil, cons, unwrap}
use pykafka.Unpack.Schema.{Schemas, num, string, array, end, also, encode, encode_all, show}
use pykafka.Unpack.RoundTrip.{unpack_from-encode}
use pykafka.Protocol.Topics.Bytes.{array_bytes}
use pykafka.Protocol.Response.{Text, as_text, raise_error}
use pykafka.Protocol.Response.Encoded.{from_list, text_value, text_bytes, encode-text}
use pykafka.Protocol.Response.Read.{for_values-from_list, read_int-list}
use pykafka.Protocol.Response.Brokers.{
  BrokerMetadata, PartitionMetadata, TopicMetadata, ConsumerMetadataResponse, store_broker,
  store_partition_metadata, store_topic_metadata, read_metadata, metadata_response,
  read_coordinator, consumer_metadata_response,
}
use pykafka.Protocol.Response.{is_error_code}
use pykafka.Protocol.Response.{err}
use pykafka.Prelude.{negsuc}
use pykafka.Prelude.{ap}
use pykafka.Prelude.{Bool}
use pykafka.Protocol.Response.{protocol}
use pykafka.Prelude.{false}
use pykafka.Prelude.{arith}
use pykafka.Protocol.Response.{key_error}
use pykafka.Prelude.{◌∷◌}

as_text-text : (s : Text) → as_text (text_value s) ≡ ok s
as_text-text none = refl
as_text-text (some s) = refl

store_broker-value :
    (b : BrokerMetadata) (d : Dict ℤ BrokerMetadata)
    → store_broker (broker_value b) d ≡ ok (insert b.id b d)
unfolding store_broker
store_broker-value b d = rw (as_text-text b.host)

store_partition-value :
    (p : PartitionMetadata) (d : Dict ℤ PartitionMetadata)
    → store_partition_metadata (partition_value p) d ≡ ok (insert p.id p d)
unfolding store_partition_metadata
store_partition-value p d = rw (read_int-list p.replicas, read_int-list p.isr)

store_topic-value :
    (t : SentTopic) (d : Dict Text TopicMetadata)
    → store_topic_metadata (topic_value t) d ≡ ok (insert t.name (topic_of t) d)
unfolding store_topic_metadata
store_topic-value t d = rw (
  as_text-text t.name,
  for_values-from_list partition_value store_partition_metadata _ store_partition-value t.partitions
      [],
)

read_metadata-values :
    (bs : List BrokerMetadata) (ts : List SentTopic)
    → read_metadata (
        tuple
          (cons (list (from_list broker_value bs)) (cons (list (from_list topic_value ts)) nil)))
      ≡ ok (metadata_of bs ts)
unfolding read_metadata
read_metadata-values bs ts = rw (
  for_values-from_list broker_value store_broker _ store_broker-value bs [],
  for_values-from_list topic_value store_topic_metadata _ store_topic-value ts [],
)

encode-metadata :
    (bs : List BrokerMetadata) (ts : List SentTopic)
    → encode_all
        (also (array broker_schema) (also (array topic_schema) end))
        (cons (list (from_list broker_value bs)) (cons (list (from_list topic_value ts)) nil))
      ≡ cat (array_bytes broker_bytes bs) (array_bytes topic_bytes ts)
unfolding encode
encode-metadata bs ts = ap₂ cat (encode-brokers bs) (cat-nil _ ∙ encode-topics ts)

-- MetadataResponse reads back, from the bytes of the docstring's grammar and whatever follows them, the
-- brokers and the topics with their partitions, each under its id or name, the last of those that
-- share one.
pub metadata_response_lem :
    (bs : List BrokerMetadata) (ts : List SentTopic) (content rest : List ℕ)
    → cat (array_bytes broker_bytes bs) (array_bytes topic_bytes ts) ≡ ok content
    → metadata_response (content ++ rest) ≡ ok (metadata_of bs ts)
unfolding metadata_response unwrap show
metadata_response_lem bs ts content rest h =
    let ss : Schemas = also (array broker_schema) (also (array topic_schema) end) in
    let vs : Values =
      cons (list (from_list broker_value bs)) (cons (list (from_list topic_value ts)) nil) in
    rw (unpack_from-encode ss _ vs content rest refl (encode-metadata bs ts ∙ h))
      (read_metadata-values bs ts)

-- ErrorCode CoordinatorId CoordinatorHost CoordinatorPort
abbrev pub coordinator_bytes : ℤ → ConsumerMetadataResponse → Result (List ℕ)
coordinator_bytes error r = cat (number (int_field int16 error)) (
    cat (number (int_field int32 r.coordinator_id))
      (cat (text_bytes r.coordinator_host) (number (int_field int32 r.coordinator_port))))

-- The codes of the exceptions that pykafka/exceptions.py declares for errors of the protocol: UnknownError,
-- OffsetOutOfRangeError, InvalidMessageError, UnknownTopicOrPartition, InvalidMessageSize,
-- LeaderNotAvailable, NotLeaderForPartition, RequestTimedOut, MessageSizeTooLarge, OffsetMetadataTooLarge,
-- OffsetsLoadInProgress, ConsumerCoordinatorNotAvailable and NotCoordinatorForConsumer.
abbrev pub declared : List ℤ
declared =
    negsuc 0
    ∷ pos 1
    ∷ pos 2
    ∷ pos 3
    ∷ pos 4
    ∷ pos 5
    ∷ pos 6
    ∷ pos 7
    ∷ pos 10
    ∷ pos 12
    ∷ pos 14
    ∷ pos 15
    ∷ pos 16
    ∷ []

abbrev pub is_one_of : ℤ → List ℤ → Bool
is_one_of z [] = false
is_one_of z (code ∷ codes) = eq_ℤ z code || is_one_of z codes

-- The exception that is declared with the code, or KeyError, unless the code is 0.
abbrev pub coordinator_of : ℤ → ConsumerMetadataResponse → Result ConsumerMetadataResponse
coordinator_of error r =
    if eq_ℤ error (pos 0)
    then ok r
    else (if is_one_of error declared then err (protocol error) else err key_error)

is_error_code-declared : (z : ℤ) → is_error_code z ≡ is_one_of z declared
is_error_code-declared (negsuc n) = ground arith
is_error_code-declared (pos n) = ground arith

abbrev coordinator_values : ℤ → ConsumerMetadataResponse → Values
coordinator_values error r = cons (int error) (
    cons (int r.coordinator_id)
      (cons (text_value r.coordinator_host) (cons (int r.coordinator_port) nil)))

read_coordinator-values :
    (error : ℤ) (r : ConsumerMetadataResponse)
    → read_coordinator (tuple (coordinator_values error r)) ≡ coordinator_of error r
unfolding read_coordinator raise_error
read_coordinator-values error r = rw (as_text-text r.coordinator_host) (
    ap
      (λ (b : Bool).
        if eq_ℤ error (pos 0) then ok r else (if b then err (protocol error) else err key_error))
      (is_error_code-declared error))

abbrev coordinator_schema : Schemas
coordinator_schema = also (num int16) (also (num int32) (also string (also (num int32) end)))

encode-coordinator :
    (error : ℤ) (r : ConsumerMetadataResponse)
    → encode_all coordinator_schema (coordinator_values error r) ≡ coordinator_bytes error r
unfolding encode
encode-coordinator error r =
    ap₂
      (λ x y.
        cat (number (int_field int16 error))
          (cat (number (int_field int32 r.coordinator_id)) (cat x y)))
      (encode-text r.coordinator_host) (cat-nil _)

-- ConsumerMetadataResponse reads back the coordinator, from the bytes of the docstring's grammar and
-- whatever follows them, where the error code is 0; otherwise it raises the exception that is declared with
-- the error code, or KeyError where none is.
pub consumer_metadata_response_lem :
    (error : ℤ) (r : ConsumerMetadataResponse) (content rest : List ℕ)
    → coordinator_bytes error r ≡ ok content
    → consumer_metadata_response (content ++ rest) ≡ coordinator_of error r
unfolding consumer_metadata_response unwrap show
consumer_metadata_response_lem error r content rest h =
    rw
      (unpack_from-encode coordinator_schema _ (coordinator_values error r) content rest refl
        (encode-coordinator error r ∙ h))
      (read_coordinator-values error r)
