-- ===== src/Protocol/Response/Brokers/Grammar.antt =====
-- The bytes of MetadataResponse in the grammar of its docstring, and the values that stand for them.
use pykafka.Prelude.{ℕ, ℤ, ◌≡◌, ap₂, ◌∙◌, List, [], ◌∷◌, foldl}
use pykafka.Result.{Result}
use pykafka.Struct.{Field, int16, int32, pack}
use pykafka.Struct.{int as int_field}
use pykafka.Struct.Pack.{cat, cat-nil}
use pykafka.Dict.{Dict, insert, int_eq, text_eq}
use pykafka.Unpack.{Value, int, tuple, list, nil, cons}
use pykafka.Unpack.Schema.{Schemas, num, string, array, end, also, encode, show}
use pykafka.Protocol.Topics.Bytes.{array_bytes}
use pykafka.Protocol.Response.{Text}
use pykafka.Protocol.Response.Encoded.{from_list, text_value, text_bytes, encode-text, encode-array}
use pykafka.Protocol.Response.Read.{numbers_bytes, encode-numbers}
use pykafka.Protocol.Response.Brokers.{
  BrokerMetadata, PartitionMetadata, TopicMetadata, MetadataResponse,
}

abbrev pub number : Field → Result (List ℕ)
number f = pack (f ∷ [])

-- NodeId Host Port
abbrev pub broker_bytes : BrokerMetadata → Result (List ℕ)
broker_bytes b =
    cat (number (int_field int32 b.id)) (cat (text_bytes b.host) (number (int_field int32 b.port)))

-- PartitionErrorCode PartitionId Leader Replicas Isr
abbrev pub partition_bytes : PartitionMetadata → Result (List ℕ)
partition_bytes p = cat (number (int_field int16 p.error)) (
    cat (number (int_field int32 p.id)) (
      cat (number (int_field int32 p.leader))
        (cat (numbers_bytes int32 p.replicas) (numbers_bytes int32 p.isr))))

-- A topic as the broker sends it: its partitions in a list.
pub record SentTopic : Type 0 where
  pub error : ℤ
  pub name : Text
  pub partitions : List PartitionMetadata

-- TopicErrorCode TopicName [PartitionMetadata]
abbrev pub topic_bytes : SentTopic → Result (List ℕ)
topic_bytes t =
    cat (number (int_field int16 t.error))
      (cat (text_bytes t.name) (array_bytes partition_bytes t.partitions))

-- What the response stores: each broker, topic and partition by its id, the last one of an id.
abbrev pub brokers_of : List BrokerMetadata → Dict ℤ BrokerMetadata
brokers_of bs = foldl (λ d b. insert b.id b d) [] bs

abbrev pub partitions_of : List PartitionMetadata → Dict ℤ PartitionMetadata
partitions_of ps = foldl (λ d p. insert p.id p d) [] ps

abbrev pub topic_of : SentTopic → TopicMetadata
topic_of t = record { name = t.name; partitions = partitions_of t.partitions; error = t.error }

abbrev pub metadata_of : List BrokerMetadata → List SentTopic → MetadataResponse
metadata_of bs ts = record {
  brokers = brokers_of bs;
  topics = foldl (λ d t. insert t.name (topic_of t) d) [] ts;
}

-- The formats, and the values of their items.
abbrev pub broker_schema : Schemas
broker_schema = also (num int32) (also string (also (num int32) end))

abbrev numbers : Schemas
numbers = also (num int32) end

abbrev partition_schema : Schemas
partition_schema =
    also (num int16)
      (also (num int32) (also (num int32) (also (array numbers) (also (array numbers) end))))

abbrev pub topic_schema : Schemas
topic_schema = also (num int16) (also string (also (array partition_schema) end))

abbrev pub broker_value : BrokerMetadata → Value
broker_value b = tuple (cons (int b.id) (cons (text_value b.host) (cons (int b.port) nil)))

abbrev number_values : List ℤ → Value
number_values zs = list (from_list int zs)

abbrev pub partition_value : PartitionMetadata → Value
partition_value p = tuple (
    cons (int p.error) (
      cons (int p.id)
        (cons (int p.leader) (cons (number_values p.replicas) (cons (number_values p.isr) nil)))))

abbrev pub topic_value : SentTopic → Value
topic_value t = tuple (
    cons (int t.error)
      (cons (text_value t.name) (cons (list (from_list partition_value t.partitions)) nil)))

pub encode-brokers :
    (bs : List BrokerMetadata)
    → encode (array broker_schema) (list (from_list broker_value bs)) ≡ array_bytes broker_bytes bs
encode-brokers bs =
    encode-array broker_schema broker_value broker_bytes
      (λ b.
        unfold encode show in
        ap₂ (λ x y. cat (number (int_field int32 b.id)) (cat x y)) (encode-text b.host) (cat-nil _))
      bs

encode-partitions :
    (ps : List PartitionMetadata)
    → encode (array partition_schema) (list (from_list partition_value ps))
      ≡ array_bytes partition_bytes ps
encode-partitions ps =
    encode-array partition_schema partition_value partition_bytes
      (λ p.
        unfold show encode in
        ap₂
          (λ x y. cat (number (int_field int16 p.error)) (
            cat (number (int_field int32 p.id))
              (cat (number (int_field int32 p.leader)) (cat x y))))
          (encode-numbers int32 p.replicas) (cat-nil _ ∙ encode-numbers int32 p.isr))
      ps

pub encode-topics :
    (ts : List SentTopic)
    → encode (array topic_schema) (list (from_list topic_value ts)) ≡ array_bytes topic_bytes ts
encode-topics ts =
    encode-array topic_schema topic_value topic_bytes
      (λ t.
        unfold show encode in
        ap₂ (λ x y. cat (number (int_field int16 t.error)) (cat x y)) (encode-text t.name)
          (cat-nil _ ∙ encode-partitions t.partitions))
      ts
