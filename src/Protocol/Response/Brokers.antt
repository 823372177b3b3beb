-- ===== src/Protocol/Response/Brokers.antt =====
-- pykafka/protocol.py: MetadataResponse and ConsumerMetadataResponse.
pub mod Grammar
pub mod Bytes
pub mod Distinct
use pykafka.Prelude.{ℕ, ℤ, pos, Bool, true, false, List, [], ◌∷◌, eq_ℤ, if◌then◌else◌}
use pykafka.Result.{Result, ok, err, type_error, value_error, ◌>>=◌}
use pykafka.Dict.{Dict, insert, int_eq, text_eq}
use pykafka.Unpack.{Value, Values, int, tuple, nil, cons, unpack_from}
use pykafka.Protocol.Header.{codes}
use pykafka.Protocol.Response.{Text, as_int, as_text, for_items, read_int, raise_error}

pub record BrokerMetadata : Type 0 where
  pub id : ℤ
  pub host : Text
  pub port : ℤ

pub record PartitionMetadata : Type 0 where
  pub id : ℤ
  pub leader : ℤ
  pub replicas : List ℤ
  pub isr : List ℤ
  pub error : ℤ

pub record TopicMetadata : Type 0 where
  pub name : Text
  pub partitions : Dict ℤ PartitionMetadata
  pub error : ℤ

pub record MetadataResponse : Type 0 where
  pub brokers : Dict ℤ BrokerMetadata
  pub topics : Dict Text TopicMetadata

-- The body of each loop.
unfoldable pub store_broker : Value → Dict ℤ BrokerMetadata → Result (Dict ℤ BrokerMetadata)
store_broker (tuple (cons (int id) (cons host (cons (int port) nil)))) d = do
  h ← as_text host
  ok (insert id (record { id = id; host = h; port = port }) d)
store_broker v d = err value_error

unfoldable pub store_partition_metadata :
    Value → Dict ℤ PartitionMetadata → Result (Dict ℤ PartitionMetadata)
store_partition_metadata
      (tuple (cons (int error) (cons (int id) (cons (int leader) (cons replicas (cons isr nil))))))
      d =
    do
      rs ← for_items read_int replicas []
      is ← for_items read_int isr []
      ok (insert id (record { id = id; leader = leader; replicas = rs; isr = is; error = error }) d)
store_partition_metadata v d = err value_error

unfoldable pub store_topic_metadata :
    Value → Dict Text TopicMetadata → Result (Dict Text TopicMetadata)
store_topic_metadata (tuple (cons (int error) (cons name (cons partitions nil)))) d = do
  s ← as_text name
  parts ← for_items store_partition_metadata partitions []
  ok (insert s (record { name = s; partitions = parts; error = error }) d)
store_topic_metadata v d = err value_error

-- `broker_info, topics = response`, and the loops.
unfoldable pub read_metadata : Value → Result MetadataResponse
read_metadata (tuple (cons broker_info (cons topics nil))) = do
  bs ← for_items store_broker broker_info []
  ts ← for_items store_topic_metadata topics []
  ok (record { brokers = bs; topics = ts })
read_metadata v = err value_error

-- MetadataResponse.__init__
unfoldable pub metadata_response : List ℕ → Result MetadataResponse
metadata_response buff = do
  response ← unpack_from (codes "[iSi] [hS [hii [i] [i] ] ]") buff 0
  read_metadata response

pub record ConsumerMetadataResponse : Type 0 where
  pub coordinator_id : ℤ
  pub coordinator_host : Text
  pub coordinator_port : ℤ

-- `if error_code != 0: self.raise_error(error_code, response)`, then the fields.
unfoldable pub read_coordinator : Value → Result ConsumerMetadataResponse
read_coordinator (tuple (cons (int error_code) (cons (int id) (cons host (cons (int port) nil))))) =
    if eq_ℤ error_code (pos 0)
    then (as_text host >>= λ h.
        ok (record { coordinator_id = id; coordinator_host = h; coordinator_port = port }))
    else raise_error error_code
read_coordinator v = err type_error

-- ConsumerMetadataResponse.__init__
unfoldable pub consumer_metadata_response : List ℕ → Result ConsumerMetadataResponse
consumer_metadata_response buff = do
  response ← unpack_from (codes "hiSi") buff 0
  read_coordinator response
