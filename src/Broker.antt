-- ===== src/Broker.antt =====
-- pykafka/broker.py: Broker, its two connections with their request handlers, and its requests.
pub mod Requested
pub mod Kept
use pykafka.Prelude.{
  ℕ, zero, suc, ℤ, pos, Bool, true, false, Option, none, some, List, [], eq_ℤ, if◌then◌else◌,
}
use pykafka.Result.{Result, ok, err, Error, is_disconnected, attribute_error, ◌>>=◌}
use pykafka.Struct.Pack.{zeros}
use pykafka.Dict.{Dict}
use pykafka.Compression.{Codec}
use pykafka.Connection.{Socket, BrokerConnection}
use pykafka.Connection.Requests.{Sendall}
use pykafka.Handlers.{RequestHandler, request_handler, put_request, ask}
use pykafka.Protocol.Response.{
  Text, produce_response, offset_response, offset_commit_response, offset_fetch_response,
}
use pykafka.Protocol.Response.Brokers.{BrokerMetadata, MetadataResponse, metadata_response}
use pykafka.Protocol.Response.Fetched.{FetchPartitionResponse, fetch_response}
use pykafka.Protocol.Metadata.{MetadataRequest, metadata_get_bytes}
use pykafka.Protocol.Produce.{ProduceRequest, produce_get_bytes}
use pykafka.Protocol.Fetch.{PartitionFetchRequest, FetchRequest, fetch_request, fetch_get_bytes}
use pykafka.Protocol.Offset.{
  PartitionOffsetRequest, OffsetRequest, offset_request, offset_get_bytes,
}
use pykafka.Protocol.OffsetCommit.{
  PartitionOffsetCommitRequest, OffsetCommitRequest, offset_commit_request, offset_commit_get_bytes,
}
use pykafka.Protocol.OffsetFetch.{
  PartitionOffsetFetchRequest, OffsetFetchRequest, offset_fetch_request, offset_fetch_get_bytes,
}
use pykafka.Protocol.ConsumerMetadata.{ConsumerMetadataRequest, consumer_metadata_get_bytes}

-- The subclasses of Request.
pub data Request : Type 0 where
  fetch : FetchRequest → Request
  produce : ProduceRequest → Request
  offset : OffsetRequest → Request
  metadata : MetadataRequest → Request
  offset_commit : OffsetCommitRequest → Request
  offset_fetch : OffsetFetchRequest → Request
  consumer_metadata : ConsumerMetadataRequest → Request

-- request.get_bytes()
abbrev pub request_bytes : Codec → Request → Result (List ℕ)
request_bytes c (fetch r) = fetch_get_bytes r
request_bytes c (produce r) = produce_get_bytes c r >>= λ b. ok b.0
request_bytes c (offset r) = offset_get_bytes r
request_bytes c (metadata r) = metadata_get_bytes r
request_bytes c (offset_commit r) = offset_commit_get_bytes r
request_bytes c (offset_fetch r) = offset_fetch_get_bytes r
request_bytes c (consumer_metadata r) = consumer_metadata_get_bytes r

-- `_connection` is the connection of `_req_handler`, unless the last attempt to connect raised: then it is
-- one that was never opened, `detached`, and `_req_handler` still has the one before. So too for the
-- channel for offsets, which is not there at first. Timeouts and the source address are left out.
pub record Broker : Type 0 where
  pub id : ℤ
  pub host : Text
  pub port : ℤ
  pub buffer_size : ℕ
  pub req_handler : RequestHandler Request
  pub detached : Bool
  pub offsets_handler : Option (RequestHandler Request)
  pub offsets_detached : Bool

-- A RequestHandler on a new BrokerConnection that was opened.
abbrev pub new_handler : ℕ → Socket → RequestHandler Request
new_handler buffer_size socket =
    request_handler (record { buff = zeros buffer_size; socket = some socket })

abbrev pub has_socket : Option Socket → Bool
has_socket none = false
has_socket (some socket) = true

-- The property `connected`.
unfoldable pub connected : Broker → Bool
connected b = if b.detached then false else has_socket b.req_handler.connection.socket

abbrev pub handler_connected : Option (RequestHandler Request) → Bool
handler_connected none = false
handler_connected (some h) = has_socket h.connection.socket

-- The property `offsets_channel_connected`.
unfoldable pub offsets_channel_connected : Broker → Bool
offsets_channel_connected b =
    if b.offsets_detached then false else handler_connected b.offsets_handler

-- connect, where `created` is the outcome of socket.create_connection.
unfoldable pub connect : Result Socket → Broker → Result (Unit {0}) × Broker
connect (err e) b = (err e, record b { detached = true })
connect (ok socket) b =
    (ok tt, record b { req_handler = new_handler b.buffer_size socket; detached = false })

unfoldable pub connect_offsets_channel : Result Socket → Broker → Result (Unit {0}) × Broker
connect_offsets_channel (err e) b = (err e, record b { offsets_detached = true })
connect_offsets_channel (ok socket) b = (
  ok tt,
  record b { offsets_handler = some (new_handler b.buffer_size socket); offsets_detached = false },
)

-- __init__, which raises what connect raises.
unfoldable pub broker : ℤ → Text → ℤ → ℕ → Result Socket → Result Broker
broker id host port buffer_size (err e) = err e
broker id host port buffer_size (ok socket) = ok (record {
  id = id;
  host = host;
  port = port;
  buffer_size = buffer_size;
  req_handler = new_handler buffer_size socket;
  detached = false;
  offsets_handler = none;
  offsets_detached = false;
})

unfoldable pub from_metadata : BrokerMetadata → ℕ → Result Socket → Result Broker
unfolding broker
from_metadata meta buffer_size created = broker meta.id meta.host meta.port buffer_size created

-- With the codec of compressed sets, the interpreter's limit on recursion, and what sending does.
module _ (c : Codec) (depth : ℕ) (sendall : Sendall) where
  abbrev BrokerHandler : Type 0
  BrokerHandler = RequestHandler Request

  abbrev pub with_handler {ℓ} : {A : Type ℓ} → Broker → Result A × BrokerHandler → Result A × Broker
  with_handler b (r, h) = (r, record b { req_handler = h })

  -- self._req_handler.request(q).get(response_cls)
  abbrev pub ask_broker {ℓ} :
      {A : Type ℓ} → (List ℕ → Result A) → Request → Broker → Result A × Broker
  ask_broker response_cls q b =
      with_handler b (ask (request_bytes c) sendall response_cls q b.req_handler)

  unfoldable pub fetch_messages :
      List PartitionFetchRequest
      → ℤ
      → ℤ
      → Broker
      → Result (Dict Text (Dict ℤ FetchPartitionResponse)) × Broker
  fetch_messages partition_requests timeout min_bytes b =
      ask_broker (fetch_response c depth)
        (fetch (fetch_request partition_requests timeout min_bytes)) b

  -- What comes of `request` with `has_response=False`.
  abbrev pub only_sent {ℓ} :
      {A : Type ℓ} → Broker → Result (Option ℕ) × BrokerHandler → Result (Option A) × Broker
  only_sent b (err e, h) = (err e, record b { req_handler = h })
  only_sent b (ok future, h) = (ok none, record b { req_handler = h })

  abbrev pub as_some {ℓ} : {A : Type ℓ} → Result A × Broker → Result (Option A) × Broker
  as_some (r, b) = (r >>= λ a. ok (some a), b)

  -- produce_messages: with no acks required the request is only queued, and None returned.
  unfoldable pub produce_messages :
      ProduceRequest → Broker → Result (Option (Dict Text (Dict ℤ (ℤ × ℤ)))) × Broker
  produce_messages produce_request b =
      if eq_ℤ produce_request.required_acks (pos 0)
      then only_sent b (put_request (produce produce_request) false b.req_handler)
      else as_some (ask_broker produce_response (produce produce_request) b)

  unfoldable pub request_offset_limits :
      List PartitionOffsetRequest → Broker → Result (Dict Text (Dict ℤ (List ℤ × ℤ))) × Broker
  request_offset_limits partition_requests b =
      ask_broker offset_response (offset (offset_request partition_requests)) b

  -- One round of the loop of request_metadata, with the rounds that are left.
  abbrev pub unless_disconnected {ℓ} :
      {A : Type ℓ}
      → (Broker → Result (Option A) × Broker)
      → Result A × Broker
      → Result (Option A) × Broker
  unless_disconnected next (ok response, b) = (ok (some response), b)
  unless_disconnected next (err e, b) = if is_disconnected e then next b else (err e, b)

  unfoldable pub metadata_tries :
      ℕ → MetadataRequest → Broker → Result (Option MetadataResponse) × Broker
  metadata_tries zero q b = (ok none, b)
  metadata_tries (suc n) q b =
      unless_disconnected (metadata_tries n q) (ask_broker metadata_response (metadata q) b)

  -- request_metadata: None after three disconnects. What is only logged is left out, and the pauses.
  unfoldable pub request_metadata :
      List (List ℕ) → Broker → Result (Option MetadataResponse) × Broker
  unfolding metadata_tries
  request_metadata topics b = metadata_tries 3 (record { topics = topics }) b

  -- `if not self.offsets_channel_connected: self.connect_offsets_channel()`
  abbrev pub ready_offsets_channel : Result Socket → Broker → Result (Unit {0}) × Broker
  ready_offsets_channel created b =
      if offsets_channel_connected b then (ok tt, b) else connect_offsets_channel created b

  abbrev pub with_offsets_handler {ℓ} :
      {A : Type ℓ} → Broker → Result A × BrokerHandler → Result A × Broker
  with_offsets_handler b (r, h) = (r, record b { offsets_handler = some h })

  abbrev pub ask_handler {ℓ} :
      {A : Type ℓ}
      → (List ℕ → Result A)
      → Request
      → Option BrokerHandler
      → Broker
      → Result A × Broker
  ask_handler response_cls q none b = (err attribute_error, b)
  ask_handler response_cls q (some h) b =
      with_offsets_handler b (ask (request_bytes c) sendall response_cls q h)

  -- The request over the channel, unless opening it raised.
  abbrev pub ask_offsets_channel {ℓ} :
      {A : Type ℓ} → (List ℕ → Result A) → Request → Result (Unit {0}) × Broker → Result A × Broker
  ask_offsets_channel response_cls q (err e, b) = (err e, b)
  ask_offsets_channel response_cls q (ok u, b) = ask_handler response_cls q b.offsets_handler b

  unfoldable pub commit_consumer_group_offsets :
      List ℕ
      → ℤ
      → List ℕ
      → List PartitionOffsetCommitRequest
      → Result Socket
      → Broker
      → Result (Dict Text (Dict ℤ ℤ)) × Broker
  unfolding offsets_channel_connected connect_offsets_channel
  commit_consumer_group_offsets consumer_group generation_id consumer_id preqs created b =
      ask_offsets_channel offset_commit_response
        (offset_commit (offset_commit_request consumer_group generation_id consumer_id preqs))
        (ready_offsets_channel created b)

  unfoldable pub fetch_consumer_group_offsets :
      List ℕ
      → List PartitionOffsetFetchRequest
      → Result Socket
      → Broker
      → Result (Dict Text (Dict ℤ (ℤ × (Text × ℤ)))) × Broker
  unfolding offsets_channel_connected connect_offsets_channel
  fetch_consumer_group_offsets consumer_group preqs created b =
      ask_offsets_channel offset_fetch_response
        (offset_fetch (offset_fetch_request consumer_group preqs)) (ready_offsets_channel created b)
