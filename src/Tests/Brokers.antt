-- ===== src/Tests/Brokers.antt =====
-- The theorems on brokers, on one that answers a request of metadata and on one that is disconnected.
use pykafka.Prelude.{ℕ, pos, ◌≡◌, refl, arith, false, some, none, List, [], ◌∷◌, ◌++◌}
use pykafka.Result.{ok}
use pykafka.Connection.{BrokerConnection, chunk}
use pykafka.Connection.Requests.{Sendall}
use pykafka.Connection.Response.{IsFrame}
use pykafka.Handlers.{request_handler}
use pykafka.Handlers.Synchronous.{started}
use pykafka.Protocol.Header.{codes}
use pykafka.Protocol.Response.Brokers.Grammar.{metadata_of}
use pykafka.Broker.{Broker, request_metadata, metadata_tries}
use pykafka.Broker.Requested.{IsAnswered, request_metadata_lem, metadata_tries-disconnected}
use pykafka.Tests.Requests.{identity, all_topics}
use pykafka.Struct.{pack}
use pykafka.Tests.Responses.{test_brokers, test_topics, metadata_content, metadata_lem}

abbrev pub on_connection : BrokerConnection → Broker
on_connection k = record {
  id = pos 0;
  host = some (codes "localhost");
  port = pos 9092;
  buffer_size = 16;
  req_handler = request_handler k;
  detached = false;
  offsets_handler = none;
  offsets_detached = false;
}

abbrev pub new_connection : BrokerConnection
new_connection = record { buff = []; socket = some [] }

abbrev pub closed_connection : BrokerConnection
closed_connection = record { buff = []; socket = none }

abbrev metadata_frame : List ℕ
metadata_frame = 0 ∷ 0 ∷ 0 ∷ 65 ∷ (0 ∷ 0 ∷ 0 ∷ 0 ∷ metadata_content)

-- Whatever is sent, the frame arrives.
abbrev pub answer : Sendall
answer bytes socket = (ok tt, chunk metadata_frame ∷ [])

abbrev metadata_bytes : List ℕ
metadata_bytes =
    0 ∷ 0 ∷ 0 ∷ 0x15 ∷ 0 ∷ 3 ∷ 0 ∷ 0 ∷ 0 ∷ 0 ∷ 0 ∷ 0 ∷ 0 ∷ 7 ∷ codes "pykafka" ++ 0 ∷ 0 ∷ 0 ∷ 0 ∷ []

metadata_IsFrame : IsFrame (0 ∷ 0 ∷ 0 ∷ 0 ∷ []) metadata_content metadata_frame
unfolding pack
metadata_IsFrame = record { size = 0 ∷ 0 ∷ 0 ∷ 65 ∷ []; four = refl; packed = refl; parts = refl }

metadata_IsAnswered :
    IsAnswered identity 8 answer new_connection metadata_bytes metadata_content new_connection
metadata_IsAnswered = record {
  socket = [];
  socket' = chunk metadata_frame ∷ [];
  connected = refl;
  sends = refl;
  correlation = 0 ∷ 0 ∷ 0 ∷ 0 ∷ [];
  frame = metadata_frame;
  later = [];
  framed = metadata_IsFrame;
  pieces = (omega arith, tt);
  arrives = refl;
}

request_metadata_lem_example :
    (request_metadata identity 8 answer [] (on_connection new_connection)).0
    ≡ ok (some (metadata_of test_brokers test_topics))
request_metadata_lem_example =
    request_metadata_lem identity 8 answer new_connection [] metadata_bytes test_brokers test_topics
      metadata_content (record { reached = started; live = refl }) all_topics metadata_lem
      metadata_IsAnswered

metadata_tries-disconnected_example :
    (metadata_tries identity 8 answer 3
      (record { topics = [] })
      (on_connection closed_connection)).0
    ≡ ok none
metadata_tries-disconnected_example =
    metadata_tries-disconnected identity 8 answer closed_connection 3 (record { topics = [] })
      metadata_bytes (record { reached = started; live = refl }) all_topics refl
