-- ===== src/Tests/Clusters.antt =====
-- The theorems on clusters, on one that knows a broker and discovers another one.
use pykafka.Prelude.{
  ℕ, ℤ, pos, ◌≡◌, refl, sym, true, Bool-cases, inl, inr, some, none, [], ◌∷◌, All, eq_ℤ, eq_ℤ_iff,
  get_elem?,
}
use pykafka.Result.{ok}
use pykafka.Dict.{Dict, lookup, int_eq}
use pykafka.Protocol.Header.{codes}
use pykafka.Protocol.Response.Brokers.{BrokerMetadata}
use pykafka.Broker.{connected}
use pykafka.Cluster.{Cluster, update_brokers}
use pykafka.Cluster.Known.{IsKnown, Fits}
use pykafka.Cluster.Updated.{update_brokers_lem}
use pykafka.Cluster.Update.{get_offset_manager}
use pykafka.Cluster.OffsetManager.{Manages, get_offset_manager_lem, asked, at_once, found}
use pykafka.Tests.Requests.{identity}
use pykafka.Tests.Brokers.{on_connection, new_connection}
use pykafka.Prelude.{ap, map, arith, List, ◌++◌}
use pykafka.Cluster.{on_broker, put_back}
use pykafka.Cluster.Update.{choose}
use pykafka.Broker.{Broker, consumer_metadata}
use pykafka.Broker.Requested.{IsAnswered, broker_after, exchange-answered, ask_broker-exchange}
use pykafka.Connection.{chunk}
use pykafka.Connection.Requests.{Sendall}
use pykafka.Connection.Response.{IsFrame}
use pykafka.Handlers.Synchronous.{started}
use pykafka.Protocol.ConsumerMetadata.{
  ConsumerMetadataRequest, consumer_metadata_get_bytes, consumer_metadata_length,
}
use pykafka.Protocol.Header.{get_bytes, write_header}
use pykafka.Writer.{put, advance, ◌>>>◌}
use pykafka.Struct.{pack_into, pack}
use pykafka.Protocol.Response.Brokers.{consumer_metadata_response, ConsumerMetadataResponse}
use pykafka.Protocol.Response.Brokers.Bytes.{coordinator_bytes, consumer_metadata_response_lem}
use pykafka.Result.{Result, ◌>>=◌}
use pykafka.Cluster.{update_broker, discover, next_connection}
use pykafka.Dict.{retain}
use pykafka.Broker.{from_metadata}
use pykafka.Prelude.{◌∙◌}

abbrev test_cluster : Cluster
test_cluster = record {
  store = on_connection new_connection ∷ [];
  brokers = (pos 0, 0) ∷ [];
  topics = [];
  exclude_internal_topics = true;
  seed_hosts = codes "localhost:9092";
  connections = ok [] ∷ [];
}

test_cluster-IsKnown : IsKnown test_cluster
unfolding lookup
test_cluster-IsKnown = record {
  known = λ id ref h. elim (Bool-cases (eq_ℤ (pos 0) id)) [
    | inl p ↦
        let found : some 0 ≡ some ref = rw p at h in
        let same : 0 ≡ ref = cc in
        (
          on_connection new_connection,
          ap (get_elem? test_cluster.store) (sym same),
          (eq_ℤ_iff (pos 0) id).0 p,
        )
    | inr p ↦ let clash : none ≡ some ref = rw p at h in absurd cc
  ];
}

abbrev at_port : ℕ → ℕ → BrokerMetadata
at_port id port = record { id = pos id; host = some (codes "localhost"); port = pos port }

abbrev two_brokers : Dict ℤ BrokerMetadata
two_brokers = (pos 0, at_port 0 9092) ∷ (pos 1, at_port 1 9093) ∷ []

test_update : (update_brokers two_brokers test_cluster).0 ≡ ok tt
unfolding update_brokers update_broker lookup retain discover next_connection from_metadata
    connected
test_update = refl

update_brokers_lem_example :
    IsKnown (update_brokers two_brokers test_cluster).1
    × All (λ m. Fits m.0 m.1 test_cluster (update_brokers two_brokers test_cluster).1) two_brokers
    × ((id : ℤ)
        → lookup id two_brokers ≡ none
        → lookup id (update_brokers two_brokers test_cluster).1.brokers ≡ none)
update_brokers_lem_example =
    update_brokers_lem two_brokers test_cluster (refl, ((λ e. cc, tt), (refl, (tt, tt))))
      test_cluster-IsKnown test_update

-- The broker answers that it is itself the coordinator.
abbrev this_coordinator : ConsumerMetadataResponse
this_coordinator = record {
  coordinator_id = pos 0;
  coordinator_host = some (codes "h");
  coordinator_port = pos 9092;
}

abbrev coordinator_content : List ℕ
coordinator_content = 0 ∷ 0 ∷ 0 ∷ 0 ∷ 0 ∷ 0 ∷ 0 ∷ 1 ∷ 104 ∷ 0 ∷ 0 ∷ 35 ∷ 132 ∷ []

coordinator_lem : coordinator_bytes (pos 0) this_coordinator ≡ ok coordinator_content
unfolding pack
coordinator_lem = refl

abbrev coordinator_frame : List ℕ
coordinator_frame = 0 ∷ 0 ∷ 0 ∷ 17 ∷ (0 ∷ 0 ∷ 0 ∷ 0 ∷ coordinator_content)

coordinator_IsFrame : IsFrame (0 ∷ 0 ∷ 0 ∷ 0 ∷ []) coordinator_content coordinator_frame
unfolding pack
coordinator_IsFrame = record {
  size = 0 ∷ 0 ∷ 0 ∷ 17 ∷ [];
  four = refl;
  packed = refl;
  parts = refl;
}

abbrev answer_coordinator : Sendall
answer_coordinator bytes socket = (ok tt, chunk coordinator_frame ∷ [])

abbrev group_request : ConsumerMetadataRequest
group_request = record { consumer_group = codes "group" }

abbrev group_bytes : List ℕ
group_bytes =
    0 ∷ 0 ∷ 0 ∷ 0x18 ∷ 0 ∷ 10 ∷ 0 ∷ 0 ∷ 0 ∷ 0 ∷ 0 ∷ 0 ∷ 0 ∷ 7 ∷ codes "pykafka"
    ++ 0 ∷ 5 ∷ codes "group"

group_lem : consumer_metadata_get_bytes group_request ≡ ok group_bytes
unfolding consumer_metadata_get_bytes consumer_metadata_length get_bytes write_header pack_into put
    advance ◌>>>◌
group_lem = refl

coordinator_IsAnswered :
    IsAnswered identity 8 answer_coordinator new_connection group_bytes coordinator_content
      new_connection
coordinator_IsAnswered = record {
  socket = [];
  socket' = chunk coordinator_frame ∷ [];
  connected = refl;
  sends = refl;
  correlation = 0 ∷ 0 ∷ 0 ∷ 0 ∷ [];
  frame = coordinator_frame;
  later = [];
  framed = coordinator_IsFrame;
  pieces = (omega arith, tt);
  arrives = refl;
}

abbrev asked_broker : Broker
asked_broker =
    broker_after identity 8 answer_coordinator new_connection (consumer_metadata group_request)
      (on_connection new_connection)

abbrev asked_cluster : Cluster
asked_cluster = record test_cluster { store = asked_broker ∷ [] }

asked_coordinator :
    asked identity 8 answer_coordinator (codes "group") 0 test_cluster
    ≡ (ok this_coordinator, asked_cluster)
unfolding on_broker
asked_coordinator =
    let (tail, answer) =
      exchange-answered identity 8 answer_coordinator new_connection
        (consumer_metadata group_request) group_bytes coordinator_content new_connection group_lem
        coordinator_IsAnswered in
    ap (put_back 0 test_cluster) (
      ask_broker-exchange identity 8 answer_coordinator new_connection consumer_metadata_response
        (consumer_metadata group_request) (record { reached = started; live = refl })
      ∙ ap (λ (x : Result (List ℕ)). (x >>= consumer_metadata_response, asked_broker)) answer
      ∙ ap (λ (x : Result ConsumerMetadataResponse). (x, asked_broker))
          (consumer_metadata_response_lem (pos 0) this_coordinator coordinator_content tail
            coordinator_lem))

asked-found : lookup this_coordinator.coordinator_id asked_cluster.brokers ≡ some 0
unfolding lookup
asked-found = refl

chosen_first : choose 0 (map (λ b. b.1) test_cluster.brokers) ≡ ok 0
chosen_first = refl

get_offset_manager_lem_example :
    (get_offset_manager identity 8 answer_coordinator 0 (codes "group") test_cluster
      ≡ (ok (some 0), asked_cluster))
    × Manages (ok (some 0), asked_cluster)
get_offset_manager_lem_example =
    get_offset_manager_lem identity 8 answer_coordinator 0 (codes "group") 0 0 test_cluster
      test_cluster (ok (some 0), asked_cluster) test_cluster-IsKnown chosen_first at_once
      (found this_coordinator 0 (omega arith) asked_coordinator asked-found)
