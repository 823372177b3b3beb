-- ===== src/Cluster.antt =====
-- pykafka/cluster.py: the cluster with its brokers, and the update of these from metadata.
pub mod Known
pub mod Rounds
pub mod Updated
pub mod Seeds
pub mod Metadata
pub mod Topics
pub mod Update
pub mod Called
pub mod Asked
pub mod Invariant
pub mod OffsetManager
use pykafka.Prelude.{
  ℕ, zero, suc, ℤ, pos, ◌+◌, ◌*◌, ◌&&◌, Bool, true, false, Option, none, some, List, [], ◌∷◌, ◌++◌,
  length, get_elem?, modify, eq_ℤ, if◌then◌else◌,
}
use pykafka.Result.{Result, ok, err, Error, attribute_error, socket_error, exception}
use pykafka.Action.{Action, pure, raise, lift, gets, change, ◌>>=◌, ◌>>◌, for_each}
use pykafka.Dict.{Dict, lookup, insert, int_eq, text_beq}
use pykafka.Connection.{Socket}
use pykafka.Protocol.Response.{Text}
use pykafka.Protocol.Response.Brokers.{BrokerMetadata}
use pykafka.Partition.{Partition}
use pykafka.Broker.{Broker, connected, connect, from_metadata}
use pykafka.Dict.{retain}

-- A broker is a place in the store of brokers, so that the cluster and the partitions share it.
abbrev pub Ref : Type 0
Ref = ℕ

-- A topic's partitions.
abbrev pub Topic : Type 0
Topic = Dict ℤ (Partition Ref)

-- `topics` is the TopicDict: None where the Topic was not instantiated, or is no longer alive.
-- `connections` holds what the next calls of socket.create_connection come to, and `store` all brokers.
pub record Cluster : Type 0 where
  pub store : List Broker
  pub brokers : Dict ℤ Ref
  pub topics : Dict Text (Option Topic)
  pub exclude_internal_topics : Bool
  pub seed_hosts : List ℕ
  pub connections : List (Result Socket)

-- The size of a broker's buffer.
unfoldable pub buffer_size : ℕ
buffer_size = 1024 * 1024

abbrev pub take_connection : List (Result Socket) → Action Cluster (Result Socket)
take_connection [] c = (ok (err socket_error), c)
take_connection (created ∷ rest) c = (ok created, record c { connections = rest })

-- What the next call of socket.create_connection comes to.
unfoldable pub next_connection : Action Cluster (Result Socket)
next_connection c = take_connection c.connections c

module _ {ℓ} {A : Type ℓ} where
  abbrev pub put_back : Ref → Cluster → Result A × Broker → Result A × Cluster
  put_back ref c (r, b) = (r, record c { store = modify ref (λ _. b) c.store })

  abbrev pub call_broker : (Broker → Result A × Broker) → Ref → Option Broker → Action Cluster A
  call_broker method ref none c = (err attribute_error, c)
  call_broker method ref (some b) c = put_back ref c (method b)

  -- A method of a broker. Each reference has its broker.
  unfoldable pub on_broker : Ref → (Broker → Result A × Broker) → Action Cluster A
  on_broker ref method c = call_broker method ref (get_elem? c.store ref) c

-- self._brokers.pop(id_) for each id that the metadata does not name.
abbrev pub remove_brokers : Dict ℤ BrokerMetadata → Dict ℤ Ref → Dict ℤ Ref
remove_brokers metadata brokers = retain metadata brokers

-- The new object has a place in the store.
abbrev pub place : ℤ → Result Broker → Action Cluster (Unit {0})
place id (err e) c = (err e, c)
place id (ok b) c =
    (ok tt, record c { store = c.store ++ b ∷ []; brokers = insert id (length c.store) c.brokers })

-- self._brokers[id_] = Broker.from_metadata(...)
unfoldable pub discover : ℤ → BrokerMetadata → Action Cluster (Unit {0})
discover id meta = do created ← next_connection; place id (from_metadata meta buffer_size created)

-- `except socket.error`
abbrev pub unless_socket_error : Result (Unit {0}) → Result (Unit {0})
unless_socket_error (err socket_error) = ok tt
unless_socket_error r = r

abbrev pub except_socket_error : Result (Unit {0}) × Cluster → Result (Unit {0}) × Cluster
except_socket_error (r, c) = (unless_socket_error r, c)

unfoldable pub reconnect : Ref → Action Cluster (Unit {0})
reconnect ref = do
  created ← next_connection
  λ c. except_socket_error (on_broker ref (connect created) c)

-- `if meta.host == broker.host and meta.port == broker.port: continue`
abbrev pub check_unchanged : BrokerMetadata → Broker → Action Cluster (Unit {0})
check_unchanged meta b =
    if text_beq meta.host b.host && eq_ℤ meta.port b.port then pure tt else raise exception

abbrev pub renew : Ref → BrokerMetadata → Option Broker → Action Cluster (Unit {0})
renew ref meta none = raise attribute_error
renew ref meta (some b) = if connected b then check_unchanged meta b else reconnect ref

abbrev pub add_or_renew : ℤ → BrokerMetadata → Option Ref → Action Cluster (Unit {0})
add_or_renew id meta none = discover id meta
add_or_renew id meta (some ref) = λ c. renew ref meta (get_elem? c.store ref) c

-- One round of the loop of _update_brokers.
unfoldable pub update_broker : ℤ × BrokerMetadata → Action Cluster (Unit {0})
update_broker (id, meta) c = add_or_renew id meta (lookup id c.brokers) c

-- _update_brokers
unfoldable pub update_brokers : Dict ℤ BrokerMetadata → Action Cluster (Unit {0})
update_brokers metadata = do
  change λ c. record c { brokers = remove_brokers metadata c.brokers }
  for_each update_broker metadata
