-- ===== src/Cluster/Metadata.antt =====
-- pykafka/cluster.py: _get_metadata, from a broker that is connected or from the seed hosts.
use pykafka.Prelude.{
  ℕ, ℤ, negsuc, Bool, false, Option, none, some, List, [], ◌∷◌, get_elem?, if◌then◌else◌,
}
use pykafka.Result.{Result, ok, err, runtime_error}
use pykafka.Action.{Action, pure, raise, lift, ◌>>=◌}
use pykafka.Dict.{Dict}
use pykafka.Compression.{Codec}
use pykafka.Connection.Requests.{Sendall}
use pykafka.Protocol.Response.Brokers.{MetadataResponse}
use pykafka.Broker.{Broker, connected, broker, request_metadata}
use pykafka.Cluster.{Cluster, Ref, buffer_size, next_connection, on_broker}
use pykafka.Cluster.Seeds.{split, parse_seed}

abbrev pub is_connected : Option Broker → Bool
is_connected none = false
is_connected (some b) = connected b

-- [b for b in self.brokers.values() if b.connected]
unfoldable pub connected_brokers : List Broker → Dict ℤ Ref → List Ref
connected_brokers store [] = []
connected_brokers store ((id, ref) ∷ brokers) =
    let rest = connected_brokers store brokers in
    if is_connected (get_elem? store ref) then ref ∷ rest else rest

module _ (codec : Codec) (depth : ℕ) (sendall : Sendall) where
  -- `if response is not None: return response`, else the rest of the loop.
  abbrev pub or_next :
      Option MetadataResponse → Action Cluster MetadataResponse → Action Cluster MetadataResponse
  or_next none next = next
  or_next (some response) next = pure response

  -- The loop over the brokers, and the error behind it.
  unfoldable pub ask_brokers : List (List ℕ) → List Ref → Action Cluster MetadataResponse
  ask_brokers topics [] = raise runtime_error
  ask_brokers topics (ref ∷ refs) =
      on_broker ref (request_metadata codec depth sendall topics) >>= λ response.
      or_next response (ask_brokers topics refs)

  -- Broker(-1, h, int(p), ...)
  abbrev pub seed_broker : List ℕ × ℤ → Action Cluster Broker
  seed_broker (h, port) = do
    created ← next_connection
    lift (broker (negsuc 0) (some h) port buffer_size created)

  -- The body of the `try`.
  unfoldable pub ask_seed : List (List ℕ) → List ℕ → Action Cluster (Option MetadataResponse)
  ask_seed topics broker_str = do
    seed ← lift (parse_seed broker_str)
    b ← seed_broker seed
    lift (request_metadata codec depth sendall topics b).0

  -- `except Exception`: what is raised is logged.
  abbrev pub unless_raised :
      Result (Option MetadataResponse) × Cluster → Result (Option MetadataResponse) × Cluster
  unless_raised (err e, c) = (ok none, c)
  unless_raised (ok response, c) = (ok response, c)

  -- The loop over the seed hosts, and the error behind it.
  unfoldable pub ask_seeds : List (List ℕ) → List (List ℕ) → Action Cluster MetadataResponse
  ask_seeds topics [] = raise runtime_error
  ask_seeds topics (broker_str ∷ seeds) =
      (λ c. unless_raised (ask_seed topics broker_str c)) >>= λ response.
      or_next response (ask_seeds topics seeds)

  -- `if brokers: ... else: ...`
  abbrev pub ask_any : List (List ℕ) → List Ref → List (List ℕ) → Action Cluster MetadataResponse
  ask_any topics [] seeds = ask_seeds topics seeds
  ask_any topics (ref ∷ refs) seeds = ask_brokers topics (ref ∷ refs)

  -- _get_metadata, for all topics where none is given.
  unfoldable pub get_metadata : List (List ℕ) → Action Cluster MetadataResponse
  unfolding ask_brokers ask_seeds
  get_metadata topics c =
      ask_any topics (connected_brokers c.store c.brokers) (split 44 c.seed_hosts) c
