-- ===== src/Cluster/Update.antt =====
-- pykafka/cluster.py: Cluster.update, and get_offset_manager.
use pykafka.Prelude.{
  ℕ, zero, suc, pos, ◌%◌, Bool, false, Option, none, some, List, [], length, map, get_elem?, eq_ℤ,
  if◌then◌else◌,
}
use pykafka.Result.{
  Result, ok, err, Error, is_no_leader, is_disconnected, protocol, exception, index_error,
}
use pykafka.Action.{Action, pure, raise, lift, ◌>>=◌, ◌>>◌}
use pykafka.Dict.{lookup, int_eq}
use pykafka.Compression.{Codec}
use pykafka.Connection.Requests.{Sendall}
use pykafka.Protocol.Response.Brokers.{ConsumerMetadataResponse, consumer_metadata_response}
use pykafka.Broker.{consumer_metadata, ask_broker}
use pykafka.Cluster.{Cluster, Ref, on_broker, update_brokers}
use pykafka.Cluster.Metadata.{get_metadata}
use pykafka.Cluster.Topics.{update_topics}

-- `except ConsumerCoordinatorNotAvailable`
abbrev pub is_no_coordinator : Error → Bool
is_no_coordinator (protocol code) = eq_ℤ code (pos 15)
is_no_coordinator e = false

-- random.choice(list(self.brokers.keys())), where the number is random.
abbrev pub choose : ℕ → List Ref → Result Ref
choose n refs = elim (get_elem? refs (n % length refs)) [
  | none ↦ err index_error
  | some ref ↦ ok ref
]

abbrev pub coordinator : Option Ref → Action Cluster (Option Ref)
coordinator none = raise exception
coordinator (some ref) = pure (some ref)

module _ (codec : Codec) (depth : ℕ) (sendall : Sendall) where
  -- `except LeaderNotAvailable: ... else: break`
  abbrev pub unless_no_leader :
      Action Cluster (Unit {0}) → Result (Unit {0}) × Cluster → Result (Unit {0}) × Cluster
  unless_no_leader next (err e, c) = if is_no_leader e then next c else (err e, c)
  unless_no_leader next (ok u, c) = (ok u, c)

  -- The rounds that are left of the loop of `update`, which is silent after the last.
  unfoldable pub update_tries : ℕ → Action Cluster (Unit {0})
  update_tries zero = pure tt
  update_tries (suc n) = do
    metadata ← get_metadata codec depth sendall []
    update_brokers metadata.brokers
    λ c. unless_no_leader (update_tries n) (update_topics metadata.topics c)

  unfoldable pub update : Action Cluster (Unit {0})
  unfolding update_tries
  update = update_tries 3

  -- Whether an error of the last round is raised.
  abbrev pub raise_last : ℕ → Action Cluster (Option Ref) → Action Cluster (Option Ref)
  raise_last zero next = raise (protocol (pos 15))
  raise_last (suc n) next = next

  -- ConsumerCoordinatorNotAvailable, SocketDisconnectedError, another exception, or a response; with the
  -- rounds that are left after this one.
  abbrev pub discovered :
      ℕ
      → Action Cluster (Option Ref)
      → Result ConsumerMetadataResponse × Cluster
      → Result (Option Ref) × Cluster
  discovered n next (err e, c) =
      if is_no_coordinator e
      then raise_last n next c
      else (if is_disconnected e then (update >> next) c else (err e, c))
  discovered n next (ok res, c) = coordinator (lookup res.coordinator_id c.brokers) c

  -- The rounds that are left of the loop.
  unfoldable pub discover_tries : ℕ → List ℕ → Ref → Action Cluster (Option Ref)
  discover_tries zero consumer_group ref c = (ok none, c)
  discover_tries (suc n) consumer_group ref c = discovered n (discover_tries n consumer_group ref) (
      on_broker ref
        (ask_broker codec depth sendall consumer_metadata_response
          (consumer_metadata (record { consumer_group = consumer_group })))
        c)

  -- get_offset_manager, with the random choice of a broker that is asked.
  unfoldable pub get_offset_manager : ℕ → List ℕ → Action Cluster (Option Ref)
  unfolding discover_tries
  get_offset_manager n consumer_group c =
      (lift (choose n (map (λ b. b.1) c.brokers)) >>= discover_tries 5 consumer_group) c
