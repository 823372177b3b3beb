-- ===== src/SimpleConsumer/Fetch.antt =====
-- pykafka/simpleconsumer.py: SimpleConsumer.fetch.
use pykafka.Prelude.{
  ℕ, ℤ, Bool, true, false, ◌||◌, Option, none, some, List, [], ◌∷◌, eq_ℤ, ltb_ℤ, if◌then◌else◌, ltb,
}
use pykafka.Result.{Result, ok, err, attribute_error}
use pykafka.Action.{Action, pure, raise, gets, change, ◌>>=◌, ◌>>◌, for_each}
use pykafka.Dict.{Dict, lookup, insert, int_eq, text_eq}
use pykafka.ErrorHandlers.{Part, Handler, build_parts_by_error, handle_partition_responses}
use pykafka.Sorted.{sorted}
use pykafka.SimpleConsumer.{OwnedPartition, enqueue_messages, message_count, build_fetch_request}
use pykafka.SimpleConsumer.Consumer.{
  Consumer, Services, Settings, is_lost, at_partition, call_cluster, by_id, acquire_lock,
  release_lock, update_consumer, default_error_handlers,
}
use pykafka.Protocol.Message.{Message}
use pykafka.SimpleConsumer.Parts.{keys}
use pykafka.Protocol.Response.{Text}
use pykafka.Protocol.Response.Fetched.{FetchPartitionResponse}
use pykafka.Protocol.Fetch.{PartitionFetchRequest}

module _ {ℓ} {C : Type ℓ} where
  -- One round of the loop of fetch's _handle_success.
  abbrev pub enqueue_some : Option ℤ → List Message → Action (Consumer C) (Unit {0})
  enqueue_some owned [] = pure tt
  enqueue_some none (m ∷ ms) = raise attribute_error
  enqueue_some (some id) (m ∷ ms) = change (at_partition id (enqueue_messages (m ∷ ms)))

  unfoldable pub handle_messages : Handler (Part ℤ FetchPartitionResponse) (Consumer C)
  unfolding enqueue_messages
  handle_messages parts = for_each (λ p. enqueue_some p.0 p.1.messages) parts

  -- unlock_partitions
  unfoldable pub unlock_partitions : List ℤ → Action (Consumer C) (Unit {0})
  unfolding release_lock
  unlock_partitions ids = for_each release_lock ids

-- {owned_partition: request or None}
abbrev pub Requests : Type 0
Requests = Dict ℤ (Option PartitionFetchRequest)

-- The requests that are not None.
abbrev pub requested : Requests → List PartitionFetchRequest
requested [] = []
requested ((id, none) ∷ reqs) = requested reqs
requested ((id, some req) ∷ reqs) = req ∷ requested reqs

-- The brokers of the leaders: sorting by their ids, None is an AttributeError.
abbrev pub also_leader : ℕ × List ℤ → Result (List (ℕ × List ℤ)) → Result (List (ℕ × List ℤ))
also_leader leader (err e) = err e
also_leader leader (ok leaders) = ok (leader ∷ leaders)

abbrev pub leaders_of : Dict (Option ℕ) (List ℤ) → Result (List (ℕ × List ℤ))
leaders_of [] = ok []
leaders_of ((none, ids) ∷ by_leader) = err attribute_error
leaders_of ((some broker, ids) ∷ by_leader) = also_leader (broker, ids) (leaders_of by_leader)

abbrev pub is_in : ℤ → List ℤ → Bool
is_in id [] = false
is_in id (j ∷ ids) = eq_ℤ j id || is_in id ids

module _ {ℓ} {C : Type ℓ} (services : Services C) (settings : Settings)
    (reset : List (ℤ × ℤ) → Action (Consumer C) (Unit {0})) where
  open services use {fetch_messages}

  -- No request where the queue is full.
  abbrev pub request_for : Option OwnedPartition → Option PartitionFetchRequest
  request_for none = none
  request_for (some p) =
      if ltb (message_count p) settings.queued_max_messages
      then some (build_fetch_request settings.fetch_message_max_bytes p)
      else none

  -- A partition whose lock another thread holds is passed over.
  abbrev pub request_one : ℤ → Requests → Action (Consumer C) Requests
  request_one id reqs c =
      if is_in id c.busy
      then (ok reqs, c)
      else (ok (insert id (request_for (lookup id c.partitions)) reqs), acquire_lock id c)

  unfoldable pub request_each : List ℤ → Requests → Action (Consumer C) Requests
  request_each [] reqs = pure reqs
  request_each (id ∷ ids) reqs = request_one id reqs >>= λ reqs'. request_each ids reqs'

  -- `if self._running: self._update()`
  abbrev pub update_if_running : Action (Consumer C) (Unit {0})
  update_if_running c = if c.running then update_consumer services settings c else (ok tt, c)

  abbrev pub handle_response :
      Dict Text (Dict ℤ FetchPartitionResponse) → Action (Consumer C) (Unit {0})
  handle_response response = gets by_id >>= λ ids.
      handle_partition_responses (λ (r : FetchPartitionResponse). r.error)
        (default_error_handlers services settings reset)
        (some (build_parts_by_error (λ (r : FetchPartitionResponse). r.error) response (some ids)))
        (some handle_messages) [] none
      >>= λ parts. pure tt

  -- What comes of the request: whether fetch goes on with the next broker.
  abbrev pub fetch_answered :
      Requests
      → Result (Dict Text (Dict ℤ FetchPartitionResponse)) × Consumer C
      → Result Bool × Consumer C
  fetch_answered reqs (err e, c) =
      if is_lost e
      then (unlock_partitions (keys reqs) >> update_if_running >> pure false) c
      else (err e, c)
  fetch_answered reqs (ok response, c) =
      (handle_response response >> unlock_partitions (keys reqs) >> pure true) c

  -- `if partition_reqs: ...`
  unfoldable pub fetch_if_any : ℕ → Requests → Action (Consumer C) Bool
  unfolding unlock_partitions handle_messages
  fetch_if_any broker [] = pure true
  fetch_if_any broker (r ∷ rs) = λ c. fetch_answered (r ∷ rs) (
      call_cluster
        (fetch_messages broker (requested (r ∷ rs)) settings.fetch_wait_max_ms
          settings.fetch_min_bytes)
        c)

  unfoldable pub fetch_each : List (ℕ × List ℤ) → Action (Consumer C) (Unit {0})
  unfolding request_each fetch_if_any
  fetch_each [] = pure tt
  fetch_each ((broker, ids) ∷ leaders) =
      request_each (sorted ltb_ℤ ids) [] >>= fetch_if_any broker >>= λ more.
      if more then fetch_each leaders else pure tt

  abbrev pub sorted_by_leader : Consumer C → Result (List (ℕ × List ℤ)) → Result (List (ℕ × List ℤ))
  sorted_by_leader c (err e) = err e
  sorted_by_leader c (ok leaders) =
      ok (sorted (λ p q. ltb_ℤ (services.id p.0 c.cluster) (services.id q.0 c.cluster)) leaders)

  unfoldable pub fetch : Action (Consumer C) (Unit {0})
  unfolding fetch_each
  fetch = (λ c. (sorted_by_leader c (leaders_of c.partitions_by_leader), c)) >>= fetch_each
