-- ===== src/Producer/Sending.antt =====
-- pykafka/producer.py: AsyncProducer._send_request: a batch is sent, and what was not delivered is produced
-- again. What it calls of its OwnedBroker, of the broker and of the producer is a parameter.
use pykafka.Prelude.{
  ℕ, ℤ, pos, negsuc, ◌+◌, ◌-ℤ◌, leb, Bool, true, false, ◌||◌, Option, none, some, List, [], ◌∷◌,
  ◌++◌, length, map, concat, foldl, eq_ℤ, if◌then◌else◌,
}
use pykafka.Result.{Result, ok, err, attribute_error, produce_failure, is_disconnected}
use pykafka.Action.{Action, pure, raise, change, ◌>>=◌, ◌>>◌, for_each}
use pykafka.Dict.{Dict, get_default, int_eq, bytes_eq, text_eq}
use pykafka.Protocol.Message.{Message}
use pykafka.Protocol.MessageSet.{MessageSet, message_set}
use pykafka.Protocol.Produce.{ProduceRequest, produce_request, add_message}
use pykafka.Protocol.Response.{Text}

-- ((key, value), partition_id, attempts)
pub record Queued : Type 0 where
  pub key : Option (List ℕ)
  pub value : Option (List ℕ)
  pub partition_id : ℤ
  pub attempts : ℕ

-- What is used of AsyncProducer.
pub record Options : Type 0 where
  pub compression : ℕ
  pub required_acks : ℤ
  pub ack_timeout_ms : ℤ
  pub max_retries : ℕ
  pub topic_name : List ℕ

-- {topic: {partition: (err, offset)}}
abbrev pub Produced : Type 0
Produced = Dict Text (Dict ℤ (ℤ × ℤ))

-- owned_broker.broker.produce_messages, owned_broker.increment_messages_pending, self._update and
-- self._produce.
pub record Client {ℓ} (S : Type ℓ) : Type ℓ where
  pub produce_messages : ProduceRequest → Action S (Option Produced)
  pub increment_messages_pending : ℤ → S → S
  pub update : Action S (Unit {0})
  pub produce : Queued → Action S (Unit {0})

-- Message(value, partition_key=key, produce_attempt=msg_attempt)
abbrev pub as_message : Queued → Message
as_message q = record {
  value = q.value;
  partition_key = q.key;
  compression_type = 0;
  offset = negsuc 0;
  partition_id = negsuc 0;
  produce_attempt = q.attempts;
}

abbrev pub as_queued : ℤ → Message → Queued
as_queued partition_id m = record {
  key = m.partition_key;
  value = m.value;
  partition_id = partition_id;
  attempts = m.produce_attempt;
}

-- The request of a batch.
unfoldable pub request_of : Options → List Queued → ProduceRequest
request_of o message_batch =
    foldl (λ r q. add_message r (as_message q) o.topic_name q.partition_id)
      (produce_request o.compression o.required_acks o.ack_timeout_ms) message_batch

abbrev pub set_msgs : ℤ × MessageSet → List Queued
set_msgs p = map (as_queued p.0) p.1.contents

abbrev pub set_msgs_if : ℤ → ℤ × MessageSet → List Queued
set_msgs_if partition_id p = if eq_ℤ p.0 partition_id then set_msgs p else []

-- _get_partition_msgs
unfoldable pub get_partition_msgs : ℤ → ProduceRequest → List Queued
get_partition_msgs partition_id r =
    concat (map (λ t. concat (map (set_msgs_if partition_id) t.1)) r.msets)

-- The list that is built where the broker is disconnected.
unfoldable pub all_msgs : ProduceRequest → List Queued
all_msgs r = concat (map (λ t. concat (map set_msgs t.1)) r.msets)

abbrev pub parts_of : Text → ProduceRequest → Dict ℤ MessageSet
parts_of none r = []
parts_of (some topic) r = get_default [] topic r.msets

-- len(req.msets[topic][partition].messages), of a defaultdict of defaultdicts: what is missing is an empty
-- message set. It then stands in the request, with no message. No topic of the request is None.
unfoldable pub msg_count : Text → ℤ → ProduceRequest → ℕ
msg_count topic partition r =
    length (get_default (message_set r.compression_type []) partition (parts_of topic r)).contents

-- InvalidMessageSize and MessageSizeTooLarge
abbrev pub gives_up : ℤ → Bool
gives_up error = eq_ℤ error (pos 4) || eq_ℤ error (pos 10)

module _ {ℓ} {S : Type ℓ} (o : Options) (client : Client S) where
  open client use {produce_messages, increment_messages_pending, update, produce}

  -- increment_messages_pending(-1 * n)
  abbrev pub settle_msgs : ℕ → Action S (Unit {0})
  settle_msgs n = change (increment_messages_pending (pos 0 -ℤ pos n))

  -- NotLeaderForPartition
  abbrev pub update_if : Bool → Action S (Unit {0})
  update_if false = pure tt
  update_if true = update

  -- One round of the inner loop, with `to_retry` so far and after it.
  unfoldable pub handle_partition :
      ProduceRequest → Text → ℤ × (ℤ × ℤ) → List Queued → Action S (List Queued)
  handle_partition req topic (partition, (error, offset)) to_retry =
      if eq_ℤ error (pos 0)
      then (settle_msgs (msg_count topic partition req) >> pure to_retry)
      else (if gives_up error
          then pure to_retry
          else (update_if (eq_ℤ error (pos 6))
              >> pure (to_retry ++ get_partition_msgs partition req)))

  unfoldable pub handle_partitions :
      ProduceRequest → Text → Dict ℤ (ℤ × ℤ) → List Queued → Action S (List Queued)
  handle_partitions req topic [] to_retry = pure to_retry
  handle_partitions req topic (p ∷ partitions) to_retry =
      handle_partition req topic p to_retry >>= λ retry.
      handle_partitions req topic partitions retry

  unfoldable pub handle_topics : ProduceRequest → Produced → List Queued → Action S (List Queued)
  handle_topics req [] to_retry = pure to_retry
  handle_topics req ((topic, partitions) ∷ topics) to_retry =
      handle_partitions req topic partitions to_retry >>= λ retry. handle_topics req topics retry

  -- `response.topics`
  abbrev pub handle_response : ProduceRequest → Option Produced → Action S (List Queued)
  handle_response req none = raise attribute_error
  handle_response req (some response) = handle_topics req response []

  -- The body of the `try`. With no acks required nothing is left to retry.
  unfoldable pub try_send : List Queued → ProduceRequest → Action S (List Queued)
  try_send message_batch req = produce_messages req >>= λ response.
      if eq_ℤ o.required_acks (pos 0)
      then (settle_msgs (length message_batch) >> pure [])
      else handle_response req response

  -- `except SocketDisconnectedError`
  abbrev pub unless_lost : ProduceRequest → Result (List Queued) × S → Result (List Queued) × S
  unless_lost req (ok to_retry, s) = (ok to_retry, s)
  unless_lost req (err e, s) =
      if is_disconnected e then (update >> pure (all_msgs req)) s else (err e, s)

  -- The body of the loop over `to_retry`.
  unfoldable pub retry : Queued → Action S (Unit {0})
  retry q =
      if leb o.max_retries q.attempts
      then raise produce_failure
      else produce (record q { attempts = q.attempts + 1 })

  -- `if to_retry: ...`
  unfoldable pub retry_all : List Queued → Action S (Unit {0})
  retry_all [] = pure tt
  retry_all (q ∷ qs) = settle_msgs (length (q ∷ qs)) >> for_each retry (q ∷ qs)

  unfoldable pub send_request : List Queued → Action S (Unit {0})
  unfolding request_of try_send
  send_request message_batch =
      let req = request_of o message_batch in
      (λ s. unless_lost req (try_send message_batch req s)) >>= retry_all
