-- ===== src/Producer.antt =====
-- pykafka/producer.py: OwnedBroker, the queue of messages for a broker. The parts under its lock are steps;
-- where a thread waits for an event, the function says so and the caller goes on later.
pub mod Batches
pub mod Sending
pub mod Requested
pub mod Sent
pub mod Retried
pub mod Staying
pub mod Ended
use pykafka.Prelude.{
  ℕ, zero, suc, ℤ, pos, negsuc, pos_part, ◌+ℤ◌, ◌-ℤ◌, leb, ltb, not, Bool, true, false, ◌||◌, List,
  [], ◌∷◌, ◌++◌, length, if◌then◌else◌,
}

-- What is used of AsyncProducer.
pub record Settings : Type 0 where
  pub min_queued_messages : ℕ
  pub max_queued_messages : ℕ
  pub block_on_queue_full : Bool

module _ {ℓ} {M : Type ℓ} where
  -- collections.deque, from left to right.
  abbrev pub extendleft : List M → List M → List M
  extendleft [] queue = queue
  extendleft (m ∷ ms) queue = extendleft ms (m ∷ queue)

  -- [queue.pop() for _ in range(len(queue))]: from the right.
  abbrev pub pop_all : List M → List M
  pop_all [] = []
  pop_all (m ∷ queue) = pop_all queue ++ m ∷ []

-- `flush_ready` and `slot_available` are events that are set or not.
pub record OwnedBroker {ℓ} (M : Type ℓ) : Type ℓ where
  pub queue : List M
  pub messages_pending : ℤ
  pub flush_ready : Bool
  pub slot_available : Bool
  pub running : Bool

-- What a wait leads to.
pub data Wait : Type 0 where
  goes_on waits queue_full : Wait

module _ {ℓ} {M : Type ℓ} where
  -- __init__
  abbrev pub owned_broker : OwnedBroker M
  owned_broker = record {
    queue = [];
    messages_pending = pos 0;
    flush_ready = false;
    slot_available = false;
    running = true;
  }

  unfoldable pub stop : OwnedBroker M → OwnedBroker M
  stop b = record b { running = false }

  -- max(0, messages_pending + amnt)
  unfoldable pub increment_messages_pending : ℤ → OwnedBroker M → OwnedBroker M
  increment_messages_pending amnt b = record b {
    messages_pending = pos (pos_part (b.messages_pending +ℤ amnt));
  }

  unfoldable pub message_is_pending : OwnedBroker M → Bool
  message_is_pending b = ltb 0 (pos_part b.messages_pending)

  -- _wait_for_slot_available
  unfoldable pub wait_for_slot_available : Settings → OwnedBroker M → Wait × OwnedBroker M
  wait_for_slot_available s b =
      if leb s.max_queued_messages (length b.queue)
      then (
        if s.block_on_queue_full then waits else queue_full,
        record b { slot_available = false },
      )
      else (goes_on, b)

  -- The rest of enqueue, under the lock.
  unfoldable pub put_messages : Settings → List M → OwnedBroker M → OwnedBroker M
  put_messages s messages b =
      let b' =
        increment_messages_pending (pos (length messages))
          (record b { queue = extendleft messages b.queue }) in
      record b' { flush_ready = b'.flush_ready || leb s.min_queued_messages (length b'.queue) }

  -- _wait_for_flush_ready: whether the caller waits, and what it clears before.
  unfoldable pub wait_for_flush_ready : Settings → OwnedBroker M → Wait × OwnedBroker M
  wait_for_flush_ready s b =
      if ltb (length b.queue) s.min_queued_messages
      then (waits, record b { flush_ready = false })
      else (goes_on, b)

  -- The rest of flush, under the lock: the batch, and what is left.
  unfoldable pub take_batch : Bool → OwnedBroker M → List M × OwnedBroker M
  take_batch release_pending b =
      let batch = pop_all b.queue in
      let emptied = record b { queue = []; slot_available = true } in
      (
        batch,
        if release_pending
            then increment_messages_pending (pos 0 -ℤ pos (length batch)) emptied
            else emptied,
      )
