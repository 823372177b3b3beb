-- ===== src/SimpleConsumer.antt =====
-- pykafka/simpleconsumer.py: OwnedPartition, the queue and the offsets of a partition that is consumed.
pub mod Queued
pub mod Consumer
pub mod Offsets
pub mod Parts
pub mod Pairs
pub mod Reset
pub mod Fetch
pub mod Held
pub mod Moved
pub mod Grouped
pub mod Committing
pub mod Resetting
pub mod Restored
pub mod Leaders
pub mod Left
pub mod Rounds
pub mod Handled
pub mod Unlocked
pub mod Mixed
pub mod Manager
pub mod Committed
pub mod Fetching
pub mod Fetches
pub mod Resumed
use pykafka.Prelude.{
  ℕ, zero, suc, ℤ, pos, ◌-◌, ◌+◌, ◌+ℤ◌, ltb_ℤ, Bool, true, false, Option, none, some, List, [], ◌∷◌,
  ◌++◌, length, if◌then◌else◌,
}
use pykafka.Result.{Result, ok, err, attribute_error, ◌>>=◌}
use pykafka.Protocol.Header.{codes}
use pykafka.Protocol.Message.{Message}
use pykafka.Protocol.Fetch.{PartitionFetchRequest}
use pykafka.Protocol.Offset.{PartitionOffsetRequest}
use pykafka.Protocol.OffsetCommit.{PartitionOffsetCommitRequest}
use pykafka.Protocol.OffsetFetch.{PartitionOffsetFetchRequest}

-- `topic_name` and `partition_id` are what is used of `partition`. `semaphore` is `_messages_arrived`, a
-- count that the partitions of a consumer share, and each has for itself here. The lock is left out.
pub record OwnedPartition : Type 0 where
  pub topic_name : List ℕ
  pub partition_id : ℤ
  pub messages : List Message
  pub semaphore : Option ℕ
  pub last_offset_consumed : ℤ
  pub next_offset : ℤ

-- __init__
abbrev pub owned_partition : List ℕ → ℤ → Option ℕ → OwnedPartition
owned_partition topic_name partition_id semaphore = record {
  topic_name = topic_name;
  partition_id = partition_id;
  messages = [];
  semaphore = semaphore;
  last_offset_consumed = pos 0;
  next_offset = pos 0;
}

unfoldable pub message_count : OwnedPartition → ℕ
message_count p = length p.messages

-- The loop of flush: a message is taken out, and the semaphore acquired without blocking. `acquire` of
-- None is an AttributeError.
unfoldable pub drain : List Message → Option ℕ → Result (Option ℕ)
drain [] semaphore = ok semaphore
drain (message ∷ messages) none = err attribute_error
drain (message ∷ messages) (some n) = drain messages (some (n - 1))

unfoldable pub flush : OwnedPartition → Result OwnedPartition
flush p = drain p.messages p.semaphore >>= λ s. ok (record p { messages = []; semaphore = s })

unfoldable pub set_offset : ℤ → OwnedPartition → OwnedPartition
set_offset last_offset_consumed p = record p {
  last_offset_consumed = last_offset_consumed;
  next_offset = last_offset_consumed +ℤ pos 1;
}

unfoldable pub build_offset_request : ℤ → OwnedPartition → PartitionOffsetRequest
build_offset_request new_offset p = record {
  topic_name = p.topic_name;
  partition_id = p.partition_id;
  offsets_before = new_offset;
  max_offsets = pos 1;
}

unfoldable pub build_fetch_request : ℤ → OwnedPartition → PartitionFetchRequest
build_fetch_request max_bytes p = record {
  topic_name = p.topic_name;
  partition_id = p.partition_id;
  offset = p.next_offset;
  max_bytes = max_bytes;
}

-- `now` is the time in milliseconds.
unfoldable pub build_offset_commit_request : ℤ → OwnedPartition → PartitionOffsetCommitRequest
build_offset_commit_request now p = record {
  topic_name = p.topic_name;
  partition_id = p.partition_id;
  offset = p.last_offset_consumed +ℤ pos 1;
  timestamp = now;
  metadata = codes "pykafka";
}

unfoldable pub build_offset_fetch_request : OwnedPartition → PartitionOffsetFetchRequest
build_offset_fetch_request p = record { topic_name = p.topic_name; partition_id = p.partition_id }

-- consume: the first message of the queue, or None.
unfoldable pub consume : OwnedPartition → Option Message × OwnedPartition
consume p = elim p.messages [
  | [] ↦ (none, p)
  | ◌∷◌ message messages ↦
      (some message, record p { messages = messages; last_offset_consumed = message.offset })
]

-- `if self._messages_arrived is not None: self._messages_arrived.release()`
abbrev pub release : Option ℕ → Option ℕ
release none = none
release (some n) = some (suc n)

-- One round of the loop of enqueue_messages.
unfoldable pub enqueue_message : OwnedPartition → Message → OwnedPartition
enqueue_message p message = if ltb_ℤ message.offset p.last_offset_consumed then p else record p {
  messages = p.messages ++ record message { partition_id = p.partition_id } ∷ [];
  next_offset = message.offset +ℤ pos 1;
  semaphore = release p.semaphore;
}

unfoldable pub enqueue_messages : List Message → OwnedPartition → OwnedPartition
enqueue_messages [] p = p
enqueue_messages (message ∷ messages) p = enqueue_messages messages (enqueue_message p message)
