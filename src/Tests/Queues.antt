-- ===== src/Tests/Queues.antt =====
-- The theorems on the queues of consumers and producers, on concrete ones.
use pykafka.Prelude.{ℕ, pos, ◌≡◌, refl, arith, true, List, [], ◌∷◌, ◌++◌, length, some}
use pykafka.Result.{ok}
use pykafka.Protocol.Header.{codes}
use pykafka.Protocol.Message.{Message}
use pykafka.SimpleConsumer.{OwnedPartition, owned_partition, enqueue_messages, flush}
use pykafka.SimpleConsumer.Queued.{enqueue_messages_lem, consume_times, consume_lem, flush_lem}
use pykafka.Producer.{Settings, OwnedBroker, owned_broker, put_messages, take_batch}
use pykafka.Producer.{stop, wait_for_slot_available}
use pykafka.Producer.Batches.{
  Reaches, started, put, take_, settle, stopped, wait_for_slot, IsOrderly, Reaches-IsOrderly,
}
use pykafka.Tests.Requests.{test_message}
use pykafka.Producer.{increment_messages_pending}
use pykafka.Prelude.{◌+ℤ◌}
use pykafka.Prelude.{false}
use pykafka.Prelude.{ap}
use pykafka.Prelude.{◌-ℤ◌}
use pykafka.Prelude.{◌+◌}
use pykafka.Prelude.{◌-◌}

abbrev new_partition : OwnedPartition
new_partition = owned_partition (codes "test") (pos 0) (some 0)

abbrev at_offset : ℕ → Message
at_offset n = record test_message { offset = pos n; partition_id = pos 0 }

abbrev two_messages : List Message
two_messages = at_offset 3 ∷ at_offset 4 ∷ []

enqueue_messages_lem_example : enqueue_messages two_messages new_partition ≡ record new_partition {
  messages = two_messages;
  next_offset = pos 4 +ℤ pos 1;
  semaphore = some 2;
}
enqueue_messages_lem_example = enqueue_messages_lem two_messages new_partition

abbrev full_partition : OwnedPartition
full_partition = record new_partition { messages = two_messages; semaphore = some 2 }

consume_lem_example : consume_times 1 full_partition ≡ (
  at_offset 3 ∷ [],
  record full_partition { messages = at_offset 4 ∷ []; last_offset_consumed = pos 3 },
)
consume_lem_example = consume_lem (at_offset 3 ∷ []) (at_offset 4 ∷ []) full_partition refl

flush_lem_example :
    flush full_partition ≡ ok (record full_partition { messages = []; semaphore = some 0 })
flush_lem_example = flush_lem full_partition 0 (ap some (omega arith))

abbrev test_settings : Settings
test_settings = record {
  min_queued_messages = 2;
  max_queued_messages = 4;
  block_on_queue_full = true;
}

abbrev filled : OwnedBroker ℕ
filled = put_messages test_settings (1 ∷ 2 ∷ []) owned_broker

-- Two messages are put; the worker does not wait, takes them as a batch, and one of them is sent; then
-- another one is put, for which there is room, and the broker is stopped.
abbrev one_sent : OwnedBroker ℕ
one_sent = increment_messages_pending (pos 0 -ℤ pos 1) (take_batch false filled).1

abbrev last_broker : OwnedBroker ℕ
last_broker =
    stop (put_messages test_settings (3 ∷ []) (wait_for_slot_available test_settings one_sent).1)

last_Reaches :
    Reaches test_settings last_broker
      ([] ++ (1 ∷ 2 ∷ []) ++ (3 ∷ []))
      ([] ++ (take_batch false filled).0)
      (0 + length filled.queue - 1)
unfolding put_messages increment_messages_pending
last_Reaches =
    stopped
      (put (3 ∷ []) (wait_for_slot (settle 1 (omega arith) (take_ (put (1 ∷ 2 ∷ []) started)))))

Reaches-IsOrderly_example :
    IsOrderly test_settings last_broker
      ([] ++ (1 ∷ 2 ∷ []) ++ (3 ∷ []))
      ([] ++ (take_batch false filled).0)
      (0 + length filled.queue - 1)
Reaches-IsOrderly_example = Reaches-IsOrderly test_settings last_Reaches
