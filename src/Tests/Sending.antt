-- ===== src/Tests/Sending.antt =====
-- The theorem on _send_request, on a concrete batch.
use pykafka.Prelude.{ℕ, pos, ◌≡◌, refl, arith, ◌++◌, ◌-◌, ◌<◌, List, [], ◌∷◌, some, none, ℤ, All}
use pykafka.Result.{ok}
use pykafka.Dict.{lookup, int_eq}
use pykafka.Protocol.Header.{codes}
use pykafka.Producer.Sending.{Queued, Options, send_request}
use pykafka.Producer.Requested.{of_partition}
use pykafka.Producer.{Settings, owned_broker}
use pykafka.Producer.Staying.{back}
use pykafka.Prelude.{Bool, not, true, eq_ℤ, length, ◌≤◌, ◌+◌}
use pykafka.Producer.Sent.{Tally, answering, Answers}
use pykafka.Producer.Retried.{again_if, settled}
use pykafka.Dict.Keys.{IsKeyset}
use pykafka.Producer.Ended.{send_request_lem}

abbrev options : Options
options = record {
  compression = 0;
  required_acks = pos 1;
  ack_timeout_ms = pos 10000;
  max_retries = 3;
  topic_name = codes "test";
}

abbrev queued : ℕ → ℕ → Queued
queued n p = record { key = none; value = some (n ∷ []); partition_id = pos p; attempts = n }

-- Partition 1 has a new leader, the messages of partition 2 are too large, and the request timed out for
-- partition 3.
abbrev answers : Answers
answers =
    (pos 0, (pos 0, pos 5))
    ∷ (pos 1, (pos 6, pos 0))
    ∷ (pos 2, (pos 10, pos 0))
    ∷ (pos 3, (pos 7, pos 0))
    ∷ []

abbrev before : Tally
before = record {
  this = record (owned_broker {M = Queued}) { messages_pending = pos 7 };
  produced = [];
}

abbrev batch : List Queued
batch = queued 0 0 ∷ queued 1 1 ∷ queued 2 0 ∷ queued 0 2 ∷ queued 2 1 ∷ queued 0 3 ∷ []

keyset : IsKeyset answers
keyset = (
  (λ e. absurd cc, (λ e. absurd cc, (λ e. absurd cc, tt))),
  ((λ e. absurd cc, (λ e. absurd cc, tt)), ((λ e. absurd cc, tt), (tt, tt))),
)

abbrev settings : Settings
settings = record { min_queued_messages = 1; max_queued_messages = 10; block_on_queue_full = true }

-- Partition 1 has moved to another broker.
abbrev stays : ℤ → Bool
stays p = not (eq_ℤ p (pos 1))

few : All (λ b. b.attempts < 3) batch
few = (omega arith, (omega arith, (omega arith, (omega arith, (omega arith, (omega arith, tt))))))

send_request_lem_example :
    let x =
      send_request options
        (answering settings stays ((some (codes "test"), answers) ∷ []))
        batch
        before in
    (x.0 ≡ ok tt)
    × (x.1.this.messages_pending ≡ pos (7 - settled batch answers + back stays batch answers))
    × (settled batch answers ≤ length batch)
    × ((p : ℤ)
        → of_partition p x.1.produced
          ≡ of_partition p before.produced ++ again_if (lookup p answers) (of_partition p batch))
send_request_lem_example =
    send_request_lem settings stays options (queued 0 0)
      (queued 1 1 ∷ queued 2 0 ∷ queued 0 2 ∷ queued 2 1 ∷ queued 0 3 ∷ []) answers before 7 refl
      keyset few refl
