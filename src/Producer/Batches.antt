-- ===== src/Producer/Batches.antt =====
-- Batches hold the messages in the order in which they were enqueued, each once, and the pending messages
-- are those of the queue and those that were taken and not yet sent.
use pykafka.Prelude.{
  ℕ, ℤ, pos, pos_part, ◌+ℤ◌, ◌-ℤ◌, ◌+◌, ◌-◌, ◌≤◌, ◌≡◌, refl, sym, ap, ◌∙◌, arith, false, List, [],
  ◌∷◌, ◌++◌, append-nil, append_assoc, length, length-append, +ℤ-pos, +ℤ-neg,
}
use pykafka.Producer.{
  Settings, extendleft, pop_all, OwnedBroker, owned_broker, increment_messages_pending,
  put_messages, take_batch, wait_for_slot_available, wait_for_flush_ready, stop, Wait, waits,
  queue_full, goes_on,
}
use pykafka.Prelude.{Bool, true, leb, ltb, if◌then◌else◌}

pop_all-extendleft {ℓ} :
    {M : Type ℓ} (ms queue : List M) → pop_all (extendleft ms queue) ≡ pop_all queue ++ ms
pop_all-extendleft [] queue = sym (append-nil (pop_all queue))
pop_all-extendleft (m ∷ ms) queue =
    pop_all-extendleft ms (m ∷ queue) ∙ append_assoc (pop_all queue) (m ∷ []) ms

length-extendleft {ℓ} :
    {M : Type ℓ} (ms queue : List M) → length (extendleft ms queue) ≡ length ms + length queue
length-extendleft [] queue = omega arith
length-extendleft (m ∷ ms) queue = omega (arith, length-extendleft ms (m ∷ queue))

length-pop_all {ℓ} : {M : Type ℓ} (queue : List M) → length (pop_all queue) ≡ length queue
length-pop_all [] = refl
length-pop_all (m ∷ queue) =
    length-append (pop_all queue) (m ∷ []) ∙ omega (arith, length-pop_all queue)

add_pending : (m n : ℕ) → pos (pos_part (pos m +ℤ pos n)) ≡ pos (m + n)
add_pending m n = rw (+ℤ-pos m n)

sub_pending : (m n : ℕ) → n ≤ m → pos (pos_part (pos m +ℤ (pos 0 -ℤ pos n))) ≡ pos (m - n)
sub_pending m n h = rw (+ℤ-neg m n h)

module _ {ℓ} {M : Type ℓ} (s : Settings) where
  -- What the threads do to a broker's queue: `enqueue` waits for room and puts messages; the worker's
  -- `flush` waits for messages and takes a batch; some of what was taken is sent, or given up to be enqueued
  -- again, and no longer pending; `flush` with `release_pending` takes a batch that is not pending from then
  -- on; and the broker is stopped. With the messages put and the messages taken so far, and how many of
  -- these are still in flight. What _send_request settles is never more than its batch, which is in flight.
  pub data Reaches : OwnedBroker M → List M → List M → ℕ → Type ℓ where
    started : Reaches owned_broker [] [] 0
    put :
        {b : OwnedBroker M} {entered taken : List M} {in_flight : ℕ} (messages : List M)
        → Reaches b entered taken in_flight
        → Reaches (put_messages s messages b) (entered ++ messages) taken in_flight
    take_ :
        {b : OwnedBroker M} {entered taken : List M} {in_flight : ℕ}
        → Reaches b entered taken in_flight
        → Reaches
            (take_batch false b).1
            entered
            (taken ++ (take_batch false b).0)
            (in_flight + length b.queue)
    settle :
        {b : OwnedBroker M} {entered taken : List M} {in_flight : ℕ} (n : ℕ)
        → n ≤ in_flight
        → Reaches b entered taken in_flight
        → Reaches (increment_messages_pending (pos 0 -ℤ pos n) b) entered taken (in_flight - n)
    release :
        {b : OwnedBroker M} {entered taken : List M} {in_flight : ℕ}
        → Reaches b entered taken in_flight
        → Reaches (take_batch true b).1 entered (taken ++ (take_batch true b).0) in_flight
    wait_for_slot :
        {b : OwnedBroker M} {entered taken : List M} {in_flight : ℕ}
        → Reaches b entered taken in_flight
        → Reaches (wait_for_slot_available s b).1 entered taken in_flight
    wait_for_flush :
        {b : OwnedBroker M} {entered taken : List M} {in_flight : ℕ}
        → Reaches b entered taken in_flight
        → Reaches (wait_for_flush_ready s b).1 entered taken in_flight
    stopped :
        {b : OwnedBroker M} {entered taken : List M} {in_flight : ℕ}
        → Reaches b entered taken in_flight
        → Reaches (stop b) entered taken in_flight

  -- Nothing is lost, repeated or reordered: what was taken, then what the queue holds, is what was put; and
  -- the count of pending messages is exact.
  pub record IsOrderly (b : OwnedBroker M) (entered taken : List M) (in_flight : ℕ) : Type ℓ where
    pub order : taken ++ pop_all b.queue ≡ entered
    pub count : b.messages_pending ≡ pos (length b.queue + in_flight)

  -- The waits change only events.
  slot-IsOrderly :
      (full blocks : Bool) (b : OwnedBroker M) (entered taken : List M) (in_flight : ℕ)
      → IsOrderly b entered taken in_flight
      → IsOrderly
          (if◌then◌else◌ {A = Wait × OwnedBroker M} full
            (if blocks then waits else queue_full, record b { slot_available = false })
            (goes_on, b)).1
          entered
          taken
          in_flight
  slot-IsOrderly true blocks b entered taken in_flight h = record {
    order = h.order;
    count = h.count;
  }
  slot-IsOrderly false blocks b entered taken in_flight h = h

  flush-IsOrderly :
      (few : Bool) (b : OwnedBroker M) (entered taken : List M) (in_flight : ℕ)
      → IsOrderly b entered taken in_flight
      → IsOrderly
          (if◌then◌else◌ {A = Wait × OwnedBroker M} few
            (waits, record b { flush_ready = false })
            (goes_on, b)).1
          entered
          taken
          in_flight
  flush-IsOrderly true b entered taken in_flight h = record { order = h.order; count = h.count }
  flush-IsOrderly false b entered taken in_flight h = h

  -- In every state that enqueue, flush with either `release_pending`, stop and the settling of no more than
  -- what is in flight can reach, the waits included: the batches taken so far and then the queue hold the
  -- messages in the order in which they were enqueued, each once, and `messages_pending` is the number of
  -- those in the queue and of those in flight.
  pub Reaches-IsOrderly :
      {b : OwnedBroker M} {entered taken : List M} {in_flight : ℕ}
      → Reaches b entered taken in_flight
      → IsOrderly b entered taken in_flight
  unfolding put_messages take_batch increment_messages_pending wait_for_slot_available
      wait_for_flush_ready stop
  Reaches-IsOrderly started = record { order = refl; count = refl }
  Reaches-IsOrderly (put {b} {entered} {taken} {in_flight} messages r) =
      let h = Reaches-IsOrderly r in
      record {
        order =
            ap (λ (l : List M). taken ++ l) (pop_all-extendleft messages b.queue)
            ∙ sym (append_assoc taken (pop_all b.queue) messages)
            ∙ ap (λ (l : List M). l ++ messages) h.order;
        count =
            ap (λ (z : ℤ). pos (pos_part (z +ℤ pos (length messages)))) h.count
            ∙ add_pending (length b.queue + in_flight) (length messages)
            ∙ ap pos (omega (arith, length-extendleft messages b.queue));
      }
  Reaches-IsOrderly (take_ {b} {entered} {taken} {in_flight} r) =
      let h = Reaches-IsOrderly r in
      record {
        order = append-nil (taken ++ pop_all b.queue) ∙ h.order;
        count = h.count ∙ ap pos (omega arith);
      }
  Reaches-IsOrderly (settle {b} {entered} {taken} {in_flight} n less r) =
      let h = Reaches-IsOrderly r in
      record {
        order = h.order;
        count =
            ap (λ (z : ℤ). pos (pos_part (z +ℤ (pos 0 -ℤ pos n)))) h.count
            ∙ sub_pending (length b.queue + in_flight) n (omega arith)
            ∙ ap pos (omega arith);
      }
  Reaches-IsOrderly (release {b} {entered} {taken} {in_flight} r) =
      let h = Reaches-IsOrderly r in
      let n : ℕ = length (pop_all b.queue) in
      record {
        order = append-nil (taken ++ pop_all b.queue) ∙ h.order;
        count =
            ap (λ (z : ℤ). pos (pos_part (z +ℤ (pos 0 -ℤ pos n)))) h.count
            ∙ sub_pending (length b.queue + in_flight) n (omega (arith, length-pop_all b.queue))
            ∙ ap pos (omega (arith, length-pop_all b.queue));
      }
  Reaches-IsOrderly (wait_for_slot {b} {entered} {taken} {in_flight} r) =
      slot-IsOrderly (leb s.max_queued_messages (length b.queue)) s.block_on_queue_full b entered
        taken in_flight (Reaches-IsOrderly r)
  Reaches-IsOrderly (wait_for_flush {b} {entered} {taken} {in_flight} r) =
      flush-IsOrderly (ltb (length b.queue) s.min_queued_messages) b entered taken in_flight
        (Reaches-IsOrderly r)
  Reaches-IsOrderly (stopped {b} {entered} {taken} {in_flight} r) =
      let h = Reaches-IsOrderly r in record { order = h.order; count = h.count }
