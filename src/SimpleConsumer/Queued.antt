-- ===== src/SimpleConsumer/Queued.antt =====
-- What enqueueing, consuming and flushing leave of a partition.
use pykafka.Prelude.{
  ℕ, zero, suc, ℤ, pos, ◌-◌, ◌+◌, ◌+ℤ◌, ltb_ℤ, ◌≡◌, refl, sym, ap, ◌∙◌, arith, Bool-cases, inl, inr,
  Option, none, some, List, [], ◌∷◌, ◌++◌, append_assoc, append-nil, map, length, if◌then◌else◌,
}
use pykafka.Result.{ok}
use pykafka.Protocol.Message.{Message}
use pykafka.SimpleConsumer.{
  OwnedPartition, drain, flush, consume, release, enqueue_message, enqueue_messages,
}

-- The messages that are not older than the last one consumed.
abbrev pub fresh : ℤ → List Message → List Message
fresh last [] = []
fresh last (m ∷ ms) = let rest = fresh last ms in if ltb_ℤ m.offset last then rest else m ∷ rest

-- One more than the offset of the last message, or what is given where there is none.
abbrev pub offset_after : ℤ → List Message → ℤ
offset_after next [] = next
offset_after next (m ∷ ms) = offset_after (m.offset +ℤ pos 1) ms

abbrev pub release_times : ℕ → Option ℕ → Option ℕ
release_times zero s = s
release_times (suc n) s = release_times n (release s)

-- Of a partition's id.
abbrev pub marked : ℤ → List Message → List Message
marked id ms = map (λ (m : Message). record m { partition_id = id }) ms

abbrev pub enqueued : List Message → OwnedPartition → OwnedPartition
enqueued ms p = record p {
  messages = p.messages ++ marked p.partition_id (fresh p.last_offset_consumed ms);
  next_offset = offset_after p.next_offset (fresh p.last_offset_consumed ms);
  semaphore = release_times (length (fresh p.last_offset_consumed ms)) p.semaphore;
}

-- enqueue_messages appends, in order and marked as this partition's, the messages that are not older than
-- the last one consumed, releases the semaphore once for each, and goes on fetching behind the last.
pub enqueue_messages_lem :
    (ms : List Message) (p : OwnedPartition) → enqueue_messages ms p ≡ enqueued ms p
unfolding enqueue_messages enqueue_message
enqueue_messages_lem [] p =
    sym (ap (λ (l : List Message). record p { messages = l }) (append-nil p.messages))
enqueue_messages_lem (m ∷ ms) p = elim (Bool-cases (ltb_ℤ m.offset p.last_offset_consumed)) [
  | inl e ↦ rw e (enqueue_messages_lem ms p)
  | inr e ↦
      let m' : Message = record m { partition_id = p.partition_id } in
      let p' : OwnedPartition = record p {
        messages = p.messages ++ m' ∷ [];
        next_offset = m.offset +ℤ pos 1;
        semaphore = release p.semaphore;
      } in
      let later : List Message = marked p.partition_id (fresh p.last_offset_consumed ms) in
      rw e (
        enqueue_messages_lem ms p'
        ∙ ap (λ (l : List Message). record (enqueued ms p') { messages = l })
            (append_assoc p.messages (m' ∷ []) later))
]

-- `n` calls of consume: what they return, and the partition after them.
abbrev pub consume_times : ℕ → OwnedPartition → List Message × OwnedPartition
consume_times zero p = ([], p)
consume_times (suc n) p = elim (consume p).0 [
  | none ↦ ([], p)
  | some m ↦ (m ∷ (consume_times n (consume p).1).0, (consume_times n (consume p).1).1)
]

-- The offset of the last message, or what is given where there is none.
abbrev pub last_offset : ℤ → List Message → ℤ
last_offset last [] = last
last_offset last (m ∷ ms) = last_offset m.offset ms

abbrev holding : OwnedPartition → List Message → OwnedPartition
holding p ms = record p { messages = ms }

-- As many calls of consume as the first messages of the queue are return these messages, in order, leave
-- the others, and count the last of them as consumed.
pub consume_lem :
    (ms rest : List Message) (p : OwnedPartition)
    → p.messages ≡ ms ++ rest
    → consume_times (length ms) p ≡ (
      ms,
      record p { messages = rest; last_offset_consumed = last_offset p.last_offset_consumed ms },
    )
unfolding consume
consume_lem [] rest p h = ap (λ (l : List Message). ([], record p { messages = l })) h
consume_lem (m ∷ ms) rest p h =
    let p' : OwnedPartition = record p { messages = ms ++ rest; last_offset_consumed = m.offset } in
    rw h (ap (λ (q : List Message × OwnedPartition). (m ∷ q.0, q.1)) (consume_lem ms rest p' refl))

drain_lem : (ms : List Message) (n : ℕ) → drain ms (some (length ms + n)) ≡ ok (some n)
unfolding drain
drain_lem [] n = ap (λ (k : ℕ). ok (some k)) (omega arith)
drain_lem (m ∷ ms) n =
    let e : length (m ∷ ms) + n - 1 ≡ length ms + n = omega arith in rw e (drain_lem ms n)

-- Where a semaphore counts the messages of the queue and `n` others, flush empties the queue, leaves the
-- others counted and the offsets as they are.
pub flush_lem :
    (p : OwnedPartition) (n : ℕ)
    → p.semaphore ≡ some (length p.messages + n)
    → flush p ≡ ok (record p { messages = []; semaphore = some n })
unfolding flush
flush_lem p n h = rw (h, drain_lem p.messages n)
