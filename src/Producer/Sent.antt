-- ===== src/Producer/Sent.antt =====
-- What becomes of the messages of a batch, by the error of their partition in the response.
use pykafka.Prelude.{
  ℕ, ℤ, pos, pos_part, ◌+ℤ◌, ◌-ℤ◌, ◌+◌, ◌-◌, ◌≡◌, refl, sym, ap, subst, ◌∙◌, arith, true, false,
  not, Bool, ◌&&◌, some, List, [], ◌∷◌, ◌++◌, append-nil, append_assoc, length, All, eq_ℤ,
  if◌then◌else◌, pos_part-neg,
}
use pykafka.Result.{Result, ok}
use pykafka.Action.{Action, pure, go_on, ◌>>◌}
use pykafka.Dict.{Dict, int_eq, text_eq}
use pykafka.Protocol.Produce.{ProduceRequest}
use pykafka.Producer.{
  Settings, OwnedBroker, increment_messages_pending, stop, put_messages, take_batch,
}
use pykafka.Producer.Sending.{
  Queued, Options, Produced, Client, get_partition_msgs, gives_up, msg_count, handle_partition,
  handle_partitions, settle_msgs, update_if,
}

-- The producer around a request: the OwnedBroker of the batch, and the messages for which _send_request
-- calls _produce.
pub record Tally : Type 0 where
  pub this : OwnedBroker Queued
  pub produced : List Queued

-- _produce: the message is put on the queue of the OwnedBroker of its partition's leader, which has room.
-- `stays` says of which partitions this is still the OwnedBroker of the batch.
abbrev pub put_again : Settings → (ℤ → Bool) → Queued → OwnedBroker Queued → OwnedBroker Queued
put_again s stays q b = if stays q.partition_id then put_messages s (q ∷ []) b else b

-- The broker answers with a response. Updates go through: the OwnedBroker is stopped and flushed, and
-- other ones take its place and its queue.
abbrev pub answering : Settings → (ℤ → Bool) → Produced → Client Tally
answering s stays response = record {
  produce_messages = λ req t. (ok (some response), t);
  increment_messages_pending = λ amnt t. record t { this = increment_messages_pending amnt t.this };
  update = λ t. (ok tt, record t { this = (take_batch false (stop t.this)).1 });
  produce = λ q t.
      (ok tt, record t { this = put_again s stays q t.this; produced = t.produced ++ q ∷ [] });
}

-- Neither delivered nor given up.
abbrev pub retries : ℤ → Bool
retries error = not (eq_ℤ error (pos 0)) && not (gives_up error)

abbrev pub again : Queued → Queued
again q = record q { attempts = q.attempts + 1 }

abbrev pub Answers : Type 0
Answers = Dict ℤ (ℤ × ℤ)

module _ (msgs : ℤ → List Queued) where
  abbrev pub retried : Answers → List Queued
  retried [] = []
  retried ((p, (error, offset)) ∷ answers) =
      (if retries error then msgs p else []) ++ retried answers

  abbrev pub delivered : Answers → ℕ
  delivered [] = 0
  delivered ((p, (error, offset)) ∷ answers) =
      (if eq_ℤ error (pos 0) then length (msgs p) else 0) + delivered answers

module _ (s : Settings) (stays : ℤ → Bool) (o : Options) (response : Produced) where
  abbrev settle : ℕ → Action Tally (Unit {0})
  settle = settle_msgs o (answering s stays response)

  -- One answer, by its tests: delivered, given up, or to be retried, perhaps after an update.
  abbrev Answered : Bool → Bool → Bool → ℕ → List Queued → List Queued → Action Tally (List Queued)
  Answered a g u c got R =
      if a
      then (settle c >> pure R)
      else (if g then pure R else (update_if o (answering s stays response) u >> pure (R ++ got)))

  -- What an action returns, and the tally after it.
  pub record Gives (action : Action Tally (List Queued)) (t : Tally) (to_retry : List Queued)
      (pending : ℕ) : Type 0 where
    pub after : Tally
    pub runs : action t ≡ (ok to_retry, after)
    pub count : after.this.messages_pending ≡ pos pending
    pub same : after.produced ≡ t.produced

  Answered-Gives :
      (a g u : Bool) (c : ℕ) (ms R : List Queued) (t : Tally) (m : ℕ)
      → t.this.messages_pending ≡ pos m
      → c ≡ length ms
      → Gives
          (Answered a g u c ms R)
          t
          (R ++ (if not a && not g then ms else []))
          (m - (if a then length ms else 0))
  unfolding increment_messages_pending take_batch stop
  Answered-Gives true g u c ms R t m pending counted = record {
    after = (settle (length ms) t).1;
    runs =
        ap (λ (n : ℕ). (settle n >> pure R) t) counted
        ∙ ap (λ (l : List Queued). (ok l, (settle (length ms) t).1)) (sym (append-nil R));
    count =
        ap (λ (z : ℤ). pos (pos_part (z +ℤ (pos 0 -ℤ pos (length ms))))) pending
        ∙ ap pos (pos_part-neg m (length ms));
    same = refl;
  }
  Answered-Gives false true u c ms R t m pending counted = record {
    after = t;
    runs = ap (λ (l : List Queued). (ok l, t)) (sym (append-nil R));
    count = pending ∙ ap pos (omega arith);
    same = refl;
  }
  Answered-Gives false false true c ms R t m pending counted = record {
    after = record t { this = (take_batch false (stop t.this)).1 };
    runs = refl;
    count = pending ∙ ap pos (omega arith);
    same = refl;
  }
  Answered-Gives false false false c ms R t m pending counted = record {
    after = t;
    runs = refl;
    count = pending ∙ ap pos (omega arith);
    same = refl;
  }

  module _ (req : ProduceRequest) (msgs : ℤ → List Queued) where
    -- The request holds the messages of an answered partition.
    abbrev pub IsCounted : ℤ → Type 0
    IsCounted p =
        (get_partition_msgs p req ≡ msgs p)
        × (msg_count (some o.topic_name) p req ≡ length (msgs p))

    handle_partition-Gives :
        (p error offset : ℤ) (R : List Queued) (t : Tally) (m : ℕ)
        → t.this.messages_pending ≡ pos m
        → IsCounted p
        → Gives
            (handle_partition o
              (answering s stays response)
              req
              (some o.topic_name)
              (p, (error, offset))
              R)
            t
            (R ++ (if retries error then msgs p else []))
            (m - (if eq_ℤ error (pos 0) then length (msgs p) else 0))
    unfolding handle_partition
    handle_partition-Gives p error offset R t m pending (got, counted) =
        subst
          (λ (l : List Queued).
            Gives
              (Answered (eq_ℤ error (pos 0)) (gives_up error) (eq_ℤ error (pos 6))
                (msg_count (some o.topic_name) p req) l R)
              t (R ++ (if retries error then msgs p else []))
              (m - (if eq_ℤ error (pos 0) then length (msgs p) else 0)))
          (sym got)
          (Answered-Gives (eq_ℤ error (pos 0)) (gives_up error) (eq_ℤ error (pos 6)) _ (msgs p) R t
            m pending counted)

    pub handle_partitions-Gives :
        (answers : Answers) (R : List Queued) (t : Tally) (m : ℕ)
        → t.this.messages_pending ≡ pos m
        → All (λ a. IsCounted a.0) answers
        → Gives
            (handle_partitions o (answering s stays response) req (some o.topic_name) answers R)
            t
            (R ++ retried msgs answers)
            (m - delivered msgs answers)
    unfolding handle_partitions
    handle_partitions-Gives [] R t m pending known = record {
      after = t;
      runs = ap (λ (l : List Queued). (ok l, t)) (sym (append-nil R));
      count = pending ∙ ap pos (omega arith);
      same = refl;
    }
    handle_partitions-Gives ((p, (error, offset)) ∷ answers) R t m pending (known, all_known) =
        let one = handle_partition-Gives p error offset R t m pending known in
        let here : List Queued = if retries error then msgs p else [] in
        let rest = handle_partitions-Gives answers (R ++ here) one.after _ one.count all_known in
        record {
          after = rest.after;
          runs =
              ap
                (λ (x : Result (List Queued) × Tally). go_on x (
                  handle_partitions o (answering s stays response) req (some o.topic_name) answers))
                one.runs
              ∙ rest.runs
              ∙ ap (λ (l : List Queued). (ok l, rest.after)) (append_assoc R here _);
          count = rest.count ∙ ap pos (omega arith);
          same = rest.same ∙ one.same;
        }
