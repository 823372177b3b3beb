-- ===== src/Producer/Ended.antt =====
-- How _send_request ends: the messages that are produced again, and the count of pending ones.
use pykafka.Prelude.{
  ℕ, ℤ, pos, pos_part, ◌+ℤ◌, ◌-ℤ◌, ◌-◌, ◌<◌, leb, ◌≡◌, refl, sym, ap, subst, ◌∙◌, arith, inl, inr,
  true, false, Bool, Bool-cases, Option-cases, some, List, [], ◌∷◌, ◌++◌, append-nil, append_assoc,
  map, length, All, eq_ℤ, if◌then◌else◌, pos_part-neg,
}
use pykafka.Result.{Result, ok}
use pykafka.Action.{pure, go_on, for_each, ◌>>◌}
use pykafka.Dict.{lookup, int_eq, text_eq}
use pykafka.Dict.Keys.{IsKeyset}
use pykafka.Protocol.Produce.{ProduceRequest}
use pykafka.Producer.Sending.{
  Queued, Options, Produced, Client, request_of, get_partition_msgs, msg_count, handle_topics,
  handle_response, try_send, retry, retry_all, send_request, settle_msgs, unless_lost,
}
use pykafka.Producer.Requested.{of_partition, Holds, request_of-Holds}
use pykafka.Prelude.{concat}
use pykafka.Dict.{bytes_eq}
use pykafka.Producer.Requested.{lookup-collected, lookup-none-collected, of_partition-append}
use pykafka.Producer.Sent.{
  Tally, answering, retries, again, Answers, retried, delivered, IsCounted, handle_partitions-Gives,
}
use pykafka.Protocol.Produce.{Msets}
use pykafka.Action.{raise}
use pykafka.Result.{produce_failure}
use pykafka.Producer.Sending.{set_msgs_if}
use pykafka.Producer.{Settings, increment_messages_pending}
use pykafka.Producer.Staying.{
  back, staying, all_put, staying-retried, all_put-pending, settled-length,
}
use pykafka.Dict.{Dict, get_default, bytes_beq_iff}
use pykafka.Dict.Laws.{get_default-cons_eq, get_default-lookup}
use pykafka.Prelude.{Option, none}
use pykafka.Protocol.MessageSet.{MessageSet, message_set}
use pykafka.Producer.Sent.{put_again}
use pykafka.Prelude.{◌≤◌, ◌+◌}
use pykafka.Prelude.{length-map}
use pykafka.Producer.Sending.{as_queued}
use pykafka.Producer.Retried.{again_if, settled, retried-again, settled-sum}

module _ (s : Settings) (stays : ℤ → Bool) (o : Options) (response : Produced) where
  -- The loop over `to_retry`, where no message has used up its attempts.
  for_each-retry :
      (qs : List Queued) (t : Tally)
      → All (λ q. q.attempts < o.max_retries) qs
      → for_each (retry o (answering s stays response)) qs t ≡ (
        ok tt,
        record t { this = all_put stays s qs t.this; produced = t.produced ++ map again qs },
      )
  unfolding retry
  for_each-retry [] t h =
      ap (λ (l : List Queued). (ok tt, record t { produced = l })) (sym (append-nil t.produced))
  for_each-retry (q ∷ qs) t (few, h) =
      let one : Tally = record t {
        this = put_again s stays (again q) t.this;
        produced = t.produced ++ again q ∷ [];
      } in
      let left : leb o.max_retries q.attempts ≡ false = ground arith in
      ap
        (λ (b : Bool).
          go_on
            ((if b then raise produce_failure else (answering s stays response).produce (again q))
              t)
            (λ _. for_each (retry o (answering s stays response)) qs))
        left
      ∙ for_each-retry qs one h
      ∙ ap
          (λ (l : List Queued).
            (ok tt, record t { this = all_put stays s qs one.this; produced = l }))
          (append_assoc t.produced (again q ∷ []) (map again qs))

  -- What the end of _send_request leaves.
  record Ends (t : Tally) (qs : List Queued) (m : ℕ) (x : Result (Unit {0}) × Tally) : Type 0 where
    through : x.0 ≡ ok tt
    count : x.1.this.messages_pending ≡ pos (m - length qs + staying stays qs)
    produced : x.1.produced ≡ t.produced ++ map again qs

  retry_all-Ends :
      (qs : List Queued) (t : Tally) (m : ℕ)
      → t.this.messages_pending ≡ pos m
      → All (λ q. q.attempts < o.max_retries) qs
      → Ends t qs m (retry_all o (answering s stays response) qs t)
  unfolding retry_all increment_messages_pending
  retry_all-Ends [] t m pending h = record {
    through = refl;
    count = pending ∙ ap pos (omega arith);
    produced = sym (append-nil t.produced);
  }
  retry_all-Ends (q ∷ qs) t m pending h =
      let n : ℕ = length (q ∷ qs) in
      let after : Tally = (settle_msgs o (answering s stays response) n t).1 in
      subst (Ends t (q ∷ qs) m) (sym (for_each-retry (q ∷ qs) after h)) (record {
        through = refl;
        count = all_put-pending stays s (q ∷ qs) after.this (m - n) (
            ap (λ (z : ℤ). pos (pos_part (z +ℤ (pos 0 -ℤ pos n)))) pending
            ∙ ap pos (pos_part-neg m n));
        produced = refl;
      })

All-of_partition :
    (P : Queued → Type 0) (p : ℤ) (qs : List Queued) → All P qs → All P (of_partition p qs)
All-of_partition P p [] h = tt
All-of_partition P p (q ∷ qs) (x, h) = elim (Bool-cases (eq_ℤ q.partition_id p)) [
  | inl e ↦ rw e (x, All-of_partition P p qs h)
  | inr e ↦ rw e (All-of_partition P p qs h)
]

All-append : (P : Queued → Type 0) (xs ys : List Queued) → All P xs → All P ys → All P (xs ++ ys)
All-append P [] ys hx hy = hy
All-append P (x ∷ xs) ys (h, hx) hy = (h, All-append P xs ys hx hy)

All-retried :
    (P : Queued → Type 0) (batch : List Queued) (answers : Answers)
    → All P batch
    → All P (retried (λ p. of_partition p batch) answers)
All-retried P batch [] h = tt
All-retried P batch ((k, (error, offset)) ∷ answers) h =
    All-append P (if retries error then of_partition k batch else []) _
      (elim (retries error) as (λ t. All P (if t then of_partition k batch else [])) [
        | true ↦ All-of_partition P k batch h
        | false ↦ tt
      ])
      (All-retried P batch answers h)

module _ (s : Settings) (stays : ℤ → Bool) (o : Options) (response : Produced) where
  -- The request holds the messages of the batch for a partition, none if it has none.
  Holds-IsCounted :
      (batch : List Queued) (req : ProduceRequest) (p : ℤ)
      → Holds o batch req
      → IsCounted s stays o response req (λ k. of_partition k batch) p
  unfolding get_partition_msgs msg_count
  Holds-IsCounted batch req p h =
      let v : MessageSet = message_set req.compression_type [] in
      let contents_at : Option MessageSet → ℕ =
        λ x. length (elim x as (λ _. MessageSet) [ none ↦ v | some w ↦ w ]).contents in
      (
        ap (λ (m : Msets). concat (map (λ t. concat (map (set_msgs_if p) t.1)) m)) h.one_topic
            ∙ append-nil _
            ∙ h.messages p,
        ap (λ (m : Msets). length (get_default v p (get_default [] o.topic_name m)).contents)
              h.one_topic
            ∙ ap (λ (d : Dict ℤ MessageSet). length (get_default v p d).contents)
                (get_default-cons_eq o.topic_name o.topic_name [] h.parts []
                  ((bytes_beq_iff o.topic_name o.topic_name).1 refl))
            ∙ ap (λ (x : MessageSet). length x.contents) (get_default-lookup v p h.parts)
            ∙ elim (Option-cases (lookup p h.parts)) [
              | inl e ↦
                  ap contents_at e
                  ∙ ap length (sym (lookup-none-collected p h.parts e) ∙ h.messages p)
              | inr (x, e) ↦
                  ap contents_at e
                  ∙ sym (length-map (as_queued p) x.contents)
                  ∙ ap length (sym (lookup-collected p h.parts x h.keyset e) ∙ h.messages p)
            ],
      )

  All-IsCounted :
      (batch : List Queued) (req : ProduceRequest) (answers : Answers)
      → Holds o batch req
      → All (λ a. IsCounted s stays o response req (λ k. of_partition k batch) a.0) answers
  All-IsCounted batch req [] h = tt
  All-IsCounted batch req (x ∷ answers) h =
      (Holds-IsCounted batch req x.0 h, All-IsCounted batch req answers h)

-- Where acks are required, the response answers each partition at most once, no message of the batch has
-- used up its attempts, and updates and _produce go through: _send_request goes through. Of each partition
-- it produces again, in their order and with one more attempt, the messages of the batch if the answer is an
-- error other than InvalidMessageSize and MessageSizeTooLarge, and none otherwise. The messages of the
-- partitions that are answered, but not with one of these two errors, no more than the batch has, are no
-- longer pending at its OwnedBroker; and those produced again are pending there once more if it is still
-- that of their partition's leader.
pub send_request_lem :
    (s : Settings) (stays : ℤ → Bool) (o : Options) (q : Queued) (qs : List Queued)
    (answers : Answers) (t : Tally) (m : ℕ)
    → eq_ℤ o.required_acks (pos 0) ≡ false
    → IsKeyset answers
    → All (λ b. b.attempts < o.max_retries) (q ∷ qs)
    → t.this.messages_pending ≡ pos m
    → let x = send_request o (answering s stays ((some o.topic_name, answers) ∷ [])) (q ∷ qs) t in
      (x.0 ≡ ok tt)
      × (x.1.this.messages_pending
          ≡ pos (m - settled (q ∷ qs) answers + back stays (q ∷ qs) answers))
      × (settled (q ∷ qs) answers ≤ length (q ∷ qs))
      × ((p : ℤ)
          → of_partition p x.1.produced
            ≡ of_partition p t.produced ++ again_if (lookup p answers) (of_partition p (q ∷ qs)))
unfolding send_request try_send handle_topics
send_request_lem s stays o q qs answers t m acks keyset few pending =
    let batch : List Queued = q ∷ qs in
    let msgs : ℤ → List Queued = λ p. of_partition p batch in
    let response : Produced = (some o.topic_name, answers) ∷ [] in
    let req : ProduceRequest = request_of o batch in
    let h = request_of-Holds o q qs in
    let g =
      handle_partitions-Gives s stays o response req msgs answers [] t m pending
        (All-IsCounted s stays o response batch req answers h) in
    let to_retry : List Queued = retried msgs answers in
    let client : Client Tally = answering s stays response in
    let steps : send_request o client batch t ≡ retry_all o client to_retry g.after =
      ap
        (λ (b : Bool).
          go_on
            (unless_lost o client req (
              (if b
                  then (settle_msgs o client (length batch) >> pure [])
                  else handle_response o client req (some response))
                t))
            (retry_all o client))
        acks
      ∙ ap
          (λ (x : Result (List Queued) × Tally).
            go_on
              (unless_lost o client req (go_on x (λ retry. handle_topics o client req [] retry)))
              (retry_all o client))
          g.runs in
    let e =
      retry_all-Ends s stays o response to_retry g.after _ g.count
        (All-retried (λ b. b.attempts < o.max_retries) batch answers few) in
    let sum : m - delivered msgs answers - length to_retry + staying stays to_retry
        ≡ m - settled batch answers + back stays batch answers =
      omega (arith, settled-sum batch answers, staying-retried stays batch answers) in
    (
      ap (λ (x : Result (Unit {0}) × Tally). x.0) steps ∙ e.through,
      ap (λ (x : Result (Unit {0}) × Tally). x.1.this.messages_pending) steps
          ∙ e.count
          ∙ ap pos sum,
      settled-length batch answers keyset,
      λ p.
          ap (λ (x : Result (Unit {0}) × Tally). of_partition p x.1.produced) steps
          ∙ ap (of_partition p)
              (e.produced ∙ ap (λ (l : List Queued). l ++ map again to_retry) g.same)
          ∙ of_partition-append p t.produced (map again to_retry)
          ∙ ap (λ (l : List Queued). of_partition p t.produced ++ l)
              (retried-again batch p answers keyset),
    )
