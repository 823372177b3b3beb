-- ===== src/SimpleConsumer/Handled.antt =====
-- What the parts of fetch do to the locks: the handlers leave them alone.
use pykafka.SimpleConsumer.Moved.{
  no_lock, Has, Moves, Keeps, Keeps-then, Moved-same, Moved-ok, Keeps-pure, Moves-each, Keeps-each,
  at_partition-Has, release_lock-Moves,
}
use pykafka.SimpleConsumer.{OwnedPartition, enqueue_message, enqueue_messages}
use pykafka.Prelude.{
  refl, ap, ◌∙◌, ◌≡◌, ℕ, ◌+◌, ◌≤◌, ℤ, true, false, Option, arith, none, some, List, [], ◌∷◌, map,
  All, eq_ℤ, if◌then◌else◌,
}
use pykafka.Prelude.{total_none}
use pykafka.Result.{Result, ok}
use pykafka.Action.{Action, pure, gets, change, go_on, for_each, ◌>>=◌, ◌>>◌}
use pykafka.Dict.{Dict, lookup, insert, int_eq, text_eq}
use pykafka.ErrorHandlers.{
  build_parts_by_error, Part, Handler, handle_parts, with_success, call_handler,
}
use pykafka.SimpleConsumer.Consumer.{
  by_id, Consumer, Services, Settings, release_lock, update_consumer, default_error_handlers,
  discover, call_cluster, acquire_lock,
}
use pykafka.SimpleConsumer.Fetch.{
  Requests, request_for, request_each, unlock_partitions, handle_messages, enqueue_some,
  handle_response, is_in,
}
use pykafka.SimpleConsumer.Held.{one, times, times-insert, held}
use pykafka.SimpleConsumer.Parts.{keys}
use pykafka.Dict.Laws.{beq_refl}
use pykafka.Protocol.Response.{Text}
use pykafka.Protocol.Response.Fetched.{FetchPartitionResponse}
use pykafka.Protocol.Message.{Message}
use pykafka.SimpleConsumer.Consumer.{discover_offset_manager}
use pykafka.SimpleConsumer.Consumer.{setup_partitions_by_leader}
use pykafka.SimpleConsumer.Consumer.{set_offset_manager}
use pykafka.SimpleConsumer.Consumer.{handle_out_of_range}
use pykafka.ErrorHandlers.{handle_partition_responses}
use pykafka.Action.{lift}
use pykafka.SimpleConsumer.Consumer.{owned_parts}
use pykafka.ErrorHandlers.{parts_of}
use pykafka.Result.{err, attribute_error, protocol}
use pykafka.Prelude.{Bool-cases, inl, inr, ltb_ℤ, total, pos}
use pykafka.SimpleConsumer.Consumer.{at_partition}

enqueue_message-partition_id :
    (p : OwnedPartition) (m : Message) → (enqueue_message p m).partition_id ≡ p.partition_id
unfolding enqueue_message
enqueue_message-partition_id p m = elim (Bool-cases (ltb_ℤ m.offset p.last_offset_consumed)) [
  | inl e ↦ rw e refl
  | inr e ↦ rw e refl
]

enqueue_messages-partition_id :
    (ms : List Message) (p : OwnedPartition) → (enqueue_messages ms p).partition_id ≡ p.partition_id
unfolding enqueue_messages
enqueue_messages-partition_id [] p = refl
enqueue_messages-partition_id (m ∷ ms) p =
    enqueue_messages-partition_id ms (enqueue_message p m) ∙ enqueue_message-partition_id p m

total-times : (id : ℤ) (ids : List ℤ) → total (λ k. one (eq_ℤ k id)) ids ≡ times id ids
total-times id [] = refl
total-times id (k ∷ ids) = ap (λ (n : ℕ). one (eq_ℤ k id) + n) (total-times id ids)

-- The locks of a list.
abbrev pub locks_of : List ℤ → ℤ → ℕ
locks_of ids id = times id ids

module _ {C : Type 0} (names : ℤ → Option ℤ) where
  pub unlock_partitions-Moves :
      (ids : List ℤ) → Moves {C = C} names no_lock (locks_of ids) (unlock_partitions ids)
  unfolding unlock_partitions
  unlock_partitions-Moves ids c has =
      Moved-same names no_lock (locks_of ids) c (for_each release_lock ids c)
        (Moves-each names (λ _. no_lock) (λ k id. one (eq_ℤ k id)) release_lock
          (λ k. release_lock-Moves names k) ids c has)
        (λ id. omega (arith, total-times id ids, total_none ids))

  Keeps-enqueue_some :
      (owned : Option ℤ) (ms : List Message) → Keeps {C = C} names (enqueue_some owned ms)
  Keeps-enqueue_some owned [] c has = Keeps-pure names (ok tt) c has
  Keeps-enqueue_some none (m ∷ ms) c has = Keeps-pure names (err attribute_error) c has
  Keeps-enqueue_some (some k) (m ∷ ms) c has =
      Moved-ok names (ok tt) c (at_partition k (enqueue_messages (m ∷ ms)) c)
        (at_partition-Has names k (enqueue_messages (m ∷ ms)) c
          (enqueue_messages-partition_id (m ∷ ms)) has)
        (λ id. refl)

  pub Keeps-handle_messages :
      (parts : List (Part ℤ FetchPartitionResponse)) → Keeps {C = C} names (handle_messages parts)
  unfolding handle_messages
  Keeps-handle_messages parts =
      Keeps-each names (λ (p : Part ℤ FetchPartitionResponse). enqueue_some p.0 p.1.messages)
        (λ p. Keeps-enqueue_some p.0 p.1.messages) parts

  pub Keeps-call_handler :
      {P : Type 0} (k : ℤ) (handlers : Dict ℤ (Handler P (Consumer C))) (parts : List P)
      → All (λ h. (ps : List P) → Keeps names (h.1 ps)) handlers
      → Keeps names (call_handler (lookup k handlers) parts)
  unfolding call_handler lookup
  Keeps-call_handler k [] parts h = Keeps-pure names (ok tt)
  Keeps-call_handler k ((j, handler) ∷ handlers) parts (x, h) =
      elim (eq_ℤ j k)
        as (λ b. Keeps names (call_handler (if b then some handler else lookup k handlers) parts)) [
          | true ↦ x parts
          | false ↦ Keeps-call_handler k handlers parts h
        ]

  pub Keeps-handle_parts :
      {P : Type 0} (handlers : Dict ℤ (Handler P (Consumer C))) (groups : Dict ℤ (List P))
      → All (λ h. (ps : List P) → Keeps names (h.1 ps)) handlers
      → Keeps names (handle_parts handlers groups)
  unfolding handle_parts
  Keeps-handle_parts handlers [] h = Keeps-pure names (ok tt)
  Keeps-handle_parts handlers ((k, parts) ∷ groups) h =
      Keeps-then names (call_handler (lookup k handlers) parts) (λ _. handle_parts handlers groups)
        (Keeps-call_handler k handlers parts h) (λ _. Keeps-handle_parts handlers groups h)

module _ {C : Type 0} (names : ℤ → Option ℤ) (services : Services C) (settings : Settings)
    (reset : List (ℤ × ℤ) → Action (Consumer C) (Unit {0})) where
  pub Keeps-call_cluster : {A : Type 0} (action : Action C A) → Keeps names (call_cluster action)
  Keeps-call_cluster action c has = record { moved = λ a done. (has, λ id. refl) }

  Keeps-discover : (group : Option (List ℕ)) → Keeps names (discover services settings group)
  Keeps-discover none = Keeps-pure names (ok tt)
  Keeps-discover (some group) =
      Keeps-then names (call_cluster (services.get_offset_manager group))
        (λ manager. change (set_offset_manager services settings manager))
        (Keeps-call_cluster (services.get_offset_manager group))
        (λ manager c has. record { moved = λ a done. (has, λ id. refl) })

  pub Keeps-update_consumer : Keeps names (update_consumer services settings)
  unfolding update_consumer discover_offset_manager setup_partitions_by_leader
  Keeps-update_consumer =
      Keeps-then names
        (call_cluster services.update >> change (setup_partitions_by_leader services settings))
        (λ _. discover services settings settings.consumer_group)
        (Keeps-then names (call_cluster services.update)
          (λ _. change (setup_partitions_by_leader services settings))
          (Keeps-call_cluster services.update)
          (λ _ c has. record { moved = λ a done. (has, λ id. refl) }))
        (λ _. Keeps-discover settings.consumer_group)

  Keeps-handle_out_of_range :
      {R : Type 0}
      → ((pairs : List (ℤ × ℤ)) → Keeps names (reset pairs))
      → (parts : List (Part ℤ R)) → Keeps names (handle_out_of_range services settings reset parts)
  Keeps-handle_out_of_range h parts =
      Keeps-then names (lift (owned_parts parts))
        (λ owned. reset (map (λ p. (p.0, settings.auto_offset_reset)) owned))
        (Keeps-pure names (owned_parts parts))
        (λ owned. h (map (λ p. (p.0, settings.auto_offset_reset)) owned))

  module _ (reset-Keeps : (pairs : List (ℤ × ℤ)) → Keeps names (reset pairs)) where
    pub Keeps-default :
        (R : Type 0)
        → All
            (λ h. (ps : List (Part ℤ R)) → Keeps names (h.1 ps))
            (default_error_handlers services settings reset)
    unfolding default_error_handlers
    Keeps-default R = (
      λ ps. Keeps-pure names (err (protocol (pos 3))),
      (
        Keeps-handle_out_of_range reset-Keeps,
        (
          λ ps. Keeps-update_consumer,
          (λ ps. Keeps-pure names (err (protocol (pos 12))), (λ ps. Keeps-update_consumer, tt)),
        ),
      ),
    )

    Keeps-with_messages :
        All
          (λ h. (ps : List (Part ℤ FetchPartitionResponse)) → Keeps names (h.1 ps))
          (with_success (some handle_messages) (default_error_handlers services settings reset))
    unfolding default_error_handlers with_success insert
    Keeps-with_messages = (
      λ ps. Keeps-pure names (err (protocol (pos 3))),
      (
        Keeps-handle_out_of_range reset-Keeps,
        (
          λ ps. Keeps-update_consumer,
          (
            λ ps. Keeps-pure names (err (protocol (pos 12))),
            (λ ps. Keeps-update_consumer, (Keeps-handle_messages names, tt)),
          ),
        ),
      ),
    )

    pub Keeps-handle_response :
        (response : Dict Text (Dict ℤ FetchPartitionResponse))
        → Keeps names (handle_response services settings reset response)
    unfolding handle_partition_responses parts_of
    Keeps-handle_response response =
        let handlers =
          with_success (some handle_messages) (default_error_handlers services settings reset) in
        let built : Dict ℤ ℤ → Dict ℤ (List (Part ℤ FetchPartitionResponse)) = λ ids.
          build_parts_by_error (λ (r : FetchPartitionResponse). r.error) response (some ids) in
        let handle : Dict ℤ ℤ
            → Action (Consumer C) (Dict ℤ (List (Part ℤ FetchPartitionResponse))) =
          λ ids. handle_parts handlers (built ids) >> pure (built ids) in
        Keeps-then names (gets by_id >>= handle) (λ _. pure tt)
          (Keeps-then names (gets by_id) handle (λ c has. Moved-ok names _ c c has (λ id. refl))
            (λ ids.
              Keeps-then names (handle_parts handlers (built ids)) (λ _. pure (built ids))
                (Keeps-handle_parts names handlers (built ids) Keeps-with_messages)
                (λ _. Keeps-pure names (ok (built ids)))))
          (λ _. Keeps-pure names (ok tt))

  -- What the locks that were acquired for requests come to.
  abbrev pub Taken : Consumer C → Requests → Result Requests × Consumer C → Type 0
  Taken c reqs x =
      (reqs' : Requests)
      → x.0 ≡ ok reqs'
      → Has names x.1
        × ((id : ℤ) → held id x.1 + times id (keys reqs) ≡ held id c + times id (keys reqs'))

  pub request_each-Taken :
      (ids : List ℤ) (reqs : Requests) (c : Consumer C)
      → Has names c
      → ((id : ℤ) → times id (keys reqs) + times id ids ≤ 1)
      → Taken c reqs (request_each services settings reset ids reqs c)
  unfolding request_each
  request_each-Taken [] reqs c has few = λ reqs' done.
      (let same : reqs ≡ reqs' = cc in
        (has, λ id. ap (λ (r : Requests). held id c + times id (keys r)) same))
  request_each-Taken (k ∷ ids) reqs c has few =
      elim (is_in k c.busy)
        as (λ b. Taken c reqs (
          go_on
            (if b then (ok reqs, c) else (
              ok (insert k (request_for services settings reset (lookup k c.partitions)) reqs),
              acquire_lock k c,
            ))
            (λ r. request_each services settings reset ids r))) [
              | true ↦ request_each-Taken ids reqs c has (λ id. omega (arith, few id))
              | false ↦ λ reqs' done.
                  let r = request_for services settings reset (lookup k c.partitions) in
                  let self : one (eq_ℤ k k) ≡ 1 = ap one (beq_refl k) in
                  let absent : times k (keys reqs) ≡ 0 = omega (arith, few k, self) in
                  let added : (j : ℤ)
                      → times j (keys (insert k r reqs)) ≡ one (eq_ℤ k j) + times j (keys reqs) =
                    λ j. times-insert j k r reqs absent in
                  let rest =
                    request_each-Taken ids (insert k r reqs) (acquire_lock k c) has
                      (λ j. omega (arith, few j, added j)) reqs' done in
                  (rest.0, λ id. omega (arith, rest.1 id, added id))
            ]
