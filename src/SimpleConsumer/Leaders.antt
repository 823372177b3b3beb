-- ===== src/SimpleConsumer/Leaders.antt =====
-- A leader that answers what reset_offsets asks it for: the locks of its partitions are released.
use pykafka.Prelude.{
  sym, ap, ◌∙◌, ◌≡◌, refl, ℕ, ◌+◌, ℤ, pos, Option, arith, none, some, List, [], ◌∷◌, map, foldl,
  total,
}
use pykafka.Prelude.{◌≤◌}
use pykafka.Result.{Result, ok, err, attribute_error}
use pykafka.Action.{Action, pure, go_on, lift, ◌>>=◌, ◌>>◌}
use pykafka.Dict.{Dict, get_default, int_eq, text_eq}
use pykafka.ErrorHandlers.{
  Part, handle_parts, handle_partition_responses, parts_of, build_parts_by_error, with_success,
}
use pykafka.SimpleConsumer.Consumer.{
  Consumer, Services, Settings, Limits, owned_parts, by_id, default_error_handlers, leader_eq,
}
use pykafka.SimpleConsumer.Offsets.{errored, handle_responses}
use pykafka.SimpleConsumer.Pairs.{pop_each, failed}
use pykafka.SimpleConsumer.Held.{times}
use pykafka.SimpleConsumer.Moved.{
  no_lock, Moves, Keeps, Moved-then, Moved-same, Moved-ok, Keeps-pure,
}
use pykafka.SimpleConsumer.Grouped.{
  grouped, grouped-insert, own_part, build_parts_by_error-grouped, succeeded, succeeded-errored,
}
use pykafka.SimpleConsumer.Parts.{keys}
use pykafka.SimpleConsumer.Resetting.{IsAnswering, known, known_as, known_locks, unless_all-Moves}
use pykafka.SimpleConsumer.Restored.{
  known_as-twice, known-times, known-response, own-response, offset_requests-known,
  handle_parts-Moves,
}
use pykafka.SimpleConsumer.Reset.{
  handle_reset, offset_requests, add_pair, request_limits, unless_all, ask_leader, ask_leaders,
}
use pykafka.Protocol.Response.{Text}
use pykafka.Protocol.Offset.{PartitionOffsetRequest}

-- What a step returns that returns one thing.
returned :
    {S A : Type 0} (x : Result (Unit {0}) × S) (built a : A)
    → (go_on x (λ _. pure built)).0 ≡ ok a
    → built ≡ a
returned (ok u, s) built a e = cc
returned (err e', s) built a e = cc

module _ {C : Type 0} (names : ℤ → Option ℤ)
    (by_ids : (id name : ℤ) → names id ≡ some name → name ≡ id) (services : Services C)
    (settings : Settings) (answering : IsAnswering services) where
  -- Sorting and grouping by leaders keep the partitions.
  pub pairs_by_leader-known :
      (id : ℤ) (cluster : C) (pairs : List (ℤ × ℤ)) (d : Dict (Option ℕ) (List (ℤ × ℤ)))
      → grouped
          (λ p. known names id p.0)
          (foldl (λ d pair. add_pair services settings cluster d pair) d pairs)
        ≡ grouped (λ p. known names id p.0) d + known_locks names pairs id
  pairs_by_leader-known id cluster [] d = omega arith
  pairs_by_leader-known id cluster (p ∷ ps) d =
      pairs_by_leader-known id cluster ps (add_pair services settings cluster d p)
      ∙ omega (
        arith,
        grouped-insert (λ (q : ℤ × ℤ). known names id q.0) (services.leader p.0 cluster) p d,
      )

  known_locks-twice :
      (id : ℤ) (pairs : List (ℤ × ℤ))
      → known_as (names id) (known_locks names pairs id) ≡ known_locks names pairs id
  known_locks-twice id pairs =
      ap (known_as (names id)) (known-times names id pairs)
      ∙ known_as-twice (names id) (times id (keys pairs))
      ∙ sym (known-times names id pairs)

  Keeps-request_limits :
      (broker : Option ℕ) (reqs : List PartitionOffsetRequest)
      → Keeps names (request_limits services settings broker reqs)
  Keeps-request_limits none reqs c has = Keeps-pure names (err attribute_error) c has
  Keeps-request_limits (some b) reqs c has =
      Moved-ok names _ c
        (record c { cluster = (services.request_offset_limits b reqs c.cluster).1 }) has
        (λ id. refl)

  request_limits-answers :
      (broker : Option ℕ) (reqs : List PartitionOffsetRequest) (c : Consumer C)
      (response : Dict Text (Dict ℤ Limits))
      → ((id : ℤ) → times id (map (λ r. r.partition_id) reqs) ≤ 1)
      → (request_limits services settings broker reqs c).0 ≡ ok response
      → (id : ℤ)
      → total (λ t. times id (keys t.1)) response ≡ times id (map (λ r. r.partition_id) reqs)
  request_limits-answers none reqs c response few e id = absurd cc
  request_limits-answers (some b) reqs c response few e id =
      answering b reqs c.cluster response few e id

  module _ (reset : List (ℤ × ℤ) → Action (Consumer C) (Unit {0}))
      (reset-Keeps : (pairs : List (ℤ × ℤ)) → Keeps names (reset pairs)) where
    -- What follows the handlers releases the locks of what errored.
    abbrev after_handlers :
        Dict ℤ ℤ → Dict ℤ (List (Part ℤ Limits)) → Action (Consumer C) (Dict ℤ ℤ)
    after_handlers offsets g = lift (owned_parts (get_default [] (pos 0) g)) >>= λ successful.
        lift (pop_each (map (λ p. p.0) successful) offsets) >>= λ offsets'.
        unless_all services settings (failed g) >> pure offsets'

    after_handlers-Moves :
        (offsets : Dict ℤ ℤ) (g : Dict ℤ (List (Part ℤ Limits)))
        → Moves names no_lock
            (λ id. total (own_part id) (errored (failed g)))
            (after_handlers offsets g)
    after_handlers-Moves offsets g c has =
        let frees : ℤ → ℕ = λ id. total (own_part id) (errored (failed g)) in
        let pops : List (ℤ × Limits) → Result (Dict ℤ ℤ) =
          λ successful. pop_each (map (λ p. p.0) successful) offsets in
        let release : Dict ℤ ℤ → Action (Consumer C) (Dict ℤ ℤ) =
          λ offsets'. unless_all services settings (failed g) >> pure offsets' in
        let owned = owned_parts (get_default [] (pos 0) g) in
        Moved-then names no_lock frees c (owned, c)
          (λ successful. lift (pops successful) >>= release) (Keeps-pure names owned c has)
          (λ successful ran has1.
            Moved-then names no_lock frees c (pops successful, c) release
              (Keeps-pure names (pops successful) c has1)
              (λ offsets' ran' has2.
                Moved-then names no_lock frees c (unless_all services settings (failed g) c)
                  (λ _. pure offsets') (unless_all-Moves names services settings (failed g) c has2)
                  (λ u ran'' has3.
                    Keeps-pure names (ok offsets') (unless_all services settings (failed g) c).1
                      has3)
                  (λ id. omega arith))
              (λ id. omega arith))
          (λ id. omega arith)

    -- A leader that answers what it is asked for: its partitions are released.
    answered-Moves :
        (offsets : Dict ℤ ℤ) (pairs : List (ℤ × ℤ)) (response : Dict Text (Dict ℤ Limits))
        → ((id : ℤ) → total (λ t. times id (keys t.1)) response ≡ known_locks names pairs id)
        → Moves names no_lock (known_locks names pairs) (
            handle_responses services settings reset
              (λ r. r.1)
              (some (handle_reset offsets))
              response
            >>= after_handlers offsets)
    unfolding handle_partition_responses parts_of
    answered-Moves offsets pairs response same c has =
        let handlers =
          with_success (some (handle_reset offsets))
            (default_error_handlers services settings reset) in
        let built : Dict ℤ (List (Part ℤ Limits)) =
          build_parts_by_error (λ (r : Limits). r.1) response (some (by_id c)) in
        let handled = handle_parts handlers built c in
        let first =
          Moved-then names no_lock (λ id. succeeded id built) c handled (λ _. pure built)
            (handle_parts-Moves names services settings reset reset-Keeps offsets built c has)
            (λ u ran has'. Keeps-pure names (ok built) handled.1 has') (λ id. omega arith) in
        let whole : (id : ℤ) → grouped (own_part id) built ≡ known_locks names pairs id = λ id.
          build_parts_by_error-grouped id (λ (r : Limits). r.1) (some (by_id c)) response
          ∙ own-response names id c response has
          ∙ known-response names id response
          ∙ ap (known_as (names id)) (same id)
          ∙ known_locks-twice id pairs in
        Moved-then names no_lock (known_locks names pairs) c (go_on handled (λ _. pure built))
          (after_handlers offsets) first
          (λ g ran has'.
            Moved-same names no_lock (λ id. total (own_part id) (errored (failed built)))
              (go_on handled (λ _. pure built)).1
              (after_handlers offsets g (go_on handled (λ _. pure built)).1)
              (after_handlers-Moves offsets g (go_on handled (λ _. pure built)).1 has')
              (λ id.
                ap
                  (λ (d : Dict ℤ (List (Part ℤ Limits))).
                    0 + total (own_part id) (errored (failed d)))
                  (returned handled built g ran)))
          (λ id. omega (arith, whole id, succeeded-errored id built))

    ask_leader-Moves :
        (p : Option ℕ × List (ℤ × ℤ)) (offsets : Dict ℤ ℤ)
        → ((id : ℤ) → known_locks names p.1 id ≤ 1)
        → Moves names no_lock (known_locks names p.1) (ask_leader services settings reset p offsets)
    unfolding ask_leader
    ask_leader-Moves (broker, pairs) offsets few c has =
        let reqs = offset_requests pairs c.partitions in
        Moved-then names no_lock (known_locks names pairs) c
          (request_limits services settings broker reqs c)
          (λ response.
            handle_responses services settings reset (λ r. r.1) (some (handle_reset offsets))
              response
            >>= after_handlers offsets)
          (Keeps-request_limits broker reqs c has)
          (λ response ran has'.
            answered-Moves offsets pairs response
              (λ id.
                request_limits-answers broker reqs c response
                  (λ j. omega (arith, few j, offset_requests-known names by_ids j pairs c has)) ran
                  id
                ∙ offset_requests-known names by_ids id pairs c has)
              (request_limits services settings broker reqs c).1 has')
          (λ id. omega arith)

    pub ask_leaders-Moves :
        (by_leader : Dict (Option ℕ) (List (ℤ × ℤ))) (offsets : Dict ℤ ℤ)
        → ((id : ℤ) → grouped (λ p. known names id p.0) by_leader ≤ 1)
        → Moves names no_lock
            (λ id. grouped (λ p. known names id p.0) by_leader)
            (ask_leaders services settings reset by_leader offsets)
    unfolding ask_leaders
    ask_leaders-Moves [] offsets few c has = Keeps-pure names (ok offsets) c has
    ask_leaders-Moves (p ∷ by_leader) offsets few c has =
        Moved-then names no_lock (λ id. grouped (λ q. known names id q.0) (p ∷ by_leader)) c
          (ask_leader services settings reset p offsets c)
          (λ offsets'. ask_leaders services settings reset by_leader offsets')
          (ask_leader-Moves p offsets (λ id. omega (arith, few id)) c has)
          (λ offsets' ran has'.
            ask_leaders-Moves by_leader offsets' (λ id. omega (arith, few id))
              (ask_leader services settings reset p offsets c).1 has')
          (λ id. omega arith)
