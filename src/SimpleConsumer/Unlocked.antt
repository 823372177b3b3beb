-- ===== src/SimpleConsumer/Unlocked.antt =====
-- fetch leaves the locks as they were: each that it acquires it releases again.
use pykafka.Prelude.{
  refl, sym, ap, subst, ◌∙◌, ◌≡◌, ℕ, ◌+◌, ◌≤◌, ℤ, inl, inr, Bool, true, false, Option, arith, none,
  some, List, [], ◌∷◌, All, if◌then◌else◌, ltb_ℤ,
}
use pykafka.Result.{Result, ok, err}
use pykafka.Action.{Action, pure, go_on-ok, ◌>>=◌, ◌>>◌}
use pykafka.Dict.{Dict, int_eq, text_eq}
use pykafka.Sorted.{sorted}
use pykafka.Sorted.Laws.{All-sorted}
use pykafka.SimpleConsumer.Consumer.{Consumer, Services, Settings, update_consumer, is_lost}
use pykafka.SimpleConsumer.Fetch.{
  Requests, request_each, unlock_partitions, handle_response, fetch_answered, fetch_if_any,
  fetch_each, fetch, leaders_of, sorted_by_leader, update_if_running,
}
use pykafka.SimpleConsumer.Held.{times, times-sorted, held, Same}
use pykafka.SimpleConsumer.Moved.{
  no_lock, name_of, Has, Moved, Moves, Keeps, Moved-then, Keeps-then, Moved-err, Moved-ok,
  Keeps-pure,
}
use pykafka.SimpleConsumer.Parts.{keys}
use pykafka.Protocol.Response.{Text}
use pykafka.Protocol.Response.Fetched.{FetchPartitionResponse}
use pykafka.SimpleConsumer.Fetch.{requested}
use pykafka.Result.{Result-cases}
use pykafka.SimpleConsumer.Fetch.{also_leader}
use pykafka.SimpleConsumer.Handled.{
  locks_of, unlock_partitions-Moves, Keeps-update_consumer, Keeps-handle_response,
  request_each-Taken,
}
use pykafka.SimpleConsumer.{OwnedPartition}
use pykafka.Dict.{lookup}
use pykafka.Prelude.{Bool-cases, eq_ℤ, eq_ℤ_iff}
use pykafka.SimpleConsumer.Reset.{reset_at}
use pykafka.SimpleConsumer.Resetting.{IsAnswering}
use pykafka.SimpleConsumer.Rounds.{reset_at-Keeps}

module _ {C : Type 0} (names : ℤ → Option ℤ) (services : Services C) (settings : Settings)
    (reset : List (ℤ × ℤ) → Action (Consumer C) (Unit {0})) where
  Keeps-update_if_running : Keeps names (update_if_running services settings reset)
  Keeps-update_if_running c has =
      elim c.running
        as (λ b.
          Moved names no_lock no_lock c
            (if b then update_consumer services settings c else (ok tt, c))) [
              | true ↦ Keeps-update_consumer names services settings reset c has
              | false ↦ Moved-ok names (ok tt) c c has (λ id. refl)
            ]

  -- One action releases the locks of a list, the others leave them.
  Frees-then :
      {A B : Type 0} (ids : List ℤ) (first : Action (Consumer C) A)
      (next : A → Action (Consumer C) B)
      → Moves names no_lock (locks_of ids) first
      → ((a : A) → Keeps names (next a))
      → Moves names no_lock (locks_of ids) (first >>= next)
  Frees-then ids first next h hs c has =
      Moved-then names no_lock (locks_of ids) c (first c) next (h c has)
        (λ a ran has'. hs a (first c).1 has') (λ id. omega arith)

  Frees-after :
      {A B : Type 0} (ids : List ℤ) (first : Action (Consumer C) A)
      (next : A → Action (Consumer C) B)
      → Keeps names first
      → ((a : A) → Moves names no_lock (locks_of ids) (next a))
      → Moves names no_lock (locks_of ids) (first >>= next)
  Frees-after ids first next h hs c has =
      Moved-then names no_lock (locks_of ids) c (first c) next (h c has)
        (λ a ran has'. hs a (first c).1 has') (λ id. omega arith)

  module _ (reset-Keeps : (pairs : List (ℤ × ℤ)) → Keeps names (reset pairs)) where
    fetch_answered-Moved :
        (reqs : Requests) (r : Result (Dict Text (Dict ℤ FetchPartitionResponse))) (c : Consumer C)
        → Has names c
        → Moved names no_lock
            (locks_of (keys reqs))
            c
            (fetch_answered services settings reset reqs (r, c))
    fetch_answered-Moved reqs (ok response) c has =
        Frees-then (keys reqs)
          (handle_response services settings reset response >> unlock_partitions (keys reqs))
          (λ _. pure true)
          (Frees-after (keys reqs) (handle_response services settings reset response)
            (λ _. unlock_partitions (keys reqs))
            (Keeps-handle_response names services settings reset reset-Keeps response)
            (λ _. unlock_partitions-Moves names (keys reqs)))
          (λ _. Keeps-pure names (ok true)) c has
    fetch_answered-Moved reqs (err e) c has =
        let lost : Action (Consumer C) Bool =
          unlock_partitions (keys reqs)
          >> update_if_running services settings reset
          >> pure false in
        elim (is_lost e)
          as (λ t.
            Moved names no_lock (locks_of (keys reqs)) c (if t then lost c else (err e, c))) [
              | true ↦
                  Frees-then (keys reqs)
                    (unlock_partitions (keys reqs) >> update_if_running services settings reset)
                    (λ _. pure false)
                    (Frees-then (keys reqs) (unlock_partitions (keys reqs))
                      (λ _. update_if_running services settings reset)
                      (unlock_partitions-Moves names (keys reqs)) (λ _. Keeps-update_if_running))
                    (λ _. Keeps-pure names (ok false)) c has
              | false ↦ Moved-err names no_lock (locks_of (keys reqs)) e c c
            ]

    fetch_if_any-Moved :
        (broker : ℕ) (reqs : Requests)
        → Moves names no_lock
            (locks_of (keys reqs))
            (fetch_if_any services settings reset broker reqs)
    unfolding fetch_if_any
    fetch_if_any-Moved broker [] c has = Moved-ok names (ok true) c c has (λ id. refl)
    fetch_if_any-Moved broker (r ∷ rs) c has =
        let asked =
          services.fetch_messages broker (requested (r ∷ rs)) settings.fetch_wait_max_ms
            settings.fetch_min_bytes c.cluster in
        record {
          moved =
              (fetch_answered-Moved (r ∷ rs) asked.0 (record c { cluster = asked.1 }) has).moved;
        }

    fetch_each-Keeps :
        (leaders : List (ℕ × List ℤ))
        → All (λ l. (id : ℤ) → times id l.1 ≤ 1) leaders
        → Keeps names (fetch_each services settings reset leaders)
    unfolding fetch_each
    fetch_each-Keeps [] h = Keeps-pure names (ok tt)
    fetch_each-Keeps ((broker, ids) ∷ leaders) (few, h) =
        let sorted_ids : List ℤ = sorted ltb_ℤ ids in
        let requests : Action (Consumer C) Requests =
          request_each services settings reset sorted_ids [] in
        let ask = fetch_if_any services settings reset broker in
        Keeps-then names (requests >>= ask)
          (λ more. if more then fetch_each services settings reset leaders else pure tt)
          (λ c has. record {
            moved = λ b done.
                (let (reqs, ran, e) = go_on-ok (requests c) ask b done in
                  let taken =
                    request_each-Taken names services settings reset sorted_ids [] c has
                      (λ j. omega (arith, few j, times-sorted j ltb_ℤ ids)) reqs ran in
                  let freed =
                    (fetch_if_any-Moved broker reqs (requests c).1 taken.0).moved b
                      (sym (ap (λ (x : Result Bool × Consumer C). x.0) e) ∙ done) in
                  subst
                    (λ (x : Result Bool × Consumer C).
                      Has names x.1
                      × ((id : ℤ) → no_lock id + held id x.1 ≡ no_lock id + held id c))
                    (sym e) (freed.0, λ id. omega (arith, taken.1 id, freed.1 id)));
          })
          (λ more.
            elim more
              as (λ b.
                Keeps names (if b then fetch_each services settings reset leaders else pure tt)) [
                  | true ↦ fetch_each-Keeps leaders h
                  | false ↦ Keeps-pure names (ok tt)
                ])

-- Each id once.
abbrev pub IsOnce : List ℤ → Type 0
IsOnce ids = (id : ℤ) → times id ids ≤ 1

leaders_of-IsOnce :
    (by_leader : Dict (Option ℕ) (List ℤ)) (leaders : List (ℕ × List ℤ))
    → All (λ g. IsOnce g.1) by_leader
    → leaders_of by_leader ≡ ok leaders
    → All (λ l. IsOnce l.1) leaders
leaders_of-IsOnce [] leaders h e =
    (let same : [] ≡ leaders = cc in subst (All (λ l. IsOnce l.1)) same tt)
leaders_of-IsOnce ((none, ids) ∷ by_leader) leaders h e = absurd cc
leaders_of-IsOnce ((some broker, ids) ∷ by_leader) leaders (x, h) e =
    elim (Result-cases (leaders_of by_leader)) [
      | inl (ls, r) ↦
          let whole : ok ((broker, ids) ∷ ls) ≡ ok leaders =
            sym (ap (also_leader (broker, ids)) r) ∙ e in
          let same : (broker, ids) ∷ ls ≡ leaders = cc in
          subst (All (λ l. IsOnce l.1)) same (x, leaders_of-IsOnce by_leader ls h r)
      | inr (e', r) ↦
          let clash : err e' ≡ ok leaders = sym (ap (also_leader (broker, ids)) r) ∙ e in absurd cc
    ]

-- The partitions stand under their ids.
abbrev pub IsById : Dict ℤ OwnedPartition → Type 0
IsById ps = All (λ p. p.1.partition_id ≡ p.0) ps

IsById-named :
    (ps : Dict ℤ OwnedPartition) → IsById ps → (id name : ℤ) → name_of id ps ≡ some name → name ≡ id
unfolding lookup
IsById-named [] h id name e = absurd cc
IsById-named ((k, p) ∷ ps) (x, h) id name e = elim (Bool-cases (eq_ℤ k id)) [
  | inl q ↦
      let found : some p.partition_id ≡ some name = rw q at e in
      let same : p.partition_id ≡ name = cc in sym same ∙ x ∙ (eq_ℤ_iff k id).0 q
  | inr q ↦ let later : name_of id ps ≡ some name = rw q at e in IsById-named ps h id name later
]

-- Where the consumer's partitions stand under their ids, none of them twice under its leader, and each
-- broker that is asked for the offset limits of partitions, none of them twice, answers each of them once
-- and no others: a fetch that goes through, with the resets that error handlers make in it to any depth,
-- holds the lock of each partition as often after it as before. It releases the locks that it and
-- reset_offsets acquired, where the connection was lost too.
pub fetch-Same :
    {C : Type 0} (services : Services C) (settings : Settings) (depth : ℕ) (c : Consumer C)
    → IsById c.partitions
    → IsAnswering services
    → All (λ g. IsOnce g.1) c.partitions_by_leader
    → (fetch services settings (reset_at services settings depth) c).0 ≡ ok tt
    → Same c (fetch services settings (reset_at services settings depth) c).1
unfolding fetch
fetch-Same services settings depth c by_ids answering once done =
    let reset = reset_at services settings depth in
    let names : ℤ → Option ℤ = λ id. name_of id c.partitions in
    let (ls, ran, e) =
      go_on-ok (sorted_by_leader services settings reset c (leaders_of c.partitions_by_leader), c)
        (fetch_each services settings reset) tt done in
    let each : All (λ l. IsOnce l.1) ls = elim (Result-cases (leaders_of c.partitions_by_leader)) [
      | inl (ls', r) ↦
          let by_id =
            λ (p q : ℕ × List ℤ). ltb_ℤ (services.id p.0 c.cluster) (services.id q.0 c.cluster) in
          let whole : ok (sorted by_id ls') ≡ ok ls =
            sym (ap (sorted_by_leader services settings reset c) r) ∙ ran in
          let same : sorted by_id ls' ≡ ls = cc in
          subst (All (λ l. IsOnce l.1)) same (
            All-sorted by_id (λ l. IsOnce l.1) ls'
              (leaders_of-IsOnce c.partitions_by_leader ls' once r))
      | inr (e', r) ↦
          let clash : err e' ≡ ok ls =
            sym (ap (sorted_by_leader services settings reset c) r) ∙ ran in
          absurd cc
    ] in
    let kept =
      (fetch_each-Keeps names services settings reset
          (reset_at-Keeps names (IsById-named c.partitions by_ids) services settings answering
            depth)
          ls each c (λ id. refl)).moved
        tt (sym (ap (λ (x : Result (Unit {0}) × Consumer _). x.0) e) ∙ done) in
    λ id. ap (λ (x : Result (Unit {0}) × Consumer _). held id x.1) e ∙ omega (arith, kept.1 id)
