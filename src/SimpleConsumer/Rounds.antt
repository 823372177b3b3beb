-- ===== src/SimpleConsumer/Rounds.antt =====
-- The rounds of reset_offsets release all locks that they acquire.
use pykafka.Prelude.{sym, ap, ◌∙◌, ◌≡◌, ℕ, zero, suc, ℤ, Option, arith, none, some, List, [], ◌∷◌}
use pykafka.Prelude.{total_none}
use pykafka.Prelude.{refl, ◌≤◌, arith, ltb_ℤ, foldl}
use pykafka.Sorted.Laws.{total-sorted}
use pykafka.SimpleConsumer.Left.{IsKeyset-times, owned_offsets-IsKeyset, ask_leaders-fewer}
use pykafka.Dict.Keys.{IsKeyset}
use pykafka.SimpleConsumer.Parts.{keys}
use pykafka.SimpleConsumer.Held.{times}
use pykafka.SimpleConsumer.Resetting.{known_as}
use pykafka.SimpleConsumer.Restored.{known-times}
use pykafka.SimpleConsumer.Reset.{add_pair}
use pykafka.Result.{Result, ok, err, runtime_error, offset_request_failed}
use pykafka.Action.{Action, go_on, gets, for_each, ◌>>=◌, ◌>>◌}
use pykafka.Dict.{Dict, int_eq, text_eq}
use pykafka.SimpleConsumer.Consumer.{Consumer, Services, Settings, leader_eq}
use pykafka.SimpleConsumer.Pairs.{owned_offsets, sorted_offsets}
use pykafka.SimpleConsumer.Moved.{
  no_lock, Keeps, Moved-then, Keeps-then, Moved-same, Keeps-pure, Moves-each,
}
use pykafka.SimpleConsumer.Grouped.{grouped}
use pykafka.SimpleConsumer.Committing.{Keeps-commit_offsets}
use pykafka.SimpleConsumer.Resetting.{IsAnswering, known, known_locks, lock_and_flush-Moves}
use pykafka.SimpleConsumer.Reset.{
  lock_and_flush, pairs_by_leader, ask_leaders, unless_empty, reset_tries, fail_unless_empty,
  commit_if, reset_pairs, reset_at,
}
use pykafka.SimpleConsumer.Leaders.{pairs_by_leader-known, ask_leaders-Moves}

-- What a step returns of a state.
returned_of :
    {S A : Type 0} (x : Result (Unit {0}) × S) (f : S → A) (a : A)
    → (go_on x (λ _. gets f)).0 ≡ ok a
    → (s : S) × (f s ≡ a)
returned_of (ok u, s) f a e = (s, (let same : f s ≡ a = cc in same))
returned_of (err e', s) f a e = absurd cc

module _ {C : Type 0} (names : ℤ → Option ℤ)
    (by_ids : (id name : ℤ) → names id ≡ some name → name ≡ id) (services : Services C)
    (settings : Settings) (answering : IsAnswering services) where
  module _ (reset : List (ℤ × ℤ) → Action (Consumer C) (Unit {0}))
      (reset-Keeps : (pairs : List (ℤ × ℤ)) → Keeps names (reset pairs)) where
    Keeps-unless_empty :
        (retry : Dict ℤ ℤ → Action (Consumer C) (Dict ℤ ℤ)) (offsets : Dict ℤ ℤ)
        → Keeps names (retry offsets)
        → Keeps names (unless_empty services settings reset retry offsets)
    Keeps-unless_empty retry [] h c has = Keeps-pure names (ok []) c has
    Keeps-unless_empty retry (p ∷ offsets) h c has = h c has

    -- The partitions of a round are locked, and released by its end.
    reset_tries-Keeps :
        (n : ℕ) (offsets : Dict ℤ ℤ)
        → ((id : ℤ) → known_locks names offsets id ≤ 1)
        → Keeps names (reset_tries services settings reset n offsets)
    unfolding reset_tries
    reset_tries-Keeps zero offsets few c has = Keeps-pure names (ok offsets) c has
    reset_tries-Keeps (suc left) offsets few c has =
        let pairs : Dict ℤ ℤ = sorted_offsets offsets in
        let retry : Dict ℤ ℤ → Action (Consumer C) (Dict ℤ ℤ) =
          λ offsets'. reset_tries services settings reset left offsets' in
        let leaders : Consumer C → Dict (Option ℕ) (List (ℤ × ℤ)) =
          pairs_by_leader services settings pairs in
        let sums : (id : ℤ) → known_locks names pairs id ≡ known_locks names offsets id =
          λ id. total-sorted (λ (p q : ℤ × ℤ). ltb_ℤ p.0 q.0) (λ p. known names id p.0) offsets in
        let all : (d : C) (id : ℤ)
            → grouped (λ p. known names id p.0)
                (foldl (λ g pair. add_pair services settings d g pair) [] pairs)
              ≡ known_locks names pairs id =
          λ d id.
            pairs_by_leader-known names by_ids services settings answering id d pairs []
            ∙ omega arith in
        let locked = for_each lock_and_flush pairs c in
        let locks =
          Moved-same names (known_locks names pairs) no_lock c locked
            (Moves-each names (λ p id. known names id p.0) (λ _. no_lock) lock_and_flush
              (lock_and_flush-Moves names) pairs c has)
            (λ id. omega (arith, total_none pairs)) in
        let first =
          Moved-then names (known_locks names pairs) no_lock c locked (λ _. gets leaders) locks
            (λ u ran has'. Keeps-pure names (ok (leaders locked.1)) locked.1 has')
            (λ id. omega arith) in
        Moved-then names no_lock no_lock c (go_on locked (λ _. gets leaders))
          (λ by_leader.
            ask_leaders services settings reset by_leader offsets
            >>= unless_empty services settings reset retry)
          first
          (λ by_leader ran has'.
            let c' : Consumer C = (go_on locked (λ _. gets leaders)).1 in
            let (d, same) = returned_of locked leaders by_leader ran in
            let whole : (id : ℤ)
                → grouped (λ p. known names id p.0) by_leader ≡ known_locks names pairs id =
              λ id. ap (grouped (λ p. known names id p.0)) (sym same) ∙ all d.cluster id in
            let asked = ask_leaders services settings reset by_leader offsets c' in
            Moved-then names no_lock (known_locks names pairs) c' asked
              (unless_empty services settings reset retry)
              (ask_leaders-Moves names by_ids services settings answering reset reset-Keeps
                by_leader offsets (λ id. omega (arith, whole id, sums id, few id)) c' has')
              (λ offsets' ran' has2.
                Keeps-unless_empty retry offsets'
                  (reset_tries-Keeps left offsets' (λ id. omega (
                    arith,
                    few id,
                    ask_leaders-fewer (λ p. known names id p.0) services settings reset by_leader
                        offsets c' offsets' ran',
                  )))
                  asked.1 has2)
              (λ id. omega (arith, whole id)))
          (λ id. omega arith)

    Keeps-commit_if :
        (group : Option (List ℕ)) → Keeps names (commit_if services settings reset group)
    Keeps-commit_if none = Keeps-pure names (ok tt)
    Keeps-commit_if (some group) = Keeps-commit_offsets names services settings reset reset-Keeps

    Keeps-fail_unless_empty :
        (offsets : Dict ℤ ℤ)
        → Keeps {C = C} names (fail_unless_empty services settings reset offsets)
    Keeps-fail_unless_empty [] = Keeps-pure names (ok tt)
    Keeps-fail_unless_empty (p ∷ offsets) = Keeps-pure names (err offset_request_failed)

    known_locks-few : (id : ℤ) (d : Dict ℤ ℤ) → IsKeyset d → known_locks names d id ≤ 1
    known_locks-few id d h =
        known-few (names id) (times id (keys d)) (IsKeyset-times id d h) (known-times names id d)
      where
        known-few :
            (o : Option ℤ) (n : ℕ)
            → n ≤ 1
            → known_locks names d id ≡ known_as o n
            → known_locks names d id ≤ 1
        known-few none n few e = omega (arith, e)
        known-few (some name) n few e = omega (arith, e, few)

    reset_pairs-Keeps :
        (pairs : List (ℤ × ℤ)) → Keeps names (reset_pairs services settings reset pairs)
    unfolding reset_pairs
    reset_pairs-Keeps pairs =
        let tries = reset_tries services settings reset settings.offsets_reset_max_retries in
        let owned : Action (Consumer C) (Dict ℤ ℤ) =
          λ c. (owned_offsets c.partitions pairs [], c) in
        Keeps-then names (owned >>= tries)
          (λ offsets.
            fail_unless_empty services settings reset offsets
            >> commit_if services settings reset settings.consumer_group)
          (λ c has.
            Moved-then names no_lock no_lock c (owned c) tries
              (Keeps-pure names (owned_offsets c.partitions pairs []) c has)
              (λ offsets ran has'.
                reset_tries-Keeps settings.offsets_reset_max_retries offsets
                  (λ id.
                    known_locks-few id offsets
                      (owned_offsets-IsKeyset c.partitions pairs [] offsets tt ran))
                  c has')
              (λ id. refl))
          (λ offsets.
            Keeps-then names (fail_unless_empty services settings reset offsets)
              (λ _. commit_if services settings reset settings.consumer_group)
              (Keeps-fail_unless_empty offsets) (λ _. Keeps-commit_if settings.consumer_group))

  -- reset_offsets, with its calls of itself to any depth.
  pub reset_at-Keeps :
      (depth : ℕ) (pairs : List (ℤ × ℤ)) → Keeps names (reset_at services settings depth pairs)
  unfolding reset_at
  reset_at-Keeps zero pairs = Keeps-pure names (err runtime_error)
  reset_at-Keeps (suc depth) pairs =
      reset_pairs-Keeps (λ ps. reset_at services settings depth ps) (λ ps. reset_at-Keeps depth ps)
        pairs
