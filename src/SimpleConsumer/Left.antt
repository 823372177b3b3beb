-- ===== src/SimpleConsumer/Left.antt =====
-- The offsets that are left after a round of reset_offsets are some of those before it, each partition once.
use pykafka.Prelude.{
  sym, ap, ◌∙◌, ◌≡◌, ◌≢◌, ℕ, ◌≤◌, ℤ, pos, Bool-cases, inl, inr, arith, Option, Option-cases, some,
  List, [], ◌∷◌, All, map, total, eq_ℤ, eq_ℤ_iff,
}
use pykafka.Prelude.{refl, subst}
use pykafka.Protocol.Response.{Text}
use pykafka.ErrorHandlers.{Part}
use pykafka.Result.{Result, Result-cases, ok, err, kafka_exception}
use pykafka.Action.{Action, go_on-ok, lift, gets, ◌>>=◌, ◌>>◌, pure}
use pykafka.Dict.{Dict, lookup, insert, get_default, int_eq, text_eq}
use pykafka.Dict.Keys.{IsKeyset, insert-IsKeyset}
use pykafka.SimpleConsumer.{OwnedPartition}
use pykafka.SimpleConsumer.Consumer.{Consumer, Services, Settings, Limits, owned_parts}
use pykafka.SimpleConsumer.Offsets.{handle_responses}
use pykafka.SimpleConsumer.Pairs.{owned_offsets, pop, pop_each, failed}
use pykafka.SimpleConsumer.Held.{times}
use pykafka.SimpleConsumer.Parts.{keys}
use pykafka.SimpleConsumer.Reset.{
  handle_reset, offset_requests, request_limits, unless_all, ask_leader, ask_leaders,
}

-- A key of a dict is there once.
apart-times : {V : Type 0} (k : ℤ) (d : Dict ℤ V) → All (λ p. k ≢ p.0) d → times k (keys d) ≡ 0
apart-times k [] a = refl
apart-times k ((j, v) ∷ d) (ne, a) = elim (Bool-cases (eq_ℤ j k)) [
  | inl e ↦ absurd (ne (sym ((eq_ℤ_iff j k).0 e)))
  | inr e ↦ rw e (omega (arith, apart-times k d a))
]

pub IsKeyset-times : {V : Type 0} (id : ℤ) (d : Dict ℤ V) → IsKeyset d → times id (keys d) ≤ 1
IsKeyset-times id [] h = omega arith
IsKeyset-times id ((j, v) ∷ d) (a, h) = elim (Bool-cases (eq_ℤ j id)) [
  | inl e ↦
      let none_later : times id (keys d) ≡ 0 =
        ap (λ (i : ℤ). times i (keys d)) (sym ((eq_ℤ_iff j id).0 e)) ∙ apart-times j d a in
      rw e (omega (arith, none_later))
  | inr e ↦ rw e (omega (arith, IsKeyset-times id d h))
]

pub owned_offsets-IsKeyset :
    (ps : Dict ℤ OwnedPartition) (pairs : List (ℤ × ℤ)) (d d' : Dict ℤ ℤ)
    → IsKeyset d
    → owned_offsets ps pairs d ≡ ok d'
    → IsKeyset d'
unfolding owned_offsets
owned_offsets-IsKeyset ps [] d d' h e =
    (let same : d ≡ d' = cc in subst (λ (x : Dict ℤ ℤ). IsKeyset x) same h)
owned_offsets-IsKeyset ps ((k, offset) ∷ pairs) d d' h e = elim (Option-cases (lookup k ps)) [
  | inl l ↦ let clash : err kafka_exception ≡ ok d' = rw l at e in absurd cc
  | inr (p, l) ↦
      let later : owned_offsets ps pairs (insert k offset d) ≡ ok d' = rw l at e in
      owned_offsets-IsKeyset ps pairs (insert k offset d) d' (insert-IsKeyset k offset d h) later
]

module _ (f : (ℤ × ℤ) → ℕ) where
  pop-fewer : (id : ℤ) (d d' : Dict ℤ ℤ) → pop id d ≡ ok d' → total f d' ≤ total f d
  unfolding pop
  pop-fewer id [] d' e = absurd cc
  pop-fewer id ((j, offset) ∷ d) d' e = elim (Bool-cases (eq_ℤ j id)) [
    | inl q ↦
        let here : ok d ≡ ok d' = rw q at e in
        let same : d ≡ d' = cc in
        let n : total f d ≡ total f d' = ap (total f) same in omega (arith, n)
    | inr q ↦ elim (Result-cases (pop id d)) [
      | inl (r, popped) ↦
          let whole : ok ((j, offset) ∷ r) ≡ ok d' = rw (q, popped) at e in
          let same : (j, offset) ∷ r ≡ d' = cc in
          let n : total f ((j, offset) ∷ r) ≡ total f d' = ap (total f) same in
          omega (arith, n, pop-fewer id d r popped)
      | inr (e', failed_) ↦ let clash : err e' ≡ ok d' = rw (q, failed_) at e in absurd cc
    ]
  ]

  pop_each-fewer :
      (ids : List ℤ) (d d' : Dict ℤ ℤ) → pop_each ids d ≡ ok d' → total f d' ≤ total f d
  unfolding pop_each
  pop_each-fewer [] d d' e =
      (let same : d ≡ d' = cc in
        let n : total f d ≡ total f d' = ap (total f) same in omega (arith, n))
  pop_each-fewer (id ∷ ids) d d' e = elim (Result-cases (pop id d)) [
    | inl (r, popped) ↦
        let later : pop_each ids r ≡ ok d' = rw popped at e in
        omega (arith, pop-fewer id d r popped, pop_each-fewer ids r d' later)
    | inr (e', failed_) ↦ let clash : err e' ≡ ok d' = rw failed_ at e in absurd cc
  ]

  module _ {C : Type 0} (services : Services C) (settings : Settings)
      (reset : List (ℤ × ℤ) → Action (Consumer C) (Unit {0})) where
    -- What an action returns is no more than that.
    abbrev Leaves : Dict ℤ ℤ → Action (Consumer C) (Dict ℤ ℤ) → Type 0
    Leaves d action =
        (c : Consumer C) (d' : Dict ℤ ℤ) → (action c).0 ≡ ok d' → total f d' ≤ total f d

    Leaves-then :
        {A : Type 0} (d : Dict ℤ ℤ) (first : Action (Consumer C) A)
        (next : A → Action (Consumer C) (Dict ℤ ℤ))
        → ((c : Consumer C) (a : A) → (first c).0 ≡ ok a → Leaves d (next a))
        → Leaves d (first >>= next)
    Leaves-then d first next h c d' done =
        let (a, ran, e) = go_on-ok (first c) next d' done in
        h c a ran (first c).1 d' (sym (ap (λ (x : Result (Dict ℤ ℤ) × Consumer C). x.0) e) ∙ done)

    -- The last steps of a round.
    abbrev popped :
        Dict ℤ ℤ → Dict ℤ (List (Part ℤ Limits)) → Dict ℤ ℤ → Action (Consumer C) (Dict ℤ ℤ)
    popped d g d1 = unless_all services settings (failed g) >> pure d1

    abbrev owned :
        Dict ℤ ℤ
        → Dict ℤ (List (Part ℤ Limits))
        → List (ℤ × Limits)
        → Action (Consumer C) (Dict ℤ ℤ)
    owned d g successful = lift (pop_each (map (λ p. p.0) successful) d) >>= popped d g

    abbrev handled : Dict ℤ ℤ → Dict ℤ (List (Part ℤ Limits)) → Action (Consumer C) (Dict ℤ ℤ)
    handled d g = lift (owned_parts (get_default [] (pos 0) g)) >>= owned d g

    abbrev responses : Dict ℤ ℤ → Dict Text (Dict ℤ Limits) → Action (Consumer C) (Dict ℤ ℤ)
    responses d response =
        handle_responses services settings reset (λ r. r.1) (some (handle_reset d)) response
        >>= handled d

    handled-Leaves : (d : Dict ℤ ℤ) (g : Dict ℤ (List (Part ℤ Limits))) → Leaves d (handled d g)
    handled-Leaves d g =
        Leaves-then d (lift (owned_parts (get_default [] (pos 0) g))) (owned d g) (λ c successful r.
          Leaves-then d (lift (pop_each (map (λ p. p.0) successful) d)) (popped d g) (λ c1 d1 ran.
            Leaves-then d (unless_all services settings (failed g)) (λ _. pure d1)
              (λ c2 u r2 c3 d' e.
                (let same : d1 ≡ d' = cc in
                  let n : total f d1 ≡ total f d' = ap (total f) same in
                  omega (arith, n, pop_each-fewer (map (λ p. p.0) successful) d d1 ran)))))

    ask_leader-Leaves :
        (p : Option ℕ × List (ℤ × ℤ)) (d : Dict ℤ ℤ)
        → Leaves d (ask_leader services settings reset p d)
    unfolding ask_leader
    ask_leader-Leaves (broker, pairs) d =
        Leaves-then d (gets (λ (c : Consumer C). offset_requests pairs c.partitions))
          (λ reqs. request_limits services settings broker reqs >>= responses d)
          (λ c0 reqs r0.
            Leaves-then d (request_limits services settings broker reqs) (responses d)
              (λ c1 response r1.
                Leaves-then d
                  (handle_responses services settings reset (λ r. r.1) (some (handle_reset d))
                    response)
                  (handled d) (λ c2 g r2. handled-Leaves d g)))

    pub ask_leaders-fewer :
        (by_leader : Dict (Option ℕ) (List (ℤ × ℤ))) (d : Dict ℤ ℤ)
        → Leaves d (ask_leaders services settings reset by_leader d)
    unfolding ask_leaders
    ask_leaders-fewer [] d c d' e =
        (let same : d ≡ d' = cc in
          let n : total f d ≡ total f d' = ap (total f) same in omega (arith, n))
    ask_leaders-fewer (p ∷ by_leader) d c d' e =
        Leaves-then d (ask_leader services settings reset p d)
          (λ d1. ask_leaders services settings reset by_leader d1)
          (λ c0 d1 ran c1 d2 e2.
            omega (arith, ask_leader-Leaves p d c0 d1 ran, ask_leaders-fewer by_leader d1 c1 d2 e2))
          c d' e
