-- ===== src/SimpleConsumer/Restored.antt =====
-- The handlers of reset_offsets release the locks of what has no error, and its requests are for the
-- partitions that are known.
use pykafka.Prelude.{
  sym, ap, subst, ◌∙◌, ◌≡◌, refl, ℕ, ◌+◌, ℤ, pos, Bool, Bool-cases, inl, inr, true, false, Option,
  Option-cases, arith, none, some, List, [], ◌∷◌, map, eq_ℤ, eq_ℤ_iff, if◌then◌else◌, total,
}
use pykafka.Result.{ok}
use pykafka.Action.{Action}
use pykafka.Dict.{Dict, lookup, insert, int_eq, text_eq}
use pykafka.Dict.Laws.{lookup-insert}
use pykafka.ErrorHandlers.{Part, owned_partition, handle_parts, with_success, call_handler}
use pykafka.SimpleConsumer.{OwnedPartition, build_offset_request}
use pykafka.SimpleConsumer.Consumer.{
  Consumer, Services, Settings, Limits, by_id, default_error_handlers, leader_eq,
}
use pykafka.SimpleConsumer.Held.{one, times}
use pykafka.SimpleConsumer.Moved.{
  name_at, name_of, no_lock, Has, Moves, Keeps, Moved-then, Keeps-pure,
}
use pykafka.SimpleConsumer.Grouped.{own, own_part, succeeded}
use pykafka.SimpleConsumer.Handled.{Keeps-call_handler, Keeps-default}
use pykafka.SimpleConsumer.Parts.{keys, named}
use pykafka.SimpleConsumer.Resetting.{known, known_as, known_locks, handle_reset-Moves}
use pykafka.SimpleConsumer.Reset.{handle_reset, offset_requests}
use pykafka.Protocol.Response.{Text}

eq_ℤ-sym : (a b : ℤ) → eq_ℤ a b ≡ eq_ℤ b a
eq_ℤ-sym a b = elim (Bool-cases (eq_ℤ a b)) [
  | inl e ↦ e ∙ sym ((eq_ℤ_iff b a).1 (sym ((eq_ℤ_iff a b).0 e)))
  | inr e ↦ elim (Bool-cases (eq_ℤ b a)) [
    | inl e' ↦
        let clash : true ≡ false = sym ((eq_ℤ_iff a b).1 (sym ((eq_ℤ_iff b a).0 e'))) ∙ e in
        absurd cc
    | inr e' ↦ e ∙ sym e'
  ]
]

known_as-zero : (o : Option ℤ) → known_as o 0 ≡ 0
known_as-zero none = refl
known_as-zero (some name) = refl

known_as-sum : (o : Option ℤ) (m n : ℕ) → known_as o m + known_as o n ≡ known_as o (m + n)
known_as-sum none m n = omega arith
known_as-sum (some name) m n = refl

pub known_as-twice : (o : Option ℤ) (n : ℕ) → known_as o (known_as o n) ≡ known_as o n
known_as-twice none n = refl
known_as-twice (some name) n = refl

own-named :
    (id k : ℤ) (ps : Dict ℤ OwnedPartition)
    → own id (lookup k (named ps)) ≡ known_as (name_of k ps) (one (eq_ℤ k id))
unfolding lookup
own-named id k [] = refl
own-named id k ((j, p) ∷ ps) = elim (Bool-cases (eq_ℤ j k)) [
  | inl e ↦ rw e (ap (λ (i : ℤ). one (eq_ℤ i id)) ((eq_ℤ_iff j k).0 e))
  | inr e ↦ rw e (own-named id k ps)
]

module _ (names : ℤ → Option ℤ) where
  known-here : (id k : ℤ) → known names id k ≡ known_as (names id) (one (eq_ℤ k id))
  known-here id k = elim (Bool-cases (eq_ℤ k id)) [
    | inl e ↦ ap (λ (j : ℤ). known_as (names j) (one (eq_ℤ k id))) ((eq_ℤ_iff k id).0 e)
    | inr e ↦ rw e (known_as-zero (names k) ∙ sym (known_as-zero (names id)))
  ]

  pub known-times :
      {V : Type 0} (id : ℤ) (ps : List (ℤ × V))
      → total (λ p. known names id p.0) ps ≡ known_as (names id) (times id (keys ps))
  known-times id [] = sym (known_as-zero (names id))
  known-times id ((k, v) ∷ ps) = omega (
    arith,
    known-here id k,
    known-times id ps,
    known_as-sum (names id) (one (eq_ℤ k id)) (times id (keys ps)),
  )

  pub known-response :
      (id : ℤ) (response : Dict Text (Dict ℤ Limits))
      → total (λ t. total (λ p. known names id p.0) t.1) response
        ≡ known_as (names id) (total (λ t. times id (keys t.1)) response)
  known-response id [] = sym (known_as-zero (names id))
  known-response id (t ∷ ts) = omega (
    arith,
    known-times id t.1,
    known-response id ts,
    known_as-sum (names id) (times id (keys t.1)) (total (λ t. times id (keys t.1)) ts),
  )

module _ {C : Type 0} (names : ℤ → Option ℤ) where
  -- The OwnedPartitions that are found are those that are known.
  own-known :
      (id : ℤ) (c : Consumer C) (partitions : Dict ℤ Limits)
      → Has names c
      → total (λ p. own id (owned_partition (some (by_id c)) p.0)) partitions
        ≡ total (λ p. known names id p.0) partitions
  unfolding owned_partition
  own-known id c [] has = refl
  own-known id c ((k, v) ∷ ps) has =
      let one_known : own id (lookup k (by_id c)) ≡ known names id k =
        own-named id k c.partitions ∙ ap (λ (o : Option ℤ). known_as o (one (eq_ℤ k id))) (has k) in
      omega (arith, one_known, own-known id c ps has)

  pub own-response :
      (id : ℤ) (c : Consumer C) (response : Dict Text (Dict ℤ Limits))
      → Has names c
      → total (λ t. total (λ p. own id (owned_partition (some (by_id c)) p.0)) t.1) response
        ≡ total (λ t. total (λ p. known names id p.0) t.1) response
  own-response id c [] has = refl
  own-response id c (t ∷ ts) has = omega (arith, own-known id c t.1 has, own-response id c ts has)

  module _ (by_ids : (id name : ℤ) → names id ≡ some name → name ≡ id) where
    -- The requests are for the partitions that are known.
    pub offset_requests-known :
        (id : ℤ) (pairs : List (ℤ × ℤ)) (c : Consumer C)
        → Has names c
        → times id (map (λ r. r.partition_id) (offset_requests pairs c.partitions))
          ≡ known_locks names pairs id
    unfolding build_offset_request
    offset_requests-known id [] c has = refl
    offset_requests-known id ((k, offset) ∷ pairs) c has =
        elim (Option-cases (lookup k c.partitions)) [
          | inl e ↦
              let unknown : known names id k ≡ 0 =
                ap (λ (o : Option ℤ). known_as o (one (eq_ℤ k id))) (sym (has k) ∙ ap name_at e) in
              rw e (omega (arith, unknown, offset_requests-known id pairs c has))
          | inr (p, e) ↦
              let is_known : names k ≡ some p.partition_id = sym (has k) ∙ ap name_at e in
              let counted : known names id k ≡ one (eq_ℤ k id) =
                ap (λ (o : Option ℤ). known_as o (one (eq_ℤ k id))) is_known in
              let same : one (eq_ℤ p.partition_id id) ≡ one (eq_ℤ k id) =
                ap (λ (i : ℤ). one (eq_ℤ i id)) (by_ids k p.partition_id is_known) in
              rw e (omega (arith, counted, same, offset_requests-known id pairs c has))
        ]

  module _ (services : Services C) (settings : Settings)
      (reset : List (ℤ × ℤ) → Action (Consumer C) (Unit {0}))
      (reset-Keeps : (pairs : List (ℤ × ℤ)) → Keeps names (reset pairs)) where
    -- Where there is no error, the locks are released; the other handlers leave them.
    call_handler-Moves :
        (offsets : Dict ℤ ℤ) (k : ℤ) (parts : List (Part ℤ Limits))
        → Moves names no_lock
            (λ id. if eq_ℤ k (pos 0) then total (own_part id) parts else 0)
            (call_handler
              (lookup k (
                with_success
                  (some (handle_reset offsets))
                  (default_error_handlers services settings reset)))
              parts)
    unfolding with_success call_handler
    call_handler-Moves offsets k parts =
        let handlers = default_error_handlers services settings reset in
        let s : List (Part ℤ Limits) → Action (Consumer C) (Unit {0}) = handle_reset offsets in
        let frees : Bool → ℤ → ℕ = λ b id. if b then total (own_part id) parts else 0 in
        let found : lookup k (insert (pos 0) s handlers)
            ≡ (if eq_ℤ k (pos 0) then some s else lookup k handlers) =
          lookup-insert (pos 0) k s handlers
          ∙ ap (λ (b : Bool). if b then some s else lookup k handlers) (eq_ℤ-sym (pos 0) k) in
        subst
          (λ (o : Option (List (Part ℤ Limits) → Action (Consumer C) (Unit {0}))).
            Moves names no_lock (frees (eq_ℤ k (pos 0))) (call_handler o parts))
          (sym found)
          (elim (eq_ℤ k (pos 0))
            as (λ b.
              Moves names no_lock (frees b)
                (call_handler (if b then some s else lookup k handlers) parts)) [
                  | true ↦ handle_reset-Moves names offsets parts
                  | false ↦
                      Keeps-call_handler names k handlers parts
                        (Keeps-default names services settings reset reset-Keeps Limits)
                ])

    pub handle_parts-Moves :
        (offsets : Dict ℤ ℤ) (g : Dict ℤ (List (Part ℤ Limits)))
        → Moves names no_lock
            (λ id. succeeded id g)
            (handle_parts
              (with_success
                (some (handle_reset offsets))
                (default_error_handlers services settings reset))
              g)
    unfolding handle_parts
    handle_parts-Moves offsets [] c has = Keeps-pure names (ok tt) c has
    handle_parts-Moves offsets ((k, parts) ∷ g) c has =
        let handlers =
          with_success (some (handle_reset offsets))
            (default_error_handlers services settings reset) in
        Moved-then names no_lock (λ id. succeeded id ((k, parts) ∷ g)) c
          (call_handler (lookup k handlers) parts c) (λ _. handle_parts handlers g)
          (call_handler-Moves offsets k parts c has)
          (λ u ran has'.
            handle_parts-Moves offsets g (call_handler (lookup k handlers) parts c).1 has')
          (λ id. omega arith)
