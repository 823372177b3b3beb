-- ===== src/Producer/Staying.antt =====
-- How many messages _send_request settles, and how many of those that it produces again are pending again
-- at the same OwnedBroker.
use pykafka.Prelude.{
  ℕ, ℤ, pos, pos_part, ◌+ℤ◌, ◌+◌, ◌≤◌, ◌≡◌, ◌≢◌, refl, sym, ap, ◌∙◌, arith, inl, inr, true, false,
  Bool, Bool-cases, ◌&&◌, List, [], ◌∷◌, ◌++◌, length, All, eq_ℤ, eq_ℤ_iff, if◌then◌else◌, total,
  +ℤ-pos,
}
use pykafka.Dict.{int_eq}
use pykafka.Dict.Keys.{IsKeyset}
use pykafka.Producer.{Settings, OwnedBroker, increment_messages_pending, put_messages}
use pykafka.Producer.Sending.{Queued, gives_up}
use pykafka.Producer.Requested.{of_partition}
use pykafka.Producer.Sent.{put_again, retries, again, Answers, retried}
use pykafka.Producer.Retried.{settled}
use pykafka.Prelude.{subst}

module _ (stays : ℤ → Bool) where
  -- The messages that are produced again at the same OwnedBroker: those of the partitions that stay there,
  -- where the answer is neither a success nor gives them up.
  abbrev pub back : List Queued → Answers → ℕ
  back batch answers =
      total (λ a. if retries a.1.0 && stays a.0 then length (of_partition a.0 batch) else 0) answers

  abbrev pub staying : List Queued → ℕ
  staying qs = total (λ q. if stays q.partition_id then 1 else 0) qs

  staying-append : (xs ys : List Queued) → staying (xs ++ ys) ≡ staying xs + staying ys
  staying-append [] ys = omega arith
  staying-append (x ∷ xs) ys = omega (arith, staying-append xs ys)

  staying-of_partition :
      (p : ℤ) (qs : List Queued)
      → staying (of_partition p qs) ≡ (if stays p then length (of_partition p qs) else 0)
  staying-of_partition p [] =
      elim (stays p) as (λ b. staying [] ≡ (if b then length {A = Queued} [] else 0)) [
        | true ↦ refl
        | false ↦ refl
      ]
  staying-of_partition p (q ∷ qs) = elim (Bool-cases (eq_ℤ q.partition_id p)) [
    | inr e ↦ rw e (staying-of_partition p qs)
    | inl e ↦
        let same : stays q.partition_id ≡ stays p = ap stays ((eq_ℤ_iff q.partition_id p).0 e) in
        let later = staying-of_partition p qs in
        rw (e, same)
          (elim (Bool-cases (stays p)) [
            | inl h ↦ rw h (let l = (rw h at later) in omega (arith, l))
            | inr h ↦ rw h (let l = (rw h at later) in omega (arith, l))
          ])
  ]

  pub staying-retried :
      (batch : List Queued) (answers : Answers)
      → staying (retried (λ p. of_partition p batch) answers) ≡ back batch answers
  staying-retried batch [] = refl
  staying-retried batch ((k, (error, offset)) ∷ answers) =
      let qs : List Queued = of_partition k batch in
      let one : staying (if retries error then qs else [])
          ≡ (if retries error && stays k then length qs else 0) =
        elim (retries error)
          as (λ b. staying (if b then qs else []) ≡ (if b && stays k then length qs else 0)) [
            | true ↦ staying-of_partition k batch
            | false ↦ refl
          ] in
      staying-append (if retries error then qs else [])
        (retried (λ p. of_partition p batch) answers)
      ∙ omega (arith, one, staying-retried batch answers)

  -- The messages are put one after the other.
  abbrev pub all_put : Settings → List Queued → OwnedBroker Queued → OwnedBroker Queued
  all_put s [] b = b
  all_put s (q ∷ qs) b = all_put s qs (put_again s stays (again q) b)

  put_one :
      (s : Settings) (q : Queued) (b : OwnedBroker Queued) (m : ℕ)
      → b.messages_pending ≡ pos m
      → (put_messages s (q ∷ []) b).messages_pending ≡ pos (m + 1)
  unfolding put_messages increment_messages_pending
  put_one s q b m pending =
      ap (λ (z : ℤ). pos (pos_part (z +ℤ pos 1))) pending
      ∙ ap (λ (z : ℤ). pos (pos_part z)) (+ℤ-pos m 1)

  pub all_put-pending :
      (s : Settings) (qs : List Queued) (b : OwnedBroker Queued) (m : ℕ)
      → b.messages_pending ≡ pos m
      → (all_put s qs b).messages_pending ≡ pos (m + staying qs)
  all_put-pending s [] b m pending = pending ∙ ap pos (omega arith)
  all_put-pending s (q ∷ qs) b m pending =
      let one : (put_again s stays (again q) b).messages_pending
          ≡ pos (m + (if stays q.partition_id then 1 else 0)) =
        elim (stays q.partition_id)
          as (λ t.
            (if t then put_messages s (again q ∷ []) b else b).messages_pending
            ≡ pos (m + (if t then 1 else 0))) [
              | true ↦ put_one s (again q) b m pending
              | false ↦ pending ∙ ap pos (omega arith)
            ] in
      all_put-pending s qs (put_again s stays (again q) b) _ one ∙ ap pos (omega arith)

-- Of a dict's answers, at most one is for a partition.
answers_absent :
    (p : ℤ) (answers : Answers)
    → All (λ a. p ≢ a.0) answers
    → total (λ a. if eq_ℤ p a.0 then 1 else 0) answers ≡ 0
answers_absent p [] a = refl
answers_absent p (x ∷ answers) (ne, a) = elim (Bool-cases (eq_ℤ p x.0)) [
  | inl e ↦ absurd (ne ((eq_ℤ_iff p x.0).0 e))
  | inr e ↦ rw e (omega (arith, answers_absent p answers a))
]

one_answer :
    (p : ℤ) (answers : Answers)
    → IsKeyset answers
    → total (λ a. if eq_ℤ p a.0 then 1 else 0) answers ≤ 1
one_answer p [] h = omega arith
one_answer p ((k, v) ∷ answers) (a, h) = elim (Bool-cases (eq_ℤ p k)) [
  | inr e ↦ rw e (omega (arith, one_answer p answers h))
  | inl e ↦
      let same : p ≡ k = (eq_ℤ_iff p k).0 e in
      let absent : All (λ x. p ≢ x.0) answers =
        subst (λ (i : ℤ). All (λ (x : ℤ × (ℤ × ℤ)). i ≢ x.0) answers) (sym same) a in
      rw e (omega (arith, answers_absent p answers absent))
]

answered-cons :
    (q : Queued) (qs : List Queued) (answers : Answers)
    → total (λ a. length (of_partition a.0 (q ∷ qs))) answers
      ≡ total (λ a. if eq_ℤ q.partition_id a.0 then 1 else 0) answers
        + total (λ a. length (of_partition a.0 qs)) answers
answered-cons q qs [] = refl
answered-cons q qs (x ∷ answers) = elim (Bool-cases (eq_ℤ q.partition_id x.0)) [
  | inl e ↦ rw e (omega (arith, answered-cons q qs answers))
  | inr e ↦ rw e (omega (arith, answered-cons q qs answers))
]

answered-length :
    (qs : List Queued) (answers : Answers)
    → IsKeyset answers
    → total (λ a. length (of_partition a.0 qs)) answers ≤ length qs
answered-length [] answers h = none_answered answers
  where
    none_answered : (answers : Answers) → total (λ a. 0) answers ≤ 0
    none_answered [] = omega arith
    none_answered (a ∷ answers) = omega (arith, none_answered answers)
answered-length (q ∷ qs) answers h = omega (
  arith,
  answered-cons q qs answers,
  one_answer q.partition_id answers h,
  answered-length qs answers h,
)

settled-answered :
    (qs : List Queued) (answers : Answers)
    → settled qs answers ≤ total (λ a. length (of_partition a.0 qs)) answers
settled-answered qs [] = omega arith
settled-answered qs (a ∷ answers) = elim (Bool-cases (gives_up a.1.0)) [
  | inl e ↦ rw e (omega (arith, settled-answered qs answers))
  | inr e ↦ rw e (omega (arith, settled-answered qs answers))
]

-- No more is settled than was in the batch.
pub settled-length :
    (qs : List Queued) (answers : Answers) → IsKeyset answers → settled qs answers ≤ length qs
settled-length qs answers h =
    omega (arith, settled-answered qs answers, answered-length qs answers h)
