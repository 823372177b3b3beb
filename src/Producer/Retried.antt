-- ===== src/Producer/Retried.antt =====
-- What _send_request produces again of each partition, and how many messages it settles.
use pykafka.Prelude.{
  ℕ, ℤ, pos, ◌+◌, ◌≡◌, ◌≢◌, refl, sym, ap, ◌∙◌, arith, inl, inr, true, false, not, Bool, Bool-cases,
  ◌&&◌, Option, none, some, List, [], ◌∷◌, ◌++◌, append-nil, map, length, eq_ℤ, eq_ℤ_iff,
  if◌then◌else◌, total,
}
use pykafka.Dict.{lookup, int_eq, text_eq}
use pykafka.Dict.Keys.{IsKeyset}
use pykafka.Producer.Sending.{Queued, gives_up}
use pykafka.Producer.Requested.{of_partition}
use mathlib.Core.List.{map-append}
use pykafka.Dict.{bytes_eq}
use pykafka.Dict.Laws.{lookup-cons}
use pykafka.Producer.Requested.{of_partition-append}
use pykafka.Producer.Sent.{retries, again, Answers, retried, delivered}
use pykafka.Prelude.{length-append}
use pykafka.Prelude.{false≢true}
use pykafka.Dict.Keys.{apart-lookup}

-- What is produced again of the messages of a partition.
abbrev pub again_if : Option (ℤ × ℤ) → List Queued → List Queued
again_if none qs = []
again_if (some (error, offset)) qs = if retries error then map again qs else []

-- The messages that are no longer counted as pending.
abbrev pub settled : List Queued → Answers → ℕ
settled batch answers =
    total (λ a. if gives_up a.1.0 then 0 else length (of_partition a.0 batch)) answers

of_partition-again :
    (p : ℤ) (qs : List Queued) → of_partition p (map again qs) ≡ map again (of_partition p qs)
of_partition-again p [] = refl
of_partition-again p (q ∷ qs) = elim (Bool-cases (eq_ℤ q.partition_id p)) [
  | inl e ↦ rw e (ap (λ (l : List Queued). again q ∷ l) (of_partition-again p qs))
  | inr e ↦ rw e (of_partition-again p qs)
]

of_partition-same :
    (p : ℤ) (qs : List Queued) → of_partition p (of_partition p qs) ≡ of_partition p qs
of_partition-same p [] = refl
of_partition-same p (q ∷ qs) = elim (Bool-cases (eq_ℤ q.partition_id p)) [
  | inl e ↦ rw (e, e) (ap (λ (l : List Queued). q ∷ l) (of_partition-same p qs))
  | inr e ↦ rw e (of_partition-same p qs)
]

of_partition-other : (p k : ℤ) (qs : List Queued) → k ≢ p → of_partition p (of_partition k qs) ≡ []
of_partition-other p k [] ne = refl
of_partition-other p k (q ∷ qs) ne = elim (Bool-cases (eq_ℤ q.partition_id k)) [
  | inl e ↦ elim (Bool-cases (eq_ℤ q.partition_id p)) [
    | inl e' ↦
        absurd (ne (sym ((eq_ℤ_iff q.partition_id k).0 e) ∙ (eq_ℤ_iff q.partition_id p).0 e'))
    | inr e' ↦ rw (e, e') (of_partition-other p k qs ne)
  ]
  | inr e ↦ rw e (of_partition-other p k qs ne)
]

module _ (batch : List Queued) where
  abbrev msgs : ℤ → List Queued
  msgs p = of_partition p batch

  -- The part of one answer.
  part-again :
      (p k : ℤ) (t : Bool)
      → of_partition p (map again (if t then msgs k else []))
        ≡ (if t && eq_ℤ k p then map again (msgs p) else [])
  part-again p k false = refl
  part-again p k true = elim (Bool-cases (eq_ℤ k p)) [
    | inl e ↦ rw e (
        of_partition-again p (msgs k)
        ∙ ap (λ (j : ℤ). map again (of_partition p (msgs j))) ((eq_ℤ_iff k p).0 e)
        ∙ ap (map again) (of_partition-same p batch))
    | inr e ↦
        let ne : k ≢ p =
          λ q. (let clash : true ≡ false = sym ((eq_ℤ_iff k p).1 q) ∙ e in absurd cc) in
        rw e (of_partition-again p (msgs k) ∙ ap (map again) (of_partition-other p k batch ne))
  ]

  nested :
      (t e : Bool) (qs : List Queued)
      → (if t && e then qs else []) ≡ (if e then (if t then qs else []) else [])
  nested true true qs = refl
  nested true false qs = refl
  nested false true qs = refl
  nested false false qs = refl

  -- Of each partition, those are produced again whose answer says so.
  pub retried-again :
      (p : ℤ) (answers : Answers)
      → IsKeyset answers
      → of_partition p (map again (retried msgs answers)) ≡ again_if (lookup p answers) (msgs p)
  retried-again p [] h = unfold lookup in refl
  retried-again p ((k, (error, offset)) ∷ answers) (a, h) =
      let here : List Queued = if retries error then msgs k else [] in
      let later : List Queued = of_partition p (map again (retried msgs answers)) in
      let both : List Queued = if retries error then map again (msgs p) else [] in
      ap (of_partition p) (map-append again here (retried msgs answers))
      ∙ of_partition-append p (map again here) (map again (retried msgs answers))
      ∙ ap (λ (l : List Queued). l ++ later)
          (part-again p k (retries error) ∙ nested (retries error) (eq_ℤ k p) (map again (msgs p)))
      ∙ elim (Bool-cases (eq_ℤ k p)) [
        | inl e ↦
            let same : k ≡ p = (eq_ℤ_iff k p).0 e in
            let absent : lookup p answers ≡ none =
              ap (λ (j : ℤ). lookup j answers) (sym same) ∙ apart-lookup k answers a in
            let none_later : later ≡ [] =
              retried-again p answers h ∙ ap (λ (x : Option (ℤ × ℤ)). again_if x (msgs p)) absent in
            rw (e, lookup-cons k p (error, offset) answers, e)
              (ap (λ (l : List Queued). both ++ l) none_later ∙ append-nil both)
        | inr e ↦ rw (e, lookup-cons k p (error, offset) answers, e) (retried-again p answers h)
      ]

  one_settled :
      (a g : Bool) (qs : List Queued)
      → (a ≡ true → g ≡ false)
      → (if a then length qs else 0) + length (if not a && not g then qs else [])
        ≡ (if g then 0 else length qs)
  one_settled true true qs h = absurd (false≢true (sym (h refl)))
  one_settled true false qs h = omega arith
  one_settled false true qs h = omega arith
  one_settled false false qs h = omega arith

  delivered_not_given_up : (error : ℤ) → eq_ℤ error (pos 0) ≡ true → gives_up error ≡ false
  delivered_not_given_up error h = ap gives_up ((eq_ℤ_iff error (pos 0)).0 h)

  pub settled-sum :
      (answers : Answers)
      → delivered msgs answers + length (retried msgs answers) ≡ settled batch answers
  settled-sum [] = refl
  settled-sum ((k, (error, offset)) ∷ answers) =
      let here : List Queued = if retries error then msgs k else [] in
      let one =
        one_settled (eq_ℤ error (pos 0)) (gives_up error) (msgs k) (delivered_not_given_up error) in
      omega (arith, one, length-append here (retried msgs answers), settled-sum answers)
