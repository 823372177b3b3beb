-- ===== src/SimpleConsumer/Mixed.antt =====
-- What becomes of commit_offsets where some partitions have an error and others have none.
use pykafka.Prelude.{
  refl, sym, ap, ◌∙◌, ◌≡◌, ◌≢◌, ℕ, suc, ℤ, pos, inl, inr, Bool, Bool-cases, false, none, List, [],
  ◌∷◌, map, All, eq_ℤ, eq_ℤ_iff, if◌then◌else◌,
}
use pykafka.Result.{Result, ok, err, key_error}
use pykafka.Action.{Action, go_on, ◌>>=◌, ◌>>◌, lift}
use pykafka.Dict.{Dict, lookup, int_eq, text_eq}
use pykafka.Dict.Laws.{lookup-cons}
use pykafka.ErrorHandlers.{Part}
use pykafka.SimpleConsumer.Consumer.{Consumer, Services, Settings, owned_parts}
use pykafka.SimpleConsumer.Offsets.{
  only_success, logged, logged_code, log_errors, commit_tries, commit_to, handle_responses,
  commit_rest,
}
use pykafka.Protocol.Response.{Text, is_error_code}
use pykafka.Protocol.OffsetCommit.{PartitionOffsetCommitRequest}
use pykafka.Result.{Error}
use pykafka.SimpleConsumer.Offsets.{unless_last}
use pykafka.SimpleConsumer.Consumer.{update_consumer}
use pykafka.SimpleConsumer.Offsets.{commit_answered}
use pykafka.Action.{pure}
use pykafka.SimpleConsumer.Offsets.{commit_errored}
use pykafka.SimpleConsumer.Offsets.{errored}
use pykafka.Action.{gets}
use pykafka.SimpleConsumer.Offsets.{commit_requests}

-- All partitions of a group are known.
abbrev pub IsOwned : {R : Type 0} → List (Part ℤ R) → Type 0
IsOwned {R = R} parts = (xs : List (ℤ × R)) × (owned_parts parts ≡ ok xs)

only_success-mixed :
    {P : Type 0} (e : ℤ) (d : Dict ℤ P) → e ≢ pos 0 → lookup e d ≢ none → only_success d ≡ false
unfolding lookup
only_success-mixed e [] ne h = refl
only_success-mixed e ((code, parts) ∷ []) ne h = elim (Bool-cases (eq_ℤ code (pos 0))) [
  | inl p ↦
      let other : eq_ℤ code e ≡ false = elim (Bool-cases (eq_ℤ code e)) [
        | inl q ↦ absurd (ne (sym ((eq_ℤ_iff code e).0 q) ∙ (eq_ℤ_iff code (pos 0)).0 p))
        | inr q ↦ q
      ] in
      absurd (h (lookup-cons code e parts [] ∙ rw other refl))
  | inr p ↦ p
]
only_success-mixed e (p ∷ q ∷ rest) ne h = refl

-- Logging raises at a group of no error: ERROR_CODES has no 0.
log_errors-success :
    {S R : Type 0} (d : Dict ℤ (List (Part ℤ R))) (s : S)
    → All (λ g. IsOwned g.1) d
    → lookup (pos 0) d ≢ none
    → log_errors d s ≡ (err key_error, s)
unfolding lookup
log_errors-success [] s known h = absurd (h refl)
log_errors-success {S} {R} ((code, parts) ∷ d) s ((xs, owned), known) h =
    let next : Result (Unit {0}) → Result (Unit {0}) × S = λ r. go_on (r, s) (λ _. log_errors d) in
    ap (λ (r : Result (List (ℤ × R))). next (logged code r)) owned
    ∙ elim (Bool-cases (eq_ℤ code (pos 0))) [
      | inl p ↦ ap (λ (z : ℤ). next (logged_code z)) ((eq_ℤ_iff code (pos 0)).0 p)
      | inr p ↦
          let later : lookup (pos 0) d ≢ none =
            λ q. h (lookup-cons code (pos 0) parts d ∙ rw p q) in
          elim (Bool-cases (is_error_code code)) [
            | inl known_code ↦ rw known_code (log_errors-success d s known later)
            | inr unknown_code ↦ rw unknown_code refl
          ]
    ]

-- Where the offset manager answers with known partitions of which some have an error and some have none,
-- and the error handlers go through, commit_offsets raises KeyError in that round: nothing is tried again.
pub commit_tries-mixed :
    {C : Type 0} (services : Services C) (settings : Settings)
    (reset : List (ℤ × ℤ) → Action (Consumer C) (Unit {0})) (left : ℕ) (group : List ℕ)
    (reqs : List PartitionOffsetCommitRequest) (c c1 c2 : Consumer C)
    (response : Dict Text (Dict ℤ ℤ)) (parts : Dict ℤ (List (Part ℤ ℤ))) (e : ℤ)
    → commit_to services settings reset group reqs c ≡ (ok response, c1)
    → handle_responses services settings reset (λ z. z) none response c1 ≡ (ok parts, c2)
    → All (λ g. IsOwned g.1) parts
    → lookup (pos 0) parts ≢ none
    → e ≢ pos 0
    → lookup e parts ≢ none
    → commit_tries services settings reset (suc left) group reqs c ≡ (err key_error, c2)
unfolding commit_tries
commit_tries-mixed services settings reset left group reqs c c1 c2 response parts e answered handled
      known success ne error =
    let retry : List PartitionOffsetCommitRequest → Action (Consumer _) (Unit {0}) =
      λ reqs'. commit_tries services settings reset left group reqs' in
    let lost : Error → Action (Consumer _) (Unit {0}) = λ e'. unless_last left e' (
      update_consumer services settings
      >> (λ c'. commit_tries services settings reset left group reqs c')) in
    ap (commit_answered services settings reset retry lost) answered
    ∙ ap
        (λ (x : Result (Dict ℤ (List (Part ℤ ℤ))) × Consumer _).
          go_on x (commit_rest services settings reset retry))
        handled
    ∙ ap
        (λ (b : Bool).
          (if b then pure tt else (commit_errored services settings reset parts >>= retry)) c2)
        (only_success-mixed e parts ne error)
    ∙ ap
        (λ (x : Result (Unit {0}) × Consumer _).
          go_on
            (go_on (go_on x (λ _. lift (owned_parts (errored parts))))
              (λ ps. gets (commit_requests services settings reset (map (λ p. p.0) ps))))
            retry)
        (log_errors-success parts c2 known success)
