-- ===== src/SimpleConsumer/Committing.antt =====
-- commit_offsets leaves the locks alone.
use pykafka.Prelude.{
  ◌≡◌, refl, ℕ, zero, suc, ℤ, pos, true, false, Option, none, some, List, [], ◌∷◌, map,
  if◌then◌else◌,
}
use pykafka.Result.{Result, ok, err, Error, exception}
use pykafka.Action.{Action, pure, gets, lift, ◌>>=◌, ◌>>◌}
use pykafka.Dict.{Dict, int_eq, text_eq}
use pykafka.ErrorHandlers.{
  Part, handle_parts, handle_partition_responses, parts_of, build_parts_by_error, with_success,
}
use pykafka.SimpleConsumer.{build_offset_commit_request}
use pykafka.SimpleConsumer.Consumer.{
  Consumer, Services, Settings, is_lost, owned_parts, call_cluster, by_id, update_consumer,
  default_error_handlers,
}
use pykafka.SimpleConsumer.Offsets.{
  only_success, logged, log_errors, errored, unless_last, manager_of, handle_responses,
  commit_requests, commit_errored, commit_rest, commit_answered, commit_to, commit_tries,
  commit_group, commit_offsets,
}
use pykafka.SimpleConsumer.Moved.{
  no_lock, Has, Moved, Keeps, Keeps-then, Moved-then, Moved-err, Moved-ok, Keeps-pure, Keeps-each,
}
use pykafka.SimpleConsumer.Handled.{Keeps-handle_parts, Keeps-update_consumer, Keeps-default}
use pykafka.Protocol.Header.{codes}
use pykafka.Action.{go_on}
use pykafka.Prelude.{arith}
use pykafka.SimpleConsumer.{OwnedPartition}
use pykafka.SimpleConsumer.Held.{held}
use pykafka.Protocol.Response.{Text}
use pykafka.Protocol.OffsetCommit.{PartitionOffsetCommitRequest}

module _ {C : Type 0} (names : ℤ → Option ℤ) where
  pub Keeps-log_errors :
      {R : Type 0} (g : Dict ℤ (List (Part ℤ R))) → Keeps {C = C} names (log_errors g)
  Keeps-log_errors g =
      Keeps-each names (λ (p : ℤ × List (Part ℤ _)). lift (logged p.0 (owned_parts p.1)))
        (λ p. Keeps-pure names (logged p.0 (owned_parts p.1))) g

module _ {C : Type 0} (names : ℤ → Option ℤ) (services : Services C) (settings : Settings)
    (reset : List (ℤ × ℤ) → Action (Consumer C) (Unit {0}))
    (reset-Keeps : (pairs : List (ℤ × ℤ)) → Keeps names (reset pairs)) where
  Keeps-handle_responses :
      (response : Dict Text (Dict ℤ ℤ))
      → Keeps names (handle_responses services settings reset (λ e. e) none response)
  unfolding handle_partition_responses parts_of with_success
  Keeps-handle_responses response c has =
      let built = build_parts_by_error (λ (e : ℤ). e) response (some (by_id c)) in
      Moved-then names no_lock no_lock c
        (handle_parts (default_error_handlers services settings reset) built c) (λ _. pure built)
        (Keeps-handle_parts names (default_error_handlers services settings reset) built
          (Keeps-default names services settings reset reset-Keeps ℤ) c has)
        (λ u ran has'. Keeps-pure names (ok built) _ has') (λ id. refl)

  Keeps-commit_errored :
      (g : Dict ℤ (List (Part ℤ ℤ))) → Keeps names (commit_errored services settings reset g)
  Keeps-commit_errored g =
      Keeps-then names (log_errors g >> lift (owned_parts (errored g)))
        (λ parts. gets (commit_requests services settings reset (map (λ p. p.0) parts)))
        (Keeps-then names (log_errors g) (λ _. lift (owned_parts (errored g)))
          (Keeps-log_errors names g) (λ _. Keeps-pure names (owned_parts (errored g))))
        (λ parts c has. Moved-ok names _ c c has (λ id. refl))

  Keeps-commit_rest :
      (retry : List PartitionOffsetCommitRequest → Action (Consumer C) (Unit {0}))
      → ((reqs : List PartitionOffsetCommitRequest) → Keeps names (retry reqs))
      → (g : Dict ℤ (List (Part ℤ ℤ))) → Keeps names (commit_rest services settings reset retry g)
  Keeps-commit_rest retry h g =
      elim (only_success g)
        as (λ b.
          Keeps names
            (if b then pure tt else (commit_errored services settings reset g >>= retry))) [
              | true ↦ Keeps-pure names (ok tt)
              | false ↦
                  Keeps-then names (commit_errored services settings reset g) retry
                    (Keeps-commit_errored g) h
            ]

  Keeps-unless_last :
      (left : ℕ) (e : Error) (next : Action (Consumer C) (Unit {0}))
      → Keeps names next
      → Keeps names (unless_last left e next)
  Keeps-unless_last zero e next h = Keeps-pure names (err e)
  Keeps-unless_last (suc left) e next h = h

  -- What was answered, or that nothing was.
  commit_answered-Moved :
      (retry : List PartitionOffsetCommitRequest → Action (Consumer C) (Unit {0}))
      (lost : Error → Action (Consumer C) (Unit {0})) (c : Consumer C)
      (x : Result (Dict Text (Dict ℤ ℤ)) × Consumer C)
      → ((reqs : List PartitionOffsetCommitRequest) → Keeps names (retry reqs))
      → ((e : Error) → Keeps names (lost e))
      → Has names x.1
      → Moved names no_lock no_lock x.1 (commit_answered services settings reset retry lost x)
  commit_answered-Moved retry lost c (err e, d) h hl has =
      elim (is_lost e)
        as (λ b. Moved names no_lock no_lock d (if b then lost e d else (err e, d))) [
          | true ↦ hl e d has
          | false ↦ Moved-err names no_lock no_lock e d d
        ]
  commit_answered-Moved retry lost c (ok response, d) h hl has =
      Keeps-then names (handle_responses services settings reset (λ e. e) none response)
        (commit_rest services settings reset retry) (Keeps-handle_responses response)
        (Keeps-commit_rest retry h) d has

  -- The call of the offset manager changes neither partitions nor locks.
  commit_to-Keeps :
      (group : List ℕ) (reqs : List PartitionOffsetCommitRequest) (c : Consumer C)
      → Has names c
      → Has names (commit_to services settings reset group reqs c).1
        × ((id : ℤ) → held id (commit_to services settings reset group reqs c).1 ≡ held id c)
  commit_to-Keeps group reqs c has = by_manager (manager_of c).0
    where
      by_manager :
          (r : Result ℕ)
          → Has names
              (go_on
                (r, c)
                (λ manager. call_cluster (
                  services.commit_consumer_group_offsets manager group
                    (pos 1)
                    (codes "pykafka")
                    reqs))).1
            × ((id : ℤ)
                → held id
                    (go_on
                      (r, c)
                      (λ manager. call_cluster (
                        services.commit_consumer_group_offsets manager group
                          (pos 1)
                          (codes "pykafka")
                          reqs))).1
                  ≡ held id c)
      by_manager (ok m) = (has, λ id. refl)
      by_manager (err e) = (has, λ id. refl)

  Keeps-commit_tries :
      (n : ℕ) (group : List ℕ) (reqs : List PartitionOffsetCommitRequest)
      → Keeps names (commit_tries services settings reset n group reqs)
  unfolding commit_tries
  Keeps-commit_tries zero group reqs c has = Keeps-pure names (ok tt) c has
  Keeps-commit_tries (suc left) group reqs c has =
      let asked = commit_to services settings reset group reqs c in
      let (has', same) = commit_to-Keeps group reqs c has in
      let retry : List PartitionOffsetCommitRequest → Action (Consumer C) (Unit {0}) =
        λ reqs'. commit_tries services settings reset left group reqs' in
      let lost : Error → Action (Consumer C) (Unit {0}) = λ e. unless_last left e (
        update_consumer services settings
        >> (λ c'. commit_tries services settings reset left group reqs c')) in
      let m =
        commit_answered-Moved retry lost c asked (λ reqs'. Keeps-commit_tries left group reqs')
          (λ e.
            Keeps-unless_last left e
              (update_consumer services settings
                >> (λ c'. commit_tries services settings reset left group reqs c'))
              (Keeps-then names (update_consumer services settings)
                (λ _ c'. commit_tries services settings reset left group reqs c')
                (Keeps-update_consumer names services settings reset)
                (λ _ c' h. Keeps-commit_tries left group reqs c' h)))
          has' in
      record {
        moved = λ u done. (let (h, s) = m.moved u done in (h, λ id. omega (arith, s id, same id)));
      }

  Keeps-commit_group :
      (group : Option (List ℕ)) → Keeps names (commit_group services settings reset group)
  Keeps-commit_group none c has = Keeps-pure names (err exception) c has
  Keeps-commit_group (some []) c has = Keeps-pure names (err exception) c has
  Keeps-commit_group (some (ch ∷ group)) c has =
      let reqs =
        map (λ (p : ℤ × OwnedPartition). build_offset_commit_request (services.time c.cluster) p.1)
          c.partitions in
      let tries = commit_tries services settings reset settings.offsets_commit_max_retries in
      Moved-then names no_lock no_lock c (manager_of c) (λ m. tries (ch ∷ group) reqs)
        (Moved-ok names (manager_of c).0 c c has (λ id. refl))
        (λ m ran has'.
          Keeps-commit_tries settings.offsets_commit_max_retries (ch ∷ group) reqs c has')
        (λ id. refl)

  pub Keeps-commit_offsets : Keeps names (commit_offsets services settings reset)
  unfolding commit_offsets
  Keeps-commit_offsets = Keeps-commit_group settings.consumer_group
