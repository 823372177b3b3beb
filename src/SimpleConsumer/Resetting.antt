-- ===== src/SimpleConsumer/Resetting.antt =====
-- reset_offsets releases the locks that it acquires.
use pykafka.Prelude.{
  sym, ap, ◌∙◌, ◌≡◌, refl, ℕ, ℤ, pos, ◌-ℤ◌, Option, arith, none, some, List, [], ◌∷◌, map, eq_ℤ,
  total, total_none,
}
use pykafka.Prelude.{◌≤◌}
use pykafka.Result.{Result, ok, err, key_error, attribute_error}
use pykafka.Action.{go_on, change, for_each}
use pykafka.Dict.{Dict, lookup, int_eq, text_eq}
use pykafka.ErrorHandlers.{Part}
use pykafka.SimpleConsumer.{OwnedPartition, set_offset, flush}
use pykafka.SimpleConsumer.Consumer.{
  Services, Settings, Limits, owned_parts, at_partition, acquire_lock, release_lock, leader_eq,
}
use pykafka.SimpleConsumer.Offsets.{errored, log_errors}
use pykafka.SimpleConsumer.Held.{one, times}
use pykafka.SimpleConsumer.Moved.{
  name_at, name_of-put, no_lock, Moved, Moves, Keeps, Moved-then, Moved-same, Moved-err, Moved-ok,
  Keeps-pure, Moves-each, at_partition-Has, release_lock-Moves,
}
use pykafka.SimpleConsumer.Grouped.{own, own_part, owned_parts-total}
use pykafka.SimpleConsumer.Parts.{keys, flush-partition_id, set_offset-partition_id}
use pykafka.SimpleConsumer.Committing.{Keeps-log_errors}
use pykafka.SimpleConsumer.Reset.{
  put_partition, flush_known, lock_and_flush, set_reset, reset_one, handle_reset, release_failed,
  unless_all,
}
use pykafka.Protocol.Response.{Text}
use pykafka.Protocol.Offset.{PartitionOffsetRequest}

-- Each broker that is asked for the offset limits of partitions, none of them twice, answers each of them
-- once and no others.
abbrev pub IsAnswering : {C : Type 0} → Services C → Type 0
IsAnswering {C = C} services =
    (broker : ℕ) (reqs : List PartitionOffsetRequest) (cluster : C)
    (response : Dict Text (Dict ℤ Limits))
    → ((id : ℤ) → times id (map (λ r. r.partition_id) reqs) ≤ 1)
    → (services.request_offset_limits broker reqs cluster).0 ≡ ok response
    → (id : ℤ)
    → total (λ t. times id (keys t.1)) response ≡ times id (map (λ r. r.partition_id) reqs)

-- What counts where a partition is known.
abbrev pub known_as : Option ℤ → ℕ → ℕ
known_as none n = 0
known_as (some name) n = n

module _ (names : ℤ → Option ℤ) where
  -- The locks of the partitions that are known.
  abbrev pub known : ℤ → ℤ → ℕ
  known id k = known_as (names k) (one (eq_ℤ k id))

  abbrev pub known_locks : List (ℤ × ℤ) → ℤ → ℕ
  known_locks pairs id = total (λ p. known id p.0) pairs

module _ {C : Type 0} (names : ℤ → Option ℤ) where
  -- A partition that is not known is an AttributeError.
  pub lock_and_flush-Moves :
      (pair : ℤ × ℤ)
      → Moves {C = C} names (λ id. known names id pair.0) no_lock (lock_and_flush pair)
  unfolding lock_and_flush
  lock_and_flush-Moves (k, offset) c has = by_lookup (lookup k c.partitions) refl
    where
      by_flush :
          (p : OwnedPartition) (r : Result OwnedPartition)
          → flush p ≡ r
          → lookup k c.partitions ≡ some p
          → Moved names (λ id. known names id k) no_lock c (put_partition k r (acquire_lock k c))
      by_flush p (err e) f l =
          Moved-err names (λ id. known names id k) no_lock e c (acquire_lock k c)
      by_flush p (ok q) f l =
          (let is_known : names k ≡ some p.partition_id = sym (has k) ∙ ap name_at l in
            record {
              moved = λ u done. (
                λ id. name_of-put id k p q c.partitions l (flush-partition_id p q f) ∙ has id,
                λ id.
                    (let n : known names id k ≡ one (eq_ℤ k id) =
                        ap (λ (o : Option ℤ). known_as o (one (eq_ℤ k id))) is_known in
                      omega (arith, n)),
              );
            })

      by_lookup :
          (o : Option OwnedPartition)
          → lookup k c.partitions ≡ o
          → Moved names (λ id. known names id k) no_lock c (flush_known k o (acquire_lock k c))
      by_lookup none l =
          Moved-err names (λ id. known names id k) no_lock attribute_error c (acquire_lock k c)
      by_lookup (some p) l = by_flush p (flush p) refl l

  Keeps-set_reset :
      (k : ℤ) (offsets : Dict ℤ ℤ) (zs : List ℤ) → Keeps {C = C} names (set_reset k offsets zs)
  Keeps-set_reset k offsets (z ∷ zs) c has =
      Moved-ok names (ok tt) c (at_partition k (set_offset (z -ℤ pos 1)) c)
        (at_partition-Has names k (set_offset (z -ℤ pos 1)) c (set_offset-partition_id (z -ℤ pos 1))
          has)
        (λ id. refl)
  Keeps-set_reset k offsets [] c has =
      let found = elim (lookup k offsets) as (λ _. Result ℤ) [
        | none ↦ err key_error
        | some z ↦ ok z
      ] in
      Moved-then names no_lock no_lock c (found, c) (λ z. change (at_partition k (set_offset z)))
        (Keeps-pure names found c has)
        (λ z ran has'.
          Moved-ok names (ok tt) c (at_partition k (set_offset z) c)
            (at_partition-Has names k (set_offset z) c (set_offset-partition_id z) has')
            (λ id. refl))
        (λ id. refl)

  reset_one-Moves :
      (offsets : Dict ℤ ℤ) (part : Part ℤ Limits)
      → Moves {C = C} names no_lock (λ id. own id part.0) (reset_one offsets part)
  reset_one-Moves offsets (none, ([], error)) c has =
      Moved-err names no_lock (λ id. own id none) key_error c c
  reset_one-Moves offsets (none, (z ∷ zs, error)) c has =
      Moved-err names no_lock (λ id. own id none) attribute_error c c
  reset_one-Moves offsets (some k, (zs, error)) c has =
      Moved-then names no_lock (λ id. own id (some k)) c (set_reset k offsets zs c)
        (λ _. release_lock k) (Keeps-set_reset k offsets zs c has)
        (λ u ran has'. release_lock-Moves names k (set_reset k offsets zs c).1 has')
        (λ id. omega arith)

  pub handle_reset-Moves :
      (offsets : Dict ℤ ℤ) (parts : List (Part ℤ Limits))
      → Moves {C = C} names no_lock (λ id. total (own_part id) parts) (handle_reset offsets parts)
  unfolding handle_reset
  handle_reset-Moves offsets parts c has =
      Moved-same names no_lock (λ id. total (own_part id) parts) c
        (for_each (reset_one offsets) parts c)
        (Moves-each names (λ _. no_lock) (λ p id. own id p.0) (reset_one offsets)
          (reset_one-Moves offsets) parts c has)
        (λ id. omega (arith, total_none parts))

  release_failed-Moved :
      (g : Dict ℤ (List (Part ℤ Limits))) (r : Result (List (ℤ × Limits)))
      → owned_parts (errored g) ≡ r
      → Moves {C = C} names no_lock
          (λ id. total (own_part id) (errored g))
          (λ c. go_on (r, c) (λ parts. for_each (λ p. release_lock p.0) parts))
  release_failed-Moved g (err e) owned c has =
      Moved-err names no_lock (λ id. total (own_part id) (errored g)) e c c
  release_failed-Moved g (ok parts) owned c has =
      Moved-same names no_lock (λ id. total (own_part id) (errored g)) c
        (for_each (λ p. release_lock p.0) parts c)
        (Moves-each names (λ _. no_lock) (λ p id. one (eq_ℤ p.0 id)) (λ p. release_lock p.0)
          (λ p. release_lock-Moves names p.0) parts c has)
        (λ id. omega (arith, total_none parts, owned_parts-total id (errored g) parts owned))

  -- The locks of the parts that errored are released, and only these.
  pub unless_all-Moves :
      (services : Services C) (settings : Settings) (g : Dict ℤ (List (Part ℤ Limits)))
      → Moves names no_lock (λ id. total (own_part id) (errored g)) (unless_all services settings g)
  unless_all-Moves services settings [] c has = Keeps-pure names (ok tt) c has
  unless_all-Moves services settings (p ∷ ps) c has =
      let g : Dict ℤ (List (Part ℤ Limits)) = p ∷ ps in
      let frees : ℤ → ℕ = λ id. total (own_part id) (errored g) in
      Moved-then names no_lock frees c (log_errors g c) (λ _. release_failed services settings g)
        (Keeps-log_errors names g c has)
        (λ u ran has'.
          release_failed-Moved g (owned_parts (errored g)) refl (log_errors g c).1 has')
        (λ id. omega arith)
