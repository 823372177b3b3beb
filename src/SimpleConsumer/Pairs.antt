-- ===== src/SimpleConsumer/Pairs.antt =====
-- pykafka/simpleconsumer.py: the dict `owned_partition_offsets` of reset_offsets, by the partitions' ids.
use pykafka.Prelude.{ℤ, pos, Option, none, some, List, [], ◌∷◌, eq_ℤ, ltb_ℤ, if◌then◌else◌}
use pykafka.Result.{Result, ok, err, key_error, kafka_exception, ◌>>=◌}
use pykafka.Dict.{Dict, lookup, insert, int_eq}
use pykafka.Sorted.{sorted}
use pykafka.SimpleConsumer.{OwnedPartition}

-- {self._partitions[p]: offset for p, offset in partition_offsets}
abbrev pub add_owned : Dict ℤ ℤ → ℤ → ℤ → Option OwnedPartition → Result (Dict ℤ ℤ)
add_owned d id offset none = err kafka_exception
add_owned d id offset (some p) = ok (insert id offset d)

unfoldable pub owned_offsets : Dict ℤ OwnedPartition → List (ℤ × ℤ) → Dict ℤ ℤ → Result (Dict ℤ ℤ)
owned_offsets partitions [] d = ok d
owned_offsets partitions ((id, offset) ∷ pairs) d =
    add_owned d id offset (lookup id partitions) >>= λ d'. owned_offsets partitions pairs d'

-- owned_partition_offsets.pop
unfoldable pub pop : ℤ → Dict ℤ ℤ → Result (Dict ℤ ℤ)
pop id [] = err key_error
pop id ((j, offset) ∷ d) =
    let rest = pop id d >>= λ d'. ok ((j, offset) ∷ d') in if eq_ℤ j id then ok d else rest

unfoldable pub pop_each : List ℤ → Dict ℤ ℤ → Result (Dict ℤ ℤ)
pop_each [] d = ok d
pop_each (id ∷ ids) d = pop id d >>= λ d'. pop_each ids d'

-- sorted(..., key=lambda k: k[0].partition.id)
abbrev pub sorted_offsets : Dict ℤ ℤ → Dict ℤ ℤ
sorted_offsets d = sorted (λ p q. ltb_ℤ p.0 q.0) d

-- The groups that are left when that of 0 is popped.
abbrev pub failed {ℓ} : {P : Type ℓ} → Dict ℤ P → Dict ℤ P
failed [] = []
failed ((code, parts) ∷ d) =
    let rest = failed d in if eq_ℤ code (pos 0) then rest else (code, parts) ∷ rest
