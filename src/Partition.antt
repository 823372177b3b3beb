-- ===== src/Partition.antt =====
-- pykafka/partition.py: a partition, and its update from the metadata of a broker.
pub mod Updated
use pykafka.Prelude.{
  ℕ, ℤ, Bool, true, false, not, ◌||◌, Option, none, some, List, [], ◌∷◌, map, eq_ℤ, ltb_ℤ,
  if◌then◌else◌,
}
use pykafka.Sorted.{sorted}
use pykafka.Result.{Result, ok, err, key_error, leader_not_available, ◌>>=◌}
use pykafka.Dict.{Dict, lookup, int_eq}
use pykafka.Protocol.Response.Brokers.{PartitionMetadata}

-- `topic`, a weak reference, is left out; `B` is Broker.
pub record Partition {ℓ} (B : Type ℓ) : Type ℓ where
  pub id : ℤ
  pub leader : B
  pub replicas : List B
  pub isr : List B

abbrev pub ids_eq : List ℤ → List ℤ → Bool
ids_eq [] [] = true
ids_eq (x ∷ xs) (y ∷ ys) = if eq_ℤ x y then ids_eq xs ys else false
ids_eq _ _ = false

abbrev pub sorted_ids : List ℤ → List ℤ
sorted_ids ids = sorted (λ a b. not (ltb_ℤ b a)) ids

module _ {ℓ} {B : Type ℓ} (id_of : B → ℤ) (brokers : Dict ℤ B) where
  -- brokers[b]
  unfoldable pub broker_at : ℤ → Result B
  broker_at b = elim (lookup b brokers) [ none ↦ err key_error | some broker ↦ ok broker ]

  -- [brokers[b] for b in ids]
  unfoldable pub brokers_at : List ℤ → Result (List B)
  brokers_at [] = ok []
  brokers_at (b ∷ ids) = do broker ← broker_at b; rest ← brokers_at ids; ok (broker ∷ rest)

  -- `if sorted(r.id for r in old) != sorted(ids): old = [brokers[b] for b in ids]`
  unfoldable pub refresh : List B → List ℤ → Result (List B)
  refresh old ids =
      if ids_eq (sorted_ids (map id_of old)) (sorted_ids ids) then ok old else brokers_at ids

  -- The assignments of `update`, each with what follows it. A KeyError becomes LeaderNotAvailable, and
  -- what was assigned before it stays.
  unfoldable pub set_isr : Partition B → Result (List B) → Result (Unit {0}) × Partition B
  set_isr p (err e) = (err leader_not_available, p)
  set_isr p (ok isr) = (ok tt, record p { isr = isr })

  unfoldable pub set_replicas :
      PartitionMetadata → Partition B → Result (List B) → Result (Unit {0}) × Partition B
  set_replicas metadata p (err e) = (err leader_not_available, p)
  set_replicas metadata p (ok replicas) =
      set_isr (record p { replicas = replicas }) (refresh p.isr metadata.isr)

  unfoldable pub set_leader :
      PartitionMetadata → Partition B → Result B → Result (Unit {0}) × Partition B
  set_leader metadata p (err e) = (err leader_not_available, p)
  set_leader metadata p (ok leader) =
      set_replicas metadata (record p { leader = leader }) (refresh p.replicas metadata.replicas)

  -- update: what it raises, and the partition after it.
  unfoldable pub update : PartitionMetadata → Partition B → Result (Unit {0}) × Partition B
  update metadata p = set_leader metadata p (broker_at metadata.leader)
