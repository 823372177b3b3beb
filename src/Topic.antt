-- ===== src/Topic.antt =====
-- pykafka/topic.py: a topic's partitions, and their update from the metadata of a broker.
pub mod Updated
pub mod Offsets
pub mod Asked
pub mod Limited
use pykafka.Prelude.{ℤ, Option, none, some, List, [], ◌∷◌}
use pykafka.Result.{Result, ok, err, key_error, leader_not_available, ◌>>=◌}
use pykafka.Dict.{Dict, lookup, insert, int_eq}
use pykafka.Protocol.Response.Brokers.{PartitionMetadata}
use pykafka.Partition.{Partition, broker_at, brokers_at, update}

-- `self._partitions.pop(id_)` for each id that the metadata does not name.
unfoldable pub remove_old {ℓ} :
    {B : Type ℓ} → Dict ℤ PartitionMetadata → Dict ℤ (Partition B) → Dict ℤ (Partition B)
remove_old p_metas [] = []
remove_old p_metas ((id, p) ∷ partitions) =
    let rest = remove_old p_metas partitions in
    elim (lookup id p_metas) [ none ↦ rest | some meta ↦ (id, p) ∷ rest ]

module _ {ℓ} {B : Type ℓ} (id_of : B → ℤ) (brokers : Dict ℤ B) where
  abbrev pub Outcome : Type ℓ
  Outcome = Result (Unit {0}) × Dict ℤ (Partition B)

  -- Partition(self, meta.id, brokers[meta.leader], ...), where a KeyError is not caught.
  unfoldable pub new_partition : PartitionMetadata → Result (Partition B)
  new_partition meta = do
    leader ← broker_at id_of brokers meta.leader
    replicas ← brokers_at id_of brokers meta.replicas
    isr ← brokers_at id_of brokers meta.isr
    ok (record { id = meta.id; leader = leader; replicas = replicas; isr = isr })

  -- self._partitions[meta.id] = ...
  unfoldable pub add_new : ℤ → Result (Partition B) → Dict ℤ (Partition B) → Outcome
  add_new id (err e) partitions = (err e, partitions)
  add_new id (ok p) partitions = (ok tt, insert id p partitions)

  -- self._partitions[id_].update(brokers, meta)
  unfoldable pub update_old :
      ℤ → PartitionMetadata → Option (Partition B) → Dict ℤ (Partition B) → Outcome
  update_old id meta none partitions = (err key_error, partitions)
  update_old id meta (some p) partitions =
      ((update id_of brokers meta p).0, insert id (update id_of brokers meta p).1 partitions)

  -- `if meta.id not in self._partitions: ... else: ...`
  unfoldable pub add_or_update :
      ℤ → PartitionMetadata → Option (Partition B) → Dict ℤ (Partition B) → Outcome
  add_or_update id meta none partitions = add_new meta.id (new_partition meta) partitions
  add_or_update id meta (some p) partitions = update_old id meta (lookup id partitions) partitions

  -- One round of the loop.
  unfoldable pub update_one : ℤ → PartitionMetadata → Option B → Dict ℤ (Partition B) → Outcome
  update_one id meta none partitions = (err leader_not_available, partitions)
  update_one id meta (some leader) partitions =
      add_or_update id meta (lookup meta.id partitions) partitions

  -- The loop, which an exception ends.
  unfoldable pub keep_on : Outcome → ℤ × PartitionMetadata → Outcome
  keep_on (err e, partitions) (id, meta) = (err e, partitions)
  keep_on (ok u, partitions) (id, meta) = update_one id meta (lookup meta.leader brokers) partitions

  unfoldable pub update_all : Dict ℤ PartitionMetadata → Outcome → Outcome
  update_all [] o = o
  update_all (m ∷ p_metas) o = update_all p_metas (keep_on o m)

  -- update: what it raises, and the partitions after it.
  unfoldable pub update_topic : Dict ℤ PartitionMetadata → Dict ℤ (Partition B) → Outcome
  update_topic p_metas partitions = update_all p_metas (ok tt, remove_old p_metas partitions)
