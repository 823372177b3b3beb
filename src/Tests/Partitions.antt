-- ===== src/Tests/Partitions.antt =====
-- The theorems on partitions and their errors, on concrete ones.
use pykafka.Topic.Offsets.{Limits, fetch_offset_limits}
use pykafka.Topic.Asked.{limiting, limit_of}
use pykafka.Topic.Limited.{fetch_offset_limits_lem}
use pykafka.Dict.Keys.{IsKeyset}
use pykafka.Prelude.{ℕ, ℤ, pos, negsuc, ◌<◌, ◌≡◌, arith, ◌⊎◌, [], ◌∷◌, some, eq_ℤ_iff}
use pykafka.Result.{Error, ok, err, leader_not_available}
use pykafka.Dict.{Dict, lookup, get_default, int_eq}
use pykafka.Protocol.Header.{codes}
use pykafka.Protocol.Response.{Text}
use pykafka.Protocol.Response.Brokers.{PartitionMetadata}
use pykafka.ErrorHandlers.{build_parts_by_error, owned_partition}
use pykafka.ErrorHandlers.Groups.{build_parts_by_error_lem}
use pykafka.Partition.{Partition, update, broker_at, brokers_at}
use pykafka.Partition.Updated.{IsKeyed, IsCurrent, update_lem}
use pykafka.Topic.{
  update_topic, update_all, keep_on, update_one, add_or_update, add_new, new_partition, remove_old,
}
use pykafka.Topic.Updated.{IsListed, update_topic_lem}
use pykafka.Prelude.{All, refl}
use pykafka.Partitioners.{hashing_partitioner}
use pykafka.Partitioners.Chosen.{IsOrder, rank, hashing_partitioner_lem}
use pykafka.Result.{type_error}
use pykafka.Prelude.{Bool, ltb, ◌%◌}
use pykafka.Prelude.{none}

abbrev before : ℕ → ℕ → Bool
before p q = ltb p q

before-IsOrder : IsOrder before
before-IsOrder = record {
  irreflexive = λ p. ground arith;
  transitive = λ p q r h k. ground arith;
  total_order = λ p q ne h. ground arith;
}

hashing_partitioner_lem_example :
    ((p : ℕ) × (hashing_partitioner (some before) (λ (k : ℤ). k) (3 ∷ 1 ∷ 2 ∷ []) (some (negsuc 4))
        ≡ ok p)
      × (rank before p (3 ∷ 1 ∷ 2 ∷ []) ≡ 5 % 3)
      × (p < 4))
    × (hashing_partitioner {P = ℕ} none (λ (k : ℤ). k) (3 ∷ 1 ∷ 2 ∷ []) (some (negsuc 4))
        ≡ err type_error)
hashing_partitioner_lem_example =
    hashing_partitioner_lem before (λ (k : ℤ). k) (negsuc 4) (3 ∷ 1 ∷ 2 ∷ []) (λ p. p < 4)
      before-IsOrder (omega arith)
      (
        (λ e. omega (arith, e), (λ e. omega (arith, e), tt)),
        ((λ e. omega (arith, e), tt), (tt, tt)),
      )
      (omega arith, (omega arith, (omega arith, tt)))

abbrev test_topics : Dict Text (Dict ℤ ℤ)
test_topics =
    (some (codes "a"), (pos 0, pos 3) ∷ (pos 1, pos 0) ∷ [])
    ∷ (some (codes "b"), (pos 0, pos 3) ∷ [])
    ∷ []

abbrev owned : Dict ℤ ℕ
owned = (pos 0, 7) ∷ []

build_parts_by_error_lem_example :
    get_default [] (pos 3) (build_parts_by_error (λ (r : ℤ). r) test_topics (some owned))
    ≡ (some 7, pos 3) ∷ (some 7, pos 3) ∷ []
unfolding lookup owned_partition
build_parts_by_error_lem_example =
    build_parts_by_error_lem (λ (r : ℤ). r) (pos 3) test_topics (some owned)

-- Two brokers, each of them its id.
abbrev test_brokers : Dict ℤ ℤ
test_brokers = (pos 0, pos 0) ∷ (pos 1, pos 1) ∷ []

test_IsKeyed : IsKeyed (λ b. b) test_brokers
test_IsKeyed = record {
  keyed = unfold lookup in λ b broker h. ground (arith, eq_ℤ_iff (pos 0) b, eq_ℤ_iff (pos 1) b);
}

abbrev test_metadata : PartitionMetadata
test_metadata = record {
  id = pos 0;
  leader = pos 1;
  replicas = pos 1 ∷ pos 0 ∷ [];
  isr = pos 1 ∷ [];
  error = pos 0;
}

abbrev test_partition : Partition ℤ
test_partition = record { id = pos 0; leader = pos 0; replicas = pos 0 ∷ pos 1 ∷ []; isr = [] }

update_lem_example :
    ((update (λ b. b) test_brokers test_metadata test_partition).0 ≡ ok tt)
      × IsCurrent
          (λ b. b)
          test_brokers
          test_metadata
          (update (λ b. b) test_brokers test_metadata test_partition).1
    ⊎ ((update (λ b. b) test_brokers test_metadata test_partition).0 ≡ err leader_not_available)
      × ((e : Error) × ((broker_at (λ b. b) test_brokers (pos 1) ≡ err e)
            ⊎ ((brokers_at (λ b. b) test_brokers (pos 1 ∷ pos 0 ∷ []) ≡ err e)
                ⊎ (brokers_at (λ b. b) test_brokers (pos 1 ∷ []) ≡ err e))))
update_lem_example = update_lem (λ b. b) test_brokers test_metadata test_partition test_IsKeyed

-- The topic has a partition 5 that the metadata does not name, and learns of partition 0.
abbrev old_partitions : Dict ℤ (Partition ℤ)
old_partitions = (pos 5, test_partition) ∷ []

abbrev test_metas : Dict ℤ PartitionMetadata
test_metas = (pos 0, test_metadata) ∷ []

went_through : (update_topic (λ b. b) test_brokers test_metas old_partitions).0 ≡ ok tt
unfolding update_topic update_all keep_on update_one add_or_update add_new new_partition broker_at
    brokers_at remove_old lookup
went_through = refl

update_topic_lem_example :
    All
      (λ m.
        IsListed
          (λ b. b)
          test_brokers
          m.1
          (update_topic (λ b. b) test_brokers test_metas old_partitions).1)
      test_metas
    × ((id : ℤ)
        → lookup id test_metas ≡ none
        → lookup id (update_topic (λ b. b) test_brokers test_metas old_partitions).1 ≡ none)
update_topic_lem_example =
    update_topic_lem (λ b. b) test_brokers test_metas old_partitions test_IsKeyed (refl, (tt, tt))
      went_through

-- Two partitions with leaders 1 and 2, which are their names here.
abbrev led : Dict ℤ (Partition ℤ)
led =
    (pos 0, record { id = pos 0; leader = pos 1; replicas = []; isr = [] })
    ∷ (pos 5, record { id = pos 5; leader = pos 2; replicas = []; isr = [] })
    ∷ []

abbrev limit_at : ℤ → ℤ → Limits
limit_at leader id = (leader ∷ id ∷ [], pos 0)

led-IsKeyset : IsKeyset led
led-IsKeyset = ((λ e. absurd cc, tt), (tt, tt))

fetch_offset_limits_lem_example :
    (limits : Dict ℤ Limits) × (fetch_offset_limits
        (limiting limit_at (codes "test"))
        (codes "test")
        led
        (negsuc 0)
        (pos 1)
        tt
      ≡ (ok limits, tt))
    × ((id : ℤ) → lookup id limits ≡ limit_of limit_at id (lookup id led))
fetch_offset_limits_lem_example =
    fetch_offset_limits_lem {S = Unit {0}} limit_at (codes "test") led (negsuc 0) (pos 1) tt
      led-IsKeyset (refl, (refl, tt))
