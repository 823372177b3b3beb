-- ===== src/Protocol/Topics.antt =====
-- The loop that most `get_bytes` of pykafka/protocol.py share: the topics of a request, each with its
-- partitions, and the arrays and strings of the Kafka protocol that it writes.
pub mod Bytes
use pykafka.Prelude.{ℕ, ℤ, pos, ◌+◌, List, [], ◌∷◌, length}
use pykafka.Struct.{Field, int, text, int16, int32, calcsize}
use pykafka.Writer.{Writer, put, advance, ◌>>>◌, for_each}
use pykafka.Prelude.{total}
use pykafka.Dict.{Dict}

-- '!h%dsi' with the name and the number of partitions.
abbrev pub topic_fields : List ℕ → ℕ → List Field
topic_fields name count =
    int int16 (pos (length name)) ∷ text (length name) name ∷ int int32 (pos count) ∷ []

module _ {ℓ} {P : Type ℓ} where
  unfoldable pub write_topic : (P → Writer) → List ℕ × List P → Writer
  write_topic write (name, partitions) =
      put (topic_fields name (length partitions))
      >>> advance (calcsize (topic_fields name (length partitions)))
      >>> for_each partitions write

  unfoldable pub write_topics : (P → Writer) → Dict (List ℕ) (List P) → Writer
  write_topics write reqs = for_each reqs (write_topic write)

  -- The sum that the `__len__` of these requests adds up, over `size += 2 + len(topic) + 4` and what
  -- the partitions take.
  abbrev pub topics_length : (P → ℕ) → Dict (List ℕ) (List P) → ℕ
  topics_length size reqs = total (λ t. 2 + length t.0 + 4 + total size t.1) reqs
