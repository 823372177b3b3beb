-- ===== src/Protocol/Topics/Bytes.antt =====
-- What the loop over the topics writes, in the grammar of the Kafka protocol.
use pykafka.Prelude.{All, All-every}
use pykafka.Prelude.{ℕ, pos, ◌+◌, ◌*◌, ◌≡◌, refl, arith, List, [], ◌∷◌, ◌++◌, length}
use pykafka.Result.{Result}
use pykafka.Struct.{Field, int, text, int16, int32, pack, calcsize}
use pykafka.Struct.Pack.{cat, cat_assoc, pack-append}
use pykafka.Writer.{Writer}
use pykafka.Writer.Writes.{
  Writes, Writes-put, Writes-then, Writes-for_each-All, Writes-resize, Writes-respec, total_const,
  cat_all,
}
use pykafka.Prelude.{total}
use pykafka.Dict.{Dict}
use pykafka.Protocol.Topics.{topic_fields, write_topic, write_topics, topics_length}

-- string => int16 length, bytes
abbrev pub string_bytes : List ℕ → Result (List ℕ)
string_bytes s = pack (int int16 (pos (length s)) ∷ text (length s) s ∷ [])

-- [item] => int32 count, items
abbrev pub array_bytes {ℓ} : {A : Type ℓ} → (A → Result (List ℕ)) → List A → Result (List ℕ)
array_bytes item xs = cat (pack (int int32 (pos (length xs)) ∷ [])) (cat_all item xs)

-- TopicName [partition]
abbrev pub topic_bytes {ℓ} :
    {P : Type ℓ} → (P → Result (List ℕ)) → List ℕ × List P → Result (List ℕ)
topic_bytes partition t = cat (string_bytes t.0) (array_bytes partition t.1)

-- The number of items packed with the fields in front of it, as the code does, or in front of the items.
pub pack_count :
    (fs : List Field) (count : ℕ) (items : Result (List ℕ))
    → cat (pack (fs ++ int int32 (pos count) ∷ [])) items
      ≡ cat (pack fs) (cat (pack (int int32 (pos count) ∷ [])) items)
pack_count fs count items =
    rw (pack-append fs (int int32 (pos count) ∷ []))
      (cat_assoc (pack fs) (pack (int int32 (pos count) ∷ [])) items)

module _ {ℓ} {P : Type ℓ} (write : P → Writer) (size : P → ℕ) (spec : P → Result (List ℕ)) where
  -- A request of which every partition is written right.
  abbrev pub EveryPartition : Dict (List ℕ) (List P) → Type 0
  EveryPartition reqs = All (λ t. All (λ p. Writes (write p) (size p) (spec p)) t.1) reqs

  pub Writes-topic :
      (t : List ℕ × List P)
      → All (λ p. Writes (write p) (size p) (spec p)) t.1
      → Writes (write_topic write t) (2 + length t.0 + 4 + total size t.1) (topic_bytes spec t)
  unfolding write_topic
  Writes-topic (name, partitions) h =
      let fs = topic_fields name (length partitions) in
      let name_fields : List Field = int int16 (pos (length name)) ∷ text (length name) name ∷ [] in
      Writes-resize (omega arith) (
        Writes-respec (pack_count name_fields (length partitions) (cat_all spec partitions)) (
          Writes-then (Writes-put fs (calcsize fs) refl)
            (Writes-for_each-All write size spec partitions h)))

  every_topic :
      (reqs : Dict (List ℕ) (List P))
      → EveryPartition reqs
      → All
          (λ t.
            Writes (write_topic write t) (2 + length t.0 + 4 + total size t.1) (topic_bytes spec t))
          reqs
  every_topic [] h = tt
  every_topic (t ∷ rest) (ht, h) = (Writes-topic t ht, every_topic rest h)

  pub Writes-topics_All :
      (reqs : Dict (List ℕ) (List P))
      → EveryPartition reqs
      → Writes (write_topics write reqs) (topics_length size reqs) (cat_all (topic_bytes spec) reqs)
  unfolding write_topics
  Writes-topics_All reqs h = Writes-for_each-All _ _ _ reqs (every_topic reqs h)

  pub Writes-topics :
      ((p : P) → Writes (write p) (size p) (spec p))
      → (reqs : Dict (List ℕ) (List P))
      → Writes (write_topics write reqs) (topics_length size reqs) (cat_all (topic_bytes spec) reqs)
  Writes-topics h reqs = Writes-topics_All reqs (All-every (λ t. All-every h t.1) reqs)

-- The same sum where every partition takes `k` bytes.
pub topics_length_const {ℓ} :
    {P : Type ℓ} (k : ℕ) (reqs : Dict (List ℕ) (List P))
    → topics_length (λ _. k) reqs ≡ total (λ t. 2 + length t.0 + 4 + k * length t.1) reqs
topics_length_const k [] = refl
topics_length_const k ((name, parts) ∷ rest) =
    omega (arith, total_const k parts, topics_length_const k rest)
