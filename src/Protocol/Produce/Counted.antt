-- ===== src/Protocol/Produce/Counted.antt =====
-- `message_count` counts the messages of all sets.
use pykafka.Prelude.{
  concat, ℕ, ℤ, ◌≡◌, refl, ◌∙◌, arith, List, [], ◌∷◌, map, length, length-append, total,
}
use pykafka.Dict.{Dict, insert, get_default, bytes_eq, int_eq}
use pykafka.Dict.Laws.{total-insert}
use pykafka.Protocol.Message.{Message}
use pykafka.Protocol.MessageSet.{MessageSet, message_set, append_message}
use pykafka.Protocol.Produce.{
  Msets, ProduceRequest, produce_request, mset_of, add_message, messages,
}

abbrev set_count : MessageSet → ℕ
set_count s = length s.contents

abbrev topic_count : Dict ℤ MessageSet → ℕ
topic_count parts = total (λ p. set_count p.1) parts

length-concat {ℓ} :
    {A B : Type ℓ} (f : A → List B) (xs : List A)
    → length (concat (map f xs)) ≡ total (λ a. length (f a)) xs
length-concat f [] = refl
length-concat f (a ∷ rest) =
    length-append (f a) (concat (map f rest)) ∙ omega (arith, length-concat f rest)

topics_count :
    (msets : Msets)
    → length (concat (map (λ t. concat (map (λ p. p.1.contents) t.1)) msets))
      ≡ total (λ t. topic_count t.1) msets
topics_count [] = refl
topics_count ((name, parts) ∷ rest) =
    length-append (concat (map (λ p. p.1.contents) parts)) _
    ∙ omega (arith, length-concat (λ (p : ℤ × MessageSet). p.1.contents) parts, topics_count rest)

-- `message_count` is the number of messages that the property `messages` iterates over.
pub record IsCounted (r : ProduceRequest) : Type 0 where
  pub counted : length (messages r).0 ≡ r.message_count

pub produce_request-IsCounted :
    (compression_type : ℕ) (required_acks timeout : ℤ)
    → IsCounted (produce_request compression_type required_acks timeout)
unfolding messages
produce_request-IsCounted compression_type required_acks timeout = record { counted = refl }

-- `add_message` adds one message, to one set, and counts it.
pub add_message-IsCounted :
    (r : ProduceRequest) (m : Message) (topic : List ℕ) (partition_id : ℤ)
    → IsCounted r
    → IsCounted (add_message r m topic partition_id)
unfolding add_message messages append_message
add_message-IsCounted r m topic partition_id h =
    let parts : Dict ℤ MessageSet = get_default [] topic r.msets in
    let s : MessageSet = mset_of r topic partition_id in
    let s' : MessageSet = append_message m s in
    let parts' : Dict ℤ MessageSet = insert partition_id s' parts in
    record {
      counted =
          topics_count (insert topic parts' r.msets)
          ∙ omega (
            arith,
            h.counted,
            topics_count r.msets,
            total-insert topic_count topic parts' [] r.msets refl,
            total-insert set_count partition_id s' (message_set r.compression_type []) parts refl,
            length-append s.contents (m ∷ []),
          );
    }
