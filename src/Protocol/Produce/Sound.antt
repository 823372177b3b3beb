-- ===== src/Protocol/Produce/Sound.antt =====
-- Requests as `add_message` makes them: what `get_bytes` returns of them, in terms of their messages
-- alone, and that every request that is made so is one of them.
use pykafka.Prelude.{ℕ, ℤ, pos, ◌≤◌, ◌≡◌, sym, ◌∙◌, List, [], ◌∷◌, All}
use pykafka.Result.{Result, ok, ◌>>=◌}
use pykafka.Struct.{int, int16, int32, pack}
use pykafka.Struct.Pack.{cat}
use pykafka.Writer.Writes.{cat_all_cong}
use pykafka.Dict.{Dict, get_default, bytes_eq, int_eq}
use pykafka.Dict.Laws.{All-insert, All-get_default}
use pykafka.Compression.{Codec}
use pykafka.Protocol.Header.Framed.{frame}
use pykafka.Protocol.Topics.Bytes.{array_bytes, topic_bytes}
use pykafka.Protocol.Message.{Message}
use pykafka.Protocol.MessageSet.{MessageSet, message_set, entries_length, append_message}
use pykafka.Protocol.MessageSet.Bytes.{
  entries_bytes, IsCoherent, sent, sent_fails, entries-sent, append_message-IsCoherent,
}
use pykafka.Protocol.Produce.{
  Msets, ProduceRequest, produce_request, mset_of, add_message, produce_get_bytes,
}
use pykafka.Protocol.Produce.Measured.{mset_bytes, IsKnown}
use pykafka.Protocol.Produce.Bytes.{framed_request}

module _ (c : Codec) where
  -- One of the three compressions that the protocol knows, and a kept form that is right.
  pub record IsSoundSet (s : MessageSet) : Type 0 where
    pub known : s.compression_type ≤ 2
    pub coherent : IsCoherent c s

  -- Every partition of a topic, and every partition of a request.
  pub record IsSoundTopic (parts : Dict ℤ MessageSet) : Type 0 where
    pub sets : All (λ p. IsSoundSet p.1) parts

  pub record IsSound (r : ProduceRequest) : Type 0 where
    pub known : r.compression_type ≤ 2
    pub topics : All (λ t. IsSoundTopic t.1) r.msets

  IsSoundSet-IsKnown : (s : MessageSet) → IsSoundSet s → IsKnown c s
  IsSoundSet-IsKnown s h x e =
      sent_fails c s.compression_type s.contents x h.known (sym (entries-sent c s h.coherent) ∙ e)

  -- Partition MessageSetSize MessageSet, from the messages of the set.
  abbrev pub sent_bytes : ℤ × MessageSet → Result (List ℕ)
  sent_bytes p = sent c p.1.compression_type p.1.contents >>= λ ms.
      cat (pack (int int32 p.0 ∷ int int32 (pos (entries_length ms)) ∷ [])) (entries_bytes ms)

  -- RequiredAcks Timeout [TopicName [Partition MessageSetSize MessageSet]]
  abbrev pub sent_body : ProduceRequest → Result (List ℕ)
  sent_body r =
      cat (pack (int int16 r.required_acks ∷ int int32 r.timeout ∷ []))
        (array_bytes (topic_bytes sent_bytes) r.msets)

  IsKnown-sets :
      (parts : Dict ℤ MessageSet) → All (λ p. IsSoundSet p.1) parts → All (λ p. IsKnown c p.1) parts
  IsKnown-sets [] h = tt
  IsKnown-sets (p ∷ rest) (s, h) = (IsSoundSet-IsKnown p.1 s, IsKnown-sets rest h)

  IsKnown-topics :
      (msets : Msets)
      → All (λ t. IsSoundTopic t.1) msets
      → All (λ t. All (λ p. IsKnown c p.1) t.1) msets
  IsKnown-topics [] h = tt
  IsKnown-topics (t ∷ rest) (s, h) = (IsKnown-sets t.1 s.sets, IsKnown-topics rest h)

  same_sets :
      (parts : Dict ℤ MessageSet)
      → All (λ p. IsSoundSet p.1) parts
      → All (λ p. mset_bytes c p ≡ sent_bytes p) parts
  same_sets [] h = tt
  same_sets (p ∷ rest) (s, h) = (rw (entries-sent c p.1 s.coherent), same_sets rest h)

  same_topics :
      (msets : Msets)
      → All (λ t. IsSoundTopic t.1) msets
      → All (λ t. topic_bytes (mset_bytes c) t ≡ topic_bytes sent_bytes t) msets
  same_topics [] h = tt
  same_topics (t ∷ rest) (s, h) =
      (rw (cat_all_cong (mset_bytes c) sent_bytes t.1 (same_sets t.1 s.sets)), same_topics rest h)

  -- Of a sound request, ProduceRequest.get_bytes returns the frame of API key 0 around the body of the
  -- docstring's grammar, each set compressed from the messages that it holds, or raises
  -- `struct.error` exactly where a part of that does not fit its format.
  pub produce_get_bytes_lem :
      (r : ProduceRequest)
      → IsSound r
      → (produce_get_bytes c r >>= λ p. ok p.0) ≡ frame (pos 0) (pos 0) (sent_body r)
  produce_get_bytes_lem r h =
      framed_request c r (IsKnown-topics r.msets h.topics)
      ∙ rw (cat_all_cong _ _ r.msets (same_topics r.msets h.topics))

  -- A new request is sound if its compression is one that the protocol knows.
  pub produce_request-IsSound :
      (compression_type : ℕ) (required_acks timeout : ℤ)
      → compression_type ≤ 2
      → IsSound (produce_request compression_type required_acks timeout)
  produce_request-IsSound compression_type required_acks timeout h = record {
    known = h;
    topics = tt;
  }

  append_message-IsSoundSet :
      (m : Message) (s : MessageSet) → IsSoundSet s → IsSoundSet (append_message m s)
  append_message-IsSoundSet m s h = record {
    known = unfold append_message in h.known;
    coherent = append_message-IsCoherent c m s;
  }

  mset_of-IsSoundSet :
      (r : ProduceRequest) (topic : List ℕ) (partition_id : ℤ)
      → IsSound r
      → IsSoundSet (mset_of r topic partition_id)
  mset_of-IsSoundSet r topic partition_id h =
      All-get_default IsSoundSet (message_set r.compression_type []) partition_id
        (get_default [] topic r.msets)
        (record { known = h.known; coherent = record { kept = λ m e. cc } })
        (All-get_default IsSoundTopic [] topic r.msets (record { sets = tt }) h.topics).sets

  -- `add_message` keeps a request sound: the set that it appends to forgets its compressed form.
  pub add_message-IsSound :
      (r : ProduceRequest) (m : Message) (topic : List ℕ) (partition_id : ℤ)
      → IsSound r
      → IsSound (add_message r m topic partition_id)
  unfolding add_message
  add_message-IsSound r m topic partition_id h = record {
    known = h.known;
    topics =
        All-insert IsSoundTopic topic _ r.msets
          (record {
            sets =
                All-insert IsSoundSet partition_id _ (get_default [] topic r.msets)
                  (append_message-IsSoundSet m _ (mset_of-IsSoundSet r topic partition_id h))
                  (All-get_default IsSoundTopic [] topic r.msets (record { sets = tt })
                    h.topics).sets;
          })
          h.topics;
  }
