-- ===== src/Protocol/Produce/Bytes.antt =====
-- ProduceRequest.get_bytes against the grammar in its docstring.
use pykafka.Prelude.{
  ℕ, ℤ, pos, ◌+◌, ◌≡◌, refl, ap, arith, List, [], ◌∷◌, length, All, inl, inr, ◌⊎◌,
}
use pykafka.Result.{Result, Error, ok, err, struct_error, ◌>>=◌}
use pykafka.Struct.{Field, int, int16, int32, pack}
use pykafka.Struct.Pack.{cat, cat-err, pack_fails}
use pykafka.Writer.Writes.{Writes, Writes-put, Writes-then, Writes-respec, cat_all}
use pykafka.Dict.{Dict}
use pykafka.Compression.{Codec}
use pykafka.Protocol.Header.{header_len}
use pykafka.Protocol.Header.Framed.{frame, framed}
use pykafka.Protocol.Topics.{topics_length}
use pykafka.Protocol.Topics.Bytes.{
  string_bytes, array_bytes, topic_bytes, pack_count, Writes-topic, Writes-topics_All,
  EveryPartition,
}
use pykafka.Protocol.MessageSet.{MessageSet}
use pykafka.Protocol.Produce.{
  Msets, ProduceRequest, msets_length, produce_length, write_mset, produce_get_bytes,
}
use pykafka.Protocol.Produce.Measured.{
  mset_bytes, mset_size, IsMeasured, IsKnown, Prepared, Writes-mset, prepare_partitions,
}
use pykafka.Prelude.{suc}

bind_first {ℓ} :
    {A B : Type ℓ} (m : Result A) (b : B)
    → ((m >>= λ a. let q : A × B = (a, b) in ok q) >>= λ p. ok p.0) ≡ m
bind_first (ok a) b = refl
bind_first (err x) b = refl

module _ (c : Codec) where
  -- RequiredAcks Timeout [TopicName [mset]]
  abbrev pub produce_body : ProduceRequest → Result (List ℕ)
  produce_body r =
      cat (pack (int int16 r.required_acks ∷ int int32 r.timeout ∷ []))
        (array_bytes (topic_bytes (mset_bytes c)) r.msets)

  abbrev topics_bytes : Msets → Result (List ℕ)
  topics_bytes msets = cat_all (topic_bytes (mset_bytes c)) msets

  -- What measuring makes of all topics.
  record PreparedTopics (msets : Msets) (n : ℕ) (msets' : Msets) : Type 0 where
    measured : All (λ t. All (λ p. IsMeasured c p.1) t.1) msets'
    counted : n ≡ topics_length (mset_size c) msets'
    same_bytes : topics_bytes msets' ≡ topics_bytes msets
    same_length : length msets' ≡ length msets

  abbrev TopicsOutcome : Msets → Type 0
  TopicsOutcome msets =
      ((n : ℕ) × (msets' : Msets) × (msets_length c msets ≡ ok (n, msets'))
        × PreparedTopics msets n msets')
      ⊎ ((msets_length c msets ≡ err struct_error) × (topics_bytes msets ≡ err struct_error))

  every_mset :
      (parts : Dict ℤ MessageSet)
      → All (λ p. IsMeasured c p.1) parts
      → All (λ p. Writes (write_mset c p) (mset_size c p) (mset_bytes c p)) parts
  every_mset [] h = tt
  every_mset (p ∷ rest) (m, h) = (Writes-mset c p m, every_mset rest h)

  every_topic :
      (msets : Msets)
      → All (λ t. All (λ p. IsMeasured c p.1) t.1) msets
      → EveryPartition (write_mset c) (mset_size c) (mset_bytes c) msets
  every_topic [] h = tt
  every_topic (t ∷ rest) (m, h) = (every_mset t.1 m, every_topic rest h)

  topic_fails :
      (name : List ℕ) (parts parts' : Dict ℤ MessageSet) (n : ℕ)
      → Prepared c parts n parts'
      → (x : Error) → topic_bytes (mset_bytes c) (name, parts) ≡ err x
      → x ≡ struct_error
  topic_fails name parts parts' n p x h =
      let w =
        Writes-topic (write_mset c) (mset_size c) (mset_bytes c) (name, parts')
          (every_mset parts' p.measured) in
      w.fails x (rw (p.same_length, p.same_bytes) h)

  topic_err :
      (name : List ℕ) (parts : Dict ℤ MessageSet)
      → cat_all (mset_bytes c) parts ≡ err struct_error
      → topic_bytes (mset_bytes c) (name, parts) ≡ err struct_error
  topic_err name parts h =
      rw (h, cat-err (pack (int int32 (pos (length parts)) ∷ [])) (pack_fails _))
        (cat-err (string_bytes name) (pack_fails _))

  prepare_topics :
      (msets : Msets) → All (λ t. All (λ p. IsKnown c p.1) t.1) msets → TopicsOutcome msets
  unfolding msets_length
  prepare_topics [] h =
      inl (
        0,
        [],
        refl,
        record { measured = tt; counted = refl; same_bytes = refl; same_length = refl },
      )
  prepare_topics ((name, parts) ∷ rest) (known, h) = elim (prepare_partitions c parts known) [
    | inl (n, parts', e, p) ↦ elim (prepare_topics rest h) [
      | inl (m, rest', eq, q) ↦ inl (
        2 + length name + 4 + n + m,
        (name, parts') ∷ rest',
        rw (e, eq),
        record {
          measured = (p.measured, q.measured);
          counted = omega (arith, p.counted, q.counted);
          same_bytes = rw (p.same_length, p.same_bytes, q.same_bytes);
          same_length = ap suc q.same_length;
        },
      )
      | inr (eq, q) ↦ inr (
        rw (e, eq),
        rw q (
            cat-err (topic_bytes (mset_bytes c) (name, parts)) (topic_fails name parts parts' n p)),
      )
    ]
    | inr (e, q) ↦ inr (rw e, rw (topic_err name parts q))
  ]

  -- Without caches in the way: `get_bytes` returns the frame of the grammar's body, or raises
  -- `struct.error` where that does.
  pub framed_request :
      (r : ProduceRequest)
      → All (λ t. All (λ p. IsKnown c p.1) t.1) r.msets
      → (produce_get_bytes c r >>= λ p. ok p.0) ≡ frame (pos 0) (pos 0) (produce_body r)
  unfolding produce_get_bytes produce_length
  framed_request r h = elim (prepare_topics r.msets h) [
    | inl (n, msets', e, p) ↦
        let front : List Field = int int16 r.required_acks ∷ int int32 r.timeout ∷ [] in
        let written =
          framed
            (Writes-respec (pack_count front (length msets') _) (
              Writes-then (Writes-put _ 10 refl)
                (Writes-topics_All _ _ _ msets' (every_topic msets' p.measured))))
            (header_len + 2 + 4 + 4 + n) (pos 0) (pos 0) (omega (arith, p.counted)) in
        rw (e, written, p.same_length, p.same_bytes) (bind_first _ _)
    | inr (e, q) ↦ rw (
      e,
      q,
      cat-err (pack (int int32 (pos (length r.msets)) ∷ [])) (pack_fails _),
      cat-err (pack (int int16 r.required_acks ∷ int int32 r.timeout ∷ [])) (pack_fails _),
    )
  ]
