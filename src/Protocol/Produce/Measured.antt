-- ===== src/Protocol/Produce/Measured.antt =====
-- The sets of a ProduceRequest once `len` has been taken of them: what they write, and its size.
use pykafka.Prelude.{ℕ, ℤ, pos, ◌+◌, ◌≡◌, refl, ap, arith, List, [], ◌∷◌, length, All, inl, inr}
use pykafka.Result.{Result, Error, ok, err, ◌>>=◌, Result-cases}
use pykafka.Struct.{int, int32, pack}
use pykafka.Struct.Pack.{cat, cat-err, cat_fails, pack_fails}
use pykafka.Writer.{put, advance, call, ◌>>>◌}
use pykafka.Writer.Writes.{Writes, Writes-put, Writes-then, Writes-call}
use pykafka.Prelude.{total}
use pykafka.Dict.{Dict}
use pykafka.Compression.{Codec}
use pykafka.Protocol.Message.{Message}
use pykafka.Protocol.MessageSet.{
  MessageSet, entries_length, write_entries, entries, message_set_length, pack_message_set,
}
use pykafka.Protocol.MessageSet.Bytes.{entries_bytes, Writes-entries, entries_again}
use pykafka.Protocol.Produce.{partitions_length, write_mset}
use pykafka.Prelude.{fun_ext}
use pykafka.Writer.Writes.{cat_all}
use pykafka.Result.{struct_error}
use pykafka.Prelude.{◌⊎◌}
use pykafka.Prelude.{suc}

abbrev pub entries_size : Result (List Message) → ℕ
entries_size (ok ms) = 8 + entries_length ms
entries_size (err x) = 0

module _ (c : Codec) where
  -- The messages that a set sends, and its bytes with its number and its size in front.
  abbrev pub mset_entries : MessageSet → Result (List Message)
  mset_entries s = entries c s >>= λ p. ok p.0

  -- Partition MessageSetSize MessageSet
  abbrev pub mset_bytes : ℤ × MessageSet → Result (List ℕ)
  mset_bytes p = mset_entries p.1 >>= λ ms.
      cat (pack (int int32 p.0 ∷ int int32 (pos (entries_length ms)) ∷ [])) (entries_bytes ms)

  abbrev pub mset_size : ℤ × MessageSet → ℕ
  mset_size p = entries_size (mset_entries p.1)

  -- A set that has been measured.
  abbrev pub IsMeasured : MessageSet → Type 0
  IsMeasured s = (ms : List Message) × (entries c s ≡ ok (ms, s))

  pack_measured :
      (s : MessageSet) (ms : List Message)
      → entries c s ≡ ok (ms, s)
      → pack_message_set c s ≡ write_entries ms
  unfolding pack_message_set
  pack_measured s ms e = fun_ext (λ cursor. rw e)

  write_measured :
      (partition_id : ℤ) (s : MessageSet) (ms : List Message)
      → entries c s ≡ ok (ms, s)
      → write_mset c (partition_id, s) ≡ (
          put (int int32 partition_id ∷ int int32 (pos (entries_length ms)) ∷ [])
          >>> advance 8
          >>> (call (write_entries ms) >>> advance (entries_length ms)))
  unfolding write_mset message_set_length
  write_measured partition_id s ms e = fun_ext (λ cursor. rw (e, pack_measured s ms e))

  pub Writes-mset :
      (p : ℤ × MessageSet) → IsMeasured p.1 → Writes (write_mset c p) (mset_size p) (mset_bytes p)
  Writes-mset (partition_id, s) (ms, e) =
      rw (write_measured partition_id s ms e, e)
        (Writes-then (Writes-put _ 8 refl) (Writes-call (Writes-entries ms)))

  -- Measuring the set raises nothing but `struct.error`.
  abbrev pub IsKnown : MessageSet → Type 0
  IsKnown s = (x : Error) → mset_entries s ≡ err x → x ≡ struct_error

  -- What measuring makes of the partitions of a topic.
  pub record Prepared (parts : Dict ℤ MessageSet) (n : ℕ) (parts' : Dict ℤ MessageSet)
      : Type 0 where
    pub measured : All (λ p. IsMeasured p.1) parts'
    pub counted : n ≡ total mset_size parts'
    pub same_bytes : cat_all mset_bytes parts' ≡ cat_all mset_bytes parts
    pub same_length : length parts' ≡ length parts

  -- Either the partitions are measured, or measuring fails, and then there are no bytes either.
  abbrev pub PartitionsOutcome : Dict ℤ MessageSet → Type 0
  PartitionsOutcome parts =
      ((n : ℕ) × (parts' : Dict ℤ MessageSet) × (partitions_length c parts ≡ ok (n, parts'))
        × Prepared parts n parts')
      ⊎ ((partitions_length c parts ≡ err struct_error)
          × (cat_all mset_bytes parts ≡ err struct_error))

  mset_bytes_fails :
      (p : ℤ × MessageSet) (ms : List Message)
      → mset_entries p.1 ≡ ok ms
      → (x : Error) → mset_bytes p ≡ err x
      → x ≡ struct_error
  mset_bytes_fails p ms e x h =
      let fields = int int32 p.0 ∷ int int32 (pos (entries_length ms)) ∷ [] in
      cat_fails (pack fields) (entries_bytes ms) (pack_fails fields) (Writes-entries ms).fails x
        (rw e at h)

  pub prepare_partitions :
      (parts : Dict ℤ MessageSet) → All (λ p. IsKnown p.1) parts → PartitionsOutcome parts
  unfolding partitions_length message_set_length
  prepare_partitions [] h =
      inl (
        0,
        [],
        refl,
        record { measured = tt; counted = refl; same_bytes = refl; same_length = refl },
      )
  prepare_partitions ((id, s) ∷ rest) (known, h) = elim (Result-cases (entries c s)) [
    | inl ((ms, s'), e) ↦ elim (prepare_partitions rest h) [
      | inl (n, rest', eq, p) ↦
          let again = entries_again c s s' ms e in
          inl (
            8 + entries_length ms + n,
            (id, s') ∷ rest',
            rw (e, eq) (ap (λ k. ok (k, (id, s') ∷ rest')) (omega arith)),
            record {
              measured = ((ms, again), p.measured);
              counted = rw again (omega (arith, p.counted));
              same_bytes = rw (again, e, p.same_bytes);
              same_length = ap suc p.same_length;
            },
          )
      | inr (eq, q) ↦
          inr (rw (e, eq), rw q (cat-err (mset_bytes (id, s)) (mset_bytes_fails (id, s) ms (rw e))))
    ]
    | inr (x, e) ↦
        let is_struct : x ≡ struct_error = known x (rw e) in
        inr (rw (e, is_struct), rw (e, is_struct))
  ]
