-- ===== src/Protocol/Offset/Bytes.antt =====
-- OffsetRequest.get_bytes against the grammar in its docstring.
use pykafka.Prelude.{ℕ, ℤ, pos, negsuc, ◌+◌, ◌≡◌, refl, arith, List, [], ◌∷◌, length}
use pykafka.Result.{Result}
use pykafka.Struct.{int, int32, int64, pack}
use pykafka.Struct.Pack.{cat}
use pykafka.Writer.Writes.{Writes, Writes-put, Writes-then, Writes-respec}
use pykafka.Protocol.Header.Framed.{frame, framed}
use pykafka.Protocol.Topics.{topics_length}
use pykafka.Protocol.Topics.Bytes.{
  array_bytes, topic_bytes, pack_count, Writes-topics, topics_length_const,
}
use pykafka.Protocol.Offset.{OffsetRequest, offset_length, write_offset_partition, offset_get_bytes}

-- Partition Time MaxNumberOfOffsets
abbrev pub offset_partition_bytes : ℤ × (ℤ × ℤ) → Result (List ℕ)
offset_partition_bytes p = pack (int int32 p.0 ∷ int int64 p.1.0 ∷ int int32 p.1.1 ∷ [])

-- ReplicaId [TopicName [partition]]
abbrev pub offset_body : OffsetRequest → Result (List ℕ)
offset_body r =
    cat (pack (int int32 (negsuc 0) ∷ [])) (array_bytes (topic_bytes offset_partition_bytes) r.reqs)

Writes-offset_partition :
    (p : ℤ × (ℤ × ℤ)) → Writes (write_offset_partition p) 16 (offset_partition_bytes p)
unfolding write_offset_partition
Writes-offset_partition (pnum, (offsets_before, max_offsets)) = Writes-put _ 16 refl

length_lem : (r : OffsetRequest) → offset_length r ≡ 21 + (8 + topics_length (λ _. 16) r.reqs)
unfolding offset_length
length_lem r = omega (arith, topics_length_const 16 r.reqs)

-- OffsetRequest.get_bytes returns the frame of API key 2 around the body of the docstring's grammar,
-- or raises `struct.error` exactly where a part of that does not fit its format.
pub offset_get_bytes_lem :
    (r : OffsetRequest) → offset_get_bytes r ≡ frame (pos 2) (pos 0) (offset_body r)
unfolding offset_get_bytes
offset_get_bytes_lem r =
    framed
      (Writes-respec (pack_count (int int32 (negsuc 0) ∷ []) (length r.reqs) _)
        (Writes-then (Writes-put _ 8 refl) (Writes-topics _ _ _ Writes-offset_partition r.reqs)))
      _ _ _ (length_lem r)
