-- ===== src/Protocol/Fetch/Bytes.antt =====
-- FetchRequest.get_bytes against the grammar in its docstring, and what `add_request` records.
use pykafka.Prelude.{ℕ, ℤ, pos, negsuc, ◌+◌, ◌≡◌, refl, arith, List, [], ◌∷◌, length}
use pykafka.Result.{Result}
use pykafka.Struct.{int, int32, int64, pack}
use pykafka.Struct.Pack.{cat}
use pykafka.Writer.Writes.{Writes, Writes-put, Writes-then, Writes-respec}
use pykafka.Protocol.Header.Framed.{frame, framed}
use pykafka.Protocol.Topics.{topics_length}
use pykafka.Protocol.Topics.Bytes.{
  array_bytes, topic_bytes, pack_count, Writes-topics, topics_length_const,
}
use pykafka.Protocol.Fetch.{FetchRequest, fetch_length, write_fetch_partition, fetch_get_bytes}

-- Partition FetchOffset MaxBytes
abbrev pub fetch_partition_bytes : ℤ × (ℤ × ℤ) → Result (List ℕ)
fetch_partition_bytes p = pack (int int32 p.0 ∷ int int64 p.1.0 ∷ int int32 p.1.1 ∷ [])

-- ReplicaId MaxWaitTime MinBytes [TopicName [partition]]
abbrev pub fetch_body : FetchRequest → Result (List ℕ)
fetch_body r =
    cat (pack (int int32 (negsuc 0) ∷ int int32 r.timeout ∷ int int32 r.min_bytes ∷ []))
      (array_bytes (topic_bytes fetch_partition_bytes) r.reqs)

Writes-fetch_partition :
    (p : ℤ × (ℤ × ℤ)) → Writes (write_fetch_partition p) 16 (fetch_partition_bytes p)
unfolding write_fetch_partition
Writes-fetch_partition (partition_id, (fetch_offset, max_bytes)) = Writes-put _ 16 refl

length_lem : (r : FetchRequest) → fetch_length r ≡ 21 + (16 + topics_length (λ _. 16) r.reqs)
unfolding fetch_length
length_lem r = omega (arith, topics_length_const 16 r.reqs)

-- FetchRequest.get_bytes returns the frame of API key 1 around the body of the docstring's grammar, or
-- raises `struct.error` exactly where a part of that does not fit its format.
pub fetch_get_bytes_lem :
    (r : FetchRequest) → fetch_get_bytes r ≡ frame (pos 1) (pos 0) (fetch_body r)
unfolding fetch_get_bytes
fetch_get_bytes_lem r =
    framed
      (Writes-respec
        (pack_count (int int32 (negsuc 0) ∷ int int32 r.timeout ∷ int int32 r.min_bytes ∷ [])
          (length r.reqs) _)
        (Writes-then (Writes-put _ 16 refl) (Writes-topics _ _ _ Writes-fetch_partition r.reqs)))
      _ _ _ (length_lem r)
