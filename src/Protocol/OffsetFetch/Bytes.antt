-- ===== src/Protocol/OffsetFetch/Bytes.antt =====
-- OffsetFetchRequest.get_bytes against the grammar in its docstring.
use pykafka.Prelude.{ℕ, ℤ, pos, ◌+◌, ◌≡◌, refl, arith, List, [], ◌∷◌, length}
use pykafka.Result.{Result}
use pykafka.Struct.{int, text, int16, int32, pack, calcsize}
use pykafka.Struct.Pack.{cat}
use pykafka.Writer.Writes.{Writes, Writes-put, Writes-then, Writes-respec}
use pykafka.Protocol.Header.Framed.{frame, framed}
use pykafka.Protocol.Topics.{topics_length}
use pykafka.Protocol.Topics.Bytes.{
  string_bytes, array_bytes, topic_bytes, pack_count, Writes-topics, topics_length_const,
}
use pykafka.Protocol.OffsetFetch.{
  OffsetFetchRequest, offset_fetch_length, write_partition_id, offset_fetch_get_bytes, group_fields,
}

-- Partition
abbrev pub partition_bytes : ℤ → Result (List ℕ)
partition_bytes p = pack (int int32 p ∷ [])

-- ConsumerGroup [TopicName [partition]]
abbrev pub offset_fetch_body : OffsetFetchRequest → Result (List ℕ)
offset_fetch_body r =
    cat (string_bytes r.consumer_group) (array_bytes (topic_bytes partition_bytes) r.reqs)

Writes-partition_id : (p : ℤ) → Writes (write_partition_id p) 4 (partition_bytes p)
unfolding write_partition_id
Writes-partition_id p = Writes-put _ 4 refl

length_lem :
    (r : OffsetFetchRequest)
    → offset_fetch_length r ≡ 21 + (calcsize (group_fields r) + topics_length (λ _. 4) r.reqs)
unfolding offset_fetch_length
length_lem r = omega (arith, topics_length_const 4 r.reqs)

-- OffsetFetchRequest.get_bytes returns the frame of API key 9, version 1, around the body of the
-- docstring's grammar, or raises `struct.error` exactly where a part of that does not fit its format.
pub offset_fetch_get_bytes_lem :
    (r : OffsetFetchRequest)
    → offset_fetch_get_bytes r ≡ frame (pos 9) (pos 1) (offset_fetch_body r)
unfolding offset_fetch_get_bytes
offset_fetch_get_bytes_lem r =
    framed
      (Writes-respec
        (pack_count
          (int int16 (pos (length r.consumer_group))
            ∷ text (length r.consumer_group) r.consumer_group
            ∷ [])
          (length r.reqs) _)
        (Writes-then (Writes-put (group_fields r) _ refl)
          (Writes-topics _ _ _ Writes-partition_id r.reqs)))
      _ _ _ (length_lem r)
