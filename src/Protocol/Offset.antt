-- ===== src/Protocol/Offset.antt =====
-- pykafka/protocol.py: PartitionOffsetRequest and OffsetRequest.
pub mod Bytes
use pykafka.Prelude.{
  ℕ, ℤ, pos, negsuc, ◌+◌, ◌*◌, List, [], ◌∷◌, ◌++◌, length, foldl, if◌then◌else◌, ◌==◌,
}
use pykafka.Result.{Result}
use pykafka.Struct.{Field, int, text, int16, int32, int64, calcsize}
use pykafka.Writer.{Writer, put, advance, ◌>>>◌}
use pykafka.Prelude.{total}
use pykafka.Dict.{Dict, insert, get_default, bytes_eq, int_eq}
use pykafka.Protocol.Header.{header_len, get_bytes}
use pykafka.Protocol.Topics.{write_topics}

-- The named tuple `PartitionOffsetRequest`.
pub record PartitionOffsetRequest : Type 0 where
  pub topic_name : List ℕ
  pub partition_id : ℤ
  pub offsets_before : ℤ
  pub max_offsets : ℤ

-- `reqs` is `_reqs`: a time and a number of offsets, by topic and partition.
pub record OffsetRequest : Type 0 where
  pub reqs : Dict (List ℕ) (Dict ℤ (ℤ × ℤ))

-- One round of the loop in __init__.
unfoldable pub add_offset : OffsetRequest → PartitionOffsetRequest → OffsetRequest
add_offset r t = record r {
  reqs =
      insert t.topic_name
        (insert t.partition_id (t.offsets_before, t.max_offsets)
          (get_default [] t.topic_name r.reqs))
        r.reqs;
}

-- __init__
unfoldable pub offset_request : List PartitionOffsetRequest → OffsetRequest
unfolding add_offset
offset_request partition_requests = foldl add_offset (record { reqs = [] }) partition_requests

-- __len__
unfoldable pub offset_length : OffsetRequest → ℕ
offset_length r =
    header_len + 4 + 4 + total (λ t. 2 + length t.0 + 4 + (4 + 8 + 4) * length t.1) r.reqs

unfoldable pub write_offset_partition : ℤ × (ℤ × ℤ) → Writer
write_offset_partition (pnum, (offsets_before, max_offsets)) =
    put (int int32 pnum ∷ int int64 offsets_before ∷ int int32 max_offsets ∷ []) >>> advance 16

unfoldable pub offset_get_bytes : OffsetRequest → Result (List ℕ)
unfolding offset_length
offset_get_bytes r = get_bytes (offset_length r) (pos 2) (pos 0) (
    put (int int32 (negsuc 0) ∷ int int32 (pos (length r.reqs)) ∷ [])
    >>> advance 8
    >>> write_topics write_offset_partition r.reqs)
