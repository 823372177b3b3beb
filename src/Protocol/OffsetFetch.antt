-- ===== src/Protocol/OffsetFetch.antt =====
-- pykafka/protocol.py: PartitionOffsetFetchRequest and OffsetFetchRequest.
pub mod Bytes
use pykafka.Prelude.{
  ℕ, ℤ, pos, negsuc, ◌+◌, ◌*◌, List, [], ◌∷◌, ◌++◌, length, foldl, if◌then◌else◌, ◌==◌,
}
use pykafka.Result.{Result}
use pykafka.Struct.{Field, int, text, int16, int32, int64, calcsize}
use pykafka.Writer.{Writer, put, advance, ◌>>>◌}
use pykafka.Prelude.{total}
use pykafka.Dict.{Dict, insert, get_default, bytes_eq, int_eq}
use pykafka.Protocol.Header.{header_len, get_bytes}
use pykafka.Protocol.Topics.{write_topics}

-- The named tuple `PartitionOffsetFetchRequest`.
pub record PartitionOffsetFetchRequest : Type 0 where
  pub topic_name : List ℕ
  pub partition_id : ℤ

pub record OffsetFetchRequest : Type 0 where
  pub consumer_group : List ℕ
  pub reqs : Dict (List ℕ) (List ℤ)

-- One round of the loop in __init__.
unfoldable pub add_partition :
    Dict (List ℕ) (List ℤ) → PartitionOffsetFetchRequest → Dict (List ℕ) (List ℤ)
add_partition reqs t =
    insert t.topic_name (get_default [] t.topic_name reqs ++ t.partition_id ∷ []) reqs

-- __init__
unfoldable pub offset_fetch_request : List ℕ → List PartitionOffsetFetchRequest → OffsetFetchRequest
unfolding add_partition
offset_fetch_request consumer_group partition_requests = record {
  consumer_group = consumer_group;
  reqs = foldl add_partition [] partition_requests;
}

-- __len__
unfoldable pub offset_fetch_length : OffsetFetchRequest → ℕ
offset_fetch_length r =
    header_len
    + 2
    + length r.consumer_group
    + 4
    + total (λ t. 2 + length t.0 + 4 + 4 * length t.1) r.reqs

unfoldable pub write_partition_id : ℤ → Writer
write_partition_id pnum = put (int int32 pnum ∷ []) >>> advance 4

-- '!h%dsi' with its arguments.
abbrev pub group_fields : OffsetFetchRequest → List Field
group_fields r =
    int int16 (pos (length r.consumer_group))
    ∷ text (length r.consumer_group) r.consumer_group
    ∷ int int32 (pos (length r.reqs))
    ∷ []

unfoldable pub offset_fetch_get_bytes : OffsetFetchRequest → Result (List ℕ)
unfolding offset_fetch_length
offset_fetch_get_bytes r = get_bytes (offset_fetch_length r) (pos 9) (pos 1) (
    put (group_fields r)
    >>> advance (calcsize (group_fields r))
    >>> write_topics write_partition_id r.reqs)
