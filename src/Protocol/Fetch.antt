-- ===== src/Protocol/Fetch.antt =====
-- pykafka/protocol.py: PartitionFetchRequest and FetchRequest.
pub mod Bytes
use pykafka.Prelude.{ℕ, ℤ, pos, negsuc, ◌+◌, ◌*◌, List, [], ◌∷◌, length, foldl}
use pykafka.Result.{Result}
use pykafka.Struct.{Field, int, int32, int64}
use pykafka.Writer.{Writer, put, advance, ◌>>>◌}
use pykafka.Prelude.{total}
use pykafka.Dict.{Dict, insert, get_default, bytes_eq, int_eq}
use pykafka.Protocol.Header.{header_len, get_bytes}
use pykafka.Protocol.Topics.{write_topics}

-- The named tuple `PartitionFetchRequest`.
pub record PartitionFetchRequest : Type 0 where
  pub topic_name : List ℕ
  pub partition_id : ℤ
  pub offset : ℤ
  pub max_bytes : ℤ

-- `reqs` is `_reqs`: a partition's offset and maximal number of bytes, by topic and partition.
pub record FetchRequest : Type 0 where
  pub timeout : ℤ
  pub min_bytes : ℤ
  pub reqs : Dict (List ℕ) (Dict ℤ (ℤ × ℤ))

unfoldable pub add_request : FetchRequest → PartitionFetchRequest → FetchRequest
add_request r pr = record r {
  reqs =
      insert pr.topic_name
        (insert pr.partition_id (pr.offset, pr.max_bytes) (get_default [] pr.topic_name r.reqs))
        r.reqs;
}

-- __init__
unfoldable pub fetch_request : List PartitionFetchRequest → ℤ → ℤ → FetchRequest
unfolding add_request
fetch_request partition_requests timeout min_bytes =
    foldl add_request (record { timeout = timeout; min_bytes = min_bytes; reqs = [] })
      partition_requests

-- __len__
unfoldable pub fetch_length : FetchRequest → ℕ
fetch_length r =
    header_len + 4 + 4 + 4 + 4 + total (λ t. 2 + length t.0 + 4 + (4 + 8 + 4) * length t.1) r.reqs

unfoldable pub write_fetch_partition : ℤ × (ℤ × ℤ) → Writer
write_fetch_partition (partition_id, (fetch_offset, max_bytes)) =
    put (int int32 partition_id ∷ int int64 fetch_offset ∷ int int32 max_bytes ∷ []) >>> advance 16

unfoldable pub fetch_get_bytes : FetchRequest → Result (List ℕ)
unfolding fetch_length
fetch_get_bytes r = get_bytes (fetch_length r) (pos 1) (pos 0) (
    put (
      int int32 (negsuc 0)
      ∷ int int32 r.timeout
      ∷ int int32 r.min_bytes
      ∷ int int32 (pos (length r.reqs))
      ∷ [])
    >>> advance 16
    >>> write_topics write_fetch_partition r.reqs)
