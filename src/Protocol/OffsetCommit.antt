-- ===== src/Protocol/OffsetCommit.antt =====
-- pykafka/protocol.py: PartitionOffsetCommitRequest and OffsetCommitRequest.
pub mod Bytes
use pykafka.Prelude.{
  ℕ, ℤ, pos, negsuc, ◌+◌, ◌*◌, List, [], ◌∷◌, ◌++◌, length, foldl, if◌then◌else◌, ◌==◌,
}
use pykafka.Result.{Result}
use pykafka.Struct.{Field, int, text, int16, int32, int64, calcsize}
use pykafka.Writer.{Writer, put, advance, ◌>>>◌}
use pykafka.Prelude.{total}
use pykafka.Dict.{Dict, insert, get_default, bytes_eq, int_eq}
use pykafka.Protocol.Header.{header_len, get_bytes}
use pykafka.Protocol.Topics.{write_topics}

-- The named tuple `PartitionOffsetCommitRequest`.
pub record PartitionOffsetCommitRequest : Type 0 where
  pub topic_name : List ℕ
  pub partition_id : ℤ
  pub offset : ℤ
  pub timestamp : ℤ
  pub metadata : List ℕ

-- What `_reqs` holds of a partition: offset, timestamp and metadata.
abbrev pub Commit : Type 0
Commit = ℤ × (ℤ × List ℕ)

pub record OffsetCommitRequest : Type 0 where
  pub consumer_group : List ℕ
  pub generation_id : ℤ
  pub consumer_id : List ℕ
  pub reqs : Dict (List ℕ) (Dict ℤ Commit)

-- One round of the loop in __init__.
unfoldable pub add_commit :
    Dict (List ℕ) (Dict ℤ Commit) → PartitionOffsetCommitRequest → Dict (List ℕ) (Dict ℤ Commit)
add_commit reqs t =
    insert t.topic_name
      (insert t.partition_id (t.offset, (t.timestamp, t.metadata))
        (get_default [] t.topic_name reqs))
      reqs

-- __init__
unfoldable pub offset_commit_request :
    List ℕ → ℤ → List ℕ → List PartitionOffsetCommitRequest → OffsetCommitRequest
unfolding add_commit
offset_commit_request consumer_group generation_id consumer_id partition_requests = record {
  consumer_group = consumer_group;
  generation_id = generation_id;
  consumer_id = consumer_id;
  reqs = foldl add_commit [] partition_requests;
}

-- __len__
unfoldable pub offset_commit_length : OffsetCommitRequest → ℕ
offset_commit_length r =
    header_len
    + 2
    + length r.consumer_group
    + 4
    + 2
    + length r.consumer_id
    + 4
    + total
        (λ t. 2 + length t.0 + 4 + (4 + 8 + 8) * length t.1 + total (λ p. 2 + length p.1.1.1) t.1)
        r.reqs

-- `len(metadata) or -1`: an empty string is sent as null.
abbrev pub metadata_fields : List ℕ → List Field
metadata_fields metadata =
    if length metadata == 0
    then int int16 (negsuc 0) ∷ []
    else int int16 (pos (length metadata)) ∷ text (length metadata) metadata ∷ []

unfoldable pub write_commit : ℤ × Commit → Writer
write_commit (pnum, (poffset, (timestamp, metadata))) =
    put (int int32 pnum ∷ int int64 poffset ∷ int int64 timestamp ∷ [])
    >>> advance 20
    >>> (put (metadata_fields metadata) >>> advance (calcsize (metadata_fields metadata)))

-- '!h%dsih%dsi' with its arguments.
abbrev pub group_fields : OffsetCommitRequest → List Field
group_fields r =
    int int16 (pos (length r.consumer_group))
    ∷ text (length r.consumer_group) r.consumer_group
    ∷ int int32 r.generation_id
    ∷ int int16 (pos (length r.consumer_id))
    ∷ text (length r.consumer_id) r.consumer_id
    ∷ int int32 (pos (length r.reqs))
    ∷ []

unfoldable pub offset_commit_get_bytes : OffsetCommitRequest → Result (List ℕ)
unfolding offset_commit_length
offset_commit_get_bytes r = get_bytes (offset_commit_length r) (pos 8) (pos 1) (
    put (group_fields r)
    >>> advance (calcsize (group_fields r))
    >>> write_topics write_commit r.reqs)
