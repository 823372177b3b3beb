-- ===== src/Protocol/OffsetCommit/Bytes.antt =====
-- OffsetCommitRequest.get_bytes against the grammar in its docstring.
use pykafka.Prelude.{
  ℕ, ℤ, pos, negsuc, ◌+◌, ◌*◌, ◌≡◌, refl, ap, ◌∙◌, arith, List, [], ◌∷◌, ◌++◌, length, false, ◌==◌,
}
use pykafka.Result.{Result}
use pykafka.Struct.{Field, int, text, int16, int32, int64, pack, calcsize}
use pykafka.Struct.Pack.{cat, cat_assoc, pack-append}
use pykafka.Writer.{put, advance, ◌>>>◌}
use pykafka.Writer.Writes.{Writes, Writes-put, Writes-then, Writes-resize, Writes-respec}
use pykafka.Prelude.{total}
use pykafka.Dict.{Dict}
use pykafka.Protocol.Header.Framed.{frame, framed}
use pykafka.Protocol.Topics.{topics_length}
use pykafka.Protocol.Topics.Bytes.{string_bytes, array_bytes, topic_bytes, Writes-topics}
use pykafka.Protocol.OffsetCommit.{
  OffsetCommitRequest, Commit, offset_commit_length, write_commit, offset_commit_get_bytes,
  metadata_fields, group_fields,
}

-- string => int16 length, bytes; a length of -1 for the empty string
abbrev pub nullable_bytes : List ℕ → Result (List ℕ)
nullable_bytes [] = pack (int int16 (negsuc 0) ∷ [])
nullable_bytes (x ∷ s) = string_bytes (x ∷ s)

-- Partition Offset TimeStamp Metadata
abbrev pub commit_bytes : ℤ × Commit → Result (List ℕ)
commit_bytes p =
    cat (pack (int int32 p.0 ∷ int int64 p.1.0 ∷ int int64 p.1.1.0 ∷ [])) (nullable_bytes p.1.1.1)

-- ConsumerGroupId ConsumerGroupGenerationId ConsumerId [TopicName [partition]]
abbrev pub offset_commit_body : OffsetCommitRequest → Result (List ℕ)
offset_commit_body r = cat (string_bytes r.consumer_group) (
    cat (pack (int int32 r.generation_id ∷ []))
      (cat (string_bytes r.consumer_id) (array_bytes (topic_bytes commit_bytes) r.reqs)))

Writes-metadata :
    (metadata : List ℕ)
    → Writes
        (put (metadata_fields metadata) >>> advance (calcsize (metadata_fields metadata)))
        (2 + length metadata)
        (nullable_bytes metadata)
Writes-metadata [] = Writes-put _ 2 refl
Writes-metadata (x ∷ s) =
    let fields : List Field =
      int int16 (pos (length (x ∷ s))) ∷ text (length (x ∷ s)) (x ∷ s) ∷ [] in
    let e : (length (x ∷ s) == 0) ≡ false = ground arith in
    Writes-resize {n = calcsize fields} (omega arith)
      (rw e (Writes-put fields (calcsize fields) refl))

Writes-commit :
    (p : ℤ × Commit) → Writes (write_commit p) (20 + (2 + length p.1.1.1)) (commit_bytes p)
unfolding write_commit
Writes-commit (pnum, (poffset, (timestamp, metadata))) =
    Writes-then (Writes-put _ 20 refl) (Writes-metadata metadata)

commits_length :
    (parts : List (ℤ × Commit))
    → total (λ p. 20 + (2 + length p.1.1.1)) parts
      ≡ 20 * length parts + total (λ p. 2 + length p.1.1.1) parts
commits_length [] = omega arith
commits_length (p ∷ parts) = omega (arith, commits_length parts)

topics_lem :
    (reqs : Dict (List ℕ) (List (ℤ × Commit)))
    → topics_length (λ p. 20 + (2 + length p.1.1.1)) reqs
      ≡ total
          (λ t. 2 + length t.0 + 4 + (4 + 8 + 8) * length t.1 + total (λ p. 2 + length p.1.1.1) t.1)
          reqs
topics_lem [] = refl
topics_lem ((name, parts) ∷ rest) = omega (arith, commits_length parts, topics_lem rest)

length_lem :
    (r : OffsetCommitRequest)
    → offset_commit_length r
      ≡ 21 + (calcsize (group_fields r) + topics_length (λ p. 20 + (2 + length p.1.1.1)) r.reqs)
unfolding offset_commit_length
length_lem r = omega (arith, topics_lem r.reqs)

regroup :
    (r : OffsetCommitRequest) (items : Result (List ℕ))
    → cat (pack (group_fields r)) items
      ≡ cat (string_bytes r.consumer_group) (
          cat (pack (int int32 r.generation_id ∷ [])) (
            cat
              (string_bytes r.consumer_id)
              (cat (pack (int int32 (pos (length r.reqs)) ∷ [])) items)))
regroup r items =
    ap (λ p. cat p items)
      (pack-append group (generation ++ (consumer ++ count))
        ∙ ap (cat (pack group)) (
            pack-append generation (consumer ++ count)
            ∙ ap (cat (pack generation)) (pack-append consumer count)))
    ∙ simp cat_assoc
  where
    group : List Field
    group =
        int int16 (pos (length r.consumer_group))
        ∷ text (length r.consumer_group) r.consumer_group
        ∷ []

    generation : List Field
    generation = int int32 r.generation_id ∷ []

    consumer : List Field
    consumer =
        int int16 (pos (length r.consumer_id)) ∷ text (length r.consumer_id) r.consumer_id ∷ []

    count : List Field
    count = int int32 (pos (length r.reqs)) ∷ []

-- OffsetCommitRequest.get_bytes returns the frame of API key 8, version 1, around the body of the
-- docstring's grammar, in which an empty metadata string is null, or raises `struct.error` exactly
-- where a part of that does not fit its format.
pub offset_commit_get_bytes_lem :
    (r : OffsetCommitRequest)
    → offset_commit_get_bytes r ≡ frame (pos 8) (pos 1) (offset_commit_body r)
unfolding offset_commit_get_bytes
offset_commit_get_bytes_lem r =
    framed
      (Writes-respec (regroup r _) (
        Writes-then (Writes-put (group_fields r) _ refl)
          (Writes-topics _ _ _ Writes-commit r.reqs)))
      _ _ _ (length_lem r)
