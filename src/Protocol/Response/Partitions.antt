-- ===== src/Protocol/Response/Partitions.antt =====
-- ProduceResponse, OffsetResponse, OffsetCommitResponse and OffsetFetchResponse.
use pykafka.Prelude.{ℕ, ℤ, ◌≡◌, refl, sym, ap, ap₂, ◌∙◌, none, some, List, [], ◌∷◌, ◌++◌}
use pykafka.Result.{Result, ok}
use pykafka.Struct.{Field, int16, int32, int64, pack}
use pykafka.Struct.{int as int_field}
use pykafka.Struct.Pack.{cat, cat-nil, cat_assoc, pack-append}
use pykafka.Unpack.{Value, int, tuple, list, nil, cons}
use pykafka.Unpack.Schema.{num, string, array, end, also, encode, show}
use pykafka.Protocol.Topics.Bytes.{array_bytes}
use pykafka.Protocol.Response.{
  Text, read_produce, read_commit, read_offset_fetch, read_offsets, produce_response,
  offset_response, offset_commit_response, offset_fetch_response,
}
use pykafka.Protocol.Response.Encoded.{
  from_list, text_value, text_bytes, encode-text, response_topic,
}
use pykafka.Protocol.Response.Read.{
  topics_of, response_lem, read_int-list, numbers_bytes, encode-numbers,
}

-- Two numbers in front of the rest of an item.
two_numbers :
    (a b : Field) (rest : Result (List ℕ))
    → cat (pack (a ∷ [])) (cat (pack (b ∷ [])) rest) ≡ cat (pack (a ∷ b ∷ [])) rest
two_numbers a b rest =
    sym (cat_assoc (pack (a ∷ [])) (pack (b ∷ [])) rest)
    ∙ ap (λ x. cat x rest) (sym (pack-append (a ∷ []) (b ∷ [])))

-- Partition ErrorCode Offset
abbrev pub produce_item : ℤ × (ℤ × ℤ) → Result (List ℕ)
produce_item p = pack (int_field int32 p.0 ∷ int_field int16 p.1.0 ∷ int_field int64 p.1.1 ∷ [])

-- ProduceResponse reads back, from the bytes of the docstring's grammar and whatever follows
-- them, the error code and the offset of each partition of each topic, the last one of those that
-- come twice.
pub produce_response_lem :
    (topics : List (Text × List (ℤ × (ℤ × ℤ)))) (content rest : List ℕ)
    → array_bytes (response_topic produce_item) topics ≡ ok content
    → produce_response (content ++ rest) ≡ ok (topics_of topics)
unfolding produce_response read_produce show
produce_response_lem =
    response_lem (also (num int32) (also (num int16) (also (num int64) end))) read_produce
      (λ p. tuple (cons (int p.0) (cons (int p.1.0) (cons (int p.1.1) nil)))) produce_item _ refl
      (λ p. refl)
      (λ p.
        unfold encode in
        two_numbers (int_field int32 p.0) (int_field int16 p.1.0) _
        ∙ ap (cat (pack (int_field int32 p.0 ∷ int_field int16 p.1.0 ∷ []))) (cat-nil _)
        ∙ sym (
            pack-append (int_field int32 p.0 ∷ int_field int16 p.1.0 ∷ [])
              (int_field int64 p.1.1 ∷ [])))

-- Partition ErrorCode
abbrev pub commit_item : ℤ × ℤ → Result (List ℕ)
commit_item p = pack (int_field int32 p.0 ∷ int_field int16 p.1 ∷ [])

-- OffsetCommitResponse reads back, from the bytes of the docstring's grammar and whatever follows
-- them, the error code of each partition of each topic, the last one of those that come twice.
pub offset_commit_response_lem :
    (topics : List (Text × List (ℤ × ℤ))) (content rest : List ℕ)
    → array_bytes (response_topic commit_item) topics ≡ ok content
    → offset_commit_response (content ++ rest) ≡ ok (topics_of topics)
unfolding offset_commit_response read_commit show
offset_commit_response_lem =
    response_lem (also (num int32) (also (num int16) end)) read_commit
      (λ p. tuple (cons (int p.0) (cons (int p.1) nil))) commit_item _ refl (λ p. refl)
      (λ p.
        unfold encode in
        two_numbers (int_field int32 p.0) (int_field int16 p.1) (ok []) ∙ cat-nil _)

-- Partition Offset Metadata ErrorCode
abbrev pub offset_fetch_item : ℤ × (ℤ × (Text × ℤ)) → Result (List ℕ)
offset_fetch_item p =
    cat (pack (int_field int32 p.0 ∷ int_field int64 p.1.0 ∷ []))
      (cat (text_bytes p.1.1.0) (pack (int_field int16 p.1.1.1 ∷ [])))

abbrev offset_fetch_value : ℤ × (ℤ × (Text × ℤ)) → Value
offset_fetch_value p =
    tuple (cons (int p.0) (cons (int p.1.0) (cons (text_value p.1.1.0) (cons (int p.1.1.1) nil))))

read_offset_fetch-value :
    (p : ℤ × (ℤ × (Text × ℤ))) → read_offset_fetch (offset_fetch_value p) ≡ ok p
unfolding read_offset_fetch
read_offset_fetch-value (id, (offset, (none, error))) = refl
read_offset_fetch-value (id, (offset, (some s, error))) = refl

-- OffsetFetchResponse reads back, from the bytes of the docstring's grammar and whatever follows
-- them, the offset, the metadata, which may be null, and the error code of each partition of each
-- topic, the last one of those that come twice.
pub offset_fetch_response_lem :
    (topics : List (Text × List (ℤ × (ℤ × (Text × ℤ))))) (content rest : List ℕ)
    → array_bytes (response_topic offset_fetch_item) topics ≡ ok content
    → offset_fetch_response (content ++ rest) ≡ ok (topics_of topics)
unfolding offset_fetch_response show
offset_fetch_response_lem =
    response_lem (also (num int32) (also (num int64) (also string (also (num int16) end))))
      read_offset_fetch offset_fetch_value offset_fetch_item _ refl read_offset_fetch-value
      (λ p.
        unfold encode in
        two_numbers (int_field int32 p.0) (int_field int64 p.1.0) _
        ∙ ap (cat (pack (int_field int32 p.0 ∷ int_field int64 p.1.0 ∷ [])))
            (ap₂ cat (encode-text p.1.1.0) (cat-nil _)))

-- Partition ErrorCode [Offset]
abbrev pub offsets_item : ℤ × (List ℤ × ℤ) → Result (List ℕ)
offsets_item p =
    cat (pack (int_field int32 p.0 ∷ int_field int16 p.1.1 ∷ [])) (numbers_bytes int64 p.1.0)

abbrev offsets_value : ℤ × (List ℤ × ℤ) → Value
offsets_value p = tuple (cons (int p.0) (cons (int p.1.1) (cons (list (from_list int p.1.0)) nil)))

read_offsets-value : (p : ℤ × (List ℤ × ℤ)) → read_offsets (offsets_value p) ≡ ok p
unfolding read_offsets
read_offsets-value (id, (zs, error)) = rw (read_int-list zs)

-- OffsetResponse reads back, from the bytes of the docstring's grammar and whatever follows them,
-- the offsets and the error code of each partition of each topic, the last one of those that come
-- twice.
pub offset_response_lem :
    (topics : List (Text × List (ℤ × (List ℤ × ℤ)))) (content rest : List ℕ)
    → array_bytes (response_topic offsets_item) topics ≡ ok content
    → offset_response (content ++ rest) ≡ ok (topics_of topics)
unfolding offset_response show
offset_response_lem =
    response_lem (also (num int32) (also (num int16) (also (array (also (num int64) end)) end)))
      read_offsets offsets_value offsets_item _ refl read_offsets-value
      (λ p.
        unfold encode in
        two_numbers (int_field int32 p.0) (int_field int16 p.1.1) _
        ∙ ap (cat (pack (int_field int32 p.0 ∷ int_field int16 p.1.1 ∷ [])))
            (cat-nil _ ∙ encode-numbers int64 p.1.0))
