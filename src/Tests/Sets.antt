-- ===== src/Tests/Sets.antt =====
-- The theorems on compression, stored message sets and the brokers' metadata, on concrete values.
use pykafka.Prelude.{ℕ, ℤ, pos, ◌≡◌, refl, arith, List, [], ◌∷◌, ◌++◌, true, some, none, take}
use pykafka.Result.{ok, err, no_messages_consumed}
use pykafka.Struct.{pack}
use pykafka.Crc.{crc32}
use pykafka.Compression.{encode_snappy, decode_snappy}
use pykafka.Compression.RoundTrip.{decode_snappy-encode_snappy}
use pykafka.Writer.Writes.{cat_all}
use pykafka.Protocol.Header.{codes}
use pykafka.Protocol.Message.{Message}
use pykafka.Protocol.Message.Bytes.{message_bytes}
use pykafka.Protocol.Message.RoundTrip.{received}
use pykafka.Protocol.MessageSet.Decode.{decode_message_set}
use pykafka.Protocol.MessageSet.Entries.{stored_bytes}
use pykafka.Protocol.MessageSet.RoundTrip.{decode_message_set-stored, decoded}
use pykafka.Protocol.Response.Fetched.{unpack_message_set}
use pykafka.Protocol.Response.Unpacked.{
  IsStored, Contains, plain, nested, nothing, by_gzip, unpack_message_set-Contains,
}
use pykafka.Tests.Requests.{identity, test_message}
use pykafka.Protocol.Message.{message_length}
use pykafka.Compression.{write_blocks}
use pykafka.Compression.{chunker}

abbrev abc_encoded : List ℕ
abc_encoded =
    0x82 ∷ codes "SNAPPY"
    ++ 0 ∷ 0 ∷ 0 ∷ 0 ∷ 1 ∷ 0 ∷ 0 ∷ 0 ∷ 1 ∷ 0 ∷ 0 ∷ 0 ∷ 2 ∷ 97 ∷ 98 ∷ 0 ∷ 0 ∷ 0 ∷ 1 ∷ 99 ∷ []

abc_lem : encode_snappy identity (codes "abc") true 2 ≡ ok abc_encoded
unfolding encode_snappy pack write_blocks chunker
abc_lem = refl

decode_snappy-encode_snappy_example : decode_snappy identity (some abc_encoded) ≡ ok (codes "abc")
decode_snappy-encode_snappy_example =
    decode_snappy-encode_snappy identity (λ s. refl) (codes "abc") abc_encoded 2 (omega arith)
      abc_lem

abbrev stored : ℤ × Message
stored = (pos 7, test_message)

abbrev stored_content : List ℕ
stored_content =
    0
      ∷ 0
      ∷ 0
      ∷ 0
      ∷ 0
      ∷ 0
      ∷ 0
      ∷ 7
      ∷ 0
      ∷ 0
      ∷ 0
      ∷ 0x28
      ∷ 0x0e
      ∷ 0x8a
      ∷ 0x19
      ∷ 0x4f
      ∷ 0
      ∷ 0
      ∷ 0
      ∷ 0
      ∷ 0
      ∷ 4
      ∷ codes "asdf"
    ++ (0 ∷ 0 ∷ 0 ∷ 0x16 ∷ codes "this is a test message")

stored_lem : stored_bytes stored ≡ ok stored_content
unfolding pack message_bytes crc32 message_length
stored_lem = refl

two_stored : cat_all stored_bytes (stored ∷ []) ≡ ok stored_content
two_stored = rw stored_lem

decode_message_set-stored_example :
    decode_message_set (stored_content ++ take 20 stored_content) (pos 0)
    ≡ decoded (stored ∷ []) 20 (pos 0)
decode_message_set-stored_example =
    decode_message_set-stored (stored ∷ []) stored stored_content stored_content 20 (pos 0)
      two_stored stored_lem (omega arith)

cut_only : decode_message_set (take 20 stored_content) (pos 0) ≡ err no_messages_consumed
cut_only =
    decode_message_set-stored [] stored [] stored_content 20 (pos 0) refl stored_lem (omega arith)

-- A message that holds the stored set, as gzip's: the codec here leaves bytes as they are.
abbrev gzip_message : Message
gzip_message = record test_message {
  compression_type = 1;
  partition_key = none;
  value = some stored_content;
}

abbrev gzip_stored : ℤ × Message
gzip_stored = (pos 8, gzip_message)

abbrev gzip_content : List ℕ
gzip_content =
    0 ∷ 0 ∷ 0 ∷ 0 ∷ 0 ∷ 0 ∷ 0 ∷ 8 ∷ 0 ∷ 0 ∷ 0 ∷ 66 ∷ 25 ∷ 25 ∷ 114 ∷ 155 ∷ 0 ∷ 1 ∷ 255 ∷ 255 ∷ 255
    ∷ 255 ∷ 0 ∷ 0 ∷ 0 ∷ 52 ∷ stored_content

gzip_lem : stored_bytes gzip_stored ≡ ok gzip_content
unfolding pack message_bytes crc32 message_length
gzip_lem = refl

abbrev both : List (ℤ × Message)
both = stored ∷ gzip_stored ∷ []

both_lem : cat_all stored_bytes both ≡ ok (stored_content ++ gzip_content)
both_lem = rw (stored_lem, gzip_lem)

both-IsStored : IsStored both (stored_content ++ gzip_content)
both-IsStored = record {
  content = stored_content ++ gzip_content;
  last = stored;
  last_bytes = stored_content;
  k = 0;
  encoded = both_lem;
  last_encoded = stored_lem;
  shorter = omega arith;
  whole = refl;
}

inner-IsStored : IsStored (stored ∷ []) stored_content
inner-IsStored = record {
  content = stored_content;
  last = stored;
  last_bytes = stored_content;
  k = 0;
  encoded = two_stored;
  last_encoded = stored_lem;
  shorter = omega arith;
  whole = refl;
}

abbrev stored_message : Message
stored_message = received test_message (pos 7) (pos 0)

both-Contains : Contains identity (pos 0) 1 both (stored_message ∷ stored_message ∷ [])
both-Contains = plain refl (nested (by_gzip refl refl) inner-IsStored (plain refl nothing) nothing)

unpack_message_set-Contains_example :
    unpack_message_set identity 2 (stored_content ++ gzip_content) (pos 0)
    ≡ ok (stored_message ∷ stored_message ∷ [])
unpack_message_set-Contains_example =
    unpack_message_set-Contains identity (pos 0) 1 stored (gzip_stored ∷ [])
      (stored_content ++ gzip_content) (stored_message ∷ stored_message ∷ []) both-IsStored
      both-Contains
