-- ===== src/Tests/Codec.antt =====
-- The theorems on struct_helpers.py and on messages, on concrete values.
use pykafka.Unpack.Ended.{unpack_from-Ends}
use pykafka.Prelude.{◌≢◌}
use pykafka.Result.{err, out_of_fuel}
use pykafka.Prelude.{ℕ, pos, negsuc, ◌≡◌, refl, List, [], ◌∷◌, ◌++◌}
use pykafka.Result.{ok}
use pykafka.Struct.{int32, int16, pack}
use pykafka.Unpack.{Values, int, bytes, tuple, list, nil, cons, unpack_from, unwrap}
use pykafka.Unpack.Schema.{Schemas, num, string, array, end, also, encode, encode_all, show}
use pykafka.Unpack.RoundTrip.{unpack_from-encode}
use pykafka.Crc.{crc32}
use pykafka.Protocol.Header.{codes}
use pykafka.Protocol.Message.{decode_message}
use pykafka.Protocol.Message.Bytes.{message_bytes}
use pykafka.Protocol.Message.RoundTrip.{received, decode_message-bytes}
use pykafka.Tests.Requests.{test_message}

-- '[S [ih] ]'
abbrev test_schema : Schemas
test_schema =
    also (array (also string (also (array (also (num int32) (also (num int16) end))) end))) end

abbrev test_values : Values
test_values =
    cons
      (list (
        cons
          (tuple (
            cons (bytes (codes "test")) (
              cons (list (cons (tuple (cons (int (pos 1)) (cons (int (negsuc 0)) nil))) nil)) nil)))
          nil))
      nil

abbrev test_content : List ℕ
test_content =
    0 ∷ 0 ∷ 0 ∷ 1 ∷ 0 ∷ 4 ∷ codes "test" ++ 0 ∷ 0 ∷ 0 ∷ 1 ∷ 0 ∷ 0 ∷ 0 ∷ 1 ∷ 255 ∷ 255 ∷ []

test_encoded : encode_all test_schema test_values ≡ ok test_content
unfolding encode show pack
test_encoded = refl

unpack_from-encode_example :
    unpack_from (codes "[S [ih] ]") (test_content ++ 7 ∷ []) 0
    ≡ ok (
        list (
          cons
            (tuple (
              cons (bytes (codes "test")) (
                cons
                  (list (cons (tuple (cons (int (pos 1)) (cons (int (negsuc 0)) nil))) nil))
                  nil)))
            nil))
unfolding show unwrap
unpack_from-encode_example =
    unpack_from-encode test_schema (codes "[S [ih] ]") test_values test_content (7 ∷ [])
      (unfold show in refl) test_encoded

-- The bytes of the message in tests/pykafka/test_protocol.py.
abbrev test_message_content : List ℕ
test_message_content =
    0x0e ∷ 0x8a ∷ 0x19 ∷ 0x4f ∷ 0 ∷ 0 ∷ 0 ∷ 0 ∷ 0 ∷ 4 ∷ codes "asdf"
    ++ (0 ∷ 0 ∷ 0 ∷ 0x16 ∷ codes "this is a test message")

test_message_bytes : message_bytes test_message ≡ ok test_message_content
unfolding message_bytes crc32 pack
test_message_bytes = refl

decode_message-bytes_example :
    decode_message (test_message_content ++ 9 ∷ 9 ∷ []) (pos 5) (pos 2)
    ≡ ok (received test_message (pos 5) (pos 2))
decode_message-bytes_example =
    decode_message-bytes test_message test_message_content (9 ∷ 9 ∷ []) (pos 5) (pos 2)
      test_message_bytes

-- A format whose brackets do not match.
unpack_from-Ends_example : unpack_from (codes "[i[S]]] [h") (0 ∷ 0 ∷ 0 ∷ 2 ∷ []) 0 ≢ err out_of_fuel
unpack_from-Ends_example = unpack_from-Ends (codes "[i[S]]] [h") (0 ∷ 0 ∷ 0 ∷ 2 ∷ []) 0
