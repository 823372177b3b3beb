-- ===== src/Protocol/Message/RoundTrip.antt =====
-- A message that was written is read back.
use pykafka.Prelude.{
  ℕ, ℤ, pos, ◌%◌, ◌^◌, ◌<◌, ◌≡◌, refl, sym, ap, ap₂, ◌∙◌, arith, true, Option, none, some, List, [],
  ◌∷◌, ◌++◌, lt→ltb,
}
use pykafka.Result.{ok, >>=-eq-ok}
use pykafka.Struct.{Field, uint8, int32, uint32, text, pack, fits, word, of_word}
use pykafka.Struct.{int as int_field}
use pykafka.Struct.Pack.{cat, cat-nil, pack-append}
use pykafka.Crc.{crc32}
use pykafka.Unpack.{Value, Values, int, bytes, null, tuple, nil, cons, unwrap}
use pykafka.Unpack.Schema.{Schemas, num, blob, end, also, encode, encode_all, show, counted_bytes}
use pykafka.Unpack.RoundTrip.{unpack_from-encode}
use pykafka.Protocol.Message.{
  Message, message_fields, optional_length, length_or_null, or_empty, decode_message, from_fields,
}
use pykafka.Protocol.Message.Bytes.{message_bytes}

word-of_word :
    (w : ℕ)
    → w < 2 ^ 32
    → (fits int32 (of_word int32 w) ≡ true) × (word int32 (of_word int32 w) ≡ w)
unfolding word of_word
word-of_word w h = ground arith

-- The four bytes of an unsigned number are those of the signed number that they stand for.
pack-signed :
    (w : ℕ)
    → w < 2 ^ 32
    → pack (int_field uint32 (pos w) ∷ []) ≡ pack (int_field int32 (of_word int32 w) ∷ [])
unfolding pack
pack-signed w h =
    let (in_range, same) = word-of_word w h in rw (lt→ltb w (2 ^ 32) h, in_range, same)

abbrev optional_value : Option (List ℕ) → Value
optional_value none = null
optional_value (some s) = bytes s

abbrev counted_field : Option (List ℕ) → List Field
counted_field o = int_field int32 (length_or_null o) ∷ text (optional_length o) (or_empty o) ∷ []

counted_fields :
    (o : Option (List ℕ)) → pack (counted_field o) ≡ counted_bytes int32 (optional_value o)
counted_fields none = unfold pack in refl
counted_fields (some s) = refl

-- 'iBBYY'
abbrev message_schema : Schemas
message_schema = also (num int32) (also (num uint8) (also (num uint8) (also blob (also blob end))))

abbrev message_values : Message → ℕ → Values
message_values m crc = cons (int (of_word int32 crc)) (
    cons (int (pos 0)) (
      cons (int (pos m.compression_type))
        (cons (optional_value m.partition_key) (cons (optional_value m.value) nil))))

-- What `decode` makes of a message: its content, with the offset and the partition that it is given.
abbrev pub received : Message → ℤ → ℤ → Message
received m msg_offset partition_id = record m {
  offset = msg_offset;
  partition_id = partition_id;
  produce_attempt = 0;
}

encode-message :
    (m : Message) (tail : List ℕ)
    → pack (message_fields m) ≡ ok tail
    → encode_all message_schema (message_values m (crc32 tail % 2 ^ 32)) ≡ message_bytes m
unfolding encode message_bytes
encode-message m tail h =
    let zero_byte : List Field = int_field uint8 (pos 0) ∷ [] in
    let attribute : List Field = int_field uint8 (pos m.compression_type) ∷ [] in
    let key = counted_field m.partition_key in
    let value = counted_field m.value in
    let split =
      pack-append zero_byte (attribute ++ (key ++ value))
      ∙ ap (cat (pack zero_byte)) (
          pack-append attribute (key ++ value)
          ∙ ap (cat (pack attribute)) (pack-append key value)) in
    let same_tail =
      ap (cat (pack zero_byte)) (
        ap (cat (pack attribute)) (
          ap₂ cat (sym (counted_fields m.partition_key))
            (cat-nil _ ∙ sym (counted_fields m.value))))
      ∙ sym split
      ∙ h in
    ap₂ cat (sym (pack-signed (crc32 tail % 2 ^ 32) (omega arith))) same_tail ∙ rw h

from_fields-message :
    (m : Message) (crc : ℕ) (msg_offset partition_id : ℤ)
    → from_fields (tuple (message_values m crc)) msg_offset partition_id
      ≡ ok (received m msg_offset partition_id)
unfolding from_fields
from_fields-message m crc msg_offset partition_id = ground arith

tail_of :
    (m : Message) (content : List ℕ)
    → message_bytes m ≡ ok content
    → (tail : List ℕ) × (pack (message_fields m) ≡ ok tail)
unfolding message_bytes
tail_of m content h = let (tail, et, h1) = >>=-eq-ok (pack (message_fields m)) _ h in (tail, et)

-- Message.decode returns the key, the value and the compression of the message that `pack_into` wrote,
-- with None where they are None, whatever follows it in the buffer.
pub decode_message-bytes :
    (m : Message) (content rest : List ℕ) (msg_offset partition_id : ℤ)
    → message_bytes m ≡ ok content
    → decode_message (content ++ rest) msg_offset partition_id
      ≡ ok (received m msg_offset partition_id)
unfolding decode_message unwrap show
decode_message-bytes m content rest msg_offset partition_id h =
    let (tail, et) = tail_of m content h in
    rw
      (unpack_from-encode message_schema _ (message_values m (crc32 tail % 2 ^ 32)) content rest
        refl (encode-message m tail et ∙ h))
      (from_fields-message m (crc32 tail % 2 ^ 32) msg_offset partition_id)
