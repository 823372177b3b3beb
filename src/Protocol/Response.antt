-- ===== src/Protocol/Response.antt =====
-- pykafka/protocol.py: the responses, from the values that `struct_helpers.unpack_from` returns.
pub mod Encoded
pub mod Read
pub mod Partitions
pub mod Fetched
pub mod Unpacked
pub mod Brokers
use pykafka.Prelude.{
  ℕ, ℤ, pos, negsuc, Bool, true, false, ◌||◌, Option, none, some, List, [], ◌∷◌, ◌++◌, eq_ℤ,
  if◌then◌else◌,
}
use pykafka.Result.{Result, ok, err, Error, value_error, type_error, key_error, protocol, ◌>>=◌}
use pykafka.Dict.{Eq, Dict, insert, bytes_eq, int_eq, text_eq}
use pykafka.Unpack.{Value, Values, int, bytes, null, tuple, list, nil, cons, unpack_from}
use pykafka.Protocol.Header.{codes}

-- A string of the protocol, which may be null.
abbrev pub Text : Type 0
Text = Option (List ℕ)

abbrev pub as_int : Value → Result ℤ
as_int (int z) = ok z
as_int v = err type_error

abbrev pub as_text : Value → Result Text
as_text null = ok none
as_text (bytes s) = ok (some s)
as_text v = err type_error

-- `for item in v: state = step(item, state)`
unfoldable pub for_values {ℓ} : {S : Type ℓ} → (Value → S → Result S) → Values → S → Result S
for_values step nil s = ok s
for_values step (cons v vs) s = do s' ← step v s; for_values step vs s'

abbrev pub for_items {ℓ} : {S : Type ℓ} → (Value → S → Result S) → Value → S → Result S
for_items step (list vs) s = for_values step vs s
for_items step (tuple vs) s = for_values step vs s
for_items step v s = err type_error

-- The keys of ERROR_CODES in pykafka/exceptions.py.
abbrev pub is_error_code : ℤ → Bool
is_error_code (negsuc n) = eq_ℤ (negsuc n) (negsuc 0)
is_error_code z =
    eq_ℤ z (pos 1)
    || eq_ℤ z (pos 2)
    || eq_ℤ z (pos 3)
    || eq_ℤ z (pos 4)
    || eq_ℤ z (pos 5)
    || eq_ℤ z (pos 6)
    || eq_ℤ z (pos 7)
    || eq_ℤ z (pos 10)
    || eq_ℤ z (pos 12)
    || eq_ℤ z (pos 14)
    || eq_ℤ z (pos 15)
    || eq_ℤ z (pos 16)

-- Response.raise_error
unfoldable pub raise_error {ℓ} : {A : Type ℓ} → ℤ → Result A
raise_error code = if is_error_code code then err (protocol code) else err key_error

module _ {ℓ} {A : Type ℓ} (read_partition : Value → Result (ℤ × A)) where
  unfoldable pub store_partition : Value → Dict ℤ A → Result (Dict ℤ A)
  store_partition v d = do (id, a) ← read_partition v; ok (insert id a d)

  -- `self.topics[topic] = {}`, then an entry for each partition.
  unfoldable pub store_topic : Value → Dict Text (Dict ℤ A) → Result (Dict Text (Dict ℤ A))
  store_topic (tuple (cons topic (cons partitions nil))) d = do
    name ← as_text topic
    parts ← for_items store_partition partitions []
    ok (insert name parts d)
  store_topic v d = err value_error

  -- The loop of most responses.
  unfoldable pub read_topics : Value → Result (Dict Text (Dict ℤ A))
  read_topics v = for_items store_topic v []

-- A partition of a response, by its format.
unfoldable pub read_produce : Value → Result (ℤ × (ℤ × ℤ))
read_produce (tuple (cons (int id) (cons (int error) (cons (int offset) nil)))) =
    ok (id, (error, offset))
read_produce v = err type_error

unfoldable pub read_commit : Value → Result (ℤ × ℤ)
read_commit (tuple (cons (int id) (cons (int error) nil))) = ok (id, error)
read_commit v = err type_error

unfoldable pub read_offset_fetch : Value → Result (ℤ × (ℤ × (Text × ℤ)))
read_offset_fetch
      (tuple (cons (int id) (cons (int offset) (cons metadata (cons (int error) nil))))) =
    do s ← as_text metadata; ok (id, (offset, (s, error)))
read_offset_fetch v = err type_error

unfoldable pub read_int : Value → List ℤ → Result (List ℤ)
read_int v zs = do z ← as_int v; ok (zs ++ z ∷ [])

unfoldable pub read_offsets : Value → Result (ℤ × (List ℤ × ℤ))
read_offsets (tuple (cons (int id) (cons (int error) (cons offsets nil)))) = do
  zs ← for_items read_int offsets []
  ok (id, (zs, error))
read_offsets v = err type_error

-- ProduceResponse.__init__: error and offset by topic and partition.
unfoldable pub produce_response : List ℕ → Result (Dict Text (Dict ℤ (ℤ × ℤ)))
produce_response buff = do
  response ← unpack_from (codes "[S [ihq] ]") buff 0
  read_topics read_produce response

-- OffsetResponse.__init__: offsets and error by topic and partition.
unfoldable pub offset_response : List ℕ → Result (Dict Text (Dict ℤ (List ℤ × ℤ)))
offset_response buff = do
  response ← unpack_from (codes "[S [ih [q] ] ]") buff 0
  read_topics read_offsets response

-- OffsetCommitResponse.__init__: the error by topic and partition.
unfoldable pub offset_commit_response : List ℕ → Result (Dict Text (Dict ℤ ℤ))
offset_commit_response buff = do
  response ← unpack_from (codes "[S [ih ] ]") buff 0
  read_topics read_commit response

-- OffsetFetchResponse.__init__: offset, metadata and error by topic and partition.
unfoldable pub offset_fetch_response : List ℕ → Result (Dict Text (Dict ℤ (ℤ × (Text × ℤ))))
offset_fetch_response buff = do
  response ← unpack_from (codes "[S [iqSh ] ]") buff 0
  read_topics read_offset_fetch response
