-- ===== src/Protocol/Response/Fetched.antt =====
-- pykafka/protocol.py: FetchResponse, and the message sets nested in its messages.
use pykafka.Prelude.{ℕ, zero, suc, ℤ, List, [], ◌∷◌, ◌++◌, if◌then◌else◌, ◌==◌}
use pykafka.Result.{Result, ok, err, type_error, value_error, out_of_fuel, ◌>>=◌}
use pykafka.Dict.{Dict, insert, get_default, int_eq, text_eq}
use pykafka.Unpack.{Value, int, bytes, tuple, nil, cons, unpack_from}
use pykafka.Compression.{Codec, decode_snappy}
use pykafka.Protocol.Header.{codes}
use pykafka.Protocol.Message.{Message, none_type, gzip_type, snappy_type, or_empty}
use pykafka.Protocol.MessageSet.Decode.{decode_message_set}
use pykafka.Protocol.Response.{Text, as_text, for_items}

-- The named tuple `FetchPartitionResponse`.
pub record FetchPartitionResponse : Type 0 where
  pub max_offset : ℤ
  pub messages : List Message
  pub error : ℤ

module _ (c : Codec) where
  -- One round of the loop in _unpack_message_set, given the recursive call: what is added to `output`.
  -- A message whose compression is unknown adds nothing. Reading gzip from None reads nothing.
  unfoldable pub expand_message : (List ℕ → Result (List Message)) → Message → Result (List Message)
  expand_message rec message =
      if message.compression_type == none_type
      then ok (message ∷ [])
      else if message.compression_type == gzip_type
      then (c.gzip_decompress (or_empty message.value) >>= rec)
      else if message.compression_type == snappy_type
      then (decode_snappy c message.value >>= rec)
      else ok []

  -- The loop.
  unfoldable pub expand : (List ℕ → Result (List Message)) → List Message → Result (List Message)
  expand rec [] = ok []
  expand rec (message ∷ messages) = do
    output ← expand_message rec message
    rest ← expand rec messages
    ok (output ++ rest)

  -- _unpack_message_set. `depth` is the interpreter's limit on recursion.
  unfoldable pub unpack_message_set : ℕ → List ℕ → ℤ → Result (List Message)
  unpack_message_set zero buff partition_id = err out_of_fuel
  unpack_message_set (suc depth) buff partition_id =
      decode_message_set buff partition_id >>= λ message_set.
      expand (λ b. unpack_message_set depth b partition_id) message_set.contents

  -- What the inner loop makes of a partition.
  unfoldable pub read_fetched : ℕ → Value → Result (ℤ × FetchPartitionResponse)
  read_fetched depth
        (tuple (cons (int id) (cons (int error) (cons (int max_offset) (cons (bytes buff) nil))))) =
      do
        messages ← unpack_message_set depth buff id
        ok (id, record { max_offset = max_offset; messages = messages; error = error })
  read_fetched depth v = err type_error

  -- `self.topics[topic][partition[0]] = ...` of a default dict.
  unfoldable pub store_fetched :
      ℕ
      → Text
      → Value
      → Dict Text (Dict ℤ FetchPartitionResponse)
      → Result (Dict Text (Dict ℤ FetchPartitionResponse))
  store_fetched depth topic v d = do
    (id, response) ← read_fetched depth v
    ok (insert topic (insert id response (get_default [] topic d)) d)

  unfoldable pub store_fetched_topic :
      ℕ
      → Value
      → Dict Text (Dict ℤ FetchPartitionResponse)
      → Result (Dict Text (Dict ℤ FetchPartitionResponse))
  store_fetched_topic depth (tuple (cons topic (cons partitions nil))) d = do
    name ← as_text topic
    for_items (store_fetched depth name) partitions d
  store_fetched_topic depth v d = err value_error

  -- FetchResponse.__init__
  unfoldable pub fetch_response : ℕ → List ℕ → Result (Dict Text (Dict ℤ FetchPartitionResponse))
  fetch_response depth buff = do
    response ← unpack_from (codes "[S [ihqY] ]") buff 0
    for_items (store_fetched_topic depth) response []
