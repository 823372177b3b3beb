-- ===== src/Protocol/MessageSet/Decode.antt =====
-- MessageSet.decode, with Python's rules for offsets that are negative: the code takes sizes as they
-- come, so its offset can be.
use pykafka.Prelude.{
  ℕ, zero, suc, ℤ, pos, negsuc, ◌+◌, ◌-◌, ◌+ℤ◌, ◌-ℤ◌, ltb_ℤ, Bool, true, false, ◌||◌, ◌&&◌, not,
  leb, List, [], ◌∷◌, ◌++◌, length, if◌then◌else◌, ◌==◌,
}
use pykafka.Slice.{slice}
use pykafka.Result.{Result, ok, err, struct_error, no_messages_consumed, out_of_fuel, ◌>>=◌}
use pykafka.Struct.{int32, int64, unpack_int}
use pykafka.Protocol.Message.{Message, none_type, decode_message}
use pykafka.Protocol.MessageSet.{MessageSet, message_set}

-- struct.unpack_from('!qi', buff, offset)
unfoldable pub read_header : List ℕ → ℕ → Result (ℤ × ℤ)
read_header buff offset = do
  msg_offset ← unpack_int int64 buff offset
  size ← unpack_int int32 buff (offset + 8)
  ok (msg_offset, size)

-- A negative offset counts from the end, and must not reach behind the start.
unfoldable pub header_at : List ℕ → ℤ → Result (ℤ × ℤ)
header_at buff (pos n) = read_header buff n
header_at buff (negsuc n) =
    if leb (suc n) (length buff) then read_header buff (length buff - suc n) else err struct_error

-- What a round of the loop does: `break`, with whether a header was read, or append a message and move
-- to an offset.
pub data Step : Type 0 where
  stop : Bool → Step
  next : Message → ℤ → Step

-- From `if len(buff) - offset < size` on.
unfoldable pub take_message : List ℕ → ℤ → ℤ → ℤ × ℤ → Result Step
take_message buff partition_id offset (msg_offset, size) =
    if ltb_ℤ (pos (length buff) -ℤ offset) size
    then ok (stop true)
    else (decode_message (slice buff offset (offset +ℤ size)) msg_offset partition_id >>= λ message.
        ok (next message (offset +ℤ size)))

-- One round of the loop. Where its condition is false it stops, as it does with less than 12 bytes.
unfoldable pub decode_step : List ℕ → ℤ → ℤ → Result Step
decode_step buff partition_id offset =
    if not (ltb_ℤ offset (pos (length buff))) || ltb_ℤ (pos (length buff) -ℤ offset) (pos 12)
    then ok (stop false)
    else (header_at buff offset >>= take_message buff partition_id (offset +ℤ pos 12))

-- The loop: the messages, and `attempted`.
unfoldable pub decode_loop : ℕ → List ℕ → ℤ → ℤ → Bool → List Message → Result (List Message × Bool)
decode_loop zero buff partition_id offset attempted messages = err out_of_fuel
decode_loop (suc n) buff partition_id offset attempted messages =
    decode_step buff partition_id offset >>= λ step. elim step [
      | stop header_read ↦ ok (messages, attempted || header_read)
      | next message offset' ↦
          decode_loop n buff partition_id offset' true (messages ++ message ∷ [])
    ]

-- After the loop.
unfoldable pub finish : List Message × Bool → Result MessageSet
finish (messages, attempted) =
    if length messages == 0 && attempted
    then err no_messages_consumed
    else ok (message_set none_type messages)

-- Sizes that are not negative move the offset on by 12 at least, so the length of the buffer is fuel
-- enough for them.
unfoldable pub decode_message_set : List ℕ → ℤ → Result MessageSet
decode_message_set buff partition_id =
    decode_loop (suc (length buff)) buff partition_id (pos 0) false [] >>= finish
