-- ===== src/Protocol/MessageSet/RoundTrip.antt =====
-- MessageSet.decode on what a broker sends: entries, the last of which may be cut off.
use pykafka.Prelude.{
  ℕ, zero, suc, ℤ, pos, ◌+◌, ◌<◌, ◌≡◌, refl, sym, ◌∙◌, arith, Bool, true, false, ◌||◌, leb, List,
  [], ◌∷◌, ◌++◌, map, length, take, if◌then◌else◌, append_assoc, append-nil, length-append,
}
use pykafka.Result.{Result, ok, err, no_messages_consumed, >>=-eq-ok}
use pykafka.Unpack.Reading.{Holds, Holds-first, Holds-then}
use pykafka.Writer.Writes.{cat_all}
use pykafka.Protocol.Message.{Message, none_type}
use pykafka.Protocol.Message.RoundTrip.{received}
use pykafka.Protocol.MessageSet.{MessageSet, message_set}
use pykafka.Protocol.MessageSet.Decode.{decode_loop, finish, decode_message_set}
use pykafka.Protocol.MessageSet.Entries.{
  stored_length, Holds-nil, decode_step-stored, decode_step-cut,
}
use pykafka.Protocol.MessageSet.Entries.{stored_bytes}

-- `attempted` after these entries.
abbrev tried : Bool → List (ℤ × Message) → Bool
tried attempted [] = attempted
tried attempted (e ∷ es) = tried true es

module _ (partition_id : ℤ) (last : ℤ × Message) (x : List ℕ) (k : ℕ) where
  decode_loop-stored :
      stored_bytes last ≡ ok x
      → k < length x
      → (es : List (ℤ × Message)) (n : ℕ) {buff : List ℕ} {offset : ℕ} (content : List ℕ)
        (attempted : Bool) (messages : List Message)
      → cat_all stored_bytes es ≡ ok content
      → Holds buff offset content (take k x)
      → length content < n
      → decode_loop n buff partition_id (pos offset) attempted messages
        ≡ ok (
          messages ++ map (λ e. received e.1 e.0 partition_id) es,
          tried attempted es || leb 12 k,
        )
  unfolding decode_loop
  decode_loop-stored hx less es zero content attempted messages h holds f = absurd (omega arith)
  decode_loop-stored hx less [] (suc n) {buff} {offset} content attempted messages h holds f =
      let e : [] ≡ content = cc in
      let cut : Holds buff offset (take k x) [] = Holds-nil (rw e holds) in
      rw (decode_step-cut partition_id last x k hx less cut, append-nil messages)
  decode_loop-stored hx less (e ∷ es) (suc n) {buff} {offset} content attempted messages h holds f =
      let (y, ey, h1) = >>=-eq-ok (stored_bytes e) _ h in
      let (z, ez, h2) = >>=-eq-ok (cat_all stored_bytes es) _ h1 in
      let parts : y ++ z ≡ content = cc in
      let whole : Holds buff offset (y ++ z) (take k x) = rw parts holds in
      let message : Message = received e.1 e.0 partition_id in
      let step = decode_step-stored partition_id e y ey (Holds-first y z whole) in
      let size : length y + length z ≡ length content = rw (← parts) (sym (length-append y z)) in
      rw step (
        decode_loop-stored hx less es n z true (messages ++ message ∷ []) ez (Holds-then y z whole)
          (omega (arith, stored_length e y ey))
        ∙ rw (append_assoc messages (message ∷ []) (map (λ e. received e.1 e.0 partition_id) es)))

-- What decoding gives: the messages of the entries that are whole, or NoMessagesConsumedError where
-- there are none and a header was there to be read.
abbrev pub decoded : List (ℤ × Message) → ℕ → ℤ → Result MessageSet
decoded [] k partition_id =
    if leb 12 k then err no_messages_consumed else ok (message_set none_type [])
decoded (e ∷ es) k partition_id =
    ok (message_set none_type (map (λ e. received e.1 e.0 partition_id) (e ∷ es)))

finish-decoded :
    (es : List (ℤ × Message)) (k : ℕ) (partition_id : ℤ)
    → finish (map (λ e. received e.1 e.0 partition_id) es, tried false es || leb 12 k)
      ≡ decoded es k partition_id
unfolding finish
finish-decoded [] k partition_id = refl
finish-decoded (e ∷ es) k partition_id = ground arith

-- MessageSet.decode, on the bytes of any entries followed by the first `k` bytes of another one that is
-- cut off, returns the messages of the whole entries, with their offsets, and raises
-- NoMessagesConsumedError exactly where there is no whole entry and 12 bytes or more of the other one.
pub decode_message_set-stored :
    (es : List (ℤ × Message)) (last : ℤ × Message) (content x : List ℕ) (k : ℕ) (partition_id : ℤ)
    → cat_all stored_bytes es ≡ ok content
    → stored_bytes last ≡ ok x
    → k < length x
    → decode_message_set (content ++ take k x) partition_id ≡ decoded es k partition_id
unfolding decode_message_set
decode_message_set-stored es last content x k partition_id h hx less =
    let buff : List ℕ = content ++ take k x in
    let here : Holds buff 0 content (take k x) = record {
      fits = omega (arith, length-append content (take k x));
      at = refl;
    } in
    let run =
      decode_loop-stored partition_id last x k hx less es (suc (length buff)) content false [] h
        here (omega (arith, length-append content (take k x))) in
    rw run (finish-decoded es k partition_id)
