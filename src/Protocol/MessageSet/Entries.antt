-- ===== src/Protocol/MessageSet/Entries.antt =====
-- A round of MessageSet.decode on an entry, whole or cut off.
use pykafka.Prelude.{
  ℕ, zero, suc, ℤ, pos, ◌+◌, ◌-◌, ◌<◌, ◌≤◌, ◌≡◌, sym, ap, ◌∙◌, arith, true, false, leb, List, [],
  ◌∷◌, ◌++◌, length, take, append-nil, length-append,
}
use pykafka.Result.{Result, ok, >>=-eq-ok}
use pykafka.Struct.{int, int32, int64, pack, unpack_int}
use pykafka.Struct.Pack.{cat, pack-append}
use pykafka.Unpack.Reading.{Holds, Holds-first, Holds-then, unpack_int-Holds, slice-Holds}
use pykafka.Protocol.Message.{Message, message_length}
use pykafka.Protocol.Message.Bytes.{message_bytes, length-message_bytes}
use pykafka.Protocol.Message.RoundTrip.{received, decode_message-bytes}
use pykafka.Protocol.MessageSet.Decode.{
  read_header, header_at, stop, next, take_message, decode_step,
}
use pykafka.Prelude.{ltb}
use pykafka.Protocol.Message.{decode_message}
use pykafka.Prelude.{ -ℤ-pos}
use pykafka.Prelude.{+ℤ-pos}
use pykafka.Prelude.{length-take}
use pykafka.Prelude.{Bool-cases}
use pykafka.Prelude.{inl}
use pykafka.Prelude.{inr}

-- Offset MessageSize Message, with the offset that the broker gave the message.
abbrev pub stored_bytes : ℤ × Message → Result (List ℕ)
stored_bytes e =
    cat (pack (int int64 e.0 ∷ int int32 (pos (message_length e.1)) ∷ [])) (message_bytes e.1)

header_parts :
    (z size : ℤ) (header : List ℕ)
    → pack (int int64 z ∷ int int32 size ∷ []) ≡ ok header
    → (x : List ℕ) × (y : List ℕ) × (pack (int int64 z ∷ []) ≡ ok x)
      × (pack (int int32 size ∷ []) ≡ ok y)
      × (x ++ y ≡ header)
header_parts z size header h =
    let split : cat (pack (int int64 z ∷ [])) (pack (int int32 size ∷ [])) ≡ ok header =
      sym (pack-append (int int64 z ∷ []) (int int32 size ∷ [])) ∙ h in
    let (x, ex, h1) = >>=-eq-ok (pack (int int64 z ∷ [])) _ split in
    let (y, ey, h2) = >>=-eq-ok (pack (int int32 size ∷ [])) _ h1 in (x, y, ex, ey, cc)

read_header-Holds :
    {buff : List ℕ} {offset : ℕ} (z size : ℤ) (header : List ℕ) {rest : List ℕ}
    → pack (int int64 z ∷ int int32 size ∷ []) ≡ ok header
    → Holds buff offset header rest
    → (read_header buff offset ≡ ok (z, size)) × (length header ≡ 12)
unfolding read_header
read_header-Holds {buff} {offset} z size header {rest} h holds =
    let (x, y, ex, ey, e) = header_parts z size header h in
    let whole : Holds buff offset (x ++ y) rest = rw e holds in
    let (first, n) = unpack_int-Holds int64 z x ex (Holds-first x y whole) in
    let (second, m) = unpack_int-Holds int32 size y ey (Holds-then x y whole) in
    let here : unpack_int int32 buff (offset + 8) ≡ ok size = rw (← n) second in
    (rw (first, here), rw (← e) (omega (arith, length-append x y)))

header_length :
    (z size : ℤ) (header : List ℕ)
    → pack (int int64 z ∷ int int32 size ∷ []) ≡ ok header
    → length header ≡ 12
header_length z size header h =
    let here : Holds header 0 header [] = record {
      fits = omega arith;
      at = sym (append-nil header);
    } in
    (read_header-Holds z size header h here).1

-- An entry is longer than its header.
pub stored_length :
    (e : ℤ × Message) (content : List ℕ) → stored_bytes e ≡ ok content → 12 ≤ length content
stored_length e content h =
    let (header, eh, h1) =
      >>=-eq-ok (pack (int int64 e.0 ∷ int int32 (pos (message_length e.1)) ∷ [])) _ h in
    let (m, em, h2) = >>=-eq-ok (message_bytes e.1) _ h1 in
    let parts : header ++ m ≡ content = cc in
    rw (← parts) (
      omega (arith, header_length e.0 (pos (message_length e.1)) header eh, length-append header m))

pub Holds-nil :
    {buff : List ℕ} {offset : ℕ} {rest : List ℕ}
    → Holds buff offset [] rest
    → Holds buff offset rest []
Holds-nil {rest = rest} h = record {
  fits = omega (arith, h.fits);
  at = h.at ∙ sym (append-nil rest);
}

-- A message of the size that its entry says is taken whole.
take_message-Holds :
    {buff : List ℕ} {offset : ℕ} (partition_id z : ℤ) (m : Message) (content : List ℕ)
    {rest : List ℕ}
    → message_bytes m ≡ ok content
    → Holds buff offset content rest
    → take_message buff partition_id (pos offset) (z, pos (length content))
      ≡ ok (next (received m z partition_id) (pos (offset + length content)))
unfolding take_message
take_message-Holds {buff} {offset} partition_id z m content {rest} h holds =
    let room : ltb (length buff - offset + 0) (length content + 0) ≡ false =
      ground (arith, holds.fits) in
    let whole : decode_message content z partition_id ≡ ok (received m z partition_id) =
      rw (← append-nil content) (decode_message-bytes m content [] z partition_id h) in
    rw (
      -ℤ-pos (length buff) offset (omega (arith, holds.fits)),
      room,
      +ℤ-pos offset (length content),
      slice-Holds content holds,
      whole,
    )

pub decode_step-stored :
    {buff : List ℕ} {offset : ℕ} (partition_id : ℤ) (e : ℤ × Message) (content : List ℕ)
    {rest : List ℕ}
    → stored_bytes e ≡ ok content
    → Holds buff offset content rest
    → decode_step buff partition_id (pos offset)
      ≡ ok (next (received e.1 e.0 partition_id) (pos (offset + length content)))
unfolding decode_step header_at
decode_step-stored {buff} {offset} partition_id e content {rest} h holds =
    let (header, eh, h1) =
      >>=-eq-ok (pack (int int64 e.0 ∷ int int32 (pos (message_length e.1)) ∷ [])) _ h in
    let (m, em, h2) = >>=-eq-ok (message_bytes e.1) _ h1 in
    let parts : header ++ m ≡ content = cc in
    let whole : Holds buff offset (header ++ m) rest = rw parts holds in
    let (read, n) =
      read_header-Holds e.0 (pos (message_length e.1)) header eh (Holds-first header m whole) in
    let sized : length m ≡ message_length e.1 = length-message_bytes e.1 m em in
    let there : Holds buff (offset + 12) m rest = rw (← n) (Holds-then header m whole) in
    let taken = take_message-Holds partition_id e.0 e.1 m em there in
    let inside : ltb (offset + 0) (length buff + 0) ≡ true = ground (arith, there.fits) in
    let room : ltb (length buff - offset + 0) (12 + 0) ≡ false = ground (arith, there.fits) in
    let sum : offset + 12 + length m ≡ offset + length content =
      rw (← parts) (omega (arith, length-append header m)) in
    rw (
      inside,
      -ℤ-pos (length buff) offset (omega (arith, there.fits)),
      room,
      read,
      +ℤ-pos offset 12,
      ← sized,
      taken,
      sum,
    )

take_more :
    (xs ys : List ℕ) (k : ℕ) → length xs ≤ k → take k (xs ++ ys) ≡ xs ++ take (k - length xs) ys
take_more [] ys k h = ap (λ (n : ℕ). take n ys) (omega arith)
take_more (x ∷ xs) ys zero h = absurd (omega arith)
take_more (x ∷ xs) ys (suc k) h =
    let same : suc k - suc (length xs) ≡ k - length xs = omega arith in
    rw same (ap (λ (l : List ℕ). x ∷ l) (take_more xs ys k (omega arith)))

-- What is left of an entry that was cut off after `k` bytes ends the loop.
pub decode_step-cut :
    {buff : List ℕ} {offset : ℕ} (partition_id : ℤ) (e : ℤ × Message) (content : List ℕ) (k : ℕ)
    → stored_bytes e ≡ ok content
    → k < length content
    → Holds buff offset (take k content) []
    → decode_step buff partition_id (pos offset) ≡ ok (stop (leb 12 k))
unfolding decode_step header_at take_message
decode_step-cut {buff} {offset} partition_id e content k h less holds =
    let left : length (take k content) ≡ k = omega (arith, length-take k content) in
    let ends : offset + k ≡ length buff = omega (arith, holds.fits) in
    elim (Bool-cases (leb 12 k)) [
      | inl p ↦
          let (header, eh, h1) =
            >>=-eq-ok (pack (int int64 e.0 ∷ int int32 (pos (message_length e.1)) ∷ [])) _ h in
          let (m, em, h2) = >>=-eq-ok (message_bytes e.1) _ h1 in
          let parts : header ++ m ≡ content = cc in
          let n = header_length e.0 (pos (message_length e.1)) header eh in
          let more : take k content ≡ header ++ take (k - length header) m =
            rw (← parts) (take_more header m k (ground (arith, n))) in
          let whole : Holds buff offset (header ++ take (k - length header) m) [] =
            rw (← more) holds in
          let read =
            (read_header-Holds e.0 (pos (message_length e.1)) header eh
              (Holds-first header _ whole)).0 in
          let sized : length m ≡ message_length e.1 = length-message_bytes e.1 m em in
          let size : length header + length m ≡ length content =
            rw (← parts) (sym (length-append header m)) in
          let inside : ltb (offset + 0) (length buff + 0) ≡ true = ground arith in
          let room : ltb (length buff - offset + 0) (12 + 0) ≡ false = ground arith in
          let short : ltb (length buff - (offset + 12) + 0) (message_length e.1 + 0) ≡ true =
            ground arith in
          rw (
            inside,
            -ℤ-pos (length buff) offset (omega arith),
            room,
            read,
            +ℤ-pos offset 12,
            -ℤ-pos (length buff) (offset + 12) (ground arith),
            short,
            p,
          )
      | inr p ↦
          let few : k < 12 = ground arith in
          let room : ltb (length buff - offset + 0) (12 + 0) ≡ true = ground arith in
          elim (Bool-cases (ltb (offset + 0) (length buff + 0))) [
            | inl q ↦ rw (q, -ℤ-pos (length buff) offset (omega arith), room, p)
            | inr q ↦ rw (q, p)
          ]
    ]
