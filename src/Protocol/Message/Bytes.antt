-- ===== src/Protocol/Message/Bytes.antt =====
-- What `Message.pack_into` writes.
use pykafka.Prelude.{
  ℕ, ◌+◌, ◌≡◌, refl, sym, ◌∙◌, arith, List, ◌++◌, append_assoc, length, inl, inr, length-append,
  take, drop, take-append, drop-append,
}
use pykafka.Result.{Result, Error, struct_error, ok, err, ◌>>=◌, Result-cases, >>=-eq-ok}
use pykafka.Struct.{pack, calcsize, pack_into}
use pykafka.Struct.Pack.{
  cat, cat_fails, pack_fails, length-pack, pack_into-zeros, pack_into-append, zeros, zeros-add,
}
use pykafka.Writer.{advance, ◌>>>◌}
use pykafka.Writer.Writes.{Writes, at_end}
use pykafka.Protocol.Message.{Message, message_length, message_fields, crc_fields, pack_message}

-- Crc MagicByte Attributes Key Value: the checksum of all that follows it, then what follows it.
unfoldable pub message_bytes : Message → Result (List ℕ)
message_bytes m = pack (message_fields m) >>= λ tail. cat (pack (crc_fields tail)) (ok tail)

pub message_length-calcsize : (m : Message) → message_length m ≡ 4 + calcsize (message_fields m)
unfolding message_length
message_length-calcsize m = ground arith

-- `len(message)` is the number of bytes that the message takes.
pub length-message_bytes :
    (m : Message) (bytes : List ℕ) → message_bytes m ≡ ok bytes → length bytes ≡ message_length m
unfolding message_bytes
length-message_bytes m bytes h =
    let (tail, et, h1) = >>=-eq-ok (pack (message_fields m)) _ h in
    let (crc, ec, h2) = >>=-eq-ok (pack (crc_fields tail)) _ h1 in
    let e : crc ++ tail ≡ bytes = cc in
    rw (← e) (
      length-append crc tail
      ∙ omega (
        arith,
        length-pack (message_fields m) tail et,
        length-pack (crc_fields tail) crc ec,
        message_length-calcsize m,
      ))

module _ (m : Message) (done : List ℕ) (r : ℕ) where
  abbrev tail_size : ℕ
  tail_size = calcsize (message_fields m)

  abbrev after_crc : length done + 4 ≡ length (done ++ zeros 4)
  after_crc = sym (length-append done (zeros 4))

  -- The buffer between the two writes.
  abbrev between : List ℕ → List ℕ
  between tail = done ++ zeros 4 ++ tail ++ zeros r

  tail_written :
      pack_into (message_fields m) (done ++ zeros (message_length m + r)) (length done + 4)
      ≡ (pack (message_fields m) >>= λ tail. ok (between tail))
  tail_written =
      let e : message_length m + r ≡ 4 + (tail_size + r) =
        omega (arith, message_length-calcsize m) in
      rw
        (
          e,
          zeros-add 4 (tail_size + r),
          ← append_assoc done (zeros 4) (zeros (tail_size + r)),
          after_crc,
        )
        (pack_into-zeros (message_fields m) (done ++ zeros 4) r)

  tail_read :
      (tail : List ℕ)
      → length tail ≡ calcsize (message_fields m)
      → take (calcsize (message_fields m)) (drop (length done + 4) (between tail)) ≡ tail
  tail_read tail e =
      rw (append_assoc (done ++ zeros 4) tail (zeros r), after_crc, drop-append, ← e, take-append)

  crc_written :
      (tail : List ℕ)
      → pack_into (crc_fields tail) (between tail) (length done)
        ≡ (pack (crc_fields tail) >>= λ crc. ok (done ++ (crc ++ tail) ++ zeros r))
  crc_written tail =
      rw
        (
          append_assoc (done ++ zeros 4) tail (zeros r),
          append_assoc done (zeros 4) (tail ++ zeros r),
          pack_into-append (crc_fields tail) done (zeros 4) (tail ++ zeros r) refl,
        )
        (elim (Result-cases (pack (crc_fields tail))) [
          | inl (crc, p) ↦ rw p (simp append_assoc)
          | inr (x, p) ↦ rw p
        ])

  pack_message_runs :
      (pack_message m >>> advance (message_length m)) (at_end done (message_length m + r))
      ≡ (message_bytes m >>= λ bytes. ok (at_end (done ++ bytes) r))
  unfolding pack_message message_bytes advance ◌>>>◌
  pack_message_runs = rw tail_written (elim (Result-cases (pack (message_fields m))) [
    | inl (tail, p) ↦
        rw (p, tail_read tail (length-pack (message_fields m) tail p), crc_written tail)
          (elim (Result-cases (pack (crc_fields tail))) [
            | inl (crc, q) ↦
                let sized = length-message_bytes m (crc ++ tail) (rw (p, q)) in
                let e : length done + message_length m ≡ length (done ++ (crc ++ tail)) =
                  omega (arith, length-append done (crc ++ tail), sized) in
                rw (q, e)
            | inr (x, q) ↦ rw q
          ])
    | inr (x, p) ↦ rw p
  ])

message_bytes_fails : (m : Message) (x : Error) → message_bytes m ≡ err x → x ≡ struct_error
unfolding message_bytes
message_bytes_fails m x h = elim (Result-cases (pack (message_fields m))) [
  | inl (tail, p) ↦
      let e : cat (pack (crc_fields tail)) (ok tail) ≡ err x = rw p at h in
      cat_fails (pack (crc_fields tail)) (ok tail) (pack_fails (crc_fields tail)) (λ y q. cc) x e
  | inr (y, p) ↦
      let e : ◌≡◌ {A = Result (List ℕ)} (err y) (err x) = rw p at h in
      pack_fails (message_fields m) x (p ∙ e)
]

-- `Message.pack_into` writes the checksum, and behind it the bytes that it is the checksum of.
pub Writes-message :
    (m : Message)
    → Writes (pack_message m >>> advance (message_length m)) (message_length m) (message_bytes m)
Writes-message m = record {
  sized = length-message_bytes m;
  fails = message_bytes_fails m;
  runs = pack_message_runs m;
}
