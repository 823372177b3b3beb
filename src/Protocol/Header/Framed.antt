-- ===== src/Protocol/Header/Framed.antt =====
-- A request whose body fills the rest of the buffer is the header and the body, one behind the other.
use pykafka.Prelude.{
  ℕ, ℤ, pos, sub_ℕ, ◌+◌, ◌≡◌, refl, sym, ap, ◌∙◌, arith, List, [], ◌++◌, append-nil, length, inl,
  inr, length-replicate,
}
use pykafka.Result.{Result, ok, err, ◌>>=◌, Result-cases}
use pykafka.Struct.{Field, pack, calcsize}
use pykafka.Struct.Pack.{cat, pack_fails, length-pack, pack_into-zeros, zeros}
use pykafka.Writer.{Writer, advance, ◌>>>◌}
use pykafka.Writer.Writes.{Writes, at_end}
use pykafka.Protocol.Header.{header_fields, write_header, get_bytes}

-- Size ApiKey ApiVersion CorrelationId ClientId RequestMessage, where Size counts all that follows it:
-- the 17 bytes of the header behind it and the body.
abbrev pub frame : ℤ → ℤ → Result (List ℕ) → Result (List ℕ)
frame api_key api_version body = body >>= λ bytes.
    cat (pack (header_fields (pos (17 + length bytes)) api_key api_version (pos 0))) (ok bytes)

msglen : (m : ℕ) → sub_ℕ (length (zeros (21 + m))) 4 ≡ pos (17 + m)
msglen m = rw (length-replicate {A = ℕ} (21 + m) 0) (ground arith)

header-zeros :
    (m : ℕ) (api_key api_version : ℤ)
    → write_header api_key api_version (pos 0) (zeros (21 + m)) ≡ (
        pack (header_fields (pos (17 + m)) api_key api_version (pos 0)) >>= λ bytes.
        ok (bytes ++ zeros m))
unfolding write_header
header-zeros m api_key api_version =
    rw (msglen m) (pack_into-zeros (header_fields (pos (17 + m)) api_key api_version (pos 0)) [] m)

-- The last `offset +=` of a `get_bytes`, which some of them leave out, changes nothing.
pub get_bytes-advance :
    (w : Writer) (k n : ℕ) (api_key api_version : ℤ)
    → get_bytes n api_key api_version w ≡ get_bytes n api_key api_version (w >>> advance k)
unfolding get_bytes ◌>>>◌ advance
get_bytes-advance w k n api_key api_version =
    elim (Result-cases (write_header api_key api_version (pos 0) (zeros n))) [
      | inl (output, p) ↦ rw p (elim (Result-cases (w (record { buff = output; offset = 21 }))) [
        | inl (c, q) ↦ rw q
        | inr (x, q) ↦ rw q
      ])
      | inr (x, p) ↦ rw p
    ]

module _ {body : Writer} {m : ℕ} {spec : Result (List ℕ)} (h : Writes body m spec) where
  rest :
      (fs : List Field) (head : List ℕ)
      → pack fs ≡ ok head
      → calcsize fs ≡ 21
      → (body (record { buff = head ++ zeros m; offset = 21 }) >>= λ end. ok end.buff)
        ≡ (spec >>= λ bytes. ok (head ++ bytes))
  rest fs head p c = rw run (elim (Result-cases spec) [
    | inl (bytes, q) ↦ rw (q, append-nil (head ++ bytes))
    | inr (x, q) ↦ rw q
  ])
    where
      all_written : m + 0 ≡ m
      all_written = omega arith

      at_21 : length head ≡ 21
      at_21 = length-pack fs head p ∙ c

      run :
          body (record { buff = head ++ zeros m; offset = 21 })
          ≡ (spec >>= λ bytes. ok (at_end (head ++ bytes) 0))
      run = rw (all_written, at_21) at (h.runs head 0)

  -- A request whose `__len__` is right is its header and its body, one behind the other, and the
  -- length in front of it counts the rest.
  pub framed :
      (n : ℕ) (api_key api_version : ℤ)
      → n ≡ 21 + m
      → get_bytes n api_key api_version body ≡ frame api_key api_version spec
  unfolding get_bytes
  framed n api_key api_version e =
      let fields = header_fields (pos (17 + m)) api_key api_version (pos 0) in
      rw (e, header-zeros m api_key api_version)
        (elim (Result-cases (pack fields)) [
          | inl (head, p) ↦
              rw (p, rest fields head p refl)
                (elim (Result-cases spec) [
                  | inl (bytes, q) ↦ rw (q, h.sized bytes q, p)
                  | inr (x, q) ↦ rw q
                ])
          | inr (x, p) ↦ rw p (elim (Result-cases spec) [
            | inl (bytes, q) ↦ rw (q, h.sized bytes q, p)
            | inr (y, q) ↦ rw q (ap err (pack_fails fields x p ∙ sym (h.fails y q)))
          ])
        ])
