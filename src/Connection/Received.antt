-- ===== src/Connection/Received.antt =====
-- A response that arrives in pieces.
use pykafka.Prelude.{
  ℕ, zero, suc, ◌+◌, ◌-◌, ◌<◌, ◌≤◌, ltb, ◌≡◌, refl, sym, ap, ◌∙◌, arith, Bool-cases, some, List, [],
  ◌∷◌, ◌++◌, true, false, ◌==◌, append-nil, append_assoc, length, length-append, length-take,
  length-drop, take, drop, take-drop, take-append, All, lt→ltb,
}
use pykafka.Result.{ok}
use pykafka.Connection.{
  Arrival, chunk, io_error, Socket, recv, received, assign, Outcome, recvall_from, receive_size,
}
use pykafka.Prelude.{inl}
use pykafka.Prelude.{inr}
use pykafka.Connection.{false}
use pykafka.Connection.{true}

-- All that a socket has still to give.
abbrev pub stream : Socket → List ℕ
stream [] = []
stream (chunk bytes ∷ rest) = bytes ++ stream rest
stream (io_error ∷ rest) = stream rest

-- A piece has a byte at least, and nothing fails.
abbrev pub IsPiece : Arrival → Type 0
IsPiece (chunk bytes) = 0 < length bytes
IsPiece io_error = 1 < 0

-- What one `recv` of such a socket does.
record Piece (n : ℕ) (socket : Socket) : Type 0 where
  bytes : List ℕ
  some_byte : 0 < length bytes
  few : length bytes ≤ n
  arrived : received (recv n socket).0 ≡ ok bytes
  same : bytes ++ stream (recv n socket).1 ≡ stream socket
  pieces : All IsPiece (recv n socket).1

received-some : (bytes : List ℕ) → 0 < length bytes → received (some bytes) ≡ ok bytes
received-some [] h = absurd (omega arith)
received-some (b ∷ bytes) h = refl

recv-Piece :
    (n : ℕ) (socket : Socket)
    → 0 < n
    → All IsPiece socket
    → 0 < length (stream socket)
    → Piece n socket
unfolding recv
recv-Piece n [] h pieces more = absurd (omega arith)
recv-Piece n (io_error ∷ rest) h (p, pieces) more = absurd (omega arith)
recv-Piece n (chunk bytes ∷ rest) h (p, pieces) more = elim (Bool-cases (ltb n (length bytes))) [
  | inl q ↦
      let short : length (take n bytes) ≡ n = ground (arith, length-take n bytes) in
      record {
        bytes = take n bytes;
        some_byte = omega (arith, short);
        few = omega (arith, short);
        arrived = rw q (received-some (take n bytes) (omega (arith, short)));
        same = rw q (
            sym (append_assoc (take n bytes) (drop n bytes) (stream rest))
            ∙ rw (take-drop n bytes));
        pieces = rw q (ground (arith, length-drop n bytes), pieces);
      }
  | inr q ↦ record {
    bytes = bytes;
    some_byte = p;
    few = ground arith;
    arrived = rw q (received-some bytes p);
    same = rw q;
    pieces = rw q pieces;
  }
]

-- A piece that is not longer than what is needed is its front.
split_need :
    (bytes later need rest : List ℕ)
    → bytes ++ later ≡ need ++ rest
    → length bytes ≤ length need
    → (need' : List ℕ) × (bytes ++ need' ≡ need) × (later ≡ need' ++ rest)
split_need [] later need rest e h = (need, refl, e)
split_need (b ∷ bytes) later [] rest e h = absurd (omega arith)
split_need (b ∷ bytes) later (x ∷ need) rest e h =
    let tails : bytes ++ later ≡ need ++ rest = cc in
    let less : length bytes ≤ length need = omega arith in
    let (need', front, back) = split_need bytes later need rest tails less in
    let same : b ≡ x = cc in (need', rw (same, front), back)

take-assign :
    (bytea : List ℕ) (offset : ℕ) (bytes : List ℕ)
    → offset ≤ length bytea
    → take (offset + length bytes) (assign bytea offset bytes) ≡ take offset bytea ++ bytes
take-assign bytea offset bytes h =
    let front : List ℕ = take offset bytea ++ bytes in
    let n : length front ≡ offset + length bytes =
      omega (arith, length-append (take offset bytea) bytes, length-take offset bytea) in
    let behind : List ℕ = drop (offset + length bytes) bytea in
    ap (take (offset + length bytes)) (sym (append_assoc (take offset bytea) bytes behind))
    ∙ ap (λ (k : ℕ). take k (front ++ behind)) (sym n)
    ∙ take-append front behind

length-assign :
    (bytea : List ℕ) (offset : ℕ) (bytes : List ℕ)
    → offset ≤ length bytea
    → offset + length bytes ≤ length (assign bytea offset bytes)
length-assign bytea offset bytes h = omega (
  arith,
  length-append (take offset bytea) (bytes ++ drop (offset + length bytes) bytea),
  length-append bytes (drop (offset + length bytes) bytea),
  length-take offset bytea,
)

-- The array begins with `front`, and the socket has `rest` still to give.
pub record Whole (o : Outcome) (size : ℕ) (front rest : List ℕ) : Type 0 where
  pub through : o.0 ≡ ok tt
  pub begins : take size o.1.0 ≡ front
  pub left : stream o.1.1 ≡ rest
  pub pieces : All IsPiece o.1.1

module _ (size : ℕ) (rest : List ℕ) where
  pub recvall_from-pieces :
      (n : ℕ) (socket : Socket) (bytea need : List ℕ) (offset : ℕ)
      → size ≤ offset + n
      → offset + length need ≡ size
      → offset ≤ length bytea
      → All IsPiece socket
      → stream socket ≡ need ++ rest
      → Whole (recvall_from n socket bytea offset size) size (take offset bytea ++ need) rest
  unfolding recvall_from
  recvall_from-pieces zero socket bytea [] offset fuel sum room pieces s =
      let done : ltb offset size ≡ false = ground arith in
      let same : offset ≡ size = omega arith in
      rw done (record {
        through = refl;
        begins = rw same (sym (append-nil _));
        left = s;
        pieces = pieces;
      })
  recvall_from-pieces zero socket bytea (x ∷ need) offset fuel sum room pieces s =
      absurd (omega arith)
  recvall_from-pieces (suc n) socket bytea [] offset fuel sum room pieces s =
      let done : ltb offset size ≡ false = ground arith in
      let same : offset ≡ size = omega arith in
      rw done (record {
        through = refl;
        begins = rw same (sym (append-nil _));
        left = s;
        pieces = pieces;
      })
  recvall_from-pieces (suc n) socket bytea (x ∷ need) offset fuel sum room pieces s =
      let more : ltb offset size ≡ true = lt→ltb _ _ (omega arith) in
      let there : 0 < length (stream socket) = rw s (omega arith) in
      let p = recv-Piece (size - offset) socket (omega arith) pieces there in
      let few : length p.bytes ≤ length (x ∷ need) = omega (arith, p.few) in
      let (need', front, back) =
        split_need p.bytes (stream (recv (size - offset) socket).1) (x ∷ need) rest (p.same ∙ s)
          few in
      let bytea' : List ℕ = assign bytea offset p.bytes in
      let sizes : length p.bytes + length need' ≡ length (x ∷ need) =
        sym (length-append p.bytes need') ∙ ap length front in
      let again =
        recvall_from-pieces n (recv (size - offset) socket).1 bytea' need' (offset + length p.bytes)
          (omega (arith, p.some_byte)) (omega (arith, sizes))
          (length-assign bytea offset p.bytes room) p.pieces back in
      let same : take (offset + length p.bytes) bytea' ++ need' ≡ take offset bytea ++ (x ∷ need) =
        rw (take-assign bytea offset p.bytes room) (
          append_assoc (take offset bytea) p.bytes need'
          ∙ ap (λ (l : List ℕ). take offset bytea ++ l) front) in
      rw (more, p.arrived)
        (record {
          through = again.through;
          begins = again.begins ∙ same;
          left = again.left;
          pieces = again.pieces;
        })

module _ (rest : List ℕ) where
  pub receive_size-pieces :
      (n : ℕ) (socket : Socket) (size need : List ℕ)
      → 4 ≤ length size + n
      → length size + length need ≡ 4
      → All IsPiece socket
      → stream socket ≡ need ++ rest
      → (socket' : Socket) × (receive_size n socket size ≡ ok (size ++ need, socket'))
        × (stream socket' ≡ rest)
        × All IsPiece socket'
  unfolding receive_size
  receive_size-pieces zero socket size [] fuel sum pieces s =
      let done : length size == 4 ≡ true = ground arith in
      (socket, rw (done, append-nil size), s, pieces)
  receive_size-pieces zero socket size (x ∷ need) fuel sum pieces s = absurd (omega arith)
  receive_size-pieces (suc n) socket size [] fuel sum pieces s =
      let done : length size == 4 ≡ true = ground arith in
      (socket, rw (done, append-nil size), s, pieces)
  receive_size-pieces (suc n) socket size (x ∷ need) fuel sum pieces s =
      let open_ : length size == 4 ≡ false = ground arith in
      let there : 0 < length (stream socket) = rw s (omega arith) in
      let p = recv-Piece (4 - length size) socket (omega arith) pieces there in
      let few : length p.bytes ≤ length (x ∷ need) = omega (arith, p.few) in
      let (need', front, back) =
        split_need p.bytes (stream (recv (4 - length size) socket).1) (x ∷ need) rest (p.same ∙ s)
          few in
      let sizes : length p.bytes + length need' ≡ length (x ∷ need) =
        sym (length-append p.bytes need') ∙ ap length front in
      let longer = length-append size p.bytes in
      let (socket', e, left, open') =
        receive_size-pieces n (recv (4 - length size) socket).1 (size ++ p.bytes) need'
          (omega (arith, longer, p.some_byte)) (omega (arith, longer, sizes)) p.pieces back in
      let all : size ++ p.bytes ++ need' ≡ size ++ (x ∷ need) =
        append_assoc size p.bytes need' ∙ ap (λ (l : List ℕ). size ++ l) front in
      (socket', rw (open_, p.arrived) (e ∙ ap (λ (l : List ℕ). ok (l, socket')) all), left, open')
