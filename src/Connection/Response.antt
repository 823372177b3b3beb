-- ===== src/Connection/Response.antt =====
-- A broker's frame that arrives in pieces is returned as a response.
use pykafka.Prelude.{
  ℕ, ℤ, pos, ◌+◌, ◌-◌, ◌+ℤ◌, +ℤ-pos, ◌≤◌, ◌≡◌, sym, ap, ◌∙◌, arith, some, List, [], ◌∷◌, ◌++◌,
  take_append, append-nil, append_assoc, length, length-append, length-take, take, drop, take-drop,
  drop-append, All,
}
use pykafka.Result.{ok}
use pykafka.Struct.{int, int32, pack, unpack_int}
use pykafka.Slice.{slice}
use pykafka.Unpack.Reading.{Holds, unpack_int-Holds}
use pykafka.Connection.{
  Socket, Outcome, recvall_from, recvall_into, BrokerConnection, receive_size, receive_body,
  with_size, with_number, response,
}
use pykafka.Connection.Received.{stream, IsPiece, recvall_from-pieces, receive_size-pieces}

-- A response of the broker: Size CorrelationId body.
pub record IsFrame (correlation body frame : List ℕ) : Type 0 where
  pub size : List ℕ
  pub four : length correlation ≡ 4
  pub packed : pack (int int32 (pos (4 + length body)) ∷ []) ≡ ok size
  pub parts : size ++ (correlation ++ body) ≡ frame

response_slice :
    (buff correlation body : List ℕ)
    → length correlation ≡ 4
    → take (4 + length body) buff ≡ correlation ++ body
    → (tail : List ℕ) × (slice buff (pos 4) (pos 4 +ℤ pos (4 + length body)) ≡ body ++ tail)
      × (length tail ≤ 4)
unfolding slice
response_slice buff correlation body four h =
    let behind : List ℕ = drop (4 + length body) buff in
    let whole : correlation ++ (body ++ behind) ≡ buff =
      sym (append_assoc correlation body behind)
      ∙ ap (λ (l : List ℕ). l ++ behind) (sym h)
      ∙ take-drop (4 + length body) buff in
    let cut : drop 4 buff ≡ body ++ behind =
      ap (drop 4) (sym whole)
      ∙ ap (λ (k : ℕ). drop k (correlation ++ (body ++ behind))) (sym four)
      ∙ drop-append correlation _ in
    let n : 4 + (4 + length body) - 4 ≡ length body + 4 = omega arith in
    (
      take 4 behind,
      rw (+ℤ-pos 4 (4 + length body), n, cut) (take_append body behind 4),
      omega (arith, length-take 4 behind),
    )

response-sized :
    (buff size : List ℕ) (socket socket' : Socket) (z : ℤ)
    → receive_size 4 socket [] ≡ ok (size, socket')
    → unpack_int int32 size 0 ≡ ok z
    → response (record { buff = buff; socket = some socket })
      ≡ receive_body (record { buff = buff; socket = some socket }) socket' z
unfolding response
response-sized buff size socket socket' z e1 e2 =
    let c : BrokerConnection = record { buff = buff; socket = some socket } in
    ap (with_size c) e1 ∙ ap (with_number c socket') e2

receive_body-through :
    (c : BrokerConnection) (socket : Socket) (n : ℕ) (output : List ℕ)
    → (recvall_into socket c.buff (pos n)).0 ≡ ok tt
    → slice (recvall_into socket c.buff (pos n)).1.0 (pos 4) (pos 4 +ℤ pos n) ≡ output
    → receive_body c socket (pos n) ≡ (
      ok output,
      record {
        buff = (recvall_into socket c.buff (pos n)).1.0;
        socket = some (recvall_into socket c.buff (pos n)).1.1;
      },
    )
unfolding receive_body
receive_body-through c socket n output h cut = rw (h, cut)

-- Where a socket gives a frame of the broker's, in pieces of any sizes, `response` returns bytes that
-- begin with the body of the frame, and at most four more, and leaves what follows the frame in the
-- socket.
pub response-frame :
    (buff : List ℕ) (socket : Socket) (correlation body frame later : List ℕ)
    → IsFrame correlation body frame
    → All IsPiece socket
    → stream socket ≡ frame ++ later
    → (tail : List ℕ) × (socket' : Socket) × (buff' : List ℕ) × (response
          (record { buff = buff; socket = some socket })
        ≡ (ok (body ++ tail), record { buff = buff'; socket = some socket' }))
      × (length tail ≤ 4)
      × (stream socket' ≡ later)
unfolding recvall_into
response-frame buff socket correlation body frame later f pieces s =
    let n : ℕ = 4 + length body in
    let here : Holds f.size 0 f.size [] = record {
      fits = omega arith;
      at = sym (append-nil f.size);
    } in
    let (number, sized) = unpack_int-Holds int32 (pos n) f.size f.packed here in
    let split : stream socket ≡ f.size ++ ((correlation ++ body) ++ later) =
      s
      ∙ ap (λ (l : List ℕ). l ++ later) (sym f.parts)
      ∙ append_assoc f.size (correlation ++ body) later in
    let (socket1, e1, left1, pieces1) =
      receive_size-pieces ((correlation ++ body) ++ later) 4 socket [] f.size (omega arith)
        (omega (arith, sized)) pieces split in
    let w =
      recvall_from-pieces n later n socket1 buff (correlation ++ body) 0 (omega arith)
        (omega (arith, length-append correlation body, f.four)) (omega arith) pieces1 left1 in
    let o : Outcome = recvall_from n socket1 buff 0 n in
    let (tail, cut, short) = response_slice o.1.0 correlation body f.four w.begins in
    let c : BrokerConnection = record { buff = buff; socket = some socket } in
    let whole =
      response-sized buff f.size socket socket1 (pos n) e1 number
      ∙ receive_body-through c socket1 n (body ++ tail) w.through cut in
    (tail, o.1.1, o.1.0, whole, short, w.left)
