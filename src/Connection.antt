-- ===== src/Connection.antt =====
-- pykafka/connection.py and pykafka/utils/socket.py: reading a response from a socket.
pub mod Received
pub mod Response
pub mod Requests
use pykafka.Prelude.{
  ℕ, zero, suc, ℤ, pos, negsuc, ◌+◌, ◌-◌, ◌+ℤ◌, Bool, true, false, ltb, Option, none, some, List,
  [], ◌∷◌, ◌++◌, length, take, drop, if◌then◌else◌, ◌==◌,
}
use pykafka.Result.{Result, ok, err, socket_disconnected, attribute_error, out_of_fuel, ◌>>=◌}
use pykafka.Slice.{slice}
use pykafka.Struct.{int32, unpack_int}

-- What a socket has still to give: a chunk of bytes for each `recv`, or an IOError. With nothing left,
-- `recv` returns no bytes, as it does once the other side has closed the connection. Of a chunk that
-- is longer than asked for, the rest stays.
pub data Arrival : Type 0 where
  chunk : List ℕ → Arrival
  io_error : Arrival

abbrev pub Socket : Type 0
Socket = List Arrival

-- socket.recv(n): None stands for the IOError that the callers catch.
unfoldable pub recv : ℕ → Socket → Option (List ℕ) × Socket
recv n [] = (some [], [])
recv n (io_error ∷ rest) = (none, rest)
recv n (chunk bytes ∷ rest) =
    if ltb n (length bytes)
    then (some (take n bytes), chunk (drop n bytes) ∷ rest)
    else (some bytes, rest)

-- `if chunk is None or len(chunk) == 0: raise SocketDisconnectedError`
abbrev pub received : Option (List ℕ) → Result (List ℕ)
received none = err socket_disconnected
received (some []) = err socket_disconnected
received (some (b ∷ bytes)) = ok (b ∷ bytes)

-- bytea[offset:(offset + len(chunk))] = chunk, which makes the array longer where it is too short.
abbrev pub assign : List ℕ → ℕ → List ℕ → List ℕ
assign bytea offset bytes = take offset bytea ++ (bytes ++ drop (offset + length bytes) bytea)

-- What a call that reads leaves: whether it went through, the array and the socket after it.
abbrev pub Outcome : Type 0
Outcome = Result (Unit {0}) × (List ℕ × Socket)

-- recvall_into, from an offset on. Each round receives a byte at least, so `size` is fuel enough.
unfoldable pub recvall_from : ℕ → Socket → List ℕ → ℕ → ℕ → Outcome
recvall_from zero socket bytea offset size =
    if ltb offset size then (err out_of_fuel, (bytea, socket)) else (ok tt, (bytea, socket))
recvall_from (suc n) socket bytea offset size =
    let (arrived, socket') = recv (size - offset) socket in
    let received_all : Outcome = elim (received arrived) [
      | err e ↦ (err e, (bytea, socket'))
      | ok bytes ↦ recvall_from n socket' (assign bytea offset bytes) (offset + length bytes) size
    ] in
    if ltb offset size then received_all else (ok tt, (bytea, socket))

-- recvall_into. A negative size reads nothing.
unfoldable pub recvall_into : Socket → List ℕ → ℤ → Outcome
recvall_into socket bytea (pos size) = recvall_from size socket bytea 0 size
recvall_into socket bytea (negsuc n) = (ok tt, (bytea, socket))

-- `buff` is `_buff`, and `socket` is `_socket`; the addresses, which only `connect` uses, are left out.
pub record BrokerConnection : Type 0 where
  pub buff : List ℕ
  pub socket : Option Socket

-- disconnect: the socket is closed and forgotten.
unfoldable pub disconnect : BrokerConnection → BrokerConnection
disconnect c = record c { socket = none }

-- The loop of `response` that reads the four bytes of the size. Each round receives a byte at least.
unfoldable pub receive_size : ℕ → Socket → List ℕ → Result (List ℕ × Socket)
receive_size zero socket size = if length size == 4 then ok (size, socket) else err out_of_fuel
receive_size (suc n) socket size =
    let (arrived, socket') = recv (4 - length size) socket in
    let more = received arrived >>= λ r. receive_size n socket' (size ++ r) in
    if length size == 4 then ok (size, socket) else more

-- From `recvall_into` on. The correlation id is dropped from the buffer that is returned, but as many
-- bytes are returned as were received.
unfoldable pub receive_body : BrokerConnection → Socket → ℤ → Result (List ℕ) × BrokerConnection
receive_body c socket size =
    let (outcome, (buff', socket')) = recvall_into socket c.buff size in
    let c' : BrokerConnection = record { buff = buff'; socket = some socket' } in
    (outcome >>= λ _. ok (slice buff' (pos 4) (pos 4 +ℤ size)), c')

-- From `struct.unpack` on.
abbrev pub with_number : BrokerConnection → Socket → Result ℤ → Result (List ℕ) × BrokerConnection
with_number c socket (err e) = (err e, record c { socket = some socket })
with_number c socket (ok size) = receive_body c socket size

-- Where the size could not be read, the connection is closed.
abbrev pub with_size :
    BrokerConnection → Result (List ℕ × Socket) → Result (List ℕ) × BrokerConnection
with_size c (err e) = (err e, disconnect c)
with_size c (ok (size, socket)) = with_number c socket (unpack_int int32 size 0)

-- response: what it returns or raises, and the connection after it. Without a socket it is an
-- AttributeError of None.
unfoldable pub response : BrokerConnection → Result (List ℕ) × BrokerConnection
response c = elim c.socket [
  | none ↦ (err attribute_error, c)
  | some socket ↦ with_size c (receive_size 4 socket [])
]
