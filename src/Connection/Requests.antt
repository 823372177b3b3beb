-- ===== src/Connection/Requests.antt =====
-- pykafka/connection.py: opening a connection, and sending a request over it.
use pykafka.Prelude.{Bool, true, false, Option, none, some, List, ℕ}
use pykafka.Result.{Result, ok, err, socket_disconnected}
use pykafka.Connection.{Socket, BrokerConnection, disconnect}

abbrev pub Outcome : Type 0
Outcome = Result (Unit {0}) × BrokerConnection

-- What `sendall` does to a socket. The other side may answer, so the bytes that the socket gives may change.
abbrev pub Sendall : Type 0
Sendall = List ℕ → Socket → Result (Unit {0}) × Socket

-- The property `connected`.
unfoldable pub connected : BrokerConnection → Bool
connected c = elim c.socket [ none ↦ false | some socket ↦ true ]

-- connect, where `created` is the outcome of socket.create_connection.
unfoldable pub connect : Result Socket → BrokerConnection → Outcome
connect (err e) c = (err e, c)
connect (ok socket) c = (ok tt, record c { socket = some socket })

unfoldable pub reconnect : Result Socket → BrokerConnection → Outcome
unfolding connect
reconnect created c = connect created (disconnect c)

-- self._socket.sendall(bytes_)
abbrev pub send : BrokerConnection → Result (Unit {0}) × Socket → Outcome
send c (r, socket) = (r, record c { socket = some socket })

-- From `if not self._socket` on.
abbrev pub send_bytes : Sendall → List ℕ → Option Socket → BrokerConnection → Outcome
send_bytes sendall bytes none c = (err socket_disconnected, c)
send_bytes sendall bytes (some socket) c = send c (sendall bytes socket)

-- request, where the first argument is what get_bytes returns or raises.
unfoldable pub request : Sendall → Result (List ℕ) → BrokerConnection → Outcome
request sendall (err e) c = (err e, c)
request sendall (ok bytes) c = send_bytes sendall bytes c.socket c
