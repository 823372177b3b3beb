-- ===== src/Broker/Requested.antt =====
-- What a broker's requests of metadata come to.
use pykafka.Prelude.{
  ℕ, zero, suc, ◌≡◌, refl, ap, ◌∙◌, List, [], ◌∷◌, ◌++◌, true, false, some, none, All,
}
use pykafka.Result.{Result, ok, err, socket_disconnected, ◌>>=◌}
use pykafka.Compression.{Codec}
use pykafka.Connection.{BrokerConnection, Socket}
use pykafka.Connection.Requests.{Sendall, request}
use pykafka.Connection.Received.{stream, IsPiece}
use pykafka.Connection.Response.{IsFrame, response-frame}
use pykafka.Handlers.{exchange, read_response}
use pykafka.Handlers.Calls.{Call, connection_after}
use pykafka.Handlers.Synchronous.{Reaches}
use pykafka.Handlers.Asked.{handler_after, ask-exchange, ask-Reaches}
use pykafka.Protocol.Metadata.{MetadataRequest, metadata_get_bytes}
use pykafka.Protocol.Topics.Bytes.{array_bytes}
use pykafka.Struct.Pack.{cat}
use pykafka.Protocol.Response.Brokers.{BrokerMetadata, MetadataResponse, metadata_response}
use pykafka.Protocol.Response.Brokers.Grammar.{SentTopic, metadata_of, broker_bytes, topic_bytes}
use pykafka.Protocol.Response.Brokers.Bytes.{metadata_response_lem}
use pykafka.Broker.{
  Request, metadata, request_bytes, Broker, metadata_tries, request_metadata, ask_broker,
  with_handler, unless_disconnected,
}
use pykafka.Handlers.Asked.{handler_after-stopped}
use pykafka.Broker.{Option}
use pykafka.Broker.{Bool}
use pykafka.Handlers.Calls.{connection_after-append}
use pykafka.Connection.Requests.{send_bytes}
use pykafka.Connection.Requests.{send}

module _ (c : Codec) (depth : ℕ) (sendall : Sendall) (k : BrokerConnection) where
  -- The broker's handler is one that callers and the worker can make of one on the connection `k`, and stop
  -- has not begun.
  pub record IsServing (b : Broker) (calls : List (Call Request)) : Type 0 where
    pub reached : Reaches (request_bytes c) sendall k b.req_handler calls
    pub live : b.req_handler.stopped ≡ false

  abbrev pub broker_after : Request → Broker → Broker
  broker_after q b = record b {
    req_handler = handler_after (request_bytes c) sendall k q b.req_handler;
  }

  pub ask_broker-exchange {ℓ} :
      {A : Type ℓ} (response_cls : List ℕ → Result A) (q : Request) {b : Broker}
      {calls : List (Call Request)}
      → IsServing b calls
      → ask_broker c depth sendall response_cls q b ≡ (
        (exchange
              (request_bytes c)
              sendall
              q
              true
              (connection_after (request_bytes c) sendall calls k)).0
            >>= response_cls,
        broker_after q b,
      )
  ask_broker-exchange response_cls q {b} {calls} s =
      ap (with_handler c depth sendall b)
        (ask-exchange (request_bytes c) sendall k response_cls q s.reached s.live)

  ask_broker-IsServing :
      (q : Request) {b : Broker} {calls : List (Call Request)}
      → IsServing b calls
      → IsServing (broker_after q b) (calls ++ (q, true) ∷ [])
  ask_broker-IsServing q {b} s = record {
    reached = ask-Reaches (request_bytes c) sendall k q s.reached s.live;
    live = handler_after-stopped (request_bytes c) sendall k q b.req_handler ∙ s.live;
  }

  -- Without a socket nothing is sent, and the connection stays as it is.
  exchange-disconnected :
      (q : Request) (has : Bool) (bytes : List ℕ) (d : BrokerConnection)
      → request_bytes c q ≡ ok bytes
      → d.socket ≡ none
      → exchange (request_bytes c) sendall q has d ≡ (err socket_disconnected, d)
  unfolding exchange request
  exchange-disconnected q has bytes d e gone =
      ap (λ (r : Result (List ℕ)). read_response has (request sendall r d)) e
      ∙ ap (λ (s : Option Socket). read_response has (send_bytes sendall bytes s d)) gone

  -- Once the connection of a broker is closed, all tries of request_metadata come to nothing: nothing
  -- connects it again, and None is returned.
  pub metadata_tries-disconnected :
      (n : ℕ) (q : MetadataRequest) (bytes : List ℕ) {b : Broker} {calls : List (Call Request)}
      → IsServing b calls
      → metadata_get_bytes q ≡ ok bytes
      → (connection_after (request_bytes c) sendall calls k).socket ≡ none
      → (metadata_tries c depth sendall n q b).0 ≡ ok none
  unfolding metadata_tries
  metadata_tries-disconnected zero q bytes s e gone = refl
  metadata_tries-disconnected (suc n) q bytes {b} {calls} s e gone =
      let d : BrokerConnection = connection_after (request_bytes c) sendall calls k in
      let lost = exchange-disconnected (metadata q) true bytes d e gone in
      let next : Result MetadataResponse × Broker → Result (Option MetadataResponse) × Broker =
        unless_disconnected c depth sendall (metadata_tries c depth sendall n q) in
      let same : connection_after (request_bytes c) sendall (calls ++ (metadata q, true) ∷ []) k
          ≡ d =
        connection_after-append (request_bytes c) sendall calls ((metadata q, true) ∷ []) k
        ∙ ap (λ (x : Result (List ℕ) × BrokerConnection). x.1) lost in
      ap (λ (x : Result MetadataResponse × Broker). (next x).0)
        (ask_broker-exchange metadata_response (metadata q) s
          ∙ ap
              (λ (x : Result (List ℕ) × BrokerConnection).
                (x.0 >>= metadata_response, broker_after (metadata q) b))
              lost)
      ∙ metadata_tries-disconnected n q bytes (ask_broker-IsServing (metadata q) s) e
          (ap (λ (x : BrokerConnection). x.socket) same ∙ gone)

  -- What sending a request does where the other side answers with a frame, in pieces of any sizes.
  pub record IsAnswered (bytes body : List ℕ) (d : BrokerConnection) : Type 0 where
    pub socket : Socket
    pub socket' : Socket
    pub connected : d.socket ≡ some socket
    pub sends : sendall bytes socket ≡ (ok tt, socket')
    pub correlation : List ℕ
    pub frame : List ℕ
    pub later : List ℕ
    pub framed : IsFrame correlation body frame
    pub pieces : All IsPiece socket'
    pub arrives : stream socket' ≡ frame ++ later

  pub exchange-answered :
      (q : Request) (bytes body : List ℕ) (d : BrokerConnection)
      → request_bytes c q ≡ ok bytes
      → IsAnswered bytes body d
      → (tail : List ℕ) × ((exchange (request_bytes c) sendall q true d).0 ≡ ok (body ++ tail))
  unfolding exchange request
  exchange-answered q bytes body d e a =
      let (tail, s', b', whole, short, left) =
        response-frame d.buff a.socket' a.correlation body a.frame a.later a.framed a.pieces
          a.arrives in
      (
        tail,
        ap (λ (r : Result (List ℕ)). (read_response true (request sendall r d)).0) e
            ∙ ap (λ (s : Option Socket). (read_response true (send_bytes sendall bytes s d)).0)
                a.connected
            ∙ ap (λ (x : Result (Unit {0}) × Socket). (read_response true (send d x)).0) a.sends
            ∙ ap (λ (x : Result (List ℕ) × BrokerConnection). x.0) whole,
      )

  -- Where the broker's side answers the request with a frame around the brokers and the topics in the
  -- grammar of the docstring, in pieces of any sizes, request_metadata returns these brokers and topics,
  -- each under its id or name, whatever was requested before and is still queued.
  pub request_metadata_lem :
      (topics : List (List ℕ)) (bytes : List ℕ) (bs : List BrokerMetadata) (ts : List SentTopic)
      (content : List ℕ) {b : Broker} {calls : List (Call Request)}
      → IsServing b calls
      → metadata_get_bytes (record { topics = topics }) ≡ ok bytes
      → cat (array_bytes broker_bytes bs) (array_bytes topic_bytes ts) ≡ ok content
      → IsAnswered bytes content (connection_after (request_bytes c) sendall calls k)
      → (request_metadata c depth sendall topics b).0 ≡ ok (some (metadata_of bs ts))
  unfolding request_metadata
  request_metadata_lem topics bytes bs ts content {b} {calls} s e h a =
      let q : MetadataRequest = record { topics = topics } in
      let d : BrokerConnection = connection_after (request_bytes c) sendall calls k in
      let next : Result MetadataResponse × Broker → Result (Option MetadataResponse) × Broker =
        unless_disconnected c depth sendall (metadata_tries c depth sendall 2 q) in
      let (tail, answer) = exchange-answered (metadata q) bytes content d e a in
      ap (λ (x : Result MetadataResponse × Broker). (next x).0)
        (ask_broker-exchange metadata_response (metadata q) s
          ∙ ap (λ (x : Result (List ℕ)). (x >>= metadata_response, broker_after (metadata q) b))
              answer
          ∙ ap (λ (x : Result MetadataResponse). (x, broker_after (metadata q) b))
              (metadata_response_lem bs ts content tail h))
