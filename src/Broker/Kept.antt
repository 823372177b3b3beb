-- ===== src/Broker/Kept.antt =====
-- A request leaves the id and the address of a broker, and what it returns was read from some bytes.
use pykafka.Prelude.{ℕ, zero, suc, ◌≡◌, refl, ◌∙◌, List, true, false, Option, some, if◌then◌else◌}
use pykafka.Result.{Result, ok, err, is_disconnected}
use pykafka.Compression.{Codec}
use pykafka.Connection.Requests.{Sendall}
use pykafka.Handlers.Asked.{ask-ok}
use pykafka.Protocol.Metadata.{MetadataRequest}
use pykafka.Protocol.Response.Brokers.{MetadataResponse, metadata_response}
use pykafka.Broker.{
  Request, metadata, request_bytes, Broker, metadata_tries, request_metadata, ask_broker,
  unless_disconnected,
}
use pykafka.Prelude.{ap}

-- The broker of the same id and address.
pub record IsSameBroker (before after : Broker) : Type 0 where
  pub id : after.id ≡ before.id
  pub host : after.host ≡ before.host
  pub port : after.port ≡ before.port

module _ (c : Codec) (depth : ℕ) (sendall : Sendall) where
  pub ask_broker-IsSameBroker {ℓ} :
      {A : Type ℓ} (response_cls : List ℕ → Result A) (q : Request) (b : Broker)
      → IsSameBroker b (ask_broker c depth sendall response_cls q b).1
  ask_broker-IsSameBroker response_cls q b = record { id = refl; host = refl; port = refl }

  -- What comes of the tries: the broker is the same, and metadata was read from some bytes.
  record Tried (b : Broker) (o : Result (Option MetadataResponse) × Broker) : Type 0 where
    same : IsSameBroker b o.1
    read :
        (m : MetadataResponse)
        → o.0 ≡ ok (some m)
        → (bytes : List ℕ) × (metadata_response bytes ≡ ok m)

  unless_disconnected-Tried :
      (next : Broker → Result (Option MetadataResponse) × Broker) (b : Broker)
      (o : Result MetadataResponse × Broker)
      → IsSameBroker b o.1
      → ((m : MetadataResponse) → o.0 ≡ ok m → (bytes : List ℕ) × (metadata_response bytes ≡ ok m))
      → Tried b (next o.1)
      → Tried b (unless_disconnected c depth sendall next o)
  unless_disconnected-Tried next b (ok response, b') same read later = record {
    same = same;
    read = λ m h. (let e : response ≡ m = cc in read m (ap ok e));
  }
  unless_disconnected-Tried next b (err e, b') same read later =
      elim (is_disconnected e) as (λ t. Tried b (if t then next b' else (err e, b'))) [
        | true ↦ later
        | false ↦ record { same = same; read = λ m h. absurd cc }
      ]

  metadata_tries-Tried :
      (n : ℕ) (q : MetadataRequest) (b0 b : Broker)
      → IsSameBroker b0 b
      → Tried b0 (metadata_tries c depth sendall n q b)
  unfolding metadata_tries
  metadata_tries-Tried zero q b0 b s = record { same = s; read = λ m h. cc }
  metadata_tries-Tried (suc n) q b0 b s =
      let o = ask_broker c depth sendall metadata_response (metadata q) b in
      let s' = ask_broker-IsSameBroker metadata_response (metadata q) b in
      let both : IsSameBroker b0 o.1 = record {
        id = s'.id ∙ s.id;
        host = s'.host ∙ s.host;
        port = s'.port ∙ s.port;
      } in
      unless_disconnected-Tried (metadata_tries c depth sendall n q) b0 o both
        (λ m h. ask-ok (request_bytes c) sendall metadata_response (metadata q) b.req_handler m h)
        (metadata_tries-Tried n q b0 o.1 both)

  module _ (topics : List (List ℕ)) (b : Broker) where
    pub request_metadata-IsSameBroker : IsSameBroker b (request_metadata c depth sendall topics b).1
    unfolding request_metadata
    request_metadata-IsSameBroker =
        (metadata_tries-Tried 3 (record { topics = topics }) b b
          (record { id = refl; host = refl; port = refl })).same

    pub request_metadata-ok :
        (m : MetadataResponse)
        → (request_metadata c depth sendall topics b).0 ≡ ok (some m)
        → (bytes : List ℕ) × (metadata_response bytes ≡ ok m)
    unfolding request_metadata
    request_metadata-ok =
        (metadata_tries-Tried 3 (record { topics = topics }) b b
          (record { id = refl; host = refl; port = refl })).read
