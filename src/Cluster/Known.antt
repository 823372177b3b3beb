-- ===== src/Cluster/Known.antt =====
-- The brokers that the cluster knows, and what a round of the update leaves.
use pykafka.Prelude.{
  ℕ, ℤ, ◌≡◌, ◌≢◌, refl, sym, ap, ◌∙◌, inl, inr, true, false, none, some, List, [], ◌∷◌, get_elem?,
  Bool-cases, eq_ℤ_iff,
}
use pykafka.Result.{Result, ok, err, socket_error}
use pykafka.Dict.{lookup, int_eq}
use pykafka.Connection.{Socket}
use pykafka.Protocol.Response.Brokers.{BrokerMetadata}
use pykafka.Broker.{Broker, connected, connect, from_metadata}
use pykafka.Cluster.{Cluster, Ref, next_connection}
use pykafka.Cluster.{take_connection}
use pykafka.Broker.{new_handler}
use pykafka.Cluster.{eq_ℤ}
use pykafka.Prelude.{false≢true}

-- Each broker that the cluster knows is there, and stands under its id.
pub record IsKnown (c : Cluster) : Type 0 where
  pub known :
      (id : ℤ) (ref : Ref)
      → lookup id c.brokers ≡ some ref
      → (b : Broker) × (get_elem? c.store ref ≡ some b) × (b.id ≡ id)

-- What the metadata says of a broker's address.
abbrev pub HasAddress : BrokerMetadata → Broker → Type 0
HasAddress meta b = (b.host ≡ meta.host) × (b.port ≡ meta.port)

-- How a broker that the metadata names stands after an update: it was known before, is the same object at
-- the same address, and if it was connected then that is the address of the metadata; or it was not
-- known, and is a new object, which is connected, at that address.
pub data Fits (id : ℤ) (meta : BrokerMetadata) (before after : Cluster) : Type 0 where
  kept :
      (ref : Ref) (b b' : Broker)
      → lookup id before.brokers ≡ some ref
      → get_elem? before.store ref ≡ some b
      → lookup id after.brokers ≡ some ref
      → get_elem? after.store ref ≡ some b'
      → b'.id ≡ id
      → (b'.host ≡ b.host) × (b'.port ≡ b.port)
      → (connected b ≡ true → HasAddress meta b)
      → Fits id meta before after
  found :
      (ref : Ref) (b' : Broker)
      → lookup id before.brokers ≡ none
      → lookup id after.brokers ≡ some ref
      → get_elem? after.store ref ≡ some b'
      → b'.id ≡ id
      → HasAddress meta b'
      → connected b' ≡ true
      → Fits id meta before after

-- A round leaves all but the broker of its id as it was.
pub record Round (id : ℤ) (meta : BrokerMetadata) (before after : Cluster) : Type 0 where
  pub known : IsKnown after
  pub fits : Fits id meta before after
  pub others : (j : ℤ) → id ≢ j → lookup j after.brokers ≡ lookup j before.brokers
  pub untouched :
      (r : Ref) (b : Broker)
      → get_elem? before.store r ≡ some b
      → id ≢ b.id
      → get_elem? after.store r ≡ some b

-- The same brokers in both.
pub record Same (before after : Cluster) : Type 0 where
  pub brokers : after.brokers ≡ before.brokers
  pub store : after.store ≡ before.store

pub Same-IsKnown : (before after : Cluster) → Same before after → IsKnown before → IsKnown after
Same-IsKnown before after s k = record {
  known = λ id ref h.
      (let (b, at_ref, id_b) = k.known id ref (ap (lookup id) (sym s.brokers) ∙ h) in
        (b, ap (λ (l : List Broker). get_elem? l ref) s.store ∙ at_ref, id_b));
}

take_connection-Same :
    (connections : List (Result Socket)) (c : Cluster)
    → (created : Result Socket) × (c' : Cluster) × (take_connection connections c
        ≡ (ok created, c'))
      × Same c c'
take_connection-Same [] c = (err socket_error, c, refl, record { brokers = refl; store = refl })
take_connection-Same (created ∷ rest) c =
    (created, record c { connections = rest }, refl, record { brokers = refl; store = refl })

pub next_connection-Same :
    (c : Cluster)
    → (created : Result Socket) × (c' : Cluster) × (next_connection c ≡ (ok created, c'))
      × Same c c'
unfolding next_connection
next_connection-Same c = take_connection-Same c.connections c

pub connect-same :
    (created : Result Socket) (b : Broker)
    → ((connect created b).1.id ≡ b.id)
      × ((connect created b).1.host ≡ b.host)
      × ((connect created b).1.port ≡ b.port)
unfolding connect
connect-same (ok socket) b = (refl, refl, refl)
connect-same (err e) b = (refl, refl, refl)

pub from_metadata-ok :
    (meta : BrokerMetadata) (n : ℕ) (created : Result Socket) (b : Broker)
    → from_metadata meta n created ≡ ok b
    → (b.id ≡ meta.id) × HasAddress meta b × (connected b ≡ true)
unfolding from_metadata connected
from_metadata-ok meta n (ok socket) b h = rw (← made) (refl, (refl, refl), refl)
  where
    made :
        record {
          id = meta.id;
          host = meta.host;
          port = meta.port;
          buffer_size = n;
          req_handler = new_handler n socket;
          detached = false;
          offsets_handler = none;
          offsets_detached = false;
        }
        ≡ b
    made = cc
from_metadata-ok meta n (err e) b h = absurd cc

-- What a round leaves of a broker with another id.
kept_known :
    (id j : ℤ) (before after : Cluster)
    → IsKnown before
    → ((i : ℤ) → id ≢ i → lookup i after.brokers ≡ lookup i before.brokers)
    → ((r : Ref) (b : Broker)
        → get_elem? before.store r ≡ some b
        → id ≢ b.id
        → get_elem? after.store r ≡ some b)
    → id ≢ j
    → (ref : Ref) → lookup j after.brokers ≡ some ref
    → (b : Broker) × (get_elem? after.store ref ≡ some b) × (b.id ≡ j)
kept_known id j before after k others untouched ne ref h =
    let (b, at_ref, id_b) = k.known j ref (sym (others j ne) ∙ h) in
    (b, untouched ref b at_ref (λ e. ne (e ∙ id_b)), id_b)

-- Known are the broker of the id, and the others.
pub listed-IsKnown :
    (id : ℤ) (before after : Cluster) (ref : Ref) (b : Broker)
    → IsKnown before
    → ((i : ℤ) → id ≢ i → lookup i after.brokers ≡ lookup i before.brokers)
    → ((r : Ref) (b : Broker)
        → get_elem? before.store r ≡ some b
        → id ≢ b.id
        → get_elem? after.store r ≡ some b)
    → lookup id after.brokers ≡ some ref
    → get_elem? after.store ref ≡ some b
    → b.id ≡ id
    → IsKnown after
listed-IsKnown id before after ref b k others untouched listed at_ref id_b = record {
  known = λ j r h. elim (Bool-cases (eq_ℤ id j)) [
    | inl p ↦
        let e : id ≡ j = (eq_ℤ_iff id j).0 p in
        let here : some ref ≡ some r = sym listed ∙ ap (λ i. lookup i after.brokers) e ∙ h in
        let same : ref ≡ r = cc in (b, ap (get_elem? after.store) (sym same) ∙ at_ref, id_b ∙ e)
    | inr p ↦
        let ne : id ≢ j = λ e. absurd (false≢true (sym p ∙ (eq_ℤ_iff id j).1 e)) in
        kept_known id j before after k others untouched ne r h
  ];
}
