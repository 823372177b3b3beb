-- ===== src/Protocol/Response/Brokers/Distinct.antt =====
-- The brokers of a MetadataResponse stand under their ids, and no id twice.
use pykafka.Prelude.{
  ℕ, ℤ, ◌≡◌, ◌≢◌, refl, sym, ◌∙◌, List, [], ◌∷◌, All, true, false, Bool-cases, inl, inr, eq_ℤ,
  eq_ℤ_iff,
}
use pykafka.Result.{Result, ok, >>=-eq-ok}
use pykafka.Dict.{Dict, insert, int_eq}
use pykafka.Unpack.{Value, Values, int, tuple, list, nil, cons, unpack_from}
use pykafka.Protocol.Header.{codes}
use pykafka.Protocol.Response.{for_values, for_items, as_text}
use pykafka.Protocol.Response.Brokers.{
  BrokerMetadata, MetadataResponse, store_broker, store_topic_metadata, read_metadata,
  metadata_response,
}
use pykafka.Prelude.{subst}

-- A dict of metadata: each broker under its id, and no id twice.
abbrev pub IsDistinct : Dict ℤ BrokerMetadata → Type 0
IsDistinct [] = Unit
IsDistinct ((id, meta) ∷ metadata) =
    (meta.id ≡ id) × (All (λ m. id ≢ m.0) metadata × IsDistinct metadata)

apart-insert :
    (j id : ℤ) (meta : BrokerMetadata) (d : Dict ℤ BrokerMetadata)
    → j ≢ id
    → All (λ m. j ≢ m.0) d
    → All (λ m. j ≢ m.0) (insert id meta d)
unfolding insert
apart-insert j id meta [] ne a = (ne, tt)
apart-insert j id meta ((i, w) ∷ d) ne (n, a) = elim (Bool-cases (eq_ℤ i id)) [
  | inl p ↦ rw p (n, a)
  | inr p ↦ rw p (n, apart-insert j id meta d ne a)
]

insert-IsDistinct :
    (id : ℤ) (meta : BrokerMetadata) (d : Dict ℤ BrokerMetadata)
    → meta.id ≡ id
    → IsDistinct d
    → IsDistinct (insert id meta d)
unfolding insert
insert-IsDistinct id meta [] same h = (same, (tt, tt))
insert-IsDistinct id meta ((i, w) ∷ d) same (s, (a, h)) = elim (Bool-cases (eq_ℤ i id)) [
  | inl p ↦ rw p (same ∙ sym ((eq_ℤ_iff i id).0 p), (a, h))
  | inr p ↦
      let ne : i ≢ id =
        λ e. (let clash : true ≡ false = sym ((eq_ℤ_iff i id).1 e) ∙ p in absurd cc) in
      rw p (s, (apart-insert i id meta d ne a, insert-IsDistinct id meta d same h))
]

store_broker-IsDistinct :
    (v : Value) (d d' : Dict ℤ BrokerMetadata)
    → IsDistinct d
    → store_broker v d ≡ ok d'
    → IsDistinct d'
unfolding store_broker
store_broker-IsDistinct (tuple (cons (int id) (cons host (cons (int port) nil)))) d d' h e =
    let (host', _, e') = >>=-eq-ok (as_text host) _ e in
    let same : insert id (record { id = id; host = host'; port = port }) d ≡ d' = cc in
    subst IsDistinct same (insert-IsDistinct id _ d refl h)
store_broker-IsDistinct v d d' h e = cc

-- What each step keeps, a loop does.
pub for_values-keeps {ℓ κ} :
    {S : Type ℓ} (P : S → Type κ) (step : Value → S → Result S)
    → ((v : Value) (s s' : S) → P s → step v s ≡ ok s' → P s')
    → (vs : Values) (s s' : S) → P s
    → for_values step vs s ≡ ok s'
    → P s'
unfolding for_values
for_values-keeps P step keep nil s s' p h = let e : s ≡ s' = cc in subst P e p
for_values-keeps P step keep (cons v vs) s s' p h =
    let (s1, first, rest) = >>=-eq-ok (step v s) _ h in
    for_values-keeps P step keep vs s1 s' (keep v s s1 p first) rest

for_items-keeps {ℓ κ} :
    {S : Type ℓ} (P : S → Type κ) (step : Value → S → Result S)
    → ((v : Value) (s s' : S) → P s → step v s ≡ ok s' → P s')
    → (v : Value) (s s' : S) → P s
    → for_items step v s ≡ ok s'
    → P s'
for_items-keeps P step keep (list vs) s s' p h = for_values-keeps P step keep vs s s' p h
for_items-keeps P step keep (tuple vs) s s' p h = for_values-keeps P step keep vs s s' p h
for_items-keeps P step keep v s s' p h = cc

read_metadata-IsDistinct :
    (v : Value) (m : MetadataResponse) → read_metadata v ≡ ok m → IsDistinct m.brokers
unfolding read_metadata
read_metadata-IsDistinct (tuple (cons broker_info (cons topics nil))) m h =
    let (bs, e1, h1) = >>=-eq-ok (for_items store_broker broker_info []) _ h in
    let (ts, e2, h2) = >>=-eq-ok (for_items store_topic_metadata topics []) _ h1 in
    let made : MetadataResponse = record { brokers = bs; topics = ts } in
    let e : ok made ≡ ok m = h2 in
    let same : made ≡ m = cc in
    subst (λ (r : MetadataResponse). IsDistinct r.brokers) same
      (for_items-keeps IsDistinct store_broker store_broker-IsDistinct broker_info [] bs tt e1)
read_metadata-IsDistinct v m h = cc

-- What MetadataResponse reads names each broker under its id, and no id twice.
pub metadata_response-IsDistinct :
    (buff : List ℕ) (m : MetadataResponse) → metadata_response buff ≡ ok m → IsDistinct m.brokers
unfolding metadata_response
metadata_response-IsDistinct buff m h =
    let (v, e, r) = >>=-eq-ok (unpack_from (codes "[iSi] [hS [hii [i] [i] ] ]") buff 0) _ h in
    read_metadata-IsDistinct v m r
