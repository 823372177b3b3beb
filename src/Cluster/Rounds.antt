-- ===== src/Cluster/Rounds.antt =====
-- The rounds of the update: a new broker, one that is reconnected, and one that is checked.
use pykafka.Prelude.{
  ℤ, ◌≡◌, ◌≢◌, refl, sym, ap, ◌∙◌, inl, inr, Bool, true, false, Option, none, some, List, [], ◌∷◌,
  length, get_elem?, modify, Option-cases, Bool-cases, eq_ℤ_iff, get_elem?-append,
  get_elem?-append_left, get_elem?-modify_self, get_elem?-modify_ne,
}
use pykafka.Result.{Result, ok, err}
use pykafka.Action.{go_on}
use pykafka.Dict.{lookup, int_eq, text_beq, text_beq_iff}
use pykafka.Prelude.{◌&&◌}
use pykafka.Dict.Laws.{lookup-insert_self, lookup-insert_ne}
use pykafka.Connection.{Socket}
use pykafka.Protocol.Response.Brokers.{BrokerMetadata}
use pykafka.Broker.{Broker, connected, connect, from_metadata}
use pykafka.Cluster.{
  Cluster, Ref, on_broker, discover, reconnect, renew, add_or_renew, update_broker,
}
use pykafka.Cluster.{buffer_size}
use pykafka.Cluster.{place}
use pykafka.Cluster.{eq_ℤ}
use pykafka.Action.{Action}
use pykafka.Prelude.{subst}
use pykafka.Prelude.{false≢true}
use pykafka.Cluster.{except_socket_error}
use pykafka.Cluster.{check_unchanged}
use pykafka.Cluster.{put_back}
use pykafka.Cluster.{call_broker}
use pykafka.Prelude.{if◌then◌else◌}
use pykafka.Cluster.Known.{
  IsKnown, HasAddress, kept, found, Round, Same, next_connection-Same, connect-same,
  from_metadata-ok, listed-IsKnown, Same-IsKnown,
}
use pykafka.Action.{pure}
use pykafka.Action.{raise}
use pykafka.Cluster.{exception}

place-Round :
    (id : ℤ) (meta : BrokerMetadata) (c c1 : Cluster) (b : Broker)
    → Same c c1
    → IsKnown c
    → lookup id c.brokers ≡ none
    → b.id ≡ id
    → HasAddress meta b
    → connected b ≡ true
    → Round id meta c (place id (ok b) c1).1
place-Round id meta c c1 b s k new id_b address open_ =
    let ref : Ref = length c1.store in
    let after : Cluster = (place id (ok b) c1).1 in
    let listed : lookup id after.brokers ≡ some ref = lookup-insert_self id ref c1.brokers in
    let at_ref : get_elem? after.store ref ≡ some b = get_elem?-append c1.store b [] in
    let others : (j : ℤ) → id ≢ j → lookup j after.brokers ≡ lookup j c.brokers =
      λ j ne. lookup-insert_ne id j ref c1.brokers ne ∙ ap (lookup j) s.brokers in
    let untouched : (r : Ref) (d : Broker)
        → get_elem? c.store r ≡ some d
        → id ≢ d.id
        → get_elem? after.store r ≡ some d =
      λ r d h _.
        get_elem?-append_left c1.store (b ∷ []) r d
          (ap (λ (l : List Broker). get_elem? l r) s.store ∙ h) in
    record {
      known = listed-IsKnown id c after ref b k others untouched listed at_ref id_b;
      fits = found ref b new listed at_ref id_b address open_;
      others = others;
      untouched = untouched;
    }

-- What is known stays so, and what goes through is a round.
abbrev pub GoesThrough : ℤ → BrokerMetadata → Cluster → Result (Unit {0}) × Cluster → Type 0
GoesThrough id meta c o = IsKnown o.1 × (o.0 ≡ ok tt → Round id meta c o.1)

placed-Round :
    (id : ℤ) (meta : BrokerMetadata) (c c1 : Cluster) (r : Result Broker)
    → Same c c1
    → IsKnown c
    → lookup id c.brokers ≡ none
    → ((b : Broker) → r ≡ ok b → (b.id ≡ id) × HasAddress meta b × (connected b ≡ true))
    → GoesThrough id meta c (place id r c1)
placed-Round id meta c c1 (err e) s k new made = (Same-IsKnown c c1 s k, λ h. cc)
placed-Round id meta c c1 (ok b) s k new made =
    let (id_b, address, open_) = made b refl in
    let round = place-Round id meta c c1 b s k new id_b address open_ in (round.known, λ _. round)

discover-Round :
    (id : ℤ) (meta : BrokerMetadata) (c : Cluster)
    → meta.id ≡ id
    → IsKnown c
    → lookup id c.brokers ≡ none
    → GoesThrough id meta c (discover id meta c)
unfolding discover
discover-Round id meta c same k new =
    let (created, c1, e, s) = next_connection-Same c in
    let next : Result Socket → Action Cluster (Unit {0}) =
      λ created. place id (from_metadata meta buffer_size created) in
    subst (GoesThrough id meta c)
      (ap (λ (x : Result (Result Socket) × Cluster). go_on x next) (sym e))
      (placed-Round id meta c c1 (from_metadata meta buffer_size created) s k new (λ b f.
        (let (i, address, open_) = from_metadata-ok meta buffer_size created b f in
          (i ∙ same, address, open_))))

-- The object at the place of a broker that is reconnected, and the others.
reconnected-Round :
    (id : ℤ) (meta : BrokerMetadata) (c c1 : Cluster) (ref : Ref) (b b' : Broker)
    → Same c c1
    → IsKnown c
    → lookup id c.brokers ≡ some ref
    → get_elem? c.store ref ≡ some b
    → b.id ≡ id
    → (b'.id ≡ b.id) × (b'.host ≡ b.host) × (b'.port ≡ b.port)
    → connected b ≡ false
    → Round id meta c (record c1 { store = modify ref (λ _. b') c1.store })
reconnected-Round id meta c c1 ref b b' s k listed at_ref id_b (i, h, p) closed =
    let after : Cluster = record c1 { store = modify ref (λ _. b') c1.store } in
    let at_1 : get_elem? c1.store ref ≡ some b =
      ap (λ (l : List Broker). get_elem? l ref) s.store ∙ at_ref in
    let at_after : get_elem? after.store ref ≡ some b' =
      get_elem?-modify_self ref (λ _. b') c1.store b at_1 in
    let others : (j : ℤ) → id ≢ j → lookup j after.brokers ≡ lookup j c.brokers =
      λ j ne. ap (lookup j) s.brokers in
    let untouched : (r : Ref) (d : Broker)
        → get_elem? c.store r ≡ some d
        → id ≢ d.id
        → get_elem? after.store r ≡ some d =
      λ r d at_r ne.
        get_elem?-modify_ne ref r (λ _. b') c1.store
          (λ e. ne (other_object ref r b d e at_ref at_r id_b))
        ∙ ap (λ (l : List Broker). get_elem? l r) s.store
        ∙ at_r in
    let listed' : lookup id after.brokers ≡ some ref = ap (lookup id) s.brokers ∙ listed in
    record {
      known = listed-IsKnown id c after ref b' k others untouched listed' at_after (i ∙ id_b);
      fits =
          kept ref b b' listed at_ref listed' at_after (i ∙ id_b) (h, p)
            (λ open_. absurd (false≢true (sym closed ∙ open_)));
      others = others;
      untouched = untouched;
    }
  where
    other_object :
        (r r' : Ref) (d d' : Broker)
        → r ≡ r'
        → get_elem? c.store r ≡ some d
        → get_elem? c.store r' ≡ some d'
        → d.id ≡ id
        → id ≡ d'.id
    other_object r r' d d' e at_r at_r' i =
        let both : some d ≡ some d' = sym at_r ∙ ap (get_elem? c.store) e ∙ at_r' in
        let same : d ≡ d' = cc in sym i ∙ ap (λ (x : Broker). x.id) same

reconnect-Round :
    (id : ℤ) (meta : BrokerMetadata) (c : Cluster) (ref : Ref) (b : Broker)
    → IsKnown c
    → lookup id c.brokers ≡ some ref
    → get_elem? c.store ref ≡ some b
    → b.id ≡ id
    → connected b ≡ false
    → GoesThrough id meta c (reconnect ref c)
unfolding reconnect on_broker
reconnect-Round id meta c ref b k listed at_ref id_b closed =
    let (created, c1, e, s) = next_connection-Same c in
    let next : Result Socket → Action Cluster (Unit {0}) =
      λ created d. except_socket_error (on_broker ref (connect created) d) in
    let at_1 : get_elem? c1.store ref ≡ some b =
      ap (λ (l : List Broker). get_elem? l ref) s.store ∙ at_ref in
    let steps : reconnect ref c ≡ except_socket_error (put_back ref c1 (connect created b)) =
      ap (λ (x : Result (Result Socket) × Cluster). go_on x next) e
      ∙ ap (λ (o : Option Broker). except_socket_error (call_broker (connect created) ref o c1))
          at_1 in
    let round =
      reconnected-Round id meta c c1 ref b (connect created b).1 s k listed at_ref id_b
        (connect-same created b) closed in
    subst (GoesThrough id meta c) (sym steps) (round.known, λ _. round)

-- A broker that is connected is left as it is, if its address is that of the metadata.
checked-Round :
    (id : ℤ) (meta : BrokerMetadata) (c : Cluster) (ref : Ref) (b : Broker)
    → IsKnown c
    → lookup id c.brokers ≡ some ref
    → get_elem? c.store ref ≡ some b
    → b.id ≡ id
    → (t : Bool) → (t ≡ true → HasAddress meta b)
    → GoesThrough id meta c ((if t then pure tt else raise exception) c)
checked-Round id meta c ref b k listed at_ref id_b false address = (k, λ h. cc)
checked-Round id meta c ref b k listed at_ref id_b true address = (
  k,
  λ _. record {
    known = k;
    fits = kept ref b b listed at_ref listed at_ref id_b (refl, refl) (λ _. address refl);
    others = λ j ne. refl;
    untouched = λ r d at_r ne. at_r;
  },
)

both-true : (x y : Bool) → (x && y) ≡ true → (x ≡ true) × (y ≡ true)
both-true true y h = (refl, h)
both-true false y h = absurd cc

same_address :
    (meta : BrokerMetadata) (b : Broker)
    → (text_beq meta.host b.host && eq_ℤ meta.port b.port) ≡ true
    → HasAddress meta b
same_address meta b h =
    let (host, port) = both-true (text_beq meta.host b.host) (eq_ℤ meta.port b.port) h in
    (sym ((text_beq_iff meta.host b.host).0 host), sym ((eq_ℤ_iff meta.port b.port).0 port))

renew-Round :
    (id : ℤ) (meta : BrokerMetadata) (c : Cluster) (ref : Ref) (b : Broker)
    → IsKnown c
    → lookup id c.brokers ≡ some ref
    → get_elem? c.store ref ≡ some b
    → b.id ≡ id
    → GoesThrough id meta c (renew ref meta (some b) c)
renew-Round id meta c ref b k listed at_ref id_b = elim (Bool-cases (connected b)) [
  | inl p ↦
      subst (GoesThrough id meta c)
        (ap (λ (t : Bool). (if t then check_unchanged meta b else reconnect ref) c) (sym p))
        (checked-Round id meta c ref b k listed at_ref id_b
          (text_beq meta.host b.host && eq_ℤ meta.port b.port) (same_address meta b))
  | inr p ↦
      subst (GoesThrough id meta c)
        (ap (λ (t : Bool). (if t then check_unchanged meta b else reconnect ref) c) (sym p))
        (reconnect-Round id meta c ref b k listed at_ref id_b p)
]

-- One round of the loop of _update_brokers.
pub update_broker-Round :
    (id : ℤ) (meta : BrokerMetadata) (c : Cluster)
    → meta.id ≡ id
    → IsKnown c
    → GoesThrough id meta c (update_broker (id, meta) c)
unfolding update_broker
update_broker-Round id meta c same k = elim (Option-cases (lookup id c.brokers)) [
  | inl new ↦
      subst (GoesThrough id meta c) (ap (λ (o : Option Ref). add_or_renew id meta o c) (sym new))
        (discover-Round id meta c same k new)
  | inr (ref, listed) ↦
      let (b, at_ref, id_b) = k.known id ref listed in
      subst (GoesThrough id meta c)
        (sym (
          ap (λ (o : Option Ref). add_or_renew id meta o c) listed
          ∙ ap (λ (o : Option Broker). renew ref meta o c) at_ref))
        (renew-Round id meta c ref b k listed at_ref id_b)
]
