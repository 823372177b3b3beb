-- ===== src/Cluster/Updated.antt =====
-- After an update the cluster knows the brokers that the metadata names, at the addresses that it names.
use pykafka.Prelude.{
  ℤ, ◌≡◌, ◌≢◌, refl, sym, ap, ◌∙◌, inl, inr, Option, none, some, [], ◌∷◌, get_elem?, All,
  Option-cases,
}
use pykafka.Result.{Result, ok}
use pykafka.Action.{for_each}
use pykafka.Dict.{Dict, lookup, int_eq}
use pykafka.Dict.Laws.{lookup-retain}
use pykafka.Protocol.Response.Brokers.{BrokerMetadata}
use pykafka.Broker.{Broker}
use pykafka.Cluster.{Cluster, Ref, update_broker, update_brokers, remove_brokers}
use pykafka.Prelude.{subst}
use pykafka.Protocol.Response.Brokers.Distinct.{IsDistinct}
use pykafka.Cluster.Known.{IsKnown, Fits, kept, found, Round}
use pykafka.Cluster.Rounds.{update_broker-Round}
use pykafka.Action.{go_on-ok}
use pykafka.Dict.Laws.{if_named}
use pykafka.Dict.Laws.{All-found}
use pykafka.Dict.Laws.{lookup-none}

-- What the rounds leave.
record Rounds (metadata : Dict ℤ BrokerMetadata) (before after : Cluster) : Type 0 where
  known : IsKnown after
  fits : All (λ m. Fits m.0 m.1 before after) metadata
  others : (j : ℤ) → All (λ m. j ≢ m.0) metadata → lookup j after.brokers ≡ lookup j before.brokers
  untouched :
      (r : Ref) (b : Broker)
      → get_elem? before.store r ≡ some b
      → All (λ m. b.id ≢ m.0) metadata
      → get_elem? after.store r ≡ some b

-- A later round leaves a broker with another id as it fits.
later-Fits :
    (id : ℤ) (meta : BrokerMetadata) (c0 c1 c2 : Cluster)
    → Fits id meta c0 c1
    → lookup id c2.brokers ≡ lookup id c1.brokers
    → ((r : Ref) (b : Broker)
        → get_elem? c1.store r ≡ some b
        → b.id ≡ id
        → get_elem? c2.store r ≡ some b)
    → Fits id meta c0 c2
later-Fits id meta c0 c1 c2 (kept ref b b' l0 s0 l1 s1 i a h) same keeps =
    kept ref b b' l0 s0 (same ∙ l1) (keeps ref b' s1 i) i a h
later-Fits id meta c0 c1 c2 (found ref b' l0 l1 s1 i a open_) same keeps =
    found ref b' l0 (same ∙ l1) (keeps ref b' s1 i) i a open_

-- So does an earlier one.
earlier-Fits :
    (id : ℤ) (meta : BrokerMetadata) (c0 c1 c2 : Cluster)
    → Fits id meta c1 c2
    → IsKnown c0
    → lookup id c1.brokers ≡ lookup id c0.brokers
    → ((r : Ref) (b : Broker)
        → get_elem? c0.store r ≡ some b
        → b.id ≡ id
        → get_elem? c1.store r ≡ some b)
    → Fits id meta c0 c2
earlier-Fits id meta c0 c1 c2 (kept ref b b' l1 s1 l2 s2 i a h) k same keeps =
    let l0 : lookup id c0.brokers ≡ some ref = sym same ∙ l1 in
    let (b0, s0, i0) = k.known id ref l0 in
    let both : some b0 ≡ some b = sym (keeps ref b0 s0 i0) ∙ s1 in
    let e : b0 ≡ b = cc in kept ref b b' l0 (s0 ∙ ap some e) l2 s2 i a h
earlier-Fits id meta c0 c1 c2 (found ref b' l1 l2 s2 i a open_) k same keeps =
    found ref b' (sym same ∙ l1) l2 s2 i a open_

earlier_all :
    (id : ℤ) (meta : BrokerMetadata) (c0 c1 c2 : Cluster) (metadata : Dict ℤ BrokerMetadata)
    → IsKnown c0
    → Round id meta c0 c1
    → All (λ m. id ≢ m.0) metadata
    → All (λ m. Fits m.0 m.1 c1 c2) metadata
    → All (λ m. Fits m.0 m.1 c0 c2) metadata
earlier_all id meta c0 c1 c2 [] k round distinct fits = tt
earlier_all id meta c0 c1 c2 (m ∷ metadata) k round (ne, distinct) (f, fits) = (
  earlier-Fits m.0 m.1 c0 c1 c2 f k (round.others m.0 ne)
      (λ r b at_r i. round.untouched r b at_r (λ e. ne (e ∙ i))),
  earlier_all id meta c0 c1 c2 metadata k round distinct fits,
)

-- The rounds of the loop, where it goes through.
update_all-Rounds :
    (metadata : Dict ℤ BrokerMetadata) (c : Cluster)
    → IsDistinct metadata
    → IsKnown c
    → (for_each update_broker metadata c).0 ≡ ok tt
    → Rounds metadata c (for_each update_broker metadata c).1
update_all-Rounds [] c d k h = record {
  known = k;
  fits = tt;
  others = λ j a. refl;
  untouched = λ r b at_r a. at_r;
}
update_all-Rounds ((id, meta) ∷ metadata) c (same, (distinct, d)) k h =
    let (u, first, steps) =
      go_on-ok (update_broker (id, meta) c) (λ _. for_each update_broker metadata) tt h in
    let c1 : Cluster = (update_broker (id, meta) c).1 in
    let c2 : Cluster = (for_each update_broker metadata c1).1 in
    let one = (update_broker-Round id meta c same k).1 first in
    let rest =
      update_all-Rounds metadata c1 d one.known
        (ap (λ (o : Result (Unit {0}) × Cluster). o.0) (sym steps) ∙ h) in
    subst (λ (o : Result (Unit {0}) × Cluster). Rounds ((id, meta) ∷ metadata) c o.1) (sym steps)
      (record {
        known = rest.known;
        fits = (
          later-Fits id meta c c1 c2 one.fits (rest.others id distinct) (λ r b at_r i.
              rest.untouched r b at_r
                (subst (λ (j : ℤ). All (λ m. j ≢ m.0) metadata) (sym i) distinct)),
          earlier_all id meta c c1 c2 metadata k one distinct rest.fits,
        );
        others = λ j a. rest.others j a.1 ∙ one.others j (λ e. a.0 (sym e));
        untouched =
            λ r b at_r a. rest.untouched r b (one.untouched r b at_r (λ e. a.0 (sym e))) a.1;
      })

-- What is left of a broker after popping.
lookup-removed :
    (metadata : Dict ℤ BrokerMetadata) (brokers : Dict ℤ Ref) (id : ℤ)
    → lookup id (remove_brokers metadata brokers)
      ≡ if_named (lookup id metadata) (lookup id brokers)
lookup-removed metadata brokers id = lookup-retain id metadata brokers

lookup-removed_found :
    (metadata : Dict ℤ BrokerMetadata) (brokers : Dict ℤ Ref) (id : ℤ)
    → lookup id metadata ≢ none
    → lookup id (remove_brokers metadata brokers) ≡ lookup id brokers
lookup-removed_found metadata brokers id h = elim (Option-cases (lookup id metadata)) [
  | inl e ↦ absurd (h e)
  | inr (meta, e) ↦
      lookup-removed metadata brokers id
      ∙ ap (λ (o : Option BrokerMetadata). if_named o (lookup id brokers)) e
]

lookup-removed_none :
    (metadata : Dict ℤ BrokerMetadata) (brokers : Dict ℤ Ref) (id : ℤ)
    → lookup id metadata ≡ none
    → lookup id (remove_brokers metadata brokers) ≡ none
lookup-removed_none metadata brokers id h =
    lookup-removed metadata brokers id
    ∙ ap (λ (o : Option BrokerMetadata). if_named o (lookup id brokers)) h

abbrev pub removed : Dict ℤ BrokerMetadata → Cluster → Cluster
removed metadata c = record c { brokers = remove_brokers metadata c.brokers }

-- Popping keeps the others, and those that are known are known.
pub removed-IsKnown :
    (metadata : Dict ℤ BrokerMetadata) (c : Cluster) → IsKnown c → IsKnown (removed metadata c)
removed-IsKnown metadata c k = record {
  known = λ id ref h. elim (Option-cases (lookup id metadata)) [
    | inl e ↦
        let clash : none ≡ some ref = sym (lookup-removed_none metadata c.brokers id e) ∙ h in
        absurd cc
    | inr (meta, e) ↦ k.known id ref (
        sym (
          lookup-removed_found metadata c.brokers id
            (λ q. (let clash : some meta ≡ none = sym e ∙ q in absurd cc)))
        ∙ h)
  ];
}

before_removal :
    (metadata ms : Dict ℤ BrokerMetadata) (c after : Cluster)
    → IsKnown c
    → All (λ m. lookup m.0 metadata ≢ none) ms
    → All (λ m. Fits m.0 m.1 (removed metadata c) after) ms
    → All (λ m. Fits m.0 m.1 c after) ms
before_removal metadata [] c after k named fits = tt
before_removal metadata (m ∷ ms) c after k (n, named) (f, fits) = (
  earlier-Fits m.0 m.1 c (removed metadata c) after f k
      (lookup-removed_found metadata c.brokers m.0 n) (λ r b at_r i. at_r),
  before_removal metadata ms c after k named fits,
)

-- Where each broker that the cluster knows stands under its id, the metadata is a dict of brokers by their
-- ids, and _update_brokers goes through, each broker that it knows stands under its id again, and it knows
-- exactly those that the metadata names: one that was known is the same object at the address that it
-- had, which is that of the metadata if it was connected, and one that was not is a new object, which
-- is connected, at the address of the metadata.
pub update_brokers_lem :
    (metadata : Dict ℤ BrokerMetadata) (c : Cluster)
    → IsDistinct metadata
    → IsKnown c
    → (update_brokers metadata c).0 ≡ ok tt
    → IsKnown (update_brokers metadata c).1
      × All (λ m. Fits m.0 m.1 c (update_brokers metadata c).1) metadata
      × ((id : ℤ)
          → lookup id metadata ≡ none
          → lookup id (update_brokers metadata c).1.brokers ≡ none)
unfolding update_brokers
update_brokers_lem metadata c d k h =
    let after : Cluster = (for_each update_broker metadata (removed metadata c)).1 in
    let r = update_all-Rounds metadata (removed metadata c) d (removed-IsKnown metadata c k) h in
    (
      r.known,
      before_removal metadata metadata c after k (All-found metadata) r.fits,
      λ id absent.
          r.others id (lookup-none id metadata absent)
          ∙ lookup-removed_none metadata c.brokers id absent,
    )
