-- ===== src/Cluster/Called.antt =====
-- A call of a broker's method keeps the brokers known.
use pykafka.Prelude.{
  ◌≡◌, ◌≢◌, sym, ap, subst, ◌∙◌, inl, inr, true, false, Option, none, some, get_elem?, modify, ◌==◌,
  ==_iff, Bool-cases, Option-cases, get_elem?-modify_self, get_elem?-modify_ne,
}
use pykafka.Result.{Result, ok}
use pykafka.Dict.{int_eq, text_eq}
use pykafka.Broker.{Broker}
use pykafka.Cluster.{Cluster, Ref, on_broker, call_broker}
use pykafka.Cluster.Known.{IsKnown}

put_back-IsKnown :
    (ref : Ref) (c : Cluster) (b b' : Broker)
    → IsKnown c
    → get_elem? c.store ref ≡ some b
    → b'.id ≡ b.id
    → IsKnown (record c { store = modify ref (λ _. b') c.store })
put_back-IsKnown ref c b b' k at_ref i = record {
  known = λ id r h.
      (let (d, at_r, id_d) = k.known id r h in
        elim (Bool-cases (ref == r)) [
          | inl p ↦
              let e : ref ≡ r = (==_iff ref r).0 p in
              let both : some b ≡ some d = sym at_ref ∙ ap (get_elem? c.store) e ∙ at_r in
              let same : b ≡ d = cc in
              (
                b',
                ap (get_elem? (modify ref (λ _. b') c.store)) (sym e)
                    ∙ get_elem?-modify_self ref (λ _. b') c.store b at_ref,
                i ∙ ap (λ (x : Broker). x.id) same ∙ id_d,
              )
          | inr p ↦
              let ne : ref ≢ r =
                λ e. (let clash : true ≡ false = sym ((==_iff ref r).1 e) ∙ p in absurd cc) in
              (d, get_elem?-modify_ne ref r (λ _. b') c.store ne ∙ at_r, id_d)
        ]);
}

-- A method that leaves a broker's id keeps all brokers known.
pub on_broker-IsKnown {ℓ} :
    {A : Type ℓ} (ref : Ref) (method : Broker → Result A × Broker) (c : Cluster)
    → ((b : Broker) → (method b).1.id ≡ b.id)
    → IsKnown c
    → IsKnown (on_broker ref method c).1
unfolding on_broker
on_broker-IsKnown ref method c same k = elim (Option-cases (get_elem? c.store ref)) [
  | inl e ↦ subst (λ (o : Option Broker). IsKnown (call_broker method ref o c).1) (sym e) k
  | inr (b, e) ↦
      subst (λ (o : Option Broker). IsKnown (call_broker method ref o c).1) (sym e)
        (put_back-IsKnown ref c b (method b).1 k e (same b))
]

-- What a broker's method returned.
pub on_broker-ok {ℓ} :
    {A : Type ℓ} (ref : Ref) (method : Broker → Result A × Broker) (c : Cluster) (a : A)
    → (on_broker ref method c).0 ≡ ok a
    → (b : Broker) × ((method b).0 ≡ ok a)
unfolding on_broker
on_broker-ok ref method c a h = call-ok (get_elem? c.store ref) h
  where
    call-ok :
        (o : Option Broker)
        → (call_broker method ref o c).0 ≡ ok a
        → (b : Broker) × ((method b).0 ≡ ok a)
    call-ok none h = cc
    call-ok (some b) h = (b, h)
