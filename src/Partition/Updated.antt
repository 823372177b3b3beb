-- ===== src/Partition/Updated.antt =====
-- After an update the partition is as its metadata says, or a broker was missing.
use pykafka.Prelude.{
  ℤ, ◌≡◌, refl, ap, true, ◌⊎◌, inl, inr, arith, Bool-cases, some, List, [], ◌∷◌, map, eq_ℤ_iff,
}
use pykafka.Result.{Error, ok, err, leader_not_available, Result-cases, >>=-eq-ok}
use pykafka.Dict.{Dict, lookup, int_eq}
use pykafka.Protocol.Response.Brokers.{PartitionMetadata}
use pykafka.Partition.{
  Partition, ids_eq, sorted_ids, broker_at, brokers_at, refresh, set_isr, set_replicas, set_leader,
  update,
}

ids_eq→eq : (a b : List ℤ) → ids_eq a b ≡ true → a ≡ b
ids_eq→eq [] [] h = refl
ids_eq→eq (x ∷ xs) (y ∷ ys) h = ground (arith, ids_eq→eq xs ys, eq_ℤ_iff x y)
ids_eq→eq [] (y ∷ ys) h = cc
ids_eq→eq (x ∷ xs) [] h = cc

module _ {ℓ} {B : Type ℓ} (id_of : B → ℤ) (brokers : Dict ℤ B) where
  -- Each broker stands under its id.
  pub record IsKeyed : Type ℓ where
    pub keyed : (b : ℤ) (broker : B) → lookup b brokers ≡ some broker → id_of broker ≡ b

  pub broker_at-id :
      IsKeyed → (b : ℤ) (broker : B) → broker_at id_of brokers b ≡ ok broker → id_of broker ≡ b
  unfolding broker_at
  broker_at-id k b broker h = ground (arith, k.keyed b broker)

  pub brokers_at-ids :
      IsKeyed
      → (ids : List ℤ) (found : List B) → brokers_at id_of brokers ids ≡ ok found
      → map id_of found ≡ ids
  unfolding brokers_at
  brokers_at-ids k [] found h = let e : [] ≡ found = cc in rw (← e)
  brokers_at-ids k (b ∷ ids) found h =
      let (broker, eb, h1) = >>=-eq-ok (broker_at id_of brokers b) _ h in
      let (rest, er, h2) = >>=-eq-ok (brokers_at id_of brokers ids) _ h1 in
      let e : broker ∷ rest ≡ found = cc in
      rw (← e, broker_at-id k b broker eb, brokers_at-ids k ids rest er)

  -- Whether or not the list is replaced, it holds the brokers of these ids.
  refresh-ids :
      IsKeyed
      → (old : List B) (ids : List ℤ) (found : List B) → refresh id_of brokers old ids ≡ ok found
      → sorted_ids (map id_of found) ≡ sorted_ids ids
  unfolding refresh
  refresh-ids k old ids found h =
      elim (Bool-cases (ids_eq (sorted_ids (map id_of old)) (sorted_ids ids))) [
        | inl p ↦
            let e : ok old ≡ ok found = rw p at h in
            let same : old ≡ found = cc in
            rw (← same) (ids_eq→eq (sorted_ids (map id_of old)) (sorted_ids ids) p)
        | inr p ↦
            let e : brokers_at id_of brokers ids ≡ ok found = rw p at h in
            ap sorted_ids (brokers_at-ids k ids found e)
      ]

  refresh-err :
      (old : List B) (ids : List ℤ) (x : Error)
      → refresh id_of brokers old ids ≡ err x
      → brokers_at id_of brokers ids ≡ err x
  unfolding refresh
  refresh-err old ids x h = ground arith

  -- The partition is as the metadata says.
  pub record IsCurrent (metadata : PartitionMetadata) (p : Partition B) : Type ℓ where
    pub leader : id_of p.leader ≡ metadata.leader
    pub replicas : sorted_ids (map id_of p.replicas) ≡ sorted_ids metadata.replicas
    pub isr : sorted_ids (map id_of p.isr) ≡ sorted_ids metadata.isr

  -- Where each broker stands under its id and `update` goes through, the leader, the replicas and the
  -- in-sync replicas are the brokers that the metadata names; otherwise it raises LeaderNotAvailable,
  -- and a broker that it names for one of these is missing.
  pub update_lem :
      (metadata : PartitionMetadata) (p : Partition B)
      → IsKeyed
      → ((update id_of brokers metadata p).0 ≡ ok tt)
          × IsCurrent metadata (update id_of brokers metadata p).1
        ⊎ ((update id_of brokers metadata p).0 ≡ err leader_not_available)
          × ((e : Error) × ((broker_at id_of brokers metadata.leader ≡ err e)
                ⊎ ((brokers_at id_of brokers metadata.replicas ≡ err e)
                    ⊎ (brokers_at id_of brokers metadata.isr ≡ err e))))
  unfolding update set_leader set_replicas set_isr
  update_lem metadata p k = elim (Result-cases (broker_at id_of brokers metadata.leader)) [
    | inr (x, e1) ↦ inr (rw e1, (x, inl e1))
    | inl (leader, e1) ↦ elim (Result-cases (refresh id_of brokers p.replicas metadata.replicas)) [
      | inr (x, e2) ↦
          inr (rw (e1, e2), (x, inr (inl (refresh-err p.replicas metadata.replicas x e2))))
      | inl (replicas, e2) ↦ elim (Result-cases (refresh id_of brokers p.isr metadata.isr)) [
        | inr (x, e3) ↦ inr (rw (e1, e2, e3), (x, inr (inr (refresh-err p.isr metadata.isr x e3))))
        | inl (isr, e3) ↦ inl (
          rw (e1, e2, e3),
          rw (e1, e2, e3)
              (record {
                leader = broker_at-id k metadata.leader leader e1;
                replicas = refresh-ids k p.replicas metadata.replicas replicas e2;
                isr = refresh-ids k p.isr metadata.isr isr e3;
              }),
        )
      ]
    ]
  ]
