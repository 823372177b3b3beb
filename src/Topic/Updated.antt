-- ===== src/Topic/Updated.antt =====
-- After an update a topic has the partitions that the metadata names, each as it says.
use pykafka.Prelude.{
  ℤ, ◌≡◌, ◌≢◌, refl, sym, ap, subst, ◌∙◌, inl, inr, Option-cases, Bool-cases, true, false, Option,
  none, some, [], ◌∷◌, All, eq_ℤ, eq_ℤ_iff,
}
use pykafka.Result.{Result, Error, ok, err, Result-cases, >>=-eq-ok, leader_not_available}
use pykafka.Dict.{Dict, lookup, insert, int_eq}
use pykafka.Dict.Laws.{lookup-insert_self, lookup-insert_ne}
use pykafka.Protocol.Response.Brokers.{PartitionMetadata}
use pykafka.Partition.{Partition, broker_at, brokers_at, update, sorted_ids}
use pykafka.Partition.Updated.{IsKeyed, IsCurrent, update_lem, broker_at-id, brokers_at-ids}
use pykafka.Topic.{
  remove_old, new_partition, add_new, update_old, add_or_update, update_one, keep_on, update_all,
  update_topic, Outcome,
}

module _ {ℓ} {B : Type ℓ} (id_of : B → ℤ) (brokers : Dict ℤ B) where
  -- The partition of this id is there, and as its metadata says.
  pub record IsListed (meta : PartitionMetadata) (partitions : Dict ℤ (Partition B)) : Type ℓ where
    pub partition : Partition B
    pub found : lookup meta.id partitions ≡ some partition
    pub current : IsCurrent id_of brokers meta partition

  new_partition-IsCurrent :
      IsKeyed id_of brokers
      → (meta : PartitionMetadata) (p : Partition B) → new_partition id_of brokers meta ≡ ok p
      → IsCurrent id_of brokers meta p
  unfolding new_partition
  new_partition-IsCurrent k meta p h =
      let (leader, e1, h1) = >>=-eq-ok (broker_at id_of brokers meta.leader) _ h in
      let (replicas, e2, h2) = >>=-eq-ok (brokers_at id_of brokers meta.replicas) _ h1 in
      let (isr, e3, h3) = >>=-eq-ok (brokers_at id_of brokers meta.isr) _ h2 in
      let q : Partition B = record {
        id = meta.id;
        leader = leader;
        replicas = replicas;
        isr = isr;
      } in
      let e : ok q ≡ ok p = h3 in
      let same : q ≡ p = cc in
      rw (← same) (record {
        leader = broker_at-id id_of brokers k meta.leader leader e1;
        replicas = ap sorted_ids (brokers_at-ids id_of brokers k meta.replicas replicas e2);
        isr = ap sorted_ids (brokers_at-ids id_of brokers k meta.isr isr e3);
      })

  -- A round that goes through lists the partition, and leaves the others as they are.
  record Round (meta : PartitionMetadata) (before after : Dict ℤ (Partition B)) : Type ℓ where
    listed : IsListed meta after
    others : (id : ℤ) → meta.id ≢ id → lookup id after ≡ lookup id before

  insert-Round :
      (meta : PartitionMetadata) (p : Partition B) (partitions : Dict ℤ (Partition B))
      → IsCurrent id_of brokers meta p
      → Round meta partitions (insert meta.id p partitions)
  insert-Round meta p partitions c = record {
    listed = record { partition = p; found = lookup-insert_self meta.id p partitions; current = c };
    others = λ id ne. lookup-insert_ne meta.id id p partitions ne;
  }

  update-IsCurrent :
      IsKeyed id_of brokers
      → (meta : PartitionMetadata) (p : Partition B) → (update id_of brokers meta p).0 ≡ ok tt
      → IsCurrent id_of brokers meta (update id_of brokers meta p).1
  update-IsCurrent k meta p h = elim (update_lem id_of brokers meta p k) [
    | inl (e, c) ↦ c
    | inr (e, missing) ↦ let clash : ok tt ≡ err leader_not_available = sym h ∙ e in absurd cc
  ]

  update_one-Round :
      IsKeyed id_of brokers
      → (meta : PartitionMetadata) (partitions after : Dict ℤ (Partition B))
      → update_one id_of brokers meta.id meta (lookup meta.leader brokers) partitions
        ≡ (ok tt, after)
      → Round meta partitions after
  unfolding update_one add_or_update add_new update_old
  update_one-Round k meta partitions after h = elim (Option-cases (lookup meta.leader brokers)) [
    | inl e1 ↦
        let clash : (err leader_not_available, partitions) ≡ (ok tt, after) = rw e1 at h in
        absurd cc
    | inr (leader, e1) ↦ elim (Option-cases (lookup meta.id partitions)) [
      | inl e2 ↦ elim (Result-cases (new_partition id_of brokers meta)) [
        | inl (p, e3) ↦
            let done : (ok tt, insert meta.id p partitions) ≡ (ok tt, after) =
              rw (e1, e2, e3) at h in
            let same : insert meta.id p partitions ≡ after = cc in
            rw (← same) (insert-Round meta p partitions (new_partition-IsCurrent k meta p e3))
        | inr (x, e3) ↦
            let clash : (err x, partitions) ≡ (ok tt, after) = rw (e1, e2, e3) at h in absurd cc
      ]
      | inr (p, e2) ↦
          let u = update id_of brokers meta p in
          let done : (u.0, insert meta.id u.1 partitions) ≡ (ok tt, after) = rw (e1, e2, e2) at h in
          let through : u.0 ≡ ok tt = cc in
          let same : insert meta.id u.1 partitions ≡ after = cc in
          rw (← same) (insert-Round meta u.1 partitions (update-IsCurrent k meta p through))
    ]
  ]

  Round-at :
      IsKeyed id_of brokers
      → (id : ℤ) (meta : PartitionMetadata) (partitions : Dict ℤ (Partition B)) → meta.id ≡ id
      → (update_one id_of brokers id meta (lookup meta.leader brokers) partitions).0 ≡ ok tt
      → Round meta partitions
          (update_one id_of brokers id meta (lookup meta.leader brokers) partitions).1
  Round-at k id meta partitions same =
      subst
        (λ i.
          (update_one id_of brokers i meta (lookup meta.leader brokers) partitions).0 ≡ ok tt
          → Round meta partitions
              (update_one id_of brokers i meta (lookup meta.leader brokers) partitions).1)
        same
        (λ h.
          let o = update_one id_of brokers meta.id meta (lookup meta.leader brokers) partitions in
          update_one-Round k meta partitions o.1 (ap (λ (r : Result (Unit {0})). (r, o.1)) h))

  -- An exception ends the loop.
  update_all-err :
      (p_metas : Dict ℤ PartitionMetadata) (x : Error) (partitions : Dict ℤ (Partition B))
      → (update_all id_of brokers p_metas (err x, partitions)).0 ≡ err x
  unfolding update_all keep_on
  update_all-err [] x partitions = refl
  update_all-err (m ∷ p_metas) x partitions = update_all-err p_metas x partitions

  update_all-ok :
      (p_metas : Dict ℤ PartitionMetadata) (o : Outcome id_of brokers)
      → (update_all id_of brokers p_metas o).0 ≡ ok tt
      → o.0 ≡ ok tt
  update_all-ok p_metas (ok u, partitions) h = refl
  update_all-ok p_metas (err x, partitions) h =
      let clash : err x ≡ ok tt = sym (update_all-err p_metas x partitions) ∙ h in absurd cc

  -- A dict of the metadata: each under its id, and no id twice.
  abbrev pub IsDistinct : Dict ℤ PartitionMetadata → Type 0
  IsDistinct [] = Unit
  IsDistinct ((id, meta) ∷ p_metas) =
      (meta.id ≡ id) × (All (λ m. m.0 ≢ id) p_metas × IsDistinct p_metas)

  -- What a loop that goes through leaves.
  record Rounds (p_metas : Dict ℤ PartitionMetadata) (before after : Dict ℤ (Partition B))
      : Type ℓ where
    listed : All (λ m. IsListed m.1 after) p_metas
    others : (id : ℤ) → All (λ m. m.0 ≢ id) p_metas → lookup id after ≡ lookup id before

  update_all-Rounds :
      IsKeyed id_of brokers
      → (p_metas : Dict ℤ PartitionMetadata) (o : Outcome id_of brokers) → IsDistinct p_metas
      → (update_all id_of brokers p_metas o).0 ≡ ok tt
      → Rounds p_metas o.1 (update_all id_of brokers p_metas o).1
  unfolding update_all keep_on
  update_all-Rounds k [] o d h = record { listed = tt; others = λ id a. refl }
  update_all-Rounds k (m ∷ p_metas) (err x, partitions) d h =
      let clash : err x ≡ ok tt = sym (update_all-err p_metas x partitions) ∙ h in absurd cc
  update_all-Rounds k ((id, meta) ∷ p_metas) (ok u, partitions) (same, (apart, d)) h =
      let one = update_one id_of brokers id meta (lookup meta.leader brokers) partitions in
      let rest = update_all-Rounds k p_metas one d h in
      let round = Round-at k id meta partitions same (update_all-ok p_metas one h) in
      let listed' : IsListed meta (update_all id_of brokers p_metas one).1 = record {
        partition = round.listed.partition;
        found =
            rest.others meta.id (subst (λ i. All (λ m. m.0 ≢ i) p_metas) (sym same) apart)
            ∙ round.listed.found;
        current = round.listed.current;
      } in
      record {
        listed = (listed', rest.listed);
        others = λ j a. rest.others j a.1 ∙ round.others j (λ q. a.0 (sym same ∙ q));
      }

  some-ne : (meta : PartitionMetadata) → some meta ≢ none
  some-ne meta h = absurd cc

  skip :
      (p : Partition B) (j id : ℤ) (partitions : Dict ℤ (Partition B))
      → j ≢ id
      → lookup id partitions ≡ none
      → lookup id ((j, p) ∷ partitions) ≡ none
  unfolding lookup
  skip p j id partitions ne h = elim (Bool-cases (eq_ℤ j id)) [
    | inl q ↦ absurd (ne ((eq_ℤ_iff j id).0 q))
    | inr q ↦ rw q h
  ]

  remove_old-cons :
      (p_metas : Dict ℤ PartitionMetadata) (p : Partition B) (j : ℤ)
      (partitions : Dict ℤ (Partition B)) (o : Option PartitionMetadata)
      → lookup j p_metas ≡ o
      → remove_old p_metas ((j, p) ∷ partitions) ≡ elim o [
        | none ↦ remove_old p_metas partitions
        | some meta ↦ (j, p) ∷ remove_old p_metas partitions
      ]
  unfolding remove_old
  remove_old-cons p_metas p j partitions o e = rw (← e)

  remove_old-none :
      (p_metas : Dict ℤ PartitionMetadata) (partitions : Dict ℤ (Partition B)) (id : ℤ)
      → lookup id p_metas ≡ none
      → lookup id (remove_old p_metas partitions) ≡ none
  remove_old-none p_metas [] id h = unfold remove_old lookup in refl
  remove_old-none p_metas ((j, p) ∷ partitions) id h =
      let rest = remove_old-none p_metas partitions id h in
      elim (Option-cases (lookup j p_metas)) [
        | inl e ↦ ap (lookup id) (remove_old-cons p_metas p j partitions none e) ∙ rest
        | inr (meta, e) ↦
            ap (lookup id) (remove_old-cons p_metas p j partitions (some meta) e)
            ∙ skip p j id (remove_old p_metas partitions)
                (λ q. some-ne meta (sym e ∙ ap (λ i. lookup i p_metas) q ∙ h)) rest
      ]

  absent :
      (p_metas : Dict ℤ PartitionMetadata) (id : ℤ)
      → lookup id p_metas ≡ none
      → All (λ m. m.0 ≢ id) p_metas
  unfolding lookup
  absent [] id h = tt
  absent ((j, meta) ∷ p_metas) id h = elim (Bool-cases (eq_ℤ j id)) [
    | inl q ↦ let clash : some meta ≡ none = rw q at h in absurd cc
    | inr q ↦
        let rest : lookup id p_metas ≡ none = rw q at h in
        (
          λ same. (let clash : true ≡ false = sym ((eq_ℤ_iff j id).1 same) ∙ q in absurd cc),
          absent p_metas id rest,
        )
  ]

  -- Where each broker stands under its id, the metadata is a dict of partitions by their ids, and Topic.update
  -- goes through, the topic has exactly the partitions that the metadata names, each with the leader,
  -- the replicas and the in-sync replicas that it names.
  pub update_topic_lem :
      (p_metas : Dict ℤ PartitionMetadata) (partitions : Dict ℤ (Partition B))
      → IsKeyed id_of brokers
      → IsDistinct p_metas
      → (update_topic id_of brokers p_metas partitions).0 ≡ ok tt
      → All (λ m. IsListed m.1 (update_topic id_of brokers p_metas partitions).1) p_metas
        × ((id : ℤ)
            → lookup id p_metas ≡ none
            → lookup id (update_topic id_of brokers p_metas partitions).1 ≡ none)
  unfolding update_topic
  update_topic_lem p_metas partitions k d h =
      let r = update_all-Rounds k p_metas (ok tt, remove_old p_metas partitions) d h in
      (
        r.listed,
        λ id a. r.others id (absent p_metas id a) ∙ remove_old-none p_metas partitions id a,
      )
