-- ===== src/Topic/Limited.antt =====
-- fetch_offset_limits has, of each partition, what its leader answers.
use pykafka.Prelude.{
  refl, sym, ap, ◌∙◌, ◌≡◌, ◌≢◌, ℕ, ◌+◌, ◌<◌, ℤ, inl, inr, Bool-cases, Option, Option-cases, arith,
  none, some, List, [], ◌∷◌, map, All, eq_ℤ,
}
use pykafka.Result.{ok, err}
use pykafka.Action.{go_on}
use pykafka.Dict.{Dict, Eq, lookup, insert, int_eq, text_eq}
use pykafka.Dict.Laws.{lookup-cons_self, lookup-insert}
use pykafka.Dict.Keys.{IsKeyset}
use pykafka.Partition.{Partition}
use pykafka.Protocol.Offset.{PartitionOffsetRequest}
use pykafka.Topic.Offsets.{
  Limits, update_with, requests_by_leader, ask_brokers, fetch_offset_limits,
}
use pykafka.SimpleConsumer.Held.{one, times}
use pykafka.SimpleConsumer.Parts.{keys}
use pykafka.Prelude.{◌⊎◌}
use pykafka.Result.{key_error}
use pykafka.Prelude.{leb}
use pykafka.Topic.Asked.{
  All-assigned, Found, all-found, limiting, limit_of, asks, asked, IsFor, added-IsFor, added-asked,
}

module _ {B : Type 0} ⦃e : Eq B⦄ (limit : B → ℤ → Limits) (name : List ℕ)
    (ps : Dict ℤ (Partition B)) where
  -- An answer of the leader's.
  abbrev IsLimit : ℤ → Limits → Type 0
  IsLimit id l = (p : Partition B) × (lookup id ps ≡ some p) × (l ≡ limit p.leader id)

  abbrev IsThere : ℤ → Dict ℤ Limits → Type 0
  IsThere id d = lookup id d ≢ none

  abbrev answered : B → List PartitionOffsetRequest → Dict ℤ Limits
  answered b reqs = map (λ r. (r.partition_id, limit b r.partition_id)) reqs

  IsThere-insert :
      (id k : ℤ) (l : Limits) (d : Dict ℤ Limits)
      → (one (eq_ℤ k id) ≡ 1) ⊎ IsThere id d
      → IsThere id (insert k l d)
  IsThere-insert id k l d h = elim (Bool-cases (eq_ℤ k id)) [
    | inl t ↦
        λ p. (let clash : some l ≡ none = sym (lookup-insert k id l d ∙ rw t refl) ∙ p in absurd cc)
    | inr t ↦ λ p. elim h [
      | inl s ↦ (let clash : 0 ≡ 1 = sym (ap one t) ∙ s in absurd (omega (arith, clash)))
      | inr there ↦ there (sym (lookup-insert k id l d ∙ rw t refl) ∙ p)
    ]
  ]

  answered-IsLimit :
      (b : B) (reqs : List PartitionOffsetRequest)
      → IsFor limit name ps b reqs
      → All (λ m. IsLimit m.0 m.1) (answered b reqs)
  answered-IsLimit b [] h = tt
  answered-IsLimit b (r ∷ reqs) ((p, found, led), h) =
      ((p, found, ap (λ (x : B). limit x r.partition_id) (sym led)), answered-IsLimit b reqs h)

  times-answered :
      (id : ℤ) (b : B) (reqs : List PartitionOffsetRequest)
      → times id (keys (answered b reqs)) ≡ asks id reqs
  times-answered id b [] = refl
  times-answered id b (r ∷ reqs) =
      ap (λ (n : ℕ). one (eq_ℤ r.partition_id id) + n) (times-answered id b reqs)

  updated-IsLimit :
      (d out : Dict ℤ Limits)
      → All (λ m. IsLimit m.0 m.1) d
      → All (λ m. IsLimit m.0 m.1) out
      → All (λ m. IsLimit m.0 m.1) (update_with out d)
  updated-IsLimit [] out h o = o
  updated-IsLimit ((k, l) ∷ d) out (x, h) o =
      updated-IsLimit d (insert k l out) h (All-assigned IsLimit k l out x o)

  updated-IsThere :
      (id : ℤ) (d out : Dict ℤ Limits)
      → (0 < times id (keys d)) ⊎ IsThere id out
      → IsThere id (update_with out d)
  updated-IsThere id [] out (inl some_times) = absurd (omega (arith, some_times))
  updated-IsThere id [] out (inr there) = there
  updated-IsThere id ((k, l) ∷ d) out (inr there) =
      updated-IsThere id d (insert k l out) (inr (IsThere-insert id k l out (inr there)))
  updated-IsThere id ((k, l) ∷ d) out (inl some_times) = elim (Bool-cases (eq_ℤ k id)) [
    | inl t ↦
        updated-IsThere id d (insert k l out) (inr (IsThere-insert id k l out (inl (ap one t))))
    | inr t ↦
        let none_here : one (eq_ℤ k id) ≡ 0 = ap one t in
        updated-IsThere id d (insert k l out) (inl (omega (arith, some_times, none_here)))
  ]

  -- What the loop over the brokers comes to.
  record Answers {S : Type 0} (requests : Dict B (List PartitionOffsetRequest))
      (out : Dict ℤ Limits) (s : S) : Type 0 where
    output : Dict ℤ Limits
    runs : ask_brokers (limiting limit name) name requests out s ≡ (ok output, s)
    limits : All (λ m. IsLimit m.0 m.1) output
    there : (id : ℤ) → (0 < asked limit name ps id requests) ⊎ IsThere id out → IsThere id output

  ask_brokers-Answers :
      {S : Type 0} (requests : Dict B (List PartitionOffsetRequest)) (out : Dict ℤ Limits) (s : S)
      → All (λ g. IsFor limit name ps g.0 g.1) requests
      → All (λ m. IsLimit m.0 m.1) out
      → Answers requests out s
  unfolding ask_brokers
  ask_brokers-Answers [] out s h o = record {
    output = out;
    runs = refl;
    limits = o;
    there = λ id t. elim t [ inl asked_for ↦ absurd (omega (arith, asked_for)) | inr here ↦ here ];
  }
  ask_brokers-Answers {S = S} ((b, reqs) ∷ requests) out s (x, h) o =
      let a : Dict ℤ Limits = answered b reqs in
      let rest =
        ask_brokers-Answers requests (update_with out a) s h
          (updated-IsLimit a out (answered-IsLimit b reqs x) o) in
      record {
        output = rest.output;
        runs =
            ap
              (λ (l : Option (Dict ℤ Limits)).
                go_on {S = S} (elim l [ none ↦ err key_error | some v ↦ ok v ], s)
                  (λ limits.
                    ask_brokers (limiting limit name) name requests (update_with out limits)))
              (lookup-cons_self (some name) a [])
            ∙ rest.runs;
        limits = rest.limits;
        there = λ id t. rest.there id (elim t [
          | inl asked_for ↦ elim (Bool-cases (leb (asks id reqs) 0)) [
            | inl z ↦ inl (ground arith)
            | inr z ↦
                inr (updated-IsThere id a out (inl (ground (arith, times-answered id b reqs))))
          ]
          | inr here ↦ inr (updated-IsThere id a out (inr here))
        ]);
      }

times-key :
    {V : Type 0} (id : ℤ) (v : V) (d : Dict ℤ V) → lookup id d ≡ some v → 0 < times id (keys d)
unfolding lookup
times-key id v [] h = absurd cc
times-key id v ((k, w) ∷ d) h = elim (Bool-cases (eq_ℤ k id)) [
  | inl t ↦ (let here : one (eq_ℤ k id) ≡ 1 = ap one t in omega (arith, here))
  | inr t ↦ (let rest = times-key id v d (rw t at h) in omega (arith, rest))
]

-- Where each partition of a topic stands under its id, none of them twice, and each broker answers with what
-- it has of each partition that it is asked for: fetch_offset_limits goes through and has, of each partition
-- of the topic, what its leader answers, and nothing else.
pub fetch_offset_limits_lem :
    {B S : Type 0} ⦃e : Eq B⦄ (limit : B → ℤ → Limits) (name : List ℕ) (ps : Dict ℤ (Partition B))
    (before max : ℤ) (s : S)
    → IsKeyset ps
    → All (λ m. m.1.id ≡ m.0) ps
    → (limits : Dict ℤ Limits) × (fetch_offset_limits (limiting limit name) name ps before max s
        ≡ (ok limits, s))
      × ((id : ℤ) → lookup id limits ≡ limit_of limit id (lookup id ps))
unfolding fetch_offset_limits requests_by_leader
fetch_offset_limits_lem {S = S} limit name ps before max s keyset ids =
    let for_leaders = added-IsFor limit name ps before max ps [] (all-found ps keyset) ids tt in
    let a =
      ask_brokers-Answers limit name ps {S = S}
        (requests_by_leader (limiting {S = S} limit name) name ps before max) [] s for_leaders tt in
    (
      a.output,
      a.runs,
      λ id. elim (Option-cases (lookup id ps)) [
        | inl absent ↦ elim (Option-cases (lookup id a.output)) [
          | inl n ↦ n ∙ ap (limit_of limit id) (sym absent)
          | inr (l, found) ↦
              let (p, known, value) = Found (IsLimit limit name ps) id l a.output a.limits found in
              let clash : none ≡ some p = sym absent ∙ known in absurd cc
        ]
        | inr (p, known) ↦
            let counted = added-asked limit name ps before max id ps [] ids in
            let key = times-key id p ps known in
            elim (Option-cases (lookup id a.output)) [
              | inl n ↦ absurd (a.there id (inl (omega (arith, counted, key))) n)
              | inr (l, found) ↦
                  let (q, known', value) =
                    Found (IsLimit limit name ps) id l a.output a.limits found in
                  let twice : some p ≡ some q = sym known ∙ known' in
                  let same : p ≡ q = cc in
                  found
                  ∙ ap some (value ∙ ap (λ (x : Partition _). limit x.leader id) (sym same))
                  ∙ ap (limit_of limit id) (sym known)
            ]
      ],
    )
