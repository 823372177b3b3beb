-- ===== src/Dict/Laws.antt =====
-- The laws of assignment and lookup.
use pykafka.Prelude.{
  total, All, ℕ, ◌≡◌, ◌≢◌, refl, true, none, some, [], ◌∷◌, arith, if◌then◌else◌, Bool-cases, inl,
  inr, ◌+◌,
}
use pykafka.Dict.{Eq, Dict, lookup, insert, get_default}
use pykafka.Dict.{retain}
use pykafka.Dict.{Option}
use pykafka.Prelude.{Option-cases}
use pykafka.Dict.{ap}
use pykafka.Prelude.{◌∙◌}
use pykafka.Prelude.{sym}
use pykafka.Prelude.{false≢true}
use pykafka.Dict.{false}

module _ {ℓ} {K : Type ℓ} ⦃e : Eq K⦄ where
  pub beq_refl : (k : K) → e.beq k k ≡ true
  beq_refl k = (e.beq_iff k k).1 refl

module _ {ℓ κ} {K : Type ℓ} {V : Type κ} ⦃e : Eq K⦄ where
  pub lookup-insert :
      (k j : K) (v : V) (d : Dict K V)
      → lookup j (insert k v d) ≡ (if e.beq k j then some v else lookup j d)
  unfolding lookup insert
  lookup-insert k j v [] = refl
  lookup-insert k j v ((i, w) ∷ d) =
      ground (arith, e.beq_iff k j, e.beq_iff i k, e.beq_iff i j, lookup-insert k j v d)

  pub lookup-cons :
      (j k : K) (v : V) (d : Dict K V)
      → lookup k ((j, v) ∷ d) ≡ (if e.beq j k then some v else lookup k d)
  unfolding lookup
  lookup-cons j k v d = refl

  pub insert-cons_eq :
      (j k : K) (v w : V) (d : Dict K V) → e.beq j k ≡ true → insert k v ((j, w) ∷ d) ≡ (j, v) ∷ d
  unfolding insert
  insert-cons_eq j k v w d h = rw h

  pub insert-cons_ne :
      (j k : K) (v w : V) (d : Dict K V)
      → e.beq j k ≡ false
      → insert k v ((j, w) ∷ d) ≡ (j, w) ∷ insert k v d
  unfolding insert
  insert-cons_ne j k v w d h = rw h

  pub get_default-cons_eq :
      (j k : K) (v w : V) (d : Dict K V) → e.beq j k ≡ true → get_default v k ((j, w) ∷ d) ≡ w
  unfolding get_default
  get_default-cons_eq j k v w d h = rw h

  pub get_default-cons_ne :
      (j k : K) (v w : V) (d : Dict K V)
      → e.beq j k ≡ false
      → get_default v k ((j, w) ∷ d) ≡ get_default v k d
  unfolding get_default
  get_default-cons_ne j k v w d h = rw h

  pub lookup-cons_self : (k : K) (v : V) (d : Dict K V) → lookup k ((k, v) ∷ d) ≡ some v
  lookup-cons_self k v d = rw (lookup-cons k k v d, beq_refl k)

  -- A key that is not found is none of the keys.
  pub lookup-none : (k : K) (d : Dict K V) → lookup k d ≡ none → All (λ (p : K × V). k ≢ p.0) d
  lookup-none k [] h = tt
  lookup-none k ((j, v) ∷ d) h = elim (Bool-cases (e.beq j k)) [
    | inl p ↦ let clash : some v ≡ none = rw (lookup-cons j k v d, p) at h in absurd cc
    | inr p ↦
        let rest : lookup k d ≡ none = rw (lookup-cons j k v d, p) at h in
        (λ same. absurd (false≢true (sym p ∙ (e.beq_iff j k).1 (sym same))), lookup-none k d rest)
  ]

  -- A key that is found is so behind another one.
  pub lookup-cons_found :
      (j k : K) (v : V) (d : Dict K V) → lookup k d ≢ none → lookup k ((j, v) ∷ d) ≢ none
  lookup-cons_found j k v d h = elim (Bool-cases (e.beq j k)) [
    | inl p ↦ λ q. (let clash : some v ≡ none = rw (lookup-cons j k v d, p) at q in absurd cc)
    | inr p ↦ λ q. h (rw (lookup-cons j k v d, p) at q)
  ]

  -- Each key of a dict is found in it.
  pub All-found_cons :
      (p : K × V) (d xs : Dict K V)
      → All (λ (m : K × V). lookup m.0 d ≢ none) xs
      → All (λ (m : K × V). lookup m.0 (p ∷ d) ≢ none) xs
  All-found_cons p d [] a = tt
  All-found_cons p d (x ∷ xs) a = (lookup-cons_found p.0 x.0 p.1 d a.0, All-found_cons p d xs a.1)

  pub All-found : (d : Dict K V) → All (λ (m : K × V). lookup m.0 d ≢ none) d
  All-found [] = tt
  All-found ((k, v) ∷ d) = (
    λ q. (let clash : some v ≡ none = sym (lookup-cons_self k v d) ∙ q in absurd cc),
    All-found_cons (k, v) d d (All-found d),
  )

  pub lookup-insert_self : (k : K) (v : V) (d : Dict K V) → lookup k (insert k v d) ≡ some v
  lookup-insert_self k v d = rw (lookup-insert k k v d, beq_refl k)

  pub lookup-insert_ne :
      (k j : K) (v : V) (d : Dict K V) → k ≢ j → lookup j (insert k v d) ≡ lookup j d
  lookup-insert_ne k j v d h = elim (Bool-cases (e.beq k j)) [
    | inl p ↦ absurd (h ((e.beq_iff k j).0 p))
    | inr p ↦ rw (lookup-insert k j v d, p)
  ]

  pub get_default-lookup :
      (v : V) (k : K) (d : Dict K V)
      → get_default v k d ≡ elim (lookup k d) [ none ↦ v | some w ↦ w ]
  unfolding lookup get_default
  get_default-lookup v k [] = refl
  get_default-lookup v k ((j, w) ∷ d) = ground (arith, get_default-lookup v k d)

  pub All-insert {μ} :
      (P : V → Type μ) (k : K) (v : V) (d : Dict K V)
      → P v
      → All (λ p. P p.1) d
      → All (λ p. P p.1) (insert k v d)
  unfolding insert
  All-insert P k v [] hv h = (hv, tt)
  All-insert P k v ((j, w) ∷ d) hv h = elim (Bool-cases (e.beq j k)) [
    | inl p ↦ rw p (hv, h.1)
    | inr p ↦ rw p (h.0, All-insert P k v d hv h.1)
  ]

  pub All-get_default {μ} :
      (P : V → Type μ) (v : V) (k : K) (d : Dict K V)
      → P v
      → All (λ p. P p.1) d
      → P (get_default v k d)
  unfolding get_default
  All-get_default P v k [] hv h = hv
  All-get_default P v k ((j, w) ∷ d) hv h = elim (Bool-cases (e.beq j k)) [
    | inl p ↦ rw p h.0
    | inr p ↦ rw p (All-get_default P v k d hv h.1)
  ]

  -- A sum over the values, where the value of one key changes.
  pub total-insert :
      (f : V → ℕ) (k : K) (v base : V) (d : Dict K V)
      → f base ≡ 0
      → total (λ p. f p.1) (insert k v d) + f (get_default base k d) ≡ total (λ p. f p.1) d + f v
  unfolding insert get_default
  total-insert f k v base [] h = omega arith
  total-insert f k v base ((j, w) ∷ d) h = elim (Bool-cases (e.beq j k)) [
    | inl p ↦ rw p (omega arith)
    | inr p ↦ rw p (omega (arith, total-insert f k v base d h))
  ]

abbrev pub if_named {ℓ κ} : {V : Type ℓ} {W : Type κ} → Option W → Option V → Option V
if_named none v = none
if_named (some w) v = v

module _ {ℓ μ} {K : Type ℓ} {W : Type μ} ⦃e : Eq K⦄ where
  named-at :
      (named : Dict K W) (j k : K) (o : Option W)
      → lookup j named ≡ o
      → e.beq j k ≡ true
      → lookup k named ≡ o
  named-at named j k o h same = ap (λ (i : K). lookup i named) (sym ((e.beq_iff j k).0 same)) ∙ h

module _ {ℓ κ μ} {K : Type ℓ} {V : Type κ} {W : Type μ} ⦃e : Eq K⦄ where
  retain-cons :
      (named : Dict K W) (j : K) (v : V) (d : Dict K V) (o : Option W)
      → lookup j named ≡ o
      → retain named ((j, v) ∷ d)
        ≡ elim o [ none ↦ retain named d | some w ↦ (j, v) ∷ retain named d ]
  unfolding retain
  retain-cons named j v d o h = rw (← h)

  -- What is left is what the other dict names too.
  pub lookup-retain :
      (k : K) (named : Dict K W) (d : Dict K V)
      → lookup k (retain named d) ≡ if_named (lookup k named) (lookup k d)
  lookup-retain k named [] =
      unfold retain lookup in
      elim (Option-cases (lookup k named)) [
        | inl h ↦ ap (λ (o : Option W). if_named o none) (sym h)
        | inr (w, h) ↦ ap (λ (o : Option W). if_named o none) (sym h)
      ]
  lookup-retain k named ((j, v) ∷ d) =
      let rest = lookup-retain k named d in
      let here : Option W → Option V = λ o. if_named o (lookup k ((j, v) ∷ d)) in
      elim (Option-cases (lookup j named)) [
        | inl h ↦
            ap (lookup k) (retain-cons named j v d none h) ∙ rest ∙ elim (Bool-cases (e.beq j k)) [
              | inl p ↦
                  let gone : lookup k named ≡ none = named-at named j k none h p in
                  ap (λ (o : Option W). if_named o (lookup k d)) gone ∙ ap here (sym gone)
              | inr p ↦ ap (if_named (lookup k named)) (sym (rw (lookup-cons j k v d, p)))
            ]
        | inr (w, h) ↦
            ap (lookup k) (retain-cons named j v d (some w) h) ∙ elim (Bool-cases (e.beq j k)) [
              | inl p ↦ rw (
                lookup-cons j k v (retain named d),
                lookup-cons j k v d,
                named-at named j k (some w) h p,
                p,
              )
              | inr p ↦ rw (lookup-cons j k v (retain named d), lookup-cons j k v d, p) rest
            ]
      ]
