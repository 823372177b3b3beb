-- ===== src/Action.antt =====
-- A method of an object: its state comes back where it raises too, since what was assigned stays so.
use pykafka.Prelude.{All, ◌≡◌, refl, List, [], ◌∷◌}
use pykafka.Result.{Result, ok, err, Error}

abbrev pub Action {ℓ κ} : Type ℓ → Type κ → Type (ℓ ⊔ κ)
Action S A = S → Result A × S

module _ {ℓ κ} {S : Type ℓ} {A : Type κ} where
  abbrev pub pure : A → Action S A
  pure a s = (ok a, s)

  abbrev pub raise : Error → Action S A
  raise e s = (err e, s)

  -- The result of a call that changes nothing.
  abbrev pub lift : Result A → Action S A
  lift r s = (r, s)

  abbrev pub gets : (S → A) → Action S A
  gets f s = (ok (f s), s)

abbrev pub change {ℓ} : {S : Type ℓ} → (S → S) → Action S (Unit {0})
change f s = (ok tt, f s)

module _ {ℓ κ μ} {S : Type ℓ} {A : Type κ} {B : Type μ} where
  abbrev pub go_on : Result A × S → (A → Action S B) → Result B × S
  go_on (err e, s) next = (err e, s)
  go_on (ok a, s) next = next a s

  infixl 5 ◌>>=◌
  abbrev pub ◌>>=◌ : Action S A → (A → Action S B) → Action S B
  ◌>>=◌ first next s = go_on (first s) next

infixl 5 ◌>>◌
abbrev pub ◌>>◌ {ℓ κ} : {S : Type ℓ} {B : Type κ} → Action S (Unit {0}) → Action S B → Action S B
first >> next = first >>= λ _. next

-- for x in xs: body(x)
abbrev pub for_each {ℓ κ} :
    {S : Type ℓ} {A : Type κ} → (A → Action S (Unit {0})) → List A → Action S (Unit {0})
for_each body [] = pure tt
for_each body (x ∷ xs) = body x >> for_each body xs

-- Where a sequence went through, so did its first step.
pub go_on-ok {ℓ κ μ} :
    {S : Type ℓ} {A : Type κ} {B : Type μ} (o : Result A × S) (next : A → Action S B) (b : B)
    → (go_on o next).0 ≡ ok b
    → (a : A) × (o.0 ≡ ok a) × (go_on o next ≡ next a o.1)
go_on-ok (ok a, s) next b h = (a, refl, refl)
go_on-ok (err e, s) next b h = cc

-- What the first step and the next ones keep, the sequence does, whether or not it goes through.
pub go_on-keeps {ℓ κ μ ν} :
    {S : Type ℓ} (P : S → Type κ) {A : Type μ} {B : Type ν} (o : Result A × S)
    (next : A → Action S B)
    → P o.1
    → ((a : A) (s : S) → o.0 ≡ ok a → P s → P (next a s).1)
    → P (go_on o next).1
go_on-keeps P (err e, s) next p keep = p
go_on-keeps P (ok a, s) next p keep = keep a s refl p

pub for_each-keeps {ℓ κ μ} :
    {S : Type ℓ} (P : S → Type κ) {A : Type μ} (Q : A → Type κ) (body : A → Action S (Unit {0}))
    → ((a : A) (s : S) → Q a → P s → P (body a s).1)
    → (xs : List A) (s : S) → All Q xs
    → P s
    → P (for_each body xs s).1
for_each-keeps P Q body keep [] s q p = p
for_each-keeps P Q body keep (x ∷ xs) s q p =
    go_on-keeps P (body x s) (λ _. for_each body xs) (keep x s q.0 p)
      (λ u s' e p'. for_each-keeps P Q body keep xs s' q.1 p')
