-- ===== src/Dict.antt =====
-- Python's dict as the program uses it: an association list in the order of insertion, in which an
-- assignment to a key that is there keeps its place. Keys are compared by an `Eq` instance.
pub mod Laws
pub mod Keys
use pykafka.Prelude.{
  ℕ, ℤ, ◌≡◌, refl, ◌↔◌, Bool, true, false, ◌&&◌, Option, none, some, List, [], ◌∷◌, map, arith,
  ==_iff, eq_ℤ, eq_ℤ_iff, if◌then◌else◌,
}
use pykafka.Prelude.{◌==◌ as nat_beq}
use pykafka.Prelude.{ap}

pub record Eq {ℓ} (A : Type ℓ) : Type ℓ where
  pub beq : A → A → Bool
  pub beq_iff : (a b : A) → (beq a b ≡ true) ↔ (a ≡ b)

abbrev pub bytes_beq : List ℕ → List ℕ → Bool
bytes_beq [] [] = true
bytes_beq (x ∷ xs) (y ∷ ys) = nat_beq x y && bytes_beq xs ys
bytes_beq _ _ = false

bytes_beq→eq : (a b : List ℕ) → bytes_beq a b ≡ true → a ≡ b
bytes_beq→eq [] [] h = refl
bytes_beq→eq (x ∷ xs) (y ∷ ys) h = ground (arith, bytes_beq→eq xs ys)
bytes_beq→eq [] (y ∷ ys) h = cc
bytes_beq→eq (x ∷ xs) [] h = cc

bytes_beq_refl : (a : List ℕ) → bytes_beq a a ≡ true
bytes_beq_refl [] = refl
bytes_beq_refl (x ∷ xs) = ground (arith, bytes_beq_refl xs)

pub bytes_beq_iff : (a b : List ℕ) → (bytes_beq a b ≡ true) ↔ (a ≡ b)
bytes_beq_iff a b = (bytes_beq→eq a b, λ e. rw e (bytes_beq_refl b))

instance abbrev pub bytes_eq : Eq (List ℕ)
bytes_eq = record { beq = bytes_beq; beq_iff = bytes_beq_iff }

instance abbrev pub int_eq : Eq ℤ
int_eq = record { beq = eq_ℤ; beq_iff = eq_ℤ_iff }

abbrev pub Dict {ℓ κ} : Type ℓ → Type κ → Type (ℓ ⊔ κ)
Dict K V = List (K × V)

module _ {ℓ κ} {K : Type ℓ} {V : Type κ} ⦃e : Eq K⦄ where
  -- d.get(k)
  unfoldable pub lookup : K → Dict K V → Option V
  lookup k [] = none
  lookup k ((j, v) ∷ d) = if e.beq j k then some v else lookup k d

  -- d[k] = v
  unfoldable pub insert : K → V → Dict K V → Dict K V
  insert k v [] = (k, v) ∷ []
  insert k v ((j, w) ∷ d) = if e.beq j k then (j, v) ∷ d else (j, w) ∷ insert k v d

  -- d[k] of a defaultdict
  unfoldable pub get_default : V → K → Dict K V → V
  get_default v k [] = v
  get_default v k ((j, w) ∷ d) = if e.beq j k then w else get_default v k d

  -- A value is changed where it stands.
  unfoldable pub modify_at : K → (V → V) → Dict K V → Dict K V
  modify_at k f [] = []
  modify_at k f ((j, v) ∷ d) =
      let rest = modify_at k f d in if e.beq j k then (j, f v) ∷ d else (j, v) ∷ rest

-- The keys of one dict that another one lacks are popped from it.
unfoldable pub retain {ℓ κ μ} :
    {K : Type ℓ} {V : Type κ} {W : Type μ} ⦃e : Eq K⦄ → Dict K W → Dict K V → Dict K V
retain named [] = []
retain named ((k, v) ∷ d) =
    let rest = retain named d in elim (lookup k named) [ none ↦ rest | some w ↦ (k, v) ∷ rest ]

abbrev pub text_beq : Option (List ℕ) → Option (List ℕ) → Bool
text_beq none none = true
text_beq (some a) (some b) = bytes_beq a b
text_beq _ _ = false

pub text_beq_iff : (a b : Option (List ℕ)) → (text_beq a b ≡ true) ↔ (a ≡ b)
text_beq_iff none none = (λ h. refl, λ h. refl)
text_beq_iff (some a) (some b) =
    (λ h. ap some ((bytes_beq_iff a b).0 h), λ h. (bytes_beq_iff a b).1 (cc))
text_beq_iff none (some b) = (λ h. cc, λ h. cc)
text_beq_iff (some a) none = (λ h. cc, λ h. cc)

instance abbrev pub text_eq : Eq (Option (List ℕ))
text_eq = record { beq = text_beq; beq_iff = text_beq_iff }
