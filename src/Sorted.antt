-- ===== src/Sorted.antt =====
-- Python's `sorted`, by the order of its items or of their keys.
pub mod Laws
use pykafka.Prelude.{Bool, List, [], ◌∷◌, if◌then◌else◌}

module _ {ℓ} {P : Type ℓ} (before : P → P → Bool) where
  unfoldable pub insert_sorted : P → List P → List P
  insert_sorted p [] = p ∷ []
  insert_sorted p (q ∷ qs) =
      let rest = insert_sorted p qs in if before p q then p ∷ (q ∷ qs) else q ∷ rest

  unfoldable pub sorted : List P → List P
  sorted [] = []
  sorted (p ∷ ps) = insert_sorted p (sorted ps)
