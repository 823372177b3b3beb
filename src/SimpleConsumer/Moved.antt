-- ===== src/SimpleConsumer/Moved.antt =====
-- How an action moves the locks, where it goes through: those that it acquires and those that it releases.
-- The partitions that a consumer owns stay the same.
use pykafka.Prelude.{
  sym, ap, subst, ◌∙◌, ◌≡◌, refl, ℕ, ◌+◌, ℤ, inl, inr, Bool-cases, true, false, Option, arith, none,
  some, List, [], ◌∷◌, eq_ℤ, if◌then◌else◌, total,
}
use pykafka.Result.{Result, ok, err, Error}
use pykafka.Action.{Action, go_on, go_on-ok, for_each, ◌>>=◌}
use pykafka.Dict.{Dict, lookup, modify_at, int_eq}
use pykafka.SimpleConsumer.{OwnedPartition}
use pykafka.SimpleConsumer.Consumer.{Consumer, release_lock, at_partition, released, release_one}
use pykafka.SimpleConsumer.Held.{one, held, release_lock-held}

-- The id of a partition that is known.
abbrev pub name_at : Option OwnedPartition → Option ℤ
name_at none = none
name_at (some p) = some p.partition_id

abbrev pub name_of : ℤ → Dict ℤ OwnedPartition → Option ℤ
name_of id ps = name_at (lookup id ps)

name_of-modify_at :
    (id k : ℤ) (f : OwnedPartition → OwnedPartition) (ps : Dict ℤ OwnedPartition)
    → ((p : OwnedPartition) → (f p).partition_id ≡ p.partition_id)
    → name_of id (modify_at k f ps) ≡ name_of id ps
unfolding lookup modify_at
name_of-modify_at id k f [] same = refl
name_of-modify_at id k f ((j, p) ∷ ps) same = elim (Bool-cases (eq_ℤ j k)) [
  | inl e ↦
      rw e
        (elim (eq_ℤ j id)
          as (λ b.
            name_at (if b then some (f p) else lookup id ps)
            ≡ name_at (if b then some p else lookup id ps)) [
              | true ↦ ap some (same p)
              | false ↦ refl
            ])
  | inr e ↦
      rw e
        (elim (eq_ℤ j id)
          as (λ b.
            name_at (if b then some p else lookup id (modify_at k f ps))
            ≡ name_at (if b then some p else lookup id ps)) [
              | true ↦ refl
              | false ↦ name_of-modify_at id k f ps same
            ])
]

-- Another partition of the same id is put in the place of one.
pub name_of-put :
    (id k : ℤ) (p q : OwnedPartition) (ps : Dict ℤ OwnedPartition)
    → lookup k ps ≡ some p
    → q.partition_id ≡ p.partition_id
    → name_of id (modify_at k (λ _. q) ps) ≡ name_of id ps
unfolding lookup modify_at
name_of-put id k p q [] e same = cc
name_of-put id k p q ((j, r) ∷ ps) e same = elim (Bool-cases (eq_ℤ j k)) [
  | inl h ↦
      let found : some r ≡ some p = rw h at e in
      let here : r ≡ p = cc in
      let kept : q.partition_id ≡ r.partition_id =
        same ∙ ap (λ (x : OwnedPartition). x.partition_id) (sym here) in
      rw h
        (elim (eq_ℤ j id)
          as (λ b.
            name_at (if b then some q else lookup id ps)
            ≡ name_at (if b then some r else lookup id ps)) [ true ↦ ap some kept | false ↦ refl ])
  | inr h ↦
      let later : lookup k ps ≡ some p = rw h at e in
      rw h
        (elim (eq_ℤ j id)
          as (λ b.
            name_at (if b then some r else lookup id (modify_at k (λ _. q) ps))
            ≡ name_at (if b then some r else lookup id ps)) [
              | true ↦ refl
              | false ↦ name_of-put id k p q ps later same
            ])
]

-- No lock.
abbrev pub no_lock : ℤ → ℕ
no_lock id = 0

module _ {C : Type 0} (names : ℤ → Option ℤ) where
  -- The partitions that are known, with their ids.
  abbrev pub Has : Consumer C → Type 0
  Has c = (id : ℤ) → name_of id c.partitions ≡ names id

  -- How often each lock is acquired and released.
  pub record Moved {A : Type 0} (acquired freed : ℤ → ℕ) (c : Consumer C)
      (x : Result A × Consumer C) : Type 0 where
    pub moved :
        (a : A)
        → x.0 ≡ ok a
        → Has x.1 × ((id : ℤ) → freed id + held id x.1 ≡ acquired id + held id c)

  abbrev pub Moves : {A : Type 0} → (ℤ → ℕ) → (ℤ → ℕ) → Action (Consumer C) A → Type 0
  Moves acquired freed action = (c : Consumer C) → Has c → Moved acquired freed c (action c)

  abbrev pub Keeps : {A : Type 0} → Action (Consumer C) A → Type 0
  Keeps action = Moves no_lock no_lock action

  pub Moved-then :
      {A B : Type 0} {i1 o1 i2 o2 : ℤ → ℕ} (i o : ℤ → ℕ) (c : Consumer C)
      (x : Result A × Consumer C) (next : A → Action (Consumer C) B)
      → Moved i1 o1 c x
      → ((a : A) → x.0 ≡ ok a → Has x.1 → Moved i2 o2 x.1 (next a x.1))
      → ((id : ℤ) → i1 id + i2 id + o id ≡ i id + (o1 id + o2 id))
      → Moved i o c (go_on x next)
  Moved-then i o c x next first rest sum = record {
    moved = λ b done.
        (let (a, ran, e) = go_on-ok x next b done in
          let h = first.moved a ran in
          let h' =
            (rest a ran h.0).moved b (sym (ap (λ (y : Result _ × Consumer C). y.0) e) ∙ done) in
          subst
            (λ (y : Result _ × Consumer C).
              Has y.1 × ((id : ℤ) → o id + held id y.1 ≡ i id + held id c))
            (sym e) (h'.0, λ id. omega (arith, h.1 id, h'.1 id, sum id)));
  }

  pub Keeps-then :
      {A B : Type 0} (first : Action (Consumer C) A) (next : A → Action (Consumer C) B)
      → Keeps first
      → ((a : A) → Keeps (next a))
      → Keeps (first >>= next)
  Keeps-then first next h hs c has =
      Moved-then no_lock no_lock c (first c) next (h c has) (λ a ran has'. hs a (first c).1 has')
        (λ id. refl)

  pub Moved-same :
      {A : Type 0} {i1 o1 : ℤ → ℕ} (i o : ℤ → ℕ) (c : Consumer C) (x : Result A × Consumer C)
      → Moved i1 o1 c x
      → ((id : ℤ) → i1 id + o id ≡ i id + o1 id)
      → Moved i o c x
  Moved-same i o c x h sum = record {
    moved = λ a done. (let m = h.moved a done in (m.0, λ id. omega (arith, m.1 id, sum id)));
  }

  pub Moved-err :
      {A : Type 0} (i o : ℤ → ℕ) (e : Error) (c d : Consumer C) → Moved {A = A} i o c (err e, d)
  Moved-err i o e c d = record { moved = λ a done. absurd cc }

  pub Moved-ok :
      {A : Type 0} (r : Result A) (c d : Consumer C)
      → Has d
      → ((id : ℤ) → held id d ≡ held id c)
      → Moved no_lock no_lock c (r, d)
  Moved-ok r c d has same = record { moved = λ a done. (has, λ id. omega (arith, same id)) }

  pub Keeps-pure : {A : Type 0} (r : Result A) → Keeps (λ c. (r, c))
  Keeps-pure r c has = Moved-ok r c c has (λ id. refl)

  -- A loop moves what its rounds do.
  pub Moves-each :
      {X : Type 0} (i o : X → ℤ → ℕ) (body : X → Action (Consumer C) (Unit {0}))
      → ((x : X) → Moves (i x) (o x) (body x))
      → (xs : List X)
      → Moves (λ id. total (λ x. i x id) xs) (λ id. total (λ x. o x id) xs) (for_each body xs)
  Moves-each i o body h [] c has = Moved-ok (ok tt) c c has (λ id. refl)
  Moves-each i o body h (x ∷ xs) c has =
      Moved-then (λ id. total (λ x. i x id) (x ∷ xs)) (λ id. total (λ x. o x id) (x ∷ xs)) c
        (body x c) (λ _. for_each body xs) (h x c has)
        (λ u ran has'. Moves-each i o body h xs (body x c).1 has') (λ id. omega arith)

  pub Keeps-each :
      {X : Type 0} (body : X → Action (Consumer C) (Unit {0}))
      → ((x : X) → Keeps (body x))
      → (xs : List X) → Keeps (for_each body xs)
  Keeps-each body h [] = Keeps-pure (ok tt)
  Keeps-each body h (x ∷ xs) =
      Keeps-then (body x) (λ _. for_each body xs) (h x) (λ _. Keeps-each body h xs)

  pub at_partition-Has :
      (k : ℤ) (f : OwnedPartition → OwnedPartition) (c : Consumer C)
      → ((p : OwnedPartition) → (f p).partition_id ≡ p.partition_id)
      → Has c
      → Has (at_partition k f c)
  at_partition-Has k f c same has = λ id. name_of-modify_at id k f c.partitions same ∙ has id

  pub release_lock-Moves : (k : ℤ) → Moves no_lock (λ id. one (eq_ℤ k id)) (release_lock k)
  unfolding release_lock
  release_lock-Moves k c has = record {
    moved = λ u done. (
      released-Has (release_one k c.locks),
      λ id. omega (arith, release_lock-held id k c u done),
    );
  }
    where
      released-Has : (o : Option (List ℤ)) → Has (released c o).1
      released-Has none = has
      released-Has (some rest) = has
