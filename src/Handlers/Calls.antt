-- ===== src/Handlers/Calls.antt =====
-- Calls that wait one after another: the reference for the worker, and its laws.
use pykafka.Prelude.{
  ℕ, zero, suc, ◌+◌, ◌≡◌, refl, ap, ◌∙◌, arith, Bool, true, false, none, some, List, [], ◌∷◌, ◌++◌,
  length, replicate,
}
use pykafka.Result.{Result}
use pykafka.Connection.{BrokerConnection}
use pykafka.Connection.Requests.{Sendall}
use pykafka.Handlers.{ResponseFuture, response_future, Task, settle, exchange}

-- A request, and whether it has a response.
abbrev pub Call {ℓ} : Type ℓ → Type ℓ
Call Q = Q × Bool

-- How many of the calls have a response.
abbrev pub answered {ℓ} : {Q : Type ℓ} → List (Call Q) → ℕ
answered [] = 0
answered ((q, true) ∷ calls) = suc (answered calls)
answered ((q, false) ∷ calls) = answered calls

-- The tasks of calls, the futures of which begin at a place of the store.
abbrev pub tasks {ℓ} : {Q : Type ℓ} → ℕ → List (Call Q) → List (Task Q)
tasks n [] = []
tasks n ((q, true) ∷ calls) = record { request = q; future = some n } ∷ tasks (suc n) calls
tasks n ((q, false) ∷ calls) = record { request = q; future = none } ∷ tasks n calls

-- A future that the worker has settled.
abbrev pub settled : Result (List ℕ) → ResponseFuture
settled r = settle r response_future

module _ {ℓ} {Q : Type ℓ} (get_bytes : Q → Result (List ℕ)) (sendall : Sendall) where
  -- The reference: the connection after calls that wait one after another.
  abbrev pub connection_after : List (Call Q) → BrokerConnection → BrokerConnection
  connection_after [] c = c
  connection_after ((q, has) ∷ calls) c =
      connection_after calls (exchange get_bytes sendall q has c).1

  abbrev pub keep : Bool → Result (List ℕ) → List (Result (List ℕ)) → List (Result (List ℕ))
  keep false r rs = rs
  keep true r rs = r ∷ rs

  -- What those calls that have a response return or raise.
  abbrev pub outcomes : List (Call Q) → BrokerConnection → List (Result (List ℕ))
  outcomes [] c = []
  outcomes ((q, has) ∷ calls) c =
      keep has (exchange get_bytes sendall q has c).0
        (outcomes calls (exchange get_bytes sendall q has c).1)

  pub outcomes-append :
      (xs ys : List (Call Q)) (c : BrokerConnection)
      → outcomes (xs ++ ys) c ≡ outcomes xs c ++ outcomes ys (connection_after xs c)
  outcomes-append [] ys c = refl
  outcomes-append ((q, true) ∷ xs) ys c =
      ap (λ (l : List (Result (List ℕ))). (exchange get_bytes sendall q true c).0 ∷ l)
        (outcomes-append xs ys (exchange get_bytes sendall q true c).1)
  outcomes-append ((q, false) ∷ xs) ys c =
      outcomes-append xs ys (exchange get_bytes sendall q false c).1

  pub connection_after-append :
      (xs ys : List (Call Q)) (c : BrokerConnection)
      → connection_after (xs ++ ys) c ≡ connection_after ys (connection_after xs c)
  connection_after-append [] ys c = refl
  connection_after-append ((q, has) ∷ xs) ys c =
      connection_after-append xs ys (exchange get_bytes sendall q has c).1

  pub length-outcomes :
      (xs : List (Call Q)) (c : BrokerConnection) → length (outcomes xs c) ≡ answered xs
  length-outcomes [] c = refl
  length-outcomes ((q, true) ∷ xs) c =
      ap suc (length-outcomes xs (exchange get_bytes sendall q true c).1)
  length-outcomes ((q, false) ∷ xs) c = length-outcomes xs (exchange get_bytes sendall q false c).1

pub answered-append {ℓ} :
    {Q : Type ℓ} (xs ys : List (Call Q)) → answered (xs ++ ys) ≡ answered xs + answered ys
answered-append [] ys = omega arith
answered-append ((q, true) ∷ xs) ys = omega (arith, answered-append xs ys)
answered-append ((q, false) ∷ xs) ys = answered-append xs ys

pub tasks-append {ℓ} :
    {Q : Type ℓ} (n : ℕ) (xs ys : List (Call Q))
    → tasks n (xs ++ ys) ≡ tasks n xs ++ tasks (n + answered xs) ys
tasks-append n [] ys = ap (λ (k : ℕ). tasks k ys) (omega arith)
tasks-append {Q} n ((q, true) ∷ xs) ys =
    let t : Task Q = record { request = q; future = some n } in
    let e : suc n + answered xs ≡ n + suc (answered xs) = omega arith in
    ap (λ (l : List (Task Q)). t ∷ l)
      (tasks-append (suc n) xs ys ∙ ap (λ (k : ℕ). tasks (suc n) xs ++ tasks k ys) e)
tasks-append {Q} n ((q, false) ∷ xs) ys =
    let t : Task Q = record { request = q; future = none } in
    ap (λ (l : List (Task Q)). t ∷ l) (tasks-append n xs ys)

pub length-tasks {ℓ} : {Q : Type ℓ} (n : ℕ) (xs : List (Call Q)) → length (tasks n xs) ≡ length xs
length-tasks n [] = refl
length-tasks n ((q, true) ∷ xs) = ap suc (length-tasks (suc n) xs)
length-tasks n ((q, false) ∷ xs) = ap suc (length-tasks n xs)

pub replicate-add {ℓ} :
    {A : Type ℓ} (n m : ℕ) (a : A) → replicate (n + m) a ≡ replicate n a ++ replicate m a
replicate-add zero m a = ap (λ (k : ℕ). replicate k a) (omega arith)
replicate-add {A} (suc n) m a =
    let e : suc n + m ≡ suc (n + m) = omega arith in
    rw e (ap (λ (l : List A). a ∷ l) (replicate-add n m a))

pub length-zero {ℓ} : {A : Type ℓ} (xs : List A) → length xs ≡ 0 → xs ≡ []
length-zero [] h = refl
length-zero (x ∷ xs) h = absurd (omega arith)
