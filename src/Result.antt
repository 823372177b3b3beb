-- ===== src/Result.antt =====
-- Python's exceptions as values: what the modelled code raises, and the error monad.
use pykafka.Prelude.{ℤ, Bool, true, false, ◌≡◌, refl, ◌⊎◌, inl, inr}

-- `struct_error` is `struct.error`, `protocol code` the exception that `ERROR_CODES[code]` names,
-- `socket_error` an IOError of a socket, `exception` an Exception of no class of its own, and the others
-- are the Python exceptions of these names.
-- `out_of_fuel` is no Python exception: a recursion of the model stopped before the code's does.
pub data Error : Type 0 where
  struct_error type_error value_error key_error index_error attribute_error zero_division_error :
      Error
  no_messages_consumed socket_disconnected leader_not_available : Error
  socket_error runtime_error exception kafka_exception : Error
  produce_failure offset_request_failed : Error
  protocol : ℤ → Error
  out_of_fuel : Error

-- `except SocketDisconnectedError`
abbrev pub is_disconnected : Error → Bool
is_disconnected socket_disconnected = true
is_disconnected e = false

-- `except LeaderNotAvailable`
abbrev pub is_no_leader : Error → Bool
is_no_leader leader_not_available = true
is_no_leader e = false

pub data Result {ℓ} (A : Type ℓ) : Type ℓ where
  ok : A → Result A
  err : Error → Result A

pub Result-cases {ℓ} :
    {A : Type ℓ} (r : Result A) → ((a : A) × (r ≡ ok a)) ⊎ ((e : Error) × (r ≡ err e))
Result-cases (ok a) = inl (a, refl)
Result-cases (err e) = inr (e, refl)

-- An exception leaves the rest of the function undone.
infixl 5 ◌>>=◌
abbrev pub ◌>>=◌ {ℓ κ} : {A : Type ℓ} {B : Type κ} → Result A → (A → Result B) → Result B
err raised >>= rest = err raised
ok value >>= rest = rest value

-- `if not ok: raise raised`
abbrev pub require : Bool → Error → Result (Unit {0})
require false raised = err raised
require true raised = ok tt

infixl 5 ◌>>◌
abbrev pub ◌>>◌ {ℓ} : {A : Type ℓ} → Result (Unit {0}) → Result A → Result A
check >> rest = check >>= λ _. rest

-- Where a computation went through, so did its first step.
pub >>=-eq-ok {ℓ κ} :
    {A : Type ℓ} {B : Type κ} (first : Result A) (rest : A → Result B) {last : B}
    → (first >>= rest) ≡ ok last
    → (a : A) × (first ≡ ok a) × (rest a ≡ ok last)
>>=-eq-ok (err e) rest h = cc
>>=-eq-ok (ok a) rest h = (a, refl, h)
