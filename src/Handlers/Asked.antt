-- ===== src/Handlers/Asked.antt =====
-- A call that waits, whatever was queued before it.
use pykafka.Prelude.{
  ℕ, zero, suc, ◌≡◌, refl, sym, ap, ◌∙◌, List, [], ◌∷◌, ◌++◌, map, length, true, false, Bool, some,
  Option, if◌then◌else◌, get_elem?, get_elem?-append,
}
use pykafka.Result.{Result, ok, err, ◌>>=◌}
use pykafka.Connection.{BrokerConnection}
use pykafka.Connection.Requests.{Sendall}
use pykafka.Handlers.{
  ResponseFuture, RequestHandler, get, work_times, put_request, got, await, ask, exchange, new_task,
}
use pykafka.Handlers.Calls.{Call, answered, settled, outcomes, connection_after}
use pykafka.Handlers.Synchronous.{Reaches}
use pykafka.Handlers.Worker.{length-futures}
use mathlib.Core.List.{map-append}
use pykafka.Handlers.Synchronous.{called}
use pykafka.Handlers.Synchronous.{Reaches-IsSynchronous}
use pykafka.Handlers.Drained.{work_times-Reaches}
use pykafka.Handlers.{set_response}
use pykafka.Handlers.Drained.{work_times-IsDrained}
use pykafka.Handlers.{set_error}
use pykafka.Handlers.Calls.{outcomes-append}
use pykafka.Handlers.Calls.{answered-append}
use pykafka.Result.{attribute_error}
use pykafka.Prelude.{ap₂}
use pykafka.Handlers.Calls.{length-outcomes}
use pykafka.Prelude.{length-map}
use pykafka.Handlers.{work}
use pykafka.Handlers.{Task}
use pykafka.Handlers.{work_on}
use pykafka.Prelude.{Option-cases}
use pykafka.Prelude.{Bool-cases}
use pykafka.Handlers.{Error}
use pykafka.Prelude.{inl}
use pykafka.Handlers.{outcome}
use pykafka.Prelude.{inr}
use pykafka.Handlers.{out_of_fuel}
use pykafka.Handlers.{none}
use pykafka.Handlers.{waited}

module _ {ℓ} {Q : Type ℓ} (get_bytes : Q → Result (List ℕ)) (sendall : Sendall)
    (c : BrokerConnection) where
  -- The handler after a call that waits.
  abbrev pub handler_after : Q → RequestHandler Q → RequestHandler Q
  handler_after q h =
      let h' = (new_task q true h).1 in work_times get_bytes sendall (length h'.requests) h'

  got-settled {κ} :
      {A : Type κ} (response_cls : List ℕ → Result A) (r : Result (List ℕ))
      → got get_bytes sendall response_cls (some (settled r)) ≡ (r >>= response_cls)
  unfolding get set_response set_error
  got-settled response_cls (ok res) = refl
  got-settled response_cls (err e) = refl

  -- The place of the new future.
  length-futures-answered :
      {h : RequestHandler Q} {calls : List (Call Q)}
      → Reaches get_bytes sendall c h calls
      → length h.futures ≡ length (map settled (outcomes get_bytes sendall calls c))
  length-futures-answered {h} {calls} r =
      let s = Reaches-IsSynchronous get_bytes sendall c r in
      length-futures get_bytes sendall c h calls s
      ∙ sym (answered-append s.done s.pending)
      ∙ ap answered s.all
      ∙ sym (length-outcomes get_bytes sendall calls c)
      ∙ sym (length-map settled (outcomes get_bytes sendall calls c))

  -- In every state that callers and the worker can reach and in which stop has not begun, a call that waits
  -- gives what its request and its response do on the connection as the earlier calls leave it.
  pub ask-exchange {κ} :
      {A : Type κ} (response_cls : List ℕ → Result A) (q : Q) {h : RequestHandler Q}
      {calls : List (Call Q)}
      → Reaches get_bytes sendall c h calls
      → h.stopped ≡ false
      → ask get_bytes sendall response_cls q h ≡ (
        (exchange get_bytes sendall q true (connection_after get_bytes sendall calls c)).0
            >>= response_cls,
        handler_after q h,
      )
  unfolding ask put_request
  ask-exchange {A} response_cls q {h} {calls} r live =
      let r' : Reaches get_bytes sendall c (new_task q true h).1 (calls ++ (q, true) ∷ []) =
        called q true live r in
      let d = work_times-IsDrained get_bytes sendall c r' in
      let x = exchange get_bytes sendall q true (connection_after get_bytes sendall calls c) in
      let before : List ResponseFuture = map settled (outcomes get_bytes sendall calls c) in
      let after : (handler_after q h).futures ≡ before ++ settled x.0 ∷ [] =
        d.futures
        ∙ ap (map settled) (outcomes-append get_bytes sendall calls ((q, true) ∷ []) c)
        ∙ map-append settled (outcomes get_bytes sendall calls c) (x.0 ∷ []) in
      ap
        (λ (b : Bool). await get_bytes sendall response_cls (
          if b
          then (err attribute_error, h)
          else (ok (new_task q true h).0, (new_task q true h).1)))
        live
      ∙ ap (λ (a : Result A). (a, handler_after q h))
          (ap₂
              (λ (l : List ResponseFuture) (i : ℕ).
                got get_bytes sendall response_cls (get_elem? l i))
              after (length-futures-answered r)
            ∙ ap (got get_bytes sendall response_cls) (get_elem?-append before (settled x.0) [])
            ∙ got-settled response_cls x.0)

  -- A call that waits keeps a handler one that can be reached.
  pub ask-Reaches :
      (q : Q) {h : RequestHandler Q} {calls : List (Call Q)}
      → Reaches get_bytes sendall c h calls
      → h.stopped ≡ false
      → Reaches get_bytes sendall c (handler_after q h) (calls ++ (q, true) ∷ [])
  ask-Reaches q {h} r live =
      work_times-Reaches get_bytes sendall c (length (new_task q true h).1.requests)
        (called q true live r)

  work_on-stopped :
      (ts : List (Task Q)) (h : RequestHandler Q)
      → (work_on get_bytes sendall ts h).stopped ≡ h.stopped
  work_on-stopped [] h = refl
  work_on-stopped (t ∷ ts) h = refl

  work_times-stopped :
      (n : ℕ) (h : RequestHandler Q) → (work_times get_bytes sendall n h).stopped ≡ h.stopped
  unfolding work_times work
  work_times-stopped zero h = refl
  work_times-stopped (suc n) h =
      work_times-stopped n (work get_bytes sendall h)
      ∙ elim h.ending
          as (λ b. (if b then h else work_on get_bytes sendall h.requests h).stopped ≡ h.stopped) [
            | true ↦ refl
            | false ↦ work_on-stopped h.requests h
          ]

  -- It does not begin to stop by itself.
  pub handler_after-stopped :
      (q : Q) (h : RequestHandler Q) → (handler_after q h).stopped ≡ h.stopped
  handler_after-stopped q h =
      work_times-stopped (length (new_task q true h).1.requests) (new_task q true h).1

module _ {ℓ κ} {Q : Type ℓ} {A : Type κ} (get_bytes : Q → Result (List ℕ)) (sendall : Sendall)
    (response_cls : List ℕ → Result A) where
  outcome-ok :
      (error : Option Error) (res : Option (List ℕ)) (a : A)
      → outcome response_cls error res ≡ ok a
      → (bytes : List ℕ) × (response_cls bytes ≡ ok a)
  outcome-ok (some e) res a h = cc
  outcome-ok none none a h = cc
  outcome-ok none (some bytes) a h = (bytes, h)

  get-ok :
      (f : ResponseFuture) (r : Result A) (a : A)
      → get response_cls f ≡ some r
      → r ≡ ok a
      → (bytes : List ℕ) × (response_cls bytes ≡ ok a)
  unfolding get
  get-ok f r a h e = elim (Bool-cases f.ready) [
    | inl p ↦
        let same : some (outcome response_cls f.error f.response) ≡ some r = rw p at h in
        let here : outcome response_cls f.error f.response ≡ r = cc in
        outcome-ok f.error f.response a (here ∙ e)
    | inr p ↦ let clash : none ≡ some r = rw p at h in absurd cc
  ]

  got-ok :
      (o : Option ResponseFuture) (a : A)
      → got get_bytes sendall response_cls o ≡ ok a
      → (bytes : List ℕ) × (response_cls bytes ≡ ok a)
  got-ok none a h = cc
  got-ok (some f) a h = elim (Option-cases (get response_cls f)) [
    | inl e ↦ let clash : err out_of_fuel ≡ ok a = ap waited (sym e) ∙ h in absurd cc
    | inr (r, e) ↦ get-ok f r a e (ap waited (sym e) ∙ h)
  ]

  await-ok :
      (o : Result (Option ℕ) × RequestHandler Q) (a : A)
      → (await get_bytes sendall response_cls o).0 ≡ ok a
      → (bytes : List ℕ) × (response_cls bytes ≡ ok a)
  await-ok (err e, h) a eq = cc
  await-ok (ok none, h) a eq = cc
  await-ok (ok (some i), h) a eq = got-ok _ a eq

  -- What a call that waits returns was read from some bytes.
  pub ask-ok :
      (q : Q) (h : RequestHandler Q) (a : A)
      → (ask get_bytes sendall response_cls q h).0 ≡ ok a
      → (bytes : List ℕ) × (response_cls bytes ≡ ok a)
  unfolding ask
  ask-ok q h a eq = await-ok (put_request q true h) a eq
