-- ===== src/Handlers/Drained.antt =====
-- The worker settles every future.
use pykafka.Prelude.{
  ℕ, zero, suc, ◌≡◌, refl, sym, ap, ◌∙◌, arith, List, [], ◌∷◌, ◌++◌, append-nil, map, length, true,
  Bool-cases, inl, inr, some, if◌then◌else◌, ◌==◌,
}
use pykafka.Result.{Result, ◌>>=◌}
use pykafka.Connection.{BrokerConnection}
use pykafka.Connection.Requests.{Sendall}
use pykafka.Handlers.{RequestHandler, Task, get, work, work_on, work_times}
use pykafka.Handlers.Calls.{Call, answered, tasks, settled, outcomes, length-tasks, length-zero}
use pykafka.Handlers.Worker.{work-live}
use pykafka.Handlers.Synchronous.{Reaches, Reaches-IsSynchronous}
use pykafka.Handlers.Synchronous.{worked}
use pykafka.Handlers.{ok}
use pykafka.Handlers.{end_stop}
use pykafka.Handlers.{Option}
use pykafka.Handlers.{err}
use pykafka.Handlers.{set_response}
use pykafka.Handlers.{set_error}
use pykafka.Handlers.{none}
use pykafka.Prelude.{replicate}
use pykafka.Handlers.{response_future}
use pykafka.Handlers.Calls.{connection_after}

module _ {ℓ} {Q : Type ℓ} (get_bytes : Q → Result (List ℕ)) (sendall : Sendall) where
  length-work_on :
      (ts : List (Task Q)) (h : RequestHandler Q) (n : ℕ)
      → length ts ≡ suc n
      → length (work_on get_bytes sendall ts h).requests ≡ n
  length-work_on [] h n e = absurd (omega arith)
  length-work_on (t ∷ ts) h n e = omega arith

  module _ (c : BrokerConnection) where
    length-work :
        (h : RequestHandler Q) (calls : List (Call Q)) (n : ℕ)
        → length h.requests ≡ suc n
        → Reaches get_bytes sendall c h calls
        → length (work get_bytes sendall h).requests ≡ n
    length-work h calls n e r = elim (Bool-cases h.ending) [
      | inl ending ↦
          let s = Reaches-IsSynchronous get_bytes sendall c r in
          let none_left : length h.requests ≡ 0 =
            ap length
              (s.queued ∙ ap (λ (l : List (Call Q)). tasks (answered s.done) l) (s.ended ending)) in
          absurd (omega arith)
      | inr live ↦
          ap (λ (k : RequestHandler Q). length k.requests) (work-live get_bytes sendall c h live)
          ∙ length-work_on h.requests h n e
    ]

    -- As many rounds as there are tasks empty the queue; a handler that is ending has none.
    work_times-requests :
        (n : ℕ) (h : RequestHandler Q) (calls : List (Call Q))
        → length h.requests ≡ n
        → Reaches get_bytes sendall c h calls
        → (work_times get_bytes sendall n h).requests ≡ []
    unfolding work_times
    work_times-requests zero h calls e r = length-zero h.requests e
    work_times-requests (suc n) h calls e r =
        work_times-requests n (work get_bytes sendall h) calls (length-work h calls n e r)
          (worked r)

    pub work_times-Reaches :
        (n : ℕ) {h : RequestHandler Q} {calls : List (Call Q)}
        → Reaches get_bytes sendall c h calls
        → Reaches get_bytes sendall c (work_times get_bytes sendall n h) calls
    unfolding work_times
    work_times-Reaches zero r = r
    work_times-Reaches (suc n) r = work_times-Reaches n (worked r)

    -- All calls are done.
    pub record IsDrained (h : RequestHandler Q) (calls : List (Call Q)) : Type ℓ where
      pub empty : h.requests ≡ []
      pub finished : h.unfinished ≡ 0
      pub connection : h.connection ≡ connection_after get_bytes sendall calls c
      pub futures : h.futures ≡ map settled (outcomes get_bytes sendall calls c)

    pub work_times-IsDrained :
        {h : RequestHandler Q} {calls : List (Call Q)}
        → Reaches get_bytes sendall c h calls
        → IsDrained (work_times get_bytes sendall (length h.requests) h) calls
    work_times-IsDrained {h} {calls} r =
        let h' = work_times get_bytes sendall (length h.requests) h in
        let s =
          Reaches-IsSynchronous get_bytes sendall c (work_times-Reaches (length h.requests) r) in
        let empty : h'.requests ≡ [] = work_times-requests (length h.requests) h calls refl r in
        let no_more : s.pending ≡ [] =
          length-zero s.pending
            (sym (length-tasks (answered s.done) s.pending) ∙ ap length (sym s.queued ∙ empty)) in
        let all : s.done ≡ calls =
          sym (append-nil s.done) ∙ ap (λ (l : List (Call Q)). s.done ++ l) (sym no_more) ∙ s.all in
        record {
          empty = empty;
          finished = s.unfinished ∙ ap length no_more;
          connection =
              s.connection ∙ ap (λ (l : List (Call Q)). connection_after get_bytes sendall l c) all;
          futures =
              s.futures
              ∙ ap
                  (λ (l : List (Call Q)).
                    map settled (outcomes get_bytes sendall s.done c)
                    ++ replicate (answered l) response_future)
                  no_more
              ∙ append-nil _
              ∙ ap (λ (l : List (Call Q)). map settled (outcomes get_bytes sendall l c)) all;
        }

    get-settled {κ} :
        {A : Type κ} (response_cls : List ℕ → Result A) (rs : List (Result (List ℕ)))
        → map (get response_cls) (map settled rs) ≡ map (λ r. some (r >>= response_cls)) rs
    unfolding get set_response set_error
    get-settled response_cls [] = refl
    get-settled {A} response_cls (ok res ∷ rs) =
        ap (λ (l : List (Option (Result A))). some (response_cls res) ∷ l)
          (get-settled response_cls rs)
    get-settled {A} response_cls (err e ∷ rs) =
        ap (λ (l : List (Option (Result A))). some (err e) ∷ l) (get-settled response_cls rs)

    -- In every state that callers, the worker and stop can reach, as many further rounds of the worker as
    -- there are tasks in the queue leave it empty and nothing unfinished, so that stop goes through, and
    -- `get` of every future returns or raises what a call that waits would, in the order of the calls.
    pub work_times-get {κ} :
        {A : Type κ} (response_cls : List ℕ → Result A) {h : RequestHandler Q}
        {calls : List (Call Q)}
        → Reaches get_bytes sendall c h calls
        → let h' = work_times get_bytes sendall (length h.requests) h in
          (h'.requests ≡ [])
          × (end_stop h' ≡ some (record h' { ending = true }))
          × (map (get response_cls) h'.futures
              ≡ map (λ r. some (r >>= response_cls)) (outcomes get_bytes sendall calls c))
    unfolding end_stop
    work_times-get response_cls {h} {calls} r =
        let h' = work_times get_bytes sendall (length h.requests) h in
        let d = work_times-IsDrained r in
        (
          d.empty,
          ap (λ (n : ℕ). if n == 0 then some (record h' { ending = true }) else none) d.finished,
          ap (map (get response_cls)) d.futures
              ∙ get-settled response_cls (outcomes get_bytes sendall calls c),
        )
