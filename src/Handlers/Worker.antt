-- ===== src/Handlers/Worker.antt =====
-- A round of the worker, and a call, keep the handler in step with calls that wait one after another.
use pykafka.Prelude.{length-map}
use pykafka.Prelude.{
  ℕ, ◌+◌, ◌≡◌, refl, sym, ap, ◌∙◌, arith, Bool, true, false, none, some, List, [], ◌∷◌, ◌++◌,
  append-nil, append_assoc, length, length-append, map, replicate, modify, modify-append,
  if◌then◌else◌,
}
use mathlib.Core.List.{map-append}
use pykafka.Result.{Result}
use pykafka.Connection.{BrokerConnection}
use pykafka.Connection.Requests.{Sendall}
use pykafka.Handlers.{
  ResponseFuture, response_future, Task, RequestHandler, new_task, settle, exchange, work,
}
use pykafka.Prelude.{length-replicate}
use pykafka.Prelude.{false≢true}
use pykafka.Handlers.{work_on}
use pykafka.Prelude.{ap₂}
use pykafka.Prelude.{Bool-cases}
use pykafka.Prelude.{inl}
use pykafka.Prelude.{inr}
use pykafka.Prelude.{subst}
use pykafka.Handlers.Calls.{
  Call, answered, tasks, settled, connection_after, outcomes, outcomes-append,
  connection_after-append, length-outcomes, answered-append, tasks-append, replicate-add,
}

module _ {ℓ} {Q : Type ℓ} (get_bytes : Q → Result (List ℕ)) (sendall : Sendall)
    (c : BrokerConnection) where
  -- The calls are those that the worker has done and then those of the queue. Futures of the former have
  -- the outcomes of waiting calls, and those of the latter are as they were made.
  pub record IsSynchronous (h : RequestHandler Q) (calls : List (Call Q)) : Type ℓ where
    pub done : List (Call Q)
    pub pending : List (Call Q)
    pub all : done ++ pending ≡ calls
    pub queued : h.requests ≡ tasks (answered done) pending
    pub unfinished : h.unfinished ≡ length pending
    pub connection : h.connection ≡ connection_after get_bytes sendall done c
    pub futures :
        h.futures
        ≡ map settled (outcomes get_bytes sendall done c)
          ++ replicate (answered pending) response_future
    pub ended : h.ending ≡ true → pending ≡ []
    pub halted : h.ending ≡ true → h.stopped ≡ true

  pub length-futures :
      (h : RequestHandler Q) (calls : List (Call Q)) (s : IsSynchronous h calls)
      → length h.futures ≡ answered s.done + answered s.pending
  length-futures h calls s =
      let rs : List (Result (List ℕ)) = outcomes get_bytes sendall s.done c in
      ap length s.futures
      ∙ length-append (map settled rs) (replicate (answered s.pending) response_future)
      ∙ omega (
        arith,
        length-map settled rs,
        length-outcomes get_bytes sendall s.done c,
        length-replicate (answered s.pending) response_future,
      )

  pub called-IsSynchronous :
      (h : RequestHandler Q) (calls : List (Call Q)) (q : Q) (has : Bool)
      → h.stopped ≡ false
      → IsSynchronous h calls
      → IsSynchronous (new_task q has h).1 (calls ++ (q, has) ∷ [])
  called-IsSynchronous h calls q true live s = record {
    done = s.done;
    pending = s.pending ++ (q, true) ∷ [];
    all =
        sym (append_assoc s.done s.pending _)
        ∙ ap (λ (l : List (Call Q)). l ++ (q, true) ∷ []) s.all;
    queued =
        ap (λ (l : List (Task Q)). l ++ task ∷ []) s.queued
        ∙ ap
            (λ (k : ℕ).
              tasks (answered s.done) s.pending ++ record { request = q; future = some k } ∷ [])
            (length-futures h calls s)
        ∙ sym (tasks-append (answered s.done) s.pending ((q, true) ∷ []));
    unfinished = omega (arith, s.unfinished, length-append s.pending ((q, true) ∷ []));
    connection = s.connection;
    futures =
        ap (λ (l : List ResponseFuture). l ++ response_future ∷ []) s.futures
        ∙ append_assoc (map settled (outcomes get_bytes sendall s.done c)) _ _
        ∙ ap (λ (l : List ResponseFuture). map settled (outcomes get_bytes sendall s.done c) ++ l)
            (sym (replicate-add (answered s.pending) 1 response_future)
              ∙ ap (λ (k : ℕ). replicate k response_future)
                  (sym (answered-append s.pending ((q, true) ∷ []))));
    ended = λ e. absurd (false≢true (sym live ∙ s.halted e));
    halted = s.halted;
  }
    where
      task : Task Q
      task = record { request = q; future = some (length h.futures) }
  called-IsSynchronous h calls q false live s = record {
    done = s.done;
    pending = s.pending ++ (q, false) ∷ [];
    all =
        sym (append_assoc s.done s.pending _)
        ∙ ap (λ (l : List (Call Q)). l ++ (q, false) ∷ []) s.all;
    queued =
        ap (λ (l : List (Task Q)). l ++ record { request = q; future = none } ∷ []) s.queued
        ∙ sym (tasks-append (answered s.done) s.pending ((q, false) ∷ []));
    unfinished = omega (arith, s.unfinished, length-append s.pending ((q, false) ∷ []));
    connection = s.connection;
    futures =
        s.futures
        ∙ ap
            (λ (k : ℕ).
              map settled (outcomes get_bytes sendall s.done c) ++ replicate k response_future)
            (omega (arith, answered-append s.pending ((q, false) ∷ [])));
    ended = λ e. absurd (false≢true (sym live ∙ s.halted e));
    halted = s.halted;
  }

  -- One round of the worker moves the first pending call over to those that are done.
  work_on-IsSynchronous :
      (h : RequestHandler Q) (calls done pending : List (Call Q))
      → done ++ pending ≡ calls
      → h.requests ≡ tasks (answered done) pending
      → h.unfinished ≡ length pending
      → h.connection ≡ connection_after get_bytes sendall done c
      → h.futures
        ≡ map settled (outcomes get_bytes sendall done c)
          ++ replicate (answered pending) response_future
      → h.ending ≡ false
      → IsSynchronous (work_on get_bytes sendall (tasks (answered done) pending) h) calls
  work_on-IsSynchronous h calls done [] all queued unfinished connection futures live = record {
    done = done;
    pending = [];
    all = all;
    queued = queued;
    unfinished = unfinished;
    connection = connection;
    futures = futures;
    ended = λ e. refl;
    halted = λ e. absurd (false≢true (sym live ∙ e));
  }
  work_on-IsSynchronous h calls done ((q, true) ∷ rest) all queued unfinished connection futures
        live =
      let rs : List (Result (List ℕ)) = outcomes get_bytes sendall done c in
      let r : BrokerConnection → Result (List ℕ) = λ k. (exchange get_bytes sendall q true k).0 in
      let place : answered done ≡ length (map settled rs) =
        sym (length-outcomes get_bytes sendall done c) ∙ sym (length-map settled rs) in
      record {
        done = done ++ (q, true) ∷ [];
        pending = rest;
        all = append_assoc done ((q, true) ∷ []) rest ∙ all;
        queued =
            ap (λ (k : ℕ). tasks k rest) (omega (arith, answered-append done ((q, true) ∷ [])));
        unfinished = omega (arith, unfinished);
        connection =
            ap (λ (k : BrokerConnection). (exchange get_bytes sendall q true k).1) connection
            ∙ sym (connection_after-append get_bytes sendall done ((q, true) ∷ []) c);
        futures =
            ap₂ (λ (k : ℕ) (l : List ResponseFuture). modify k (settle (r h.connection)) l) place
              futures
            ∙ modify-append (map settled rs) response_future _ (settle (r h.connection))
            ∙ ap
                (λ (k : BrokerConnection).
                  map settled rs ++ settled (r k) ∷ replicate (answered rest) response_future)
                connection
            ∙ sym (
                append_assoc (map settled rs)
                  (settled (r (connection_after get_bytes sendall done c)) ∷ []) _)
            ∙ ap (λ (l : List ResponseFuture). l ++ replicate (answered rest) response_future)
                (sym (map-append settled rs _)
                  ∙ ap (map settled)
                      (sym (outcomes-append get_bytes sendall done ((q, true) ∷ []) c)));
        ended = λ e. absurd (false≢true (sym live ∙ e));
        halted = λ e. absurd (false≢true (sym live ∙ e));
      }
  work_on-IsSynchronous h calls done ((q, false) ∷ rest) all queued unfinished connection futures
        live =
      record {
        done = done ++ (q, false) ∷ [];
        pending = rest;
        all = append_assoc done ((q, false) ∷ []) rest ∙ all;
        queued =
            ap (λ (k : ℕ). tasks k rest) (omega (arith, answered-append done ((q, false) ∷ [])));
        unfinished = omega (arith, unfinished);
        connection =
            ap (λ (k : BrokerConnection). (exchange get_bytes sendall q false k).1) connection
            ∙ sym (connection_after-append get_bytes sendall done ((q, false) ∷ []) c);
        futures =
            futures
            ∙ ap
                (λ (l : List (Result (List ℕ))).
                  map settled l ++ replicate (answered rest) response_future)
                (sym (append-nil _)
                  ∙ sym (outcomes-append get_bytes sendall done ((q, false) ∷ []) c));
        ended = λ e. absurd (false≢true (sym live ∙ e));
        halted = λ e. absurd (false≢true (sym live ∙ e));
      }

  work-ended : (h : RequestHandler Q) → h.ending ≡ true → work get_bytes sendall h ≡ h
  unfolding work
  work-ended h e = ap (λ (b : Bool). if b then h else work_on get_bytes sendall h.requests h) e

  pub work-live :
      (h : RequestHandler Q)
      → h.ending ≡ false
      → work get_bytes sendall h ≡ work_on get_bytes sendall h.requests h
  unfolding work
  work-live h e = ap (λ (b : Bool). if b then h else work_on get_bytes sendall h.requests h) e

  pub work-IsSynchronous :
      (h : RequestHandler Q) (calls : List (Call Q)) (s : IsSynchronous h calls)
      → IsSynchronous (work get_bytes sendall h) calls
  work-IsSynchronous h calls s = elim (Bool-cases h.ending) [
    | inl e ↦ subst (λ (k : RequestHandler Q). IsSynchronous k calls) (sym (work-ended h e)) s
    | inr e ↦
        subst (λ (k : RequestHandler Q). IsSynchronous k calls)
          (sym (work-live h e ∙ ap (λ (l : List (Task Q)). work_on get_bytes sendall l h) s.queued))
          (work_on-IsSynchronous h calls s.done s.pending s.all s.queued s.unfinished s.connection
            s.futures e)
  ]
