-- ===== src/Handlers/Synchronous.antt =====
-- However callers and the worker interleave, futures are settled as by calls that wait one after another.
use pykafka.Prelude.{ℕ, ◌≡◌, refl, sym, ◌∙◌, Bool, true, false, List, [], ◌∷◌, ◌++◌}
use pykafka.Result.{Result}
use pykafka.Connection.{BrokerConnection}
use pykafka.Connection.Requests.{Sendall}
use pykafka.Handlers.{RequestHandler, request_handler, new_task, begin_stop, work}
use pykafka.Handlers.Calls.{Call, length-zero}
use pykafka.Handlers.Worker.{IsSynchronous, called-IsSynchronous, work-IsSynchronous}

module _ {ℓ} {Q : Type ℓ} (get_bytes : Q → Result (List ℕ)) (sendall : Sendall) where
  -- What callers and the worker make of a new handler, with the calls so far.
  pub data Reaches (c : BrokerConnection) : RequestHandler Q → List (Call Q) → Type ℓ where
    started : Reaches c (request_handler c) []
    called :
        {h : RequestHandler Q} {calls : List (Call Q)} (q : Q) (has : Bool)
        → h.stopped ≡ false
        → Reaches c h calls
        → Reaches c (new_task q has h).1 (calls ++ (q, has) ∷ [])
    worked :
        {h : RequestHandler Q} {calls : List (Call Q)}
        → Reaches c h calls
        → Reaches c (work get_bytes sendall h) calls
    stopping :
        {h : RequestHandler Q} {calls : List (Call Q)}
        → Reaches c h calls
        → Reaches c (begin_stop h) calls
    joined :
        {h : RequestHandler Q} {calls : List (Call Q)}
        → h.stopped ≡ true
        → h.unfinished ≡ 0
        → Reaches c h calls
        → Reaches c (record h { ending = true }) calls

module _ {ℓ} {Q : Type ℓ} (get_bytes : Q → Result (List ℕ)) (sendall : Sendall)
    (c : BrokerConnection) where
  -- Nothing is unfinished, so nothing is queued.
  joined-IsSynchronous :
      (h : RequestHandler Q) (calls : List (Call Q)) (s : IsSynchronous get_bytes sendall c h calls)
      → h.stopped ≡ true
      → h.unfinished ≡ 0
      → IsSynchronous get_bytes sendall c (record h { ending = true }) calls
  joined-IsSynchronous h calls s stopped e = record {
    done = s.done;
    pending = s.pending;
    all = s.all;
    queued = s.queued;
    unfinished = s.unfinished;
    connection = s.connection;
    futures = s.futures;
    ended = λ _. length-zero s.pending (sym s.unfinished ∙ e);
    halted = λ _. stopped;
  }

  begin_stop-IsSynchronous :
      (h : RequestHandler Q) (calls : List (Call Q)) (s : IsSynchronous get_bytes sendall c h calls)
      → IsSynchronous get_bytes sendall c (begin_stop h) calls
  unfolding begin_stop
  begin_stop-IsSynchronous h calls s = record {
    done = s.done;
    pending = s.pending;
    all = s.all;
    queued = s.queued;
    unfinished = s.unfinished;
    connection = s.connection;
    futures = s.futures;
    ended = s.ended;
    halted = λ _. refl;
  }

  -- However callers, the worker and stop interleave, the worker has done some of the calls, in the order of
  -- the calls, with the connection and the outcomes of calls that wait one after another; their futures
  -- are settled with these outcomes, and those of the other calls, which the queue holds, are not settled.
  pub Reaches-IsSynchronous :
      {h : RequestHandler Q} {calls : List (Call Q)}
      → Reaches get_bytes sendall c h calls
      → IsSynchronous get_bytes sendall c h calls
  Reaches-IsSynchronous started = record {
    done = [];
    pending = [];
    all = refl;
    queued = refl;
    unfinished = refl;
    connection = refl;
    futures = refl;
    ended = λ e. refl;
    halted = λ e. cc;
  }
  Reaches-IsSynchronous (called q has live r) =
      called-IsSynchronous get_bytes sendall c _ _ q has live (Reaches-IsSynchronous r)
  Reaches-IsSynchronous (worked r) =
      work-IsSynchronous get_bytes sendall c _ _ (Reaches-IsSynchronous r)
  Reaches-IsSynchronous (stopping r) = begin_stop-IsSynchronous _ _ (Reaches-IsSynchronous r)
  Reaches-IsSynchronous (joined stopped e r) =
      joined-IsSynchronous _ _ (Reaches-IsSynchronous r) stopped e
