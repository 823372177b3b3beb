-- ===== src/Handlers.antt =====
-- pykafka/handlers.py: ResponseFuture, and RequestHandler with its worker. The worker's thread and the
-- callers meet in the queue of tasks; a round of the worker's loop is a step.
pub mod Calls
pub mod Worker
pub mod Synchronous
pub mod Drained
pub mod Asked
use pykafka.Prelude.{
  ℕ, zero, suc, ◌-◌, ◌+◌, ◌==◌, Bool, true, false, ◌||◌, Option, none, some, List, [], ◌∷◌, ◌++◌,
  length, get_elem?, modify, if◌then◌else◌,
}
use pykafka.Result.{Result, ok, err, Error, attribute_error, out_of_fuel, ◌>>=◌}
use pykafka.Connection.{BrokerConnection, response}
use pykafka.Connection.Requests.{Sendall, request}

-- `error` is None for False, and `response` for an attribute that is not there yet. `ready` is the event.
pub record ResponseFuture : Type 0 where
  pub response : Option (List ℕ)
  pub error : Option Error
  pub ready : Bool

-- __init__
abbrev pub response_future : ResponseFuture
response_future = record { response = none; error = none; ready = false }

unfoldable pub set_response : List ℕ → ResponseFuture → ResponseFuture
set_response res f = record f { response = some res; ready = true }

unfoldable pub set_error : Error → ResponseFuture → ResponseFuture
set_error e f = record f { error = some e; ready = true }

-- From `if self.error` on.
abbrev pub outcome {ℓ} :
    {A : Type ℓ} → (List ℕ → Result A) → Option Error → Option (List ℕ) → Result A
outcome response_cls (some e) res = err e
outcome response_cls none none = err attribute_error
outcome response_cls none (some res) = response_cls res

-- get, without a timeout: None while it waits.
unfoldable pub get {ℓ} : {A : Type ℓ} → (List ℕ → Result A) → ResponseFuture → Option (Result A)
get response_cls f = if f.ready then some (outcome response_cls f.error f.response) else none

-- The future of a task is its place in the store of futures.
pub record Task {ℓ} (Q : Type ℓ) : Type ℓ where
  pub request : Q
  pub future : Option ℕ

-- RequestHandler and its Shared: `unfinished` is what the queue's `join` waits for, `stopped` whether
-- self.shared is None, and `futures` are those that were made.
pub record RequestHandler {ℓ} (Q : Type ℓ) : Type ℓ where
  pub connection : BrokerConnection
  pub requests : List (Task Q)
  pub unfinished : ℕ
  pub ending : Bool
  pub stopped : Bool
  pub futures : List ResponseFuture

module _ {ℓ} {Q : Type ℓ} where
  -- __init__
  abbrev pub request_handler : BrokerConnection → RequestHandler Q
  request_handler connection = record {
    connection = connection;
    requests = [];
    unfinished = 0;
    ending = false;
    stopped = false;
    futures = [];
  }

  -- self.shared.requests.put(task)
  abbrev pub put_task : Q → Option ℕ → RequestHandler Q → RequestHandler Q
  put_task q future h = record h {
    requests = h.requests ++ record { request = q; future = future } ∷ [];
    unfinished = suc h.unfinished;
  }

  -- From `future = None` on: the future that is returned, and the handler after it.
  abbrev pub new_task : Q → Bool → RequestHandler Q → Option ℕ × RequestHandler Q
  new_task q false h = (none, put_task q none h)
  new_task q true h = (
    some (length h.futures),
    put_task q (some (length h.futures)) (record h { futures = h.futures ++ response_future ∷ [] }),
  )

  -- request. Once stop has begun, `self.shared` is None.
  unfoldable pub put_request : Q → Bool → RequestHandler Q → Result (Option ℕ) × RequestHandler Q
  put_request q has_response h =
      if h.stopped
      then (err attribute_error, h)
      else (ok (new_task q has_response h).0, (new_task q has_response h).1)

  -- stop, until it waits for the queue.
  unfoldable pub begin_stop : RequestHandler Q → RequestHandler Q
  begin_stop h = record h { stopped = true }

  -- The rest of stop: `join` goes on once nothing is unfinished.
  unfoldable pub end_stop : RequestHandler Q → Option (RequestHandler Q)
  end_stop h = if h.unfinished == 0 then some (record h { ending = true }) else none

-- set_response or set_error, by what the connection returned or raised.
abbrev pub settle : Result (List ℕ) → ResponseFuture → ResponseFuture
unfolding set_response set_error
settle (ok res) f = set_response res f
settle (err e) f = set_error e f

-- `if task.future: ...`
abbrev pub settle_task : Option ℕ → Result (List ℕ) → List ResponseFuture → List ResponseFuture
settle_task none r futures = futures
settle_task (some i) r futures = modify i (settle r) futures

abbrev pub has_future : Option ℕ → Bool
has_future none = false
has_future (some i) = true

-- `if task.future: res = shared.connection.response()`. No bytes stand for the response that is not read.
abbrev pub read_response :
    Bool → Result (Unit {0}) × BrokerConnection → Result (List ℕ) × BrokerConnection
read_response has_response (err e, c) = (err e, c)
read_response false (ok u, c) = (ok [], c)
read_response true (ok u, c) = response c

-- `out_of_fuel` stands for a wait that is not over.
abbrev pub waited {ℓ} : {A : Type ℓ} → Option (Result A) → Result A
waited none = err out_of_fuel
waited (some r) = r

module _ {ℓ} {Q : Type ℓ} (get_bytes : Q → Result (List ℕ)) (sendall : Sendall) where
  -- The body of the worker's `try`.
  unfoldable pub exchange : Q → Bool → BrokerConnection → Result (List ℕ) × BrokerConnection
  exchange q has_response c = read_response has_response (request sendall (get_bytes q) c)

  abbrev pub finish_task :
      Task Q
      → List (Task Q)
      → Result (List ℕ) × BrokerConnection
      → RequestHandler Q
      → RequestHandler Q
  finish_task task rest (r, c) h = record h {
    connection = c;
    requests = rest;
    unfinished = h.unfinished - 1;
    futures = settle_task task.future r h.futures;
  }

  abbrev pub work_on : List (Task Q) → RequestHandler Q → RequestHandler Q
  work_on [] h = h
  work_on (task ∷ rest) h =
      finish_task task rest (exchange task.request (has_future task.future) h.connection) h

  -- A round of the worker's loop. With an empty queue it goes on waiting.
  unfoldable pub work : RequestHandler Q → RequestHandler Q
  work h = if h.ending then h else work_on h.requests h

  unfoldable pub work_times : ℕ → RequestHandler Q → RequestHandler Q
  work_times zero h = h
  work_times (suc n) h = work_times n (work h)

  -- What a future's `get` gives the caller.
  abbrev pub got {κ} : {A : Type κ} → (List ℕ → Result A) → Option ResponseFuture → Result A
  got response_cls none = err attribute_error
  got response_cls (some f) = waited (get response_cls f)

  -- The caller's part of a call that waits, where the worker does what is queued meanwhile.
  abbrev pub await {κ} :
      {A : Type κ}
      → (List ℕ → Result A)
      → Result (Option ℕ) × RequestHandler Q
      → Result A × RequestHandler Q
  await response_cls (err e, h) = (err e, h)
  await response_cls (ok none, h) = (err attribute_error, h)
  await response_cls (ok (some i), h) =
      let h' = work_times (length h.requests) h in (got response_cls (get_elem? h'.futures i), h')

  -- handler.request(q).get(response_cls)
  unfoldable pub ask {κ} :
      {A : Type κ} → (List ℕ → Result A) → Q → RequestHandler Q → Result A × RequestHandler Q
  ask response_cls q h = await response_cls (put_request q true h)
