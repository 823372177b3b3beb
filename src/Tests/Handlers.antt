-- ===== src/Tests/Handlers.antt =====
-- The theorems on request handlers, on a broker's side that answers each request with the same frame.
use pykafka.Prelude.{ℕ, ◌≡◌, refl, true, false, some, List, [], ◌∷◌, ◌++◌, map}
use pykafka.Result.{Result, ok, ◌>>=◌}
use pykafka.Connection.{BrokerConnection, chunk}
use pykafka.Connection.Requests.{Sendall}
use pykafka.Handlers.{RequestHandler, request_handler, new_task, work, work_times, get, end_stop}
use pykafka.Handlers.Calls.{Call, outcomes}
use pykafka.Handlers.Worker.{IsSynchronous}
use pykafka.Handlers.Synchronous.{Reaches, started, called, worked, Reaches-IsSynchronous}
use pykafka.Handlers.Drained.{work_times-get}

-- The request is what follows the correlation id of the frame that comes back.
abbrev pub echo : Sendall
echo bytes socket = (ok tt, socket ++ chunk (0 ∷ 0 ∷ 0 ∷ 6 ∷ 1 ∷ 2 ∷ 3 ∷ 4 ∷ bytes) ∷ [])

abbrev pub open_connection : BrokerConnection
open_connection = record { buff = []; socket = some [] }

abbrev as_it_is : List ℕ → Result (List ℕ)
as_it_is q = ok q

-- Two calls, one of which has no response, and a round of the worker.
abbrev test_calls : List (Call (List ℕ))
test_calls = (97 ∷ 98 ∷ [], true) ∷ (99 ∷ 100 ∷ [], false) ∷ []

abbrev both_called : RequestHandler (List ℕ)
both_called =
    (new_task (99 ∷ 100 ∷ []) false
      (new_task (97 ∷ 98 ∷ []) true (request_handler open_connection)).1).1

test_Reaches : Reaches as_it_is echo open_connection both_called test_calls
test_Reaches = called (99 ∷ 100 ∷ []) false refl (called (97 ∷ 98 ∷ []) true refl started)

Reaches-IsSynchronous_example :
    IsSynchronous as_it_is echo open_connection (work as_it_is echo both_called) test_calls
Reaches-IsSynchronous_example =
    Reaches-IsSynchronous as_it_is echo open_connection (worked test_Reaches)

work_times-get_example :
    let h' = work_times as_it_is echo 2 both_called in
    (h'.requests ≡ [])
    × (end_stop h' ≡ some (record h' { ending = true }))
    × (map (get as_it_is) h'.futures
        ≡ map (λ r. some (r >>= as_it_is)) (outcomes as_it_is echo test_calls open_connection))
work_times-get_example = work_times-get as_it_is echo open_connection as_it_is test_Reaches
