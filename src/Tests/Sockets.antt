-- ===== src/Tests/Sockets.antt =====
-- The theorems on connections, on a socket that gives a frame of six bytes in three pieces.
use pykafka.Prelude.{ℕ, ◌≤◌, ◌≡◌, refl, arith, List, [], ◌∷◌, ◌++◌, length, some}
use pykafka.Result.{ok}
use pykafka.Struct.{pack}
use pykafka.Connection.{Socket, chunk, response}
use pykafka.Connection.Received.{stream}
use pykafka.Connection.Response.{IsFrame, response-frame}

abbrev three_pieces : Socket
three_pieces =
    chunk (0 ∷ 0 ∷ []) ∷ chunk (0 ∷ 6 ∷ 1 ∷ 2 ∷ 3 ∷ []) ∷ chunk (4 ∷ 97 ∷ 98 ∷ 99 ∷ []) ∷ []

test_IsFrame :
    IsFrame (1 ∷ 2 ∷ 3 ∷ 4 ∷ []) (97 ∷ 98 ∷ []) (0 ∷ 0 ∷ 0 ∷ 6 ∷ 1 ∷ 2 ∷ 3 ∷ 4 ∷ 97 ∷ 98 ∷ [])
unfolding pack
test_IsFrame = record { size = 0 ∷ 0 ∷ 0 ∷ 6 ∷ []; four = refl; packed = refl; parts = refl }

response-frame_example :
    (tail : List ℕ) × (socket' : Socket) × (buff' : List ℕ) × (response
        (record { buff = []; socket = some three_pieces })
      ≡ (ok (97 ∷ 98 ∷ [] ++ tail), record { buff = buff'; socket = some socket' }))
    × (length tail ≤ 4)
    × (stream socket' ≡ 99 ∷ [])
response-frame_example =
    response-frame [] three_pieces (1 ∷ 2 ∷ 3 ∷ 4 ∷ []) (97 ∷ 98 ∷ [])
      (0 ∷ 0 ∷ 0 ∷ 6 ∷ 1 ∷ 2 ∷ 3 ∷ 4 ∷ 97 ∷ 98 ∷ []) (99 ∷ []) test_IsFrame
      (omega arith, (omega arith, (omega arith, tt))) refl
