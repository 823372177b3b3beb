-- ===== src/Protocol/Header.antt =====
-- pykafka/protocol.py, class Request: the header that starts every request, and the frame of every
-- `get_bytes`.
pub mod Framed
use Prim.Native.Char.{code}
use Prim.Native.String.{String}
use pykafka.Prelude.{ℕ, ℤ, pos, sub_ℕ, List, [], ◌∷◌, length}
use pykafka.Result.{Result, ok, ◌>>=◌}
use pykafka.Struct.{Field, int, text, int16, int32, pack_into}
use pykafka.Struct.Pack.{zeros}
use pykafka.Writer.{Cursor, Writer}

-- The bytes of an ASCII text.
abbrev pub codes : String → List ℕ
codes String.[] = []
codes (String.◌∷◌ c s) = code c ∷ codes s

abbrev pub header_len : ℕ
header_len = 21

abbrev pub client_id : List ℕ
client_id = codes "pykafka"

-- '!ihhih%ds' with its arguments.
abbrev pub header_fields : ℤ → ℤ → ℤ → ℤ → List Field
header_fields msglen api_key api_version correlation_id =
    int int32 msglen
    ∷ int int16 api_key
    ∷ int int16 api_version
    ∷ int int32 correlation_id
    ∷ int int16 (pos (length client_id))
    ∷ text (length client_id) client_id
    ∷ []

-- The length in front does not count its own four bytes.
unfoldable pub write_header : ℤ → ℤ → ℤ → List ℕ → Result (List ℕ)
write_header api_key api_version correlation_id buff =
    pack_into (header_fields (sub_ℕ (length buff) 4) api_key api_version correlation_id) buff 0

-- What every `get_bytes` does: a buffer of `len(self)` zeros, the header, then the rest from
-- HEADER_LEN on.
unfoldable pub get_bytes : ℕ → ℤ → ℤ → Writer → Result (List ℕ)
get_bytes len api_key api_version body = do
  output ← write_header api_key api_version (pos 0) (zeros len)
  end ← body (record { buff = output; offset = header_len })
  ok end.buff
