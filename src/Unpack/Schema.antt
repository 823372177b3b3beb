-- ===== src/Unpack/Schema.antt =====
-- What a format means, apart from its text: a schema, its text, and the bytes of a value of it.
use pykafka.Prelude.{ℕ, suc, pos, negsuc, Bool, true, false, List, [], ◌∷◌, ◌++◌, length, max, ◌==◌}
use pykafka.Result.{Result, ok, err, type_error, ◌>>=◌}
use pykafka.Struct.{Format, int8, uint8, int16, int32, uint32, int64, pack, text}
use pykafka.Struct.{int as int_field}
use pykafka.Struct.Pack.{cat}
use pykafka.Unpack.{Value, Values, int, bytes, null, tuple, list, nil, cons, count_values}

mutual
  pub data Schema : Type 0 where
    num : Format → Schema
    string : Schema
    blob : Schema
    array : Schemas → Schema

  pub data Schemas : Type 0 where
    end : Schemas
    also : Schema → Schemas → Schemas

abbrev pub letter_of : Format → ℕ
letter_of int8 = b'b'
letter_of uint8 = b'B'
letter_of int16 = b'h'
letter_of int32 = b'i'
letter_of uint32 = b'I'
letter_of int64 = b'q'

-- The text of a format, as struct_helpers.py writes it.
unfoldable mutual
  pub show : Schema → List ℕ
  show (num f) = letter_of f ∷ []
  show string = b'S' ∷ []
  show blob = b'Y' ∷ []
  show (array ss) = b'[' ∷ (show_all ss ++ b']' ∷ [])

  pub show_all : Schemas → List ℕ
  show_all end = []
  show_all (also s ss) = show s ++ show_all ss

-- How deep arrays nest.
unfoldable mutual
  pub depth : Schema → ℕ
  depth (num f) = 0
  depth string = 0
  depth blob = 0
  depth (array ss) = suc (depth_all ss)

  pub depth_all : Schemas → ℕ
  depth_all end = 0
  depth_all (also s ss) = max (depth s) (depth_all ss)

-- A length in front: int16 for strings, int32 for byte arrays; -1 for None.
abbrev pub counted_bytes : Format → Value → Result (List ℕ)
counted_bytes f (bytes s) = pack (int_field f (pos (length s)) ∷ text (length s) s ∷ [])
counted_bytes f null = pack (int_field f (negsuc 0) ∷ [])
counted_bytes f v = err type_error

abbrev pub int_bytes : Format → Value → Result (List ℕ)
int_bytes f (int z) = pack (int_field f z ∷ [])
int_bytes f v = err type_error

abbrev pub rows_bytes : (Value → Result (List ℕ)) → Values → Result (List ℕ)
rows_bytes row nil = ok []
rows_bytes row (cons v vs) = cat (row v) (rows_bytes row vs)

-- int32 count, items
abbrev pub list_bytes : (Value → Result (List ℕ)) → Value → Result (List ℕ)
list_bytes row (list vs) =
    cat (pack (int_field int32 (pos (count_values vs)) ∷ [])) (rows_bytes row vs)
list_bytes row v = err type_error

-- The items of a row: an array over one letter holds plain values, any other holds tuples.
abbrev pub row_values : Bool → Value → Result Values
row_values true v = ok (cons v nil)
row_values false (tuple vs) = ok vs
row_values false v = err type_error

abbrev pub is_single : Schemas → Bool
is_single ss = length (show_all ss) == 1

-- The bytes of a value of a schema.
unfoldable mutual
  pub encode : Schema → Value → Result (List ℕ)
  encode (num f) v = int_bytes f v
  encode string v = counted_bytes int16 v
  encode blob v = counted_bytes int32 v
  encode (array ss) v = list_bytes (λ row. row_values (is_single ss) row >>= encode_all ss) v

  pub encode_all : Schemas → Values → Result (List ℕ)
  encode_all end nil = ok []
  encode_all end (cons v vs) = err type_error
  encode_all (also s ss) nil = err type_error
  encode_all (also s ss) (cons v vs) = cat (encode s v) (encode_all ss vs)
