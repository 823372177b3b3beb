-- ===== src/Writer.antt =====
-- The way in which every `get_bytes` and `pack_into` of pykafka/protocol.py writes: a buffer of the
-- final size, an offset, `struct.pack_into` at the offset, and `offset += n` behind it.
pub mod Writes
use pykafka.Prelude.{ℕ, ◌+◌, List, [], ◌∷◌}
use pykafka.Result.{Result, ok, ◌>>=◌}
use pykafka.Struct.{Field, pack_into}

pub record Cursor : Type 0 where
  pub buff : List ℕ
  pub offset : ℕ

abbrev pub Writer : Type 0
Writer = Cursor → Result Cursor

-- struct.pack_into(fmt, buff, offset, ...)
unfoldable pub put : List Field → Writer
put fs c = do buff ← pack_into fs c.buff c.offset; ok (record c { buff = buff })

-- offset += n
unfoldable pub advance : ℕ → Writer
advance n c = ok (record c { offset = c.offset + n })

infixl 5 ◌>>>◌
unfoldable pub ◌>>>◌ : Writer → Writer → Writer
◌>>>◌ w v c = w c >>= v

-- for a in xs: ...
unfoldable pub for_each {ℓ} : {A : Type ℓ} → List A → (A → Writer) → Writer
unfolding ◌>>>◌
for_each [] f c = ok c
for_each (a ∷ rest) f c = f a c >>= for_each rest f

-- A method that writes into the same buffer, with an offset of its own.
unfoldable pub call : Writer → Writer
call w c = do end ← w c; ok (record c { buff = end.buff })
