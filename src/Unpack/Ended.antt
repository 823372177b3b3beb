-- ===== src/Unpack/Ended.antt =====
-- The fuel that unpack_from gives is enough for any format, of any nesting, and any buffer.
use pykafka.Prelude.{
  ap, ◌≡◌, ◌≢◌, ℕ, zero, suc, ◌+◌, ◌≤◌, ◌<◌, ℤ, pos, negsuc, Bool, true, false, ◌&&◌, Option, arith,
  none, some, List, [], ◌∷◌, ◌++◌, length, length-append, pos_part, leb, if◌then◌else◌, ◌==◌,
}
use pykafka.Result.{Result, ok, err, struct_error, out_of_fuel, require, ◌>>=◌}
use pykafka.Struct.{Format, int16, int32, read, unpack_int}
use pykafka.Unpack.{
  Values, nil, cons, Unpacker, letter, count, append, unpack_text, unpack_counted, unpack_letter,
  unpack_item, unpack_rows, unpack_array, scan, unpack, unpack_from, unwrap, without_order,
  without_spaces,
}
use pykafka.Unpack.{tuple}
use pykafka.Struct.{size}
use pykafka.Struct.{of_word}
use pykafka.Struct.{from_bytes}
use pykafka.Unpack.{list}

-- The fuel was enough.
abbrev Ends : {A : Type 0} → Result A → Type 0
Ends r = r ≢ err out_of_fuel

Ends-ok : {A : Type 0} (a : A) → Ends (ok a)
Ends-ok a = λ e. absurd cc

Ends-then :
    {A B : Type 0} (first : Result A) (rest : A → Result B)
    → Ends first
    → ((a : A) → Ends (rest a))
    → Ends (first >>= rest)
Ends-then (ok a) rest h hs = hs a
Ends-then (err e) rest h hs = λ p. h (let same : e ≡ out_of_fuel = cc in ap err same)

Ends-if : {A : Type 0} (t : Bool) (x y : Result A) → Ends x → Ends y → Ends (if t then x else y)
Ends-if true x y hx hy = hx
Ends-if false x y hx hy = hy

Ends-require : (t : Bool) → Ends (require t struct_error)
Ends-require true = λ e. absurd cc
Ends-require false = λ e. absurd cc

Ends-read : (n : ℕ) (buff : List ℕ) (offset : ℕ) → Ends (read n buff offset)
unfolding read
Ends-read n buff offset =
    Ends-then (require (leb (offset + n) (length buff)) struct_error) (λ _. ok _) (Ends-require _)
      (λ _. Ends-ok _)

Ends-unpack_int : (f : Format) (buff : List ℕ) (offset : ℕ) → Ends (unpack_int f buff offset)
unfolding unpack_int
Ends-unpack_int f buff offset =
    Ends-then (read (size f) buff offset) (λ bytes. ok (of_word f (from_bytes 0 bytes)))
      (Ends-read (size f) buff offset) (λ _. Ends-ok _)

Ends-unpack_text : (z : ℤ) (buff : List ℕ) (offset : ℕ) → Ends (unpack_text z buff offset)
unfolding unpack_text
Ends-unpack_text (pos n) buff offset =
    Ends-then (read n buff offset) (λ s. ok (_, offset + n)) (Ends-read n buff offset)
      (λ _. Ends-ok _)
Ends-unpack_text (negsuc zero) buff offset = Ends-ok _
Ends-unpack_text (negsuc (suc n)) buff offset = λ e. absurd cc

Ends-unpack_counted :
    (f : Format) (buff : List ℕ) (offset : ℕ) → Ends (unpack_counted f buff offset)
unfolding unpack_counted
Ends-unpack_counted f buff offset =
    Ends-then (unpack_int f buff offset) (λ len. unpack_text len buff (offset + size f))
      (Ends-unpack_int f buff offset) (λ len. Ends-unpack_text len buff (offset + size f))

Ends-unpack_letter :
    (f : Option Format) (buff : List ℕ) (offset : ℕ) → Ends (unpack_letter f buff offset)
unfolding unpack_letter
Ends-unpack_letter none buff offset = λ e. absurd cc
Ends-unpack_letter (some f) buff offset =
    Ends-then (unpack_int f buff offset) (λ z. ok (_, offset + size f))
      (Ends-unpack_int f buff offset) (λ _. Ends-ok _)

Ends-unpack_item : (ch : ℕ) (buff : List ℕ) (offset : ℕ) → Ends (unpack_item ch buff offset)
unfolding unpack_item
Ends-unpack_item ch buff offset = Ends-if (ch == b'S') _ _ (Ends-unpack_counted int16 buff offset) (
    Ends-if (ch == b'Y') _ _ (Ends-unpack_counted int32 buff offset)
      (Ends-unpack_letter (letter ch) buff offset))

module _ (rec : Unpacker) where
  Ends-unpack_rows :
      (fmt : List ℕ) (n offset : ℕ)
      → ((o : ℕ) → Ends (rec fmt o))
      → Ends (unpack_rows rec fmt n offset)
  unfolding unpack_rows
  Ends-unpack_rows fmt zero offset h = Ends-ok _
  Ends-unpack_rows fmt (suc n) offset h = Ends-then (rec fmt offset) _ (h offset) (λ p.
      Ends-then (unpack_rows rec fmt n p.1) (λ q. ok (cons (tuple p.0) q.0, q.1))
        (Ends-unpack_rows fmt n p.1 h) (λ q. Ends-ok _))

  Ends-unpack_array :
      (fmt : List ℕ) (offset : ℕ) (n : ℤ)
      → ((o : ℕ) → Ends (rec fmt o))
      → Ends (unpack_array rec fmt offset n)
  unfolding unpack_array
  Ends-unpack_array fmt offset n h =
      Ends-then (unpack_rows rec fmt (pos_part n) offset) (λ p. ok (_, p.1))
        (Ends-unpack_rows fmt (pos_part n) offset h) (λ _. Ends-ok _)

  -- What is left of a format and of the array that is being collected nests less deep than `m`.
  abbrev Fits : ℕ → Option (List ℕ) → List ℕ → Type 0
  Fits m none fmt = length fmt ≤ m
  Fits m (some array_fmt) fmt = length array_fmt + length fmt < m

  Ends-scan :
      (m : ℕ) (buff fmt : List ℕ) (items : Values) (array_fmt : Option (List ℕ)) (offset : ℕ)
      → ((f : List ℕ) (o : ℕ) → length f < m → Ends (rec f o))
      → Fits m array_fmt fmt
      → Ends (scan rec buff fmt items array_fmt offset)
  unfolding scan
  Ends-scan m buff [] items none offset h fits = Ends-ok _
  Ends-scan m buff [] items (some array_fmt) offset h fits = Ends-ok _
  Ends-scan m buff (ch ∷ fmt) items (some array_fmt) offset h fits =
      Ends-if (ch == b']' && count b'[' array_fmt == count b']' array_fmt) _ _
        (Ends-then (unpack_int int32 buff offset) _ (Ends-unpack_int int32 buff offset) (λ n.
          Ends-then (unpack_array rec array_fmt (offset + 4) n) _
            (Ends-unpack_array array_fmt (offset + 4) n (λ o. h array_fmt o (omega (arith, fits))))
            (λ p.
              Ends-scan m buff fmt (append items (cons (list p.0) nil)) none p.1 h
                (omega (arith, fits)))))
        (Ends-scan m buff fmt items (some (array_fmt ++ ch ∷ [])) offset h
          (omega (arith, fits, length-append array_fmt (ch ∷ []))))
  Ends-scan m buff (ch ∷ fmt) items none offset h fits =
      Ends-if (ch == b'[') _ _ (Ends-scan m buff fmt items (some []) offset h (omega (arith, fits)))
        (Ends-then (unpack_item ch buff offset) _ (Ends-unpack_item ch buff offset) (λ p.
          Ends-scan m buff fmt (append items (cons p.0 nil)) none p.1 h (omega (arith, fits))))

Ends-unpack :
    (n : ℕ) (fmt buff : List ℕ) (offset : ℕ) → length fmt < n → Ends (unpack n fmt buff offset)
unfolding unpack
Ends-unpack zero fmt buff offset less = absurd (omega (arith, less))
Ends-unpack (suc n) fmt buff offset less =
    Ends-scan (λ f o. unpack n f buff o) n buff fmt nil none offset
      (λ f o fewer. Ends-unpack n f buff o fewer) (omega (arith, less))

Ends-unwrap : (fmt : List ℕ) (output : Values) → Ends (unwrap fmt output)
unfolding unwrap
Ends-unwrap [] output = λ e. absurd cc
Ends-unwrap (ch ∷ fmt) nil = Ends-ok _
Ends-unwrap (ch ∷ fmt) (cons v nil) = Ends-if (ch == b'[') _ _ (Ends-ok _) (Ends-ok _)
Ends-unwrap (ch ∷ fmt) (cons v (cons w ws)) = Ends-ok _

-- Whatever the format, balanced or not, and whatever the buffer and the offset, unpack_from returns or raises
-- an exception of Python's: the fuel that the model gives it is never used up.
pub unpack_from-Ends :
    (fmt buff : List ℕ) (offset : ℕ) → unpack_from fmt buff offset ≢ err out_of_fuel
unfolding unpack_from
unpack_from-Ends fmt buff offset =
    let fmt' : List ℕ = without_order (without_spaces fmt) in
    Ends-then (unpack (suc (length fmt')) fmt' buff offset) (λ p. unwrap fmt' p.0)
      (Ends-unpack (suc (length fmt')) fmt' buff offset (omega arith)) (λ p. Ends-unwrap fmt' p.0)
