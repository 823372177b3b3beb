-- ===== src/Struct/Pack.antt =====
-- `pack` over appended formats, the length of what it writes, and where `pack_into` puts it.
use pykafka.Prelude.{
  ℕ, zero, suc, ◌+◌, ◌≡◌, refl, sym, ap, ◌∙◌, true, arith, List, [], ◌∷◌, ◌++◌, append_assoc,
  append-nil, length, length-append, take, take-append, drop-append, drop-add, replicate,
  length-take, length-replicate, leb, le→leb, inl, inr,
}
use pykafka.Result.{Result, Error, ok, err, struct_error, ◌>>=◌, Result-cases, >>=-eq-ok}
use pykafka.Struct.{
  Field, int, text, pack_field, pack, field_size, calcsize, size, overwrite, pack_into, word,
}
use pykafka.Struct.Numbers.{length-to_bytes}

-- The bytes of one part, then of another; the first error wins.
abbrev pub cat : Result (List ℕ) → Result (List ℕ) → Result (List ℕ)
cat a b = a >>= λ x. b >>= λ y. ok (x ++ y)

pub cat_assoc : (a b c : Result (List ℕ)) → cat (cat a b) c ≡ cat a (cat b c)
cat_assoc (err e) b c = refl
cat_assoc (ok x) (err e) c = refl
cat_assoc (ok x) (ok y) (err e) = refl
cat_assoc (ok x) (ok y) (ok z) = ap ok (append_assoc x y z)

pub cat-nil : (a : Result (List ℕ)) → cat a (ok []) ≡ a
cat-nil (err e) = refl
cat-nil (ok x) = ap ok (append-nil x)

pub nil-cat : (a : Result (List ℕ)) → cat (ok []) a ≡ a
nil-cat (err e) = refl
nil-cat (ok x) = refl

pub pack-append : (fs gs : List Field) → pack (fs ++ gs) ≡ cat (pack fs) (pack gs)
unfolding pack
pack-append [] gs = sym (nil-cat (pack gs))
pack-append (f ∷ fs) gs =
    rw (pack-append fs gs) (sym (cat_assoc (pack_field f) (pack fs) (pack gs)))

length-padded : (n : ℕ) (s : List ℕ) → length (take n (s ++ replicate n 0)) ≡ n
length-padded n s =
    length-take n (s ++ replicate n 0)
    ∙ omega (arith, length-append s (replicate n 0), length-replicate {A = ℕ} n 0)

length-pack_field :
    (f : Field) (bytes : List ℕ) → pack_field f ≡ ok bytes → length bytes ≡ field_size f
unfolding pack_field
length-pack_field (int f z) bytes h = ground (arith, length-to_bytes (size f) (word f z))
length-pack_field (text n s) bytes h =
    let e : take n (s ++ replicate n 0) ≡ bytes = cc in rw (← e) (length-padded n s)

pub length-pack :
    (fs : List Field) (bytes : List ℕ) → pack fs ≡ ok bytes → length bytes ≡ calcsize fs
unfolding pack
length-pack [] bytes h = ground arith
length-pack (f ∷ fs) bytes h =
    let (x, ex, h1) = >>=-eq-ok (pack_field f) _ h in
    let (y, ey, h2) = >>=-eq-ok (pack fs) _ h1 in
    let e : x ++ y ≡ bytes = cc in
    rw (← e) (length-append x y ∙ omega (arith, length-pack_field f x ex, length-pack fs y ey))

pack_field_fails : (f : Field) (x : Error) → pack_field f ≡ err x → x ≡ struct_error
unfolding pack_field
pack_field_fails (int f z) x h = ground arith
pack_field_fails (text n s) x h = cc

-- `pack` raises nothing but `struct.error`.
pub pack_fails : (fs : List Field) (x : Error) → pack fs ≡ err x → x ≡ struct_error
unfolding pack
pack_fails [] x h = cc
pack_fails (f ∷ fs) x h = ground (arith, pack_field_fails f x, pack_fails fs x)

pub cat_fails :
    (a b : Result (List ℕ))
    → ((x : Error) → a ≡ err x → x ≡ struct_error)
    → ((x : Error) → b ≡ err x → x ≡ struct_error)
    → (x : Error) → cat a b ≡ err x
    → x ≡ struct_error
cat_fails (err e) b ha hb x h = ha x h
cat_fails (ok y) (err e) ha hb x h = hb x h
cat_fails (ok y) (ok z) ha hb x h = cc

pub cat-err :
    (a : Result (List ℕ))
    → ((x : Error) → a ≡ err x → x ≡ struct_error)
    → cat a (err struct_error) ≡ err struct_error
cat-err (err e) h = ap err (h e refl)
cat-err (ok y) h = refl

-- Free space before the write and after it.
abbrev pub zeros : ℕ → List ℕ
zeros n = replicate n 0

overwrite-append :
    (done old rest bytes : List ℕ)
    → length old ≡ length bytes
    → overwrite (done ++ (old ++ rest)) (length done) bytes ≡ done ++ bytes ++ rest
unfolding overwrite
overwrite-append done old rest bytes e =
    rw (take-append, ← e, drop-add (length done) (length old), drop-append, drop-append)

room :
    (done old rest : List ℕ)
    → leb (length done + length old) (length (done ++ (old ++ rest))) ≡ true
room done old rest =
    le→leb _ _ (omega (arith, length-append done (old ++ rest), length-append old rest))

-- A write over as many bytes as it has replaces those bytes.
pub pack_into-append :
    (fs : List Field) (done old rest : List ℕ)
    → length old ≡ calcsize fs
    → pack_into fs (done ++ (old ++ rest)) (length done)
      ≡ (pack fs >>= λ bytes. ok (done ++ bytes ++ rest))
unfolding pack_into
pack_into-append fs done old rest e = elim (Result-cases (pack fs)) [
  | inl (bytes, p) ↦ rw (
    p,
    ← e,
    room done old rest,
    overwrite-append done old rest bytes (e ∙ sym (length-pack fs bytes p)),
  )
  | inr (x, p) ↦ rw p
]

pub zeros-add : (n m : ℕ) → zeros (n + m) ≡ zeros n ++ zeros m
zeros-add zero m = ap zeros (omega arith)
zeros-add (suc n) m =
    let e : suc n + m ≡ suc (n + m) = omega arith in
    rw e (ap (λ (l : List ℕ). 0 ∷ l) (zeros-add n m))

-- A write at the end of what is written, with room for it, appends its bytes.
pub pack_into-zeros :
    (fs : List Field) (done : List ℕ) (r : ℕ)
    → pack_into fs (done ++ zeros (calcsize fs + r)) (length done)
      ≡ (pack fs >>= λ bytes. ok (done ++ bytes ++ zeros r))
pack_into-zeros fs done r = rw (zeros-add (calcsize fs) r) (
    pack_into-append fs done (zeros (calcsize fs)) (zeros r)
      (length-replicate {A = ℕ} (calcsize fs) 0))
