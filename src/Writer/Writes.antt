-- ===== src/Writer/Writes.antt =====
-- What a writer that stays within its share of the buffer writes there, as one string of bytes.
use pykafka.Prelude.{
  total, ℕ, ◌+◌, ◌*◌, ◌≡◌, refl, sym, ap, ◌∙◌, arith, List, [], ◌∷◌, ◌++◌, append_assoc, append-nil,
  length, All, All-every, length-append, inl, inr,
}
use pykafka.Result.{Result, Error, struct_error, ok, err, ◌>>=◌, Result-cases, >>=-eq-ok}
use pykafka.Struct.{Field, pack, calcsize}
use pykafka.Struct.Pack.{cat, cat_fails, pack_fails, length-pack, pack_into-zeros, zeros}
use pykafka.Writer.{Cursor, Writer, put, advance, call, ◌>>>◌, for_each}

abbrev pub at_end : List ℕ → ℕ → Cursor
at_end done r = record { buff = done ++ zeros r; offset = length done }

-- From the end of what is written, `w` appends the `n` bytes of `spec` and moves behind them, or
-- raises `struct.error` where `spec` does.
pub record Writes (w : Writer) (n : ℕ) (spec : Result (List ℕ)) : Type 0 where
  pub sized : (bytes : List ℕ) → spec ≡ ok bytes → length bytes ≡ n
  pub fails : (x : Error) → spec ≡ err x → x ≡ struct_error
  pub runs :
      (done : List ℕ) (r : ℕ)
      → w (at_end done (n + r)) ≡ (spec >>= λ bytes. ok (at_end (done ++ bytes) r))

module _ (fs : List Field) where
  put_runs :
      (done : List ℕ) (r : ℕ)
      → (put fs >>> advance (calcsize fs)) (at_end done (calcsize fs + r))
        ≡ (pack fs >>= λ bytes. ok (at_end (done ++ bytes) r))
  unfolding put advance ◌>>>◌
  put_runs done r = elim (Result-cases (pack fs)) [
    | inl (bytes, p) ↦
        let e : length done + calcsize fs ≡ length (done ++ bytes) =
          sym (length-append done bytes ∙ ap (λ k. length done + k) (length-pack fs bytes p)) in
        rw (pack_into-zeros fs done r, p, e)
    | inr (x, p) ↦ rw (pack_into-zeros fs done r, p)
  ]

  -- A `struct.pack_into` with its `offset +=` writes what `struct.pack` returns.
  pub Writes-put : (n : ℕ) → n ≡ calcsize fs → Writes (put fs >>> advance n) n (pack fs)
  Writes-put n e = rw e (record { sized = length-pack fs; fails = pack_fails fs; runs = put_runs })

module _ {w v : Writer} {n m : ℕ} {s t : Result (List ℕ)} where
  then_runs :
      Writes w n s
      → Writes v m t
      → (done : List ℕ) (r : ℕ)
      → (w >>> v) (at_end done (n + m + r)) ≡ (cat s t >>= λ bytes. ok (at_end (done ++ bytes) r))
  unfolding ◌>>>◌
  then_runs hw hv done r =
      let e : n + m + r ≡ n + (m + r) = omega arith in
      elim (Result-cases s) [
        | inl (x, p) ↦ elim (Result-cases t) [
          | inl (y, q) ↦
              rw (e, hw.runs done (m + r), p, hv.runs (done ++ x) r, q, append_assoc done x y)
          | inr (y, q) ↦ rw (e, hw.runs done (m + r), p, hv.runs (done ++ x) r, q)
        ]
        | inr (x, p) ↦ rw (e, hw.runs done (m + r), p)
      ]

  then_sized :
      Writes w n s → Writes v m t → (bytes : List ℕ) → cat s t ≡ ok bytes → length bytes ≡ n + m
  then_sized hw hv bytes h =
      let (x, ex, h1) = >>=-eq-ok s _ h in
      let (y, ey, h2) = >>=-eq-ok t _ h1 in
      let e : x ++ y ≡ bytes = cc in
      rw (← e) (length-append x y ∙ omega (arith, hw.sized x ex, hv.sized y ey))

  pub Writes-then : Writes w n s → Writes v m t → Writes (w >>> v) (n + m) (cat s t)
  Writes-then hw hv = record {
    sized = then_sized hw hv;
    fails = cat_fails s t hw.fails hv.fails;
    runs = then_runs hw hv;
  }

module _ {w : Writer} {n : ℕ} {s : Result (List ℕ)} (h : Writes w n s) where
  call_runs :
      (done : List ℕ) (r : ℕ)
      → (call w >>> advance n) (at_end done (n + r))
        ≡ (s >>= λ bytes. ok (at_end (done ++ bytes) r))
  unfolding call advance ◌>>>◌
  call_runs done r = elim (Result-cases s) [
    | inl (bytes, p) ↦
        let e : length done + n ≡ length (done ++ bytes) =
          sym (length-append done bytes ∙ ap (λ k. length done + k) (h.sized bytes p)) in
        rw (h.runs done r, p, e)
    | inr (x, p) ↦ rw (h.runs done r, p)
  ]

  pub Writes-call : Writes (call w >>> advance n) n s
  Writes-call = record { sized = h.sized; fails = h.fails; runs = call_runs }

Writes-nil : Writes ok 0 (ok [])
Writes-nil = record {
  sized = λ bytes h. let e : [] ≡ bytes = cc in rw (← e);
  fails = λ x h. cc;
  runs = λ done r. let e : 0 + r ≡ r = omega arith in rw (append-nil done, e);
}

module _ {ℓ} {A : Type ℓ} where
  abbrev pub cat_all : (A → Result (List ℕ)) → List A → Result (List ℕ)
  cat_all f [] = ok []
  cat_all f (a ∷ rest) = cat (f a) (cat_all f rest)

  pub cat_all_cong :
      (f g : A → Result (List ℕ)) (xs : List A)
      → All (λ a. f a ≡ g a) xs
      → cat_all f xs ≡ cat_all g xs
  cat_all_cong f g [] h = refl
  cat_all_cong f g (a ∷ rest) (e, h) = rw (e, cat_all_cong f g rest h)

  -- A loop writes what its rounds write, one behind the other.
  pub Writes-for_each-All :
      (f : A → Writer) (n : A → ℕ) (spec : A → Result (List ℕ)) (xs : List A)
      → All (λ a. Writes (f a) (n a) (spec a)) xs
      → Writes (for_each xs f) (total n xs) (cat_all spec xs)
  unfolding for_each ◌>>>◌
  Writes-for_each-All f n spec [] h = Writes-nil
  Writes-for_each-All f n spec (a ∷ rest) (ha, h) =
      Writes-then ha (Writes-for_each-All f n spec rest h)

  pub Writes-for_each :
      (f : A → Writer) (n : A → ℕ) (spec : A → Result (List ℕ))
      → ((a : A) → Writes (f a) (n a) (spec a))
      → (xs : List A) → Writes (for_each xs f) (total n xs) (cat_all spec xs)
  Writes-for_each f n spec h xs = Writes-for_each-All f n spec xs (All-every h xs)

-- Moving on by a sum whose terms the code adds up in another order.
pub Writes-resize :
    {w : Writer} {n m : ℕ} {s : Result (List ℕ)} → n ≡ m → Writes w n s → Writes w m s
Writes-resize e h = rw (← e) h

pub Writes-respec :
    {w : Writer} {n : ℕ} {s t : Result (List ℕ)} → s ≡ t → Writes w n s → Writes w n t
Writes-respec e h = rw (← e) h

pub total_const {ℓ} : {A : Type ℓ} (k : ℕ) (xs : List A) → total (λ _. k) xs ≡ k * length xs
total_const k [] = omega arith
total_const k (a ∷ rest) = grind (arith, total_const k rest)
