-- ===== src/Cluster/Seeds.antt =====
-- pykafka/cluster.py: the text of the seed hosts, cut into hosts and ports.
use pykafka.Prelude.{
  ℕ, ℤ, pos, negsuc, ◌+◌, ◌-◌, ◌*◌, leb, ◌==◌, ◌&&◌, ◌||◌, Bool, true, List, [], ◌∷◌, if◌then◌else◌,
}
use pykafka.Result.{Result, ok, err, value_error, ◌>>=◌}

abbrev pub put_char : ℕ → List (List ℕ) → List (List ℕ)
put_char c [] = (c ∷ []) ∷ []
put_char c (word ∷ words) = (c ∷ word) ∷ words

-- text.split(separator): a text without it is one word, and so is the empty one.
unfoldable pub split : ℕ → List ℕ → List (List ℕ)
split separator [] = [] ∷ []
split separator (c ∷ text) =
    let rest = split separator text in if c == separator then [] ∷ rest else put_char c rest

-- The blanks that int() takes off.
abbrev pub is_blank : ℕ → Bool
is_blank c = c == 32 || (leb 9 c && leb c 13)

unfoldable pub lstrip : List ℕ → List ℕ
lstrip [] = []
lstrip (c ∷ text) = if is_blank c then lstrip text else c ∷ text

-- Whether nothing but blanks follows.
abbrev pub only_blanks : List ℕ → Bool
only_blanks [] = true
only_blanks (c ∷ text) = is_blank c && only_blanks text

-- The digits that are left, with the number so far.
unfoldable pub more_digits : ℕ → List ℕ → Result ℕ
more_digits n [] = ok n
more_digits n (c ∷ text) =
    let rest = more_digits (n * 10 + (c - 48)) text in
    if leb 48 c && leb c 57 then rest else if only_blanks (c ∷ text) then ok n else err value_error

-- A number has a digit at least.
abbrev pub digits : List ℕ → Result ℕ
digits [] = err value_error
digits (c ∷ text) = if leb 48 c && leb c 57 then more_digits (c - 48) text else err value_error

abbrev pub negate : ℕ → ℤ
negate n = if n == 0 then pos 0 else negsuc (n - 1)

-- With its sign.
abbrev pub signed : List ℕ → Result ℤ
signed [] = err value_error
signed (c ∷ text) =
    if c == 45
    then (digits text >>= λ n. ok (negate n))
    else ((if c == 43 then digits text else digits (c ∷ text)) >>= λ n. ok (pos n))

-- int(text)
unfoldable pub parse_int : List ℕ → Result ℤ
unfolding lstrip more_digits
parse_int text = signed (lstrip text)

-- h, p = broker_str.split(':'), and int(p)
abbrev pub host_and_port : List (List ℕ) → Result (List ℕ × ℤ)
host_and_port (h ∷ p ∷ []) = parse_int p >>= λ port. ok (h, port)
host_and_port _ = err value_error

unfoldable pub parse_seed : List ℕ → Result (List ℕ × ℤ)
parse_seed broker_str = host_and_port (split 58 broker_str)
