-- ===== src/Controller/Utils.antt =====
-- controller/src/utils.rs: durations such as `1d2h3m4s`. A text is the list of its code points.
use Prim.Native.Char.{code}
use bottlerocket_test_system.Base.{
  ℕ, ◌+◌, ◌-◌, ◌*◌, ◌%◌, ◌^◌, String, ◌≡◌, refl, false, ◌&&◌, Option, none, some, List, [], ◌∷◌,
  ltb, leb, ◌==◌, if◌then◌else◌,
}
use bottlerocket_test_system.Base.Result.{Result, ok, err, is_ok, ◌>>=◌}
use bottlerocket_test_system.Base.Duration.{from_secs}
use bottlerocket_test_system.Controller.Error.{Error, message}

abbrev codes : String → List ℕ
codes String.[] = []
codes (String.◌∷◌ c s) = code c ∷ codes s

abbrev u64_limit : ℕ
u64_limit = 2 ^ 64

-- `str::parse::<u64>`: an optional plus, then digits, with every partial value in range
unfoldable pub parse_digits : ℕ → List ℕ → Option ℕ
parse_digits acc [] = some acc
parse_digits acc (c ∷ cs) =
    let next = acc * 10 + (c - 48) in
    let rest = parse_digits next cs in
    if leb 48 c && leb c 57 && ltb next u64_limit then rest else none

parse_u64 : List ℕ → Option ℕ
unfolding parse_digits
parse_u64 [] = none
parse_u64 (c ∷ []) = parse_digits 0 (c ∷ [])
parse_u64 (c ∷ (d ∷ ds)) =
    if c == 43 then parse_digits 0 (d ∷ ds) else parse_digits 0 (c ∷ (d ∷ ds))

-- `str::split` at a character; there is always a first piece
unfoldable pub push_front : ℕ → List (List ℕ) → List (List ℕ)
push_front c [] = (c ∷ []) ∷ []
push_front c (p ∷ ps) = (c ∷ p) ∷ ps

unfoldable pub split : ℕ → List ℕ → List (List ℕ)
unfolding push_front
split sep [] = [] ∷ []
split sep (c ∷ cs) = if c == sep then [] ∷ split sep cs else push_front c (split sep cs)

abbrev units : List (ℕ × ℕ)
units = (100, 86400) ∷ (104, 3600) ∷ (109, 60) ∷ []

pub or_error : Option ℕ → Result Error ℕ
or_error none = err (message "invalid digit found in string")
or_error (some n) = ok n

-- The pieces at one unit. Sums and products of `u64` wrap in a release build.
unit_step : ℕ → ℕ → List (List ℕ) → Result Error (ℕ × List ℕ)
unfolding parse_u64 or_error
unit_step size secs [] = err (message "Failed to parse input")
unit_step size secs (p ∷ []) = ok (secs, p)
unit_step size secs (p ∷ (q ∷ qs)) = do
  n ← or_error (parse_u64 p)
  ok ((secs + n * size) % u64_limit, q)

parse_units : List (ℕ × ℕ) → ℕ → List ℕ → Result Error (ℕ × List ℕ)
unfolding unit_step split
parse_units [] secs s = ok (secs, s)
parse_units ((sep, size) ∷ us) secs s =
    unit_step size secs (split sep s) >>= λ r. parse_units us (r.0) (r.1)

-- the piece before the first `s`
parse_seconds : ℕ → List (List ℕ) → Result Error ℕ
unfolding parse_u64 or_error
parse_seconds secs [] = err (message "Failed to parse input")
parse_seconds secs ([] ∷ ps) = ok secs
parse_seconds secs ((c ∷ cs) ∷ ps) = do
  n ← or_error (parse_u64 (c ∷ cs))
  ok ((secs + n) % u64_limit)

pub parse_duration : String → Result Error ℕ
unfolding parse_units parse_seconds split
parse_duration input = do
  r ← parse_units units 0 (codes input)
  secs ← parse_seconds (r.0) (split 115 (r.1))
  ok (from_secs secs)

all_units : parse_duration "1d2h3m4s" ≡ ok (from_secs 93784)
unfolding parse_duration
all_units = refl

no_units : parse_duration "5123" ≡ ok (from_secs 5123)
unfolding parse_duration
no_units = refl

wrong_order : is_ok (parse_duration "10d5m3h2s") ≡ false
unfolding parse_duration
wrong_order = refl

missing_value : is_ok (parse_duration "5hm4s") ≡ false
unfolding parse_duration
missing_value = refl
