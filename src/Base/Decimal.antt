-- ===== src/Base/Decimal.antt =====
-- `strtol` in base 10, and what it makes of a text that begins with digits.
use Prim.Native.Nat.{ℕ, zero, suc, ◌+◌, ◌-◌, ◌*◌, ◌/◌, ◌%◌, ◌^◌, ◌<◌}
use mathlib.Core.Path.{◌≡◌}
use mathlib.Core.Logic.{inl, inr}
use mathlib.Core.Bool.{Bool, true, false, ◌&&◌, ◌||◌}
use mathlib.Core.List.{[], ◌∷◌, ◌++◌}
use native.Mathlib.Omega.{arith}
use worker_informer.Base.Tests.{Bool-cases, ◌==◌, leb, ltb, if◌then◌else◌}
use worker_informer.Base.Int.{ℤ, pos, negsuc, negate, to_int}
use worker_informer.Base.Lists.{All, All-append}
use worker_informer.Base.Text.{Bytes, Lacks}

-- `isspace`
unfoldable pub is_space : ℕ → Bool
is_space c = (leb 9 c && leb c 13) || c == b' '

unfoldable pub is_digit : ℕ → Bool
is_digit c = leb b'0' c && leb c b'9'

unfoldable pub skip_spaces : Bytes → Bytes
unfolding is_space
skip_spaces [] = []
skip_spaces (c ∷ s) = let rest = skip_spaces s in if is_space c then rest else c ∷ s

-- The digits at the front, behind the value so far, and what follows them.
unfoldable pub read_digits : ℕ → Bytes → ℕ × Bytes
unfolding is_digit
read_digits n [] = (n, [])
read_digits n (c ∷ s) =
    let rest = read_digits (n * 10 + (c - b'0')) s in if is_digit c then rest else (n, c ∷ s)

-- A `long` that does not fit is the nearest one.
abbrev saturated : Bool → ℕ → ℤ
saturated true n = if leb (2 ^ 63) n then negate (2 ^ 63) else negate n
saturated false n = if leb (2 ^ 63) n then pos (2 ^ 63 - 1) else pos n

abbrev unsigned_digits : Bool → Bytes → Bytes → ℤ × Bytes
unsigned_digits minus whole [] = (pos 0, whole)
unsigned_digits minus whole (c ∷ s) =
    if is_digit c
    then (let (n, rest) = read_digits 0 (c ∷ s) in (saturated minus n, rest))
    else (pos 0, whole)

abbrev signed : Bytes → Bytes → ℤ × Bytes
signed whole [] = (pos 0, whole)
signed whole (c ∷ s) =
    if c == b'-'
    then unsigned_digits true whole s
    else unsigned_digits false whole (if c == b'+' then s else c ∷ s)

-- `strtol(s, &s, 10)`: the value, and the text behind it.
unfoldable pub strtol : Bytes → ℤ × Bytes
unfolding skip_spaces read_digits is_digit
strtol s = signed s (skip_spaces s)

-- `atoi`
abbrev pub atoi : Bytes → ℤ
atoi s = to_int (strtol s).0

-- `%d` of a number that is not negative: the digits, on fuel; a number has no more digits than its value
-- plus one.
unfoldable pub digits_of : ℕ → ℕ → Bytes
digits_of zero n = []
digits_of (suc f) n =
    let more = digits_of f (n / 10) ++ (b'0' + n % 10) ∷ [] in
    if ltb n 10 then (b'0' + n) ∷ [] else more

abbrev pub print : ℕ → Bytes
print n = digits_of (suc n) n

-- `%d`
abbrev pub print_int : ℤ → Bytes
print_int (pos n) = print n
print_int (negsuc n) = b'-' ∷ print (suc n)

-- The number that digits spell, behind the value so far.
abbrev pub decimal : ℕ → Bytes → ℕ
decimal n [] = n
decimal n (c ∷ s) = decimal (n * 10 + (c - b'0')) s

abbrev pub Digits : Bytes → Type 0
Digits = All (λ c. is_digit c ≡ true)

read_digits_lem :
    (n : ℕ) (a : Bytes) (stop : ℕ) (t : Bytes)
    → Digits a
    → is_digit stop ≡ false
    → read_digits n (a ++ stop ∷ t) ≡ (decimal n a, stop ∷ t)
unfolding read_digits
read_digits_lem n [] stop t _ e = rw e
read_digits_lem n (c ∷ a) stop t (d, ds) e =
    rw d (read_digits_lem (n * 10 + (c - b'0')) a stop t ds e)

is_digit_lem :
    (c : ℕ)
    → is_digit c ≡ true
    → (is_space c ≡ false) × ((c == b'-') ≡ false) × ((c == b'+') ≡ false)
unfolding is_digit is_space
is_digit_lem c d = ground arith

signed_lem :
    (whole : Bytes) (c : ℕ) (s : Bytes) (n : ℕ) (rest : Bytes)
    → is_digit c ≡ true
    → read_digits 0 (c ∷ s) ≡ (n, rest)
    → n < 2 ^ 63
    → signed whole (c ∷ s) ≡ (pos n, rest)
signed_lem whole c s n rest d e h =
    let (_, no_minus, no_plus) = is_digit_lem c d in
    let fits : leb (2 ^ 63) n ≡ false = ground arith in rw (no_minus, no_plus, d, e, fits)

-- Digits in front of another byte are read as the number that they spell, if it fits.
pub strtol_lem :
    (c : ℕ) (a : Bytes) (stop : ℕ) (t : Bytes)
    → Digits (c ∷ a)
    → is_digit stop ≡ false
    → decimal 0 (c ∷ a) < 2 ^ 63
    → strtol ((c ∷ a) ++ stop ∷ t) ≡ (pos (decimal 0 (c ∷ a)), stop ∷ t)
unfolding strtol
strtol_lem c a stop t (d, ds) e h =
    let (no_space, _, _) = is_digit_lem c d in
    rw no_space (
      signed_lem ((c ∷ a) ++ stop ∷ t) c (a ++ stop ∷ t) _ _ d
        (read_digits_lem 0 (c ∷ a) stop t (d, ds) e) h)

-- A number is printed in digits.
pub digits_of-Digits : (f n : ℕ) → Digits (digits_of f n)
unfolding digits_of is_digit
digits_of-Digits zero n = tt
digits_of-Digits (suc f) n = elim (Bool-cases (ltb n 10)) [
  | inl small ↦ rw small (ground arith, tt)
  | inr large ↦
      rw large
        (All-append _ (digits_of f (n / 10)) _ (digits_of-Digits f (n / 10)) (ground arith, tt))
]

pub Digits-Lacks : (b : ℕ) (s : Bytes) → b < b'0' → Digits s → Lacks b s
unfolding is_digit
Digits-Lacks b [] low _ = tt
Digits-Lacks b (c ∷ s) low (d, ds) = ((λ e. ground arith), Digits-Lacks b s low ds)
