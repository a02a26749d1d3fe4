-- ===== src/Helpers/Clock.antt =====
-- `BoostHelpers::getSeconds`: a time is matched by `(\d+):(\d+):(\d+)`, and the second group is read.
use worker_informer.Base.{
  to_int_small, atoi, ℕ, ◌^◌, ◌<◌, ℤ, pos, negsuc, Bool, false, Option, none, some, [], ◌∷◌, ◌++◌,
  ◌≡◌, refl, ◌==◌, if◌then◌else◌, arith, Bytes, is_empty, is_digit, strtol, strtol_lem, decimal,
  Digits,
}

-- The text behind the digits at the front.
unfoldable pub behind_digits : Bytes → Bytes
unfolding is_digit
behind_digits [] = []
behind_digits (c ∷ s) = let rest = behind_digits s in if is_digit c then rest else c ∷ s

-- `\d+`
unfoldable pub digits : Bytes → Option Bytes
unfolding behind_digits is_digit
digits [] = none
digits (c ∷ s) = if is_digit c then some (behind_digits s) else none

-- `\d+:`
abbrev pub behind_colon : Option Bytes → Option Bytes
behind_colon none = none
behind_colon (some []) = none
behind_colon (some (c ∷ s)) = if c == b':' then some s else none

abbrev pub at_end : Option Bytes → Bool
at_end none = false
at_end (some s) = is_empty s

-- The text from the third group on, where it matches.
abbrev pub third_group : Bytes → Option Bytes → Option Bytes
unfolding digits
third_group second none = none
third_group second (some third) = if at_end (digits third) then some second else none

abbrev pub second_group : Option Bytes → Option Bytes
unfolding digits
second_group none = none
second_group (some second) = third_group second (behind_colon (digits second))

-- The text from the second group on: no digit or colon is left over.
unfoldable pub match_time : Bytes → Option Bytes
unfolding digits
match_time s = second_group (behind_colon (digits s))

abbrev pub seconds_of : Option Bytes → ℤ
seconds_of none = negsuc 0
seconds_of (some second) = atoi second

-- `atoi(tres[2].first)` reads the text from the second group on.
unfoldable pub get_seconds : Bytes → ℤ
unfolding match_time strtol
get_seconds s = seconds_of (match_time s)

behind_digits_lem :
    (a : Bytes) (c : ℕ) (t : Bytes)
    → Digits a
    → is_digit c ≡ false
    → behind_digits (a ++ c ∷ t) ≡ c ∷ t
unfolding behind_digits
behind_digits_lem [] c t _ e = rw e
behind_digits_lem (x ∷ a) c t (d, ds) e = rw d (behind_digits_lem a c t ds e)

behind_digits_all : (a : Bytes) → Digits a → behind_digits a ≡ []
unfolding behind_digits
behind_digits_all [] _ = refl
behind_digits_all (x ∷ a) (d, ds) = rw d (behind_digits_all a ds)

colon : is_digit b':' ≡ false
unfolding is_digit
colon = refl

-- Of a time written with colons, `getSeconds` reads the minutes: the second of the three numbers,
-- where an `int` can hold it.
pub get_seconds_lem :
    (h : ℕ) (hours : Bytes) (m : ℕ) (minutes : Bytes) (s : ℕ) (seconds : Bytes)
    → Digits (h ∷ hours)
    → Digits (m ∷ minutes)
    → Digits (s ∷ seconds)
    → decimal 0 (m ∷ minutes) < 2 ^ 31
    → get_seconds ((h ∷ hours) ++ b':' ∷ ((m ∷ minutes) ++ b':' ∷ (s ∷ seconds)))
      ≡ pos (decimal 0 (m ∷ minutes))
unfolding get_seconds match_time digits
get_seconds_lem h hours m minutes s seconds (dh, hs) (dm, ms) (ds, ss) fits =
    rw
      (
        dh,
        behind_digits_lem hours b':' ((m ∷ minutes) ++ b':' ∷ (s ∷ seconds)) hs colon,
        dm,
        behind_digits_lem minutes b':' (s ∷ seconds) ms colon,
        ds,
        behind_digits_all seconds ss,
        strtol_lem m minutes b':' (s ∷ seconds) (dm, ms) colon (omega arith),
      )
      (to_int_small (decimal 0 (m ∷ minutes)) fits)
