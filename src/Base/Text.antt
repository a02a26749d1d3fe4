-- ===== src/Base/Text.antt =====
-- Texts as lists of bytes.
use Prim.Native.Char.{code}
use Prim.Native.String.{String}
use Prim.Native.Nat.{ℕ, zero, suc, ◌+◌, ◌/◌, ◌%◌, ◌<◌}
use mathlib.Core.Path.{◌≡◌, refl, ap}
use mathlib.Core.Logic.{inl, inr, ◌≢◌, ◌↔◌}
use mathlib.Core.Bool.{Bool, true, false, ◌||◌}
use mathlib.Core.List.{List, [], ◌∷◌, ◌++◌}
use native.Mathlib.Omega.{arith}
use worker_informer.Base.Tests.{Bool-cases, ◌==◌, ltb, if◌then◌else◌}
use worker_informer.Base.Lists.{All}

abbrev pub Bytes : Type 0
Bytes = List ℕ

-- The code points of a literal; these are its bytes when the text is ASCII.
abbrev pub codes : String → Bytes
codes String.[] = []
codes (String.◌∷◌ c s) = code c ∷ codes s

-- The bytes of code points under 2048 in UTF-8.
abbrev pub utf8 : Bytes → Bytes
utf8 [] = []
utf8 (c ∷ s) =
    let rest = utf8 s in if ltb c 128 then c ∷ rest else (192 + c / 64) ∷ (128 + c % 64) ∷ rest

-- What is written, piece by piece.
abbrev pub written : List Bytes → Bytes
written [] = []
written (piece ∷ pieces) = piece ++ written pieces

abbrev pub is_empty {ℓ} : {A : Type ℓ} → List A → Bool
is_empty [] = true
is_empty (x ∷ xs) = false

-- `operator==` of `std::string`.
unfoldable pub equal : Bytes → Bytes → Bool
equal [] t = is_empty t
equal (c ∷ s) [] = false
equal (c ∷ s) (d ∷ t) = if c == d then equal s t else false

pub equal_iff : (s t : Bytes) → (equal s t ≡ true) ↔ (s ≡ t)
unfolding equal
equal_iff [] [] = ground arith
equal_iff [] (d ∷ t) = ground arith
equal_iff (c ∷ s) [] = ground arith
equal_iff (c ∷ s) (d ∷ t) = ground (arith, equal_iff s t)

unfoldable pub contains : ℕ → Bytes → Bool
contains c [] = false
contains c (x ∷ xs) = c == x || contains c xs

-- `std::string(const char *)`: up to the first NUL.
unfoldable pub c_string : Bytes → Bytes
c_string [] = []
c_string (c ∷ s) = if c == 0 then [] else c ∷ c_string s

unfoldable pub starts_with : Bytes → Bytes → Bool
starts_with [] s = true
starts_with (c ∷ p) [] = false
starts_with (c ∷ p) (d ∷ s) = let rest = starts_with p s in if c == d then rest else false

-- Whether `s.find(p)` finds anything.
unfoldable pub finds : Bytes → Bytes → Bool
unfolding starts_with
finds p [] = is_empty p
finds p (d ∷ s) = starts_with p (d ∷ s) || finds p s

abbrev pub Lacks : ℕ → Bytes → Type 0
Lacks b = All (λ c. c ≢ b)

pub contains-Lacks : (b : ℕ) (s : Bytes) → contains b s ≡ false → Lacks b s
unfolding contains
contains-Lacks b [] _ = tt
contains-Lacks b (c ∷ s) h = ((λ e. ground arith), contains-Lacks b s (ground arith))

pub c_string-Lacks : (b : ℕ) (s : Bytes) → Lacks b s → Lacks b (c_string s)
unfolding c_string
c_string-Lacks b [] _ = tt
c_string-Lacks b (c ∷ s) (h, hs) = elim (Bool-cases (c == 0)) [
  | inl e ↦ rw e tt
  | inr e ↦ rw e (h, c_string-Lacks b s hs)
]

-- Each element is a byte.
abbrev pub AllBytes : Bytes → Type 0
AllBytes = All (λ c. c < 256)

-- Whether a test passes at every number under a bound; to be settled by evaluation.
unfoldable pub passes_under : (ℕ → Bool) → ℕ → Bool
passes_under test zero = true
passes_under test (suc bound) = if test bound then passes_under test bound else false

pub of_passes_under :
    (test : ℕ → Bool) (bound c : ℕ) → c < bound → passes_under test bound ≡ true → test c ≡ true
unfolding passes_under
of_passes_under test zero c less passed = absurd (omega arith)
of_passes_under test (suc bound) c less passed = ground (arith, of_passes_under test bound c)

pub c_string-append : (s t : Bytes) → Lacks 0 s → c_string (s ++ 0 ∷ t) ≡ s
unfolding c_string
c_string-append [] t _ = refl
c_string-append (x ∷ s) t (h, hs) =
    let other : (x == 0) ≡ false = ground arith in rw other (ap (◌∷◌ x) (c_string-append s t hs))
