-- ===== src/Log/Memory.antt =====
-- `Log::memUsage` and `Log::parseLine`.
use worker_informer.Base.{
  ℕ, suc, ◌+◌, ◌-◌, ◌*◌, ◌^◌, ◌<◌, ◌≤◌, ℤ, pos, negsuc, true, false, ◌||◌, Option, none, some, List,
  [], ◌∷◌, ◌++◌, ◌≡◌, refl, ap, ◌∙◌, arith, ltb, leb, if◌then◌else◌, Bytes, codes, length,
  length-append, take, take_all, All, is_digit, strtol, atoi, strtol_lem, decimal, Digits, to_int,
  to_int_small, starts_with,
}

-- The text from its first digit on, behind so many bytes; `none` is a text without one, behind which the
-- pointer leaves it.
unfoldable pub skip_to_digit : ℕ → Bytes → Option (ℕ × Bytes)
unfolding is_digit
skip_to_digit k [] = none
skip_to_digit k (c ∷ s) =
    let rest = skip_to_digit (suc k) s in if is_digit c then some (k, c ∷ s) else rest

-- `line[i-3] = '\0'` on the moved pointer, in a line of 128 bytes: `i` is the length of the whole text.
abbrev pub cut_units : ℕ → Option (ℕ × Bytes) → Option Bytes
cut_units i none = none
cut_units i (some (k, rest)) =
    if ltb (k + i) 3 || leb 128 (k + i - 3)
    then none
    else some (if ltb i 3 then rest else take (i - 3) rest)

abbrev pub line_value : Option Bytes → Option ℤ
line_value none = none
line_value (some text) = some (atoi text)

unfoldable pub parse_line : Bytes → Option ℤ
unfolding skip_to_digit strtol
parse_line line = line_value (cut_units (length line) (skip_to_digit 0 line))

-- The loop, over what `fgets` gives.
unfoldable pub vm_size : List Bytes → Option ℤ
unfolding starts_with parse_line
vm_size [] = some (negsuc 0)
vm_size (line ∷ lines) =
    let rest = vm_size lines in if starts_with (codes "VmSize:") line then parse_line line else rest

-- `none` is undefined behaviour, as when the file is not opened.
unfoldable pub mem_usage : Option (List Bytes) → Option ℤ
unfolding vm_size
mem_usage none = none
mem_usage (some lines) = vm_size lines

skip_to_digit_lem :
    (k : ℕ) (front : Bytes) (c : ℕ) (s : Bytes)
    → All (λ b. is_digit b ≡ false) front
    → is_digit c ≡ true
    → skip_to_digit k (front ++ c ∷ s) ≡ some (k + length front, c ∷ s)
unfolding skip_to_digit
skip_to_digit_lem k [] c s _ d = let same : k + 0 ≡ k = omega arith in rw (d, same) refl
skip_to_digit_lem k (b ∷ front) c s (h, hs) d =
    let moved : suc k + length front ≡ k + suc (length front) = omega arith in
    rw h (skip_to_digit_lem (suc k) front c s hs d ∙ rw moved refl)

-- A line with a number in it: a front without digits, the digits, and a tail. The number is read if the
-- line, its front counted twice, fits in the buffer.
parse_line_lem :
    (front : Bytes) (c : ℕ) (a : Bytes) (stop : ℕ) (tail : Bytes)
    → All (λ b. is_digit b ≡ false) front
    → 3 ≤ length front
    → Digits (c ∷ a)
    → is_digit stop ≡ false
    → 2 * length front + length ((c ∷ a) ++ stop ∷ tail) < 131
    → decimal 0 (c ∷ a) < 2 ^ 31
    → parse_line (front ++ ((c ∷ a) ++ stop ∷ tail)) ≡ some (pos (decimal 0 (c ∷ a)))
unfolding parse_line
parse_line_lem front c a stop tail h long (d, ds) e fits small =
    let number = (c ∷ a) ++ stop ∷ tail in
    let size = length-append front number in
    let high : ltb (length front + length (front ++ number)) 3 ≡ false = ground (arith, size) in
    let low : leb 128 (length front + length (front ++ number) - 3) ≡ false =
      ground (arith, size) in
    let whole : ltb (length (front ++ number)) 3 ≡ false = ground (arith, size) in
    let all : take (length (front ++ number) - 3) number ≡ number =
      take_all (length (front ++ number) - 3) number (omega (arith, size)) in
    let same : 0 + length front ≡ length front = omega arith in
    ap (λ o. line_value (cut_units (length (front ++ number)) o))
      (skip_to_digit_lem 0 front c (a ++ stop ∷ tail) h d ∙ ap (λ k. some (k, number)) same)
    ∙ rw (high, low, whole, all)
        (ap (λ r. some (to_int r.0)) (strtol_lem c a stop tail (d, ds) e (omega arith))
          ∙ ap some (to_int_small (decimal 0 (c ∷ a)) small))

-- The line of the file that names the memory is read as its number in kilobytes.
mem_usage_lem :
    (before : List Bytes) (front : Bytes) (c : ℕ) (a : Bytes) (after : List Bytes)
    → All (λ line. starts_with (codes "VmSize:") line ≡ false) before
    → All (λ b. is_digit b ≡ false) front
    → Digits (c ∷ a)
    → 14 + 2 * length front + (length (c ∷ a) + 4) < 131
    → decimal 0 (c ∷ a) < 2 ^ 31
    → mem_usage
        (some (before ++ ((codes "VmSize:" ++ front) ++ ((c ∷ a) ++ codes " kB\n")) ∷ after))
      ≡ some (pos (decimal 0 (c ∷ a)))
unfolding mem_usage vm_size starts_with is_digit
mem_usage_lem [] front c a after _ h d fits small =
    parse_line_lem (codes "VmSize:" ++ front) c a b' ' (codes "kB\n")
      (refl, (refl, (refl, (refl, (refl, (refl, (refl, h))))))) (omega arith) d refl
      (omega (arith, length-append (c ∷ a) (codes " kB\n"))) small
mem_usage_lem (line ∷ before) front c a after (n, ns) h d fits small =
    rw n (mem_usage_lem before front c a after ns h d fits small)
