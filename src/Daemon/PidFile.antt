-- ===== src/Daemon/PidFile.antt =====
-- `Server::writePid`: the process's number in a file.
use Prim.Native.Nat.pow
use worker_informer.Base.{
  to_int_small, ℕ, zero, suc, ◌+◌, ◌-◌, ◌*◌, ◌/◌, ◌%◌, ◌^◌, ◌≤◌, ◌<◌, pos, true, false, Option,
  none, some, [], ◌∷◌, ◌++◌, append_assoc, ◌≡◌, refl, sym, ap, ◌∙◌, ltb, Bool-cases, inl, inr,
  arith, Bytes, length, length-append, take, drop, replicate, is_digit, decimal, Digits, strtol_lem,
  atoi, digits_of, digits_of-Digits, print, c_string, c_string-append, Digits-Lacks,
  take-length_append, append-nil,
}

-- A file, by its bytes; `none` where `open` fails, which ends the process.
module _ (log10 : ℕ → ℕ) where
  -- `snprintf(buf, len, "%d", p)` into a buffer of `len` zeros.
  abbrev pub buffer_of : ℕ → ℕ → Bytes
  buffer_of len p =
      take (len - 1) (print p) ++ replicate (len - length (take (len - 1) (print p))) 0

  -- `write` at the start of the file, which `open` did not cut: what was longer stays behind.
  abbrev pub overwritten : Bytes → Bytes → Bytes
  overwritten new old = new ++ drop (length new) old

  -- The new contents of the file with the contents `old`. `log10` is that of the C library, cut to an
  -- `int`.
  unfoldable pub write_pid : ℕ → Option Bytes → Option Bytes
  unfolding digits_of
  write_pid p none = none
  write_pid p (some old) = some (overwritten (buffer_of (log10 p + 2) p) old)

decimal-append : (n : ℕ) (s t : Bytes) → decimal n (s ++ t) ≡ decimal (decimal n s) t
decimal-append n [] t = refl
decimal-append n (c ∷ s) t = decimal-append (n * 10 + (c - b'0')) s t

digits_of_value : (f n : ℕ) → n < f → decimal 0 (digits_of f n) ≡ n
unfolding digits_of
digits_of_value zero n h = absurd (omega arith)
digits_of_value (suc f) n h = elim (Bool-cases (ltb n 10)) [
  | inl small ↦ rw small (omega arith)
  | inr large ↦
      rw
        (
          large,
          decimal-append 0 (digits_of f (n / 10)) ((b'0' + n % 10) ∷ []),
          digits_of_value f (n / 10) (ground arith),
        )
        (omega arith)
]

pow_suc : (k : ℕ) → 10 ^ suc k ≡ 10 * 10 ^ k
pow_suc k = omega (arith, pow.suc 10 k)

pow_pos : (k : ℕ) → 1 ≤ 10 ^ k
pow_pos zero = omega arith
pow_pos (suc k) = omega (arith, pow_suc k, pow_pos k)

-- The length of the text, between powers of ten.
length-digits_of :
    (f n k : ℕ) → n < f → 10 ^ k ≤ n → n < 10 ^ suc k → length (digits_of f n) ≡ suc k
unfolding digits_of
length-digits_of zero n k h lo hi = absurd (omega arith)
length-digits_of (suc f) n zero h lo hi =
    let small : ltb n 10 ≡ true = ground arith in rw small refl
length-digits_of (suc f) n (suc k) h lo hi =
    let many : 10 ≤ n = omega (arith, pow_suc k, pow_pos k) in
    let large : ltb n 10 ≡ false = ground arith in
    rw large (
      omega (
        arith,
        length-append {0} (digits_of f (n / 10)) ((b'0' + n % 10) ∷ []),
        length-digits_of f (n / 10) k (omega arith) (omega (arith, pow_suc k))
            (omega (arith, pow_suc (suc k))),
      ))

atoi-append :
    (s t : Bytes) (p : ℕ)
    → Digits s
    → 0 < length s
    → decimal 0 s ≡ p
    → p < 2 ^ 31
    → atoi (s ++ 0 ∷ t) ≡ pos p
atoi-append [] t p ds long e h = absurd (omega arith)
atoi-append (c ∷ a) t p ds long e h =
    let no_digit : is_digit 0 ≡ false = unfold is_digit in refl in
    rw (strtol_lem c a 0 t ds no_digit (omega (arith, e)), e) (to_int_small p h)

take_all : (s : Bytes) (n : ℕ) → length s ≡ n → take n s ≡ s
take_all s n e = rw (← e) (ap (take (length s)) (sym (append-nil s)) ∙ take-length_append s [])

buffer_of_lem :
    (log10 : ℕ → ℕ) (p k : ℕ)
    → 10 ^ k ≤ p
    → p < 10 ^ suc k
    → buffer_of log10 (k + 2) p ≡ print p ++ 0 ∷ []
buffer_of_lem log10 p k lo hi =
    let long : length (print p) ≡ suc k = length-digits_of (suc p) p k (omega arith) lo hi in
    let room : k + 2 - 1 ≡ suc k = omega arith in
    let one : k + 2 - suc k ≡ 1 = omega arith in
    rw (room, take_all (print p) (suc k) long, long, one) refl

-- The number of a process, of `k + 1` digits, is written with one NUL behind it, whatever the file held;
-- read back as a C string it is that number again. What an older text has beyond stays in the file.
-- `log10` is taken to be exact to its integer part.
pub write_pid-atoi :
    (log10 : ℕ → ℕ) (p k : ℕ) (old : Bytes)
    → 10 ^ k ≤ p
    → p < 10 ^ suc k
    → log10 p ≡ k
    → p < 2 ^ 31
    → (content : Bytes) × (write_pid log10 p (some old) ≡ some content)
      × (content ≡ print p ++ 0 ∷ drop (k + 2) old)
      × (c_string content ≡ print p)
      × (atoi content ≡ pos p)
unfolding write_pid
write_pid-atoi log10 p k old lo hi e small =
    let long : length (print p) ≡ suc k = length-digits_of (suc p) p k (omega arith) lo hi in
    let size : length (print p ++ 0 ∷ []) ≡ k + 2 =
      length-append (print p) (0 ∷ []) ∙ omega (arith, long) in
    let ds : Digits (print p) = digits_of-Digits (suc p) p in
    let rest = drop (k + 2) old in
    (
      print p ++ 0 ∷ rest,
      rw (e, buffer_of_lem log10 p k lo hi, size) (ap some (append_assoc (print p) (0 ∷ []) rest)),
      refl,
      c_string-append (print p) rest (Digits-Lacks 0 (print p) (omega arith) ds),
      atoi-append (print p) rest p ds (omega (arith, long))
          (digits_of_value (suc p) p (omega arith)) small,
    )
