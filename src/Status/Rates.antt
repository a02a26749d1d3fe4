-- ===== src/Status/Rates.antt =====
-- The rates that `BaseCore::Status` computes, in machine integers.
use Prim.Native.Nat.{ℕ, zero, suc, ◌+◌, ◌-◌, ◌*◌, ◌/◌, ◌%◌, ◌^◌, ◌≤◌, ◌<◌}
use native.Mathlib.Nat.{div-eq_of_lt}
use worker_informer.Base.{ℤ, pos, negsuc, to_int, to_int_small, to_unsigned_long, ◌≡◌, refl, arith}

-- `n * 1000 / ms` of an `unsigned long` and an `int`, kept in an `int`; 0 where `ms` is 0.
unfoldable pub rate : ℕ → ℤ → ℤ
rate n (pos zero) = pos 0
rate n ms = to_int (pos (n * 1000 % 2 ^ 64 / to_unsigned_long ms))

-- `a - b` of `unsigned long`.
abbrev pub counted : ℕ → ℕ → ℕ
counted a b = (a + (2 ^ 64 - b)) % 2 ^ 64

-- A time that an `int` holds.
pub rate_exact :
    (n ms : ℕ)
    → n * 1000 < 2 ^ 64
    → 0 < ms
    → ms < 2 ^ 64
    → n * 1000 / ms < 2 ^ 31
    → rate n (pos ms) ≡ pos (n * 1000 / ms)
unfolding rate
rate_exact n zero _ h _ _ = absurd (omega arith)
rate_exact n (suc ms) fits _ word small =
    let m : n * 1000 % 2 ^ 64 ≡ n * 1000 = omega arith in
    let d : suc ms % 2 ^ 64 ≡ suc ms = omega arith in rw (m, d) (to_int_small _ small)

-- A time that became negative is a huge divisor.
pub rate_lost : (n k : ℕ) → k < 2 ^ 31 → n * 1000 < 2 ^ 63 → rate n (negsuc k) ≡ pos 0
unfolding rate
rate_lost n k h small =
    let m : n * 1000 % 2 ^ 64 ≡ n * 1000 = omega arith in
    let none_left : n * 1000 / (2 ^ 64 - 1 - k % 2 ^ 64) ≡ 0 = div-eq_of_lt (omega arith) in
    rw (m, none_left) refl

pub to_int_negative : (t : ℕ) → 2 ^ 31 ≤ t → t < 2 ^ 32 → to_int (pos t) ≡ negsuc (2 ^ 32 - t - 1)
to_int_negative t lo hi = ground arith
