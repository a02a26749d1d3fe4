-- ===== src/Base/Int.antt =====
-- Signed integers over the native numbers.
use worker_informer.Base.Tests.{if◌then◌else◌, leb, ltb}
use native.Mathlib.Decide.{ℕ_discrete}
use Prim.Native.Nat.{ℕ, suc, ◌-◌, ◌%◌, ◌^◌, ◌<◌}
use native.Mathlib.Omega.{arith}
use mathlib.Core.Path.{◌≡◌}

-- `negsuc n` is -(n + 1).
pub data ℤ : Type 0 where
  pos : ℕ → ℤ
  negsuc : ℕ → ℤ

-- The conversion to a 32-bit `unsigned`.
abbrev pub to_unsigned : ℤ → ℕ
to_unsigned (pos n) = n % 2 ^ 32
to_unsigned (negsuc n) = (2 ^ 32 - suc n % 2 ^ 32) % 2 ^ 32

-- The conversion to `unsigned long`.
abbrev pub to_unsigned_long : ℤ → ℕ
to_unsigned_long (pos n) = n % 2 ^ 64
to_unsigned_long (negsuc n) = 2 ^ 64 - 1 - n % 2 ^ 64

abbrev pub negate : ℕ → ℤ
negate n = if leb n 0 then pos 0 else negsuc (n - 1)

-- The conversion of a `long` to `int`.
abbrev pub to_int : ℤ → ℤ
to_int z = let u = to_unsigned z in if ltb u (2 ^ 31) then pos u else negate (2 ^ 32 - u)

pub to_int_small : (n : ℕ) → n < 2 ^ 31 → to_int (pos n) ≡ pos n
to_int_small n h = ground arith

pub ℤ-discrete : Discrete ℤ
ℤ-discrete = hlevel ℕ_discrete
