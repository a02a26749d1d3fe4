-- ===== src/Core/State.antt =====
-- The state of a `Core`: the pointer `informer`, the objects that it may point to, and what the
-- requests change.
use worker_informer.Base.{ℕ, ◌+◌, Option, none, some, ◌==◌, if◌then◌else◌}
use worker_informer.Core.Informer.{Informer}

-- The objects on the heap. `cell a` is `none` where nothing lives at the address `a`, and no address
-- from `next` on was given out yet.
pub record State (Real : Type 0) : Type 0 where
  pub cell : ℕ → Option (Informer Real)
  pub next : ℕ
  pub informer : Option ℕ
  pub request_processed : ℕ

-- How a step ends: with a result, by a C++ exception, or by undefined behaviour (a null or dangling
-- pointer).
pub data Run (Real A : Type 0) : Type 0 where
  done : A → State Real → Run Real A
  thrown : State Real → Run Real A
  crash : Run Real A

infixl 5 ◌>>=◌
abbrev pub ◌>>=◌ : {Real A B : Type 0} → Run Real A → (A → State Real → Run Real B) → Run Real B
done a s >>= f = f a s
thrown s >>= f = thrown s
crash >>= f = crash

-- `new`
abbrev pub allocate : {Real : Type 0} → Informer Real → State Real → State Real
allocate i s = record s {
  cell = λ a. if a == s.next then some i else s.cell a;
  next = s.next + 1;
  informer = some s.next;
}

-- `delete`, of an address where an object lives.
abbrev pub free : {Real : Type 0} → ℕ → State Real → State Real
free p s = record s { cell = λ a. if a == p then none else s.cell a }
