-- ===== src/Cgi/Threads/Once.antt =====
-- No request is lost or done twice.
use worker_informer.Base.{
  updated, ℕ, zero, suc, ◌+◌, ◌<◌, Bool, none, some, List, [], ◌∷◌, ◌≡◌, refl, sym, ap, ◌∙◌, arith,
  subst, if◌then◌else◌, Bytes,
}
use worker_informer.Core.State.{State}
use worker_informer.Core.Process.{Settings}
use worker_informer.Cgi.Request.{Request, Libraries}
use worker_informer.Cgi.Threads.{
  Place, locking, accepting, unlocking, processing, sending, stopped, Service, start, Step, lock,
  accept, refuse, unlock, look_up, answer,
}
use worker_informer.Cgi.Threads.Shared.{total, total-updated, count, count-append}

-- The request that a thread has, counted by a test.
abbrev pub held : (Request → Bool) → Place → ℕ
held p (unlocking (some r)) = if p r then 1 else 0
held p (processing r) = if p r then 1 else 0
held p (sending r m seen) = if p r then 1 else 0
held p _ = 0

none_held : (p : Request → Bool) (m : ℕ) → total m (λ j. held p locking) ≡ 0
none_held p zero = refl
none_held p (suc m) = omega (arith, none_held p m)

module _ {Real : Type 0} (n : ℕ) where
  -- Each request that came waits, is with one thread, or is done with.
  abbrev pub IsConserved : List Request → Service Real → Type 0
  IsConserved rs s =
      (p : Request → Bool)
      → count p rs ≡ count p s.waiting + (total n (λ j. held p (s.place j)) + count p s.finished)

  moved :
      (s : Service Real) (i : ℕ) (a b : Place) (p : Request → Bool)
      → i < n
      → s.place i ≡ a
      → total n (λ j. held p (updated s.place i b j)) + held p a
        ≡ total n (λ j. held p (s.place j)) + held p b
  moved s i a b p lt e =
      ap (λ x. total n (λ j. held p (updated s.place i b j)) + held p x) (sym e)
      ∙ total-updated s.place i b (held p) n lt

  pub start-IsConserved :
      (rs : List Request) (cores : ℕ → State Real) (name : Bytes)
      → IsConserved rs (start rs cores name)
  start-IsConserved rs cores name p = omega (arith, none_held p n)

module _ {Real : Type 0} (lib : ℕ → Libraries Real) (cfg : Settings Real) (cookie_name : Bytes)
    (n : ℕ) where
  pub step-IsConserved :
      (rs : List Request) (s t : Service Real)
      → Step lib cfg cookie_name n s t
      → IsConserved n rs s
      → IsConserved n rs t
  step-IsConserved rs s t (lock {i} lt at free e) h =
      subst (IsConserved n rs) (sym e)
        (λ p. omega (arith, h p, moved n s i locking accepting p lt at))
  step-IsConserved rs s t (accept {i} {r} {rest} lt at some_wait e) h =
      subst (IsConserved n rs) (sym e) (λ p.
        omega
          (arith, h p, moved n s i accepting (unlocking (some r)) p lt at, ap (count p) some_wait))
  step-IsConserved rs s t (refuse {i} lt at e) h =
      subst (IsConserved n rs) (sym e)
        (λ p. omega (arith, h p, moved n s i accepting (unlocking none) p lt at))
  step-IsConserved rs s t (unlock {i} {o = none} lt at e) h =
      subst (IsConserved n rs) (sym e)
        (λ p. omega (arith, h p, moved n s i (unlocking none) stopped p lt at))
  step-IsConserved rs s t (unlock {i} {o = some r} lt at e) h =
      subst (IsConserved n rs) (sym e)
        (λ p. omega (arith, h p, moved n s i (unlocking (some r)) (processing r) p lt at))
  step-IsConserved rs s t (look_up {i} {r} lt at e) h = subst (IsConserved n rs) (sym e) (λ p.
      omega (arith, h p, moved n s i (processing r) (sending r s.moment s.server_name) p lt at))
  step-IsConserved rs s t (answer {i} {r} {m} {seen} lt at run inc e) h =
      subst (IsConserved n rs) (sym e) (λ p. omega (
        arith,
        h p,
        moved n s i (sending r m seen) locking p lt at,
        count-append p s.finished (r ∷ []),
      ))
