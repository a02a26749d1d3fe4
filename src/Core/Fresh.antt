-- ===== src/Core/Fresh.antt =====
-- The addresses that were not given out yet stay empty through every step of the core.
use worker_informer.Base.{
  ℕ, Bool, true, false, Option, none, some, List, ◌≡◌, refl, ◌==◌, Bool-cases, inl, inr, arith,
  Bytes,
}
use worker_informer.Core.Params.{Params}
use worker_informer.Core.Informer.{Informer, QueryRow, new_informer}
use worker_informer.Core.State.{State, Run, done, thrown, crash, allocate, free}
use worker_informer.Core.Process.{
  Outside, Settings, LogItem, result_html, with_informer, finish, pointed, page, user_code_page,
  respond, log, clear, clear_pointer, deleted, logged, cleared, process_clean,
}
use worker_informer.Core.Balance.{IsFresh, counted, holding}

module _ {Real : Type 0} where
  -- The state that a step ends in.
  abbrev pub LeavesFresh : {A : Type 0} → Run Real A → Type 0
  LeavesFresh (done a s) = IsFresh s
  LeavesFresh (thrown s) = IsFresh s
  LeavesFresh crash = Unit

  free-IsFresh : (p : ℕ) (s : State Real) → IsFresh s → IsFresh (free p s)
  free-IsFresh p s fresh a h = elim (Bool-cases (a == p)) [
    | inl e ↦ rw e refl
    | inr e ↦ rw e (fresh a h)
  ]

  allocate-IsFresh : (i : Informer Real) (s : State Real) → IsFresh s → IsFresh (allocate i s)
  allocate-IsFresh i s fresh a h =
      let e : (a == s.next) ≡ false = ground arith in rw e (fresh a (omega arith))

module _ {Real : Type 0} (outside : Outside Real) (cfg : Settings Real) where
  finish-LeavesFresh :
      (o : Option Bytes) (s : State Real) → IsFresh s → LeavesFresh (finish outside cfg o s)
  finish-LeavesFresh none s fresh = fresh
  finish-LeavesFresh (some html) s fresh = fresh

  page-LeavesFresh :
      (p : Params) (o : Option (Informer Real)) (s : State Real)
      → IsFresh s
      → LeavesFresh (page outside cfg p o s)
  page-LeavesFresh p none s fresh = tt
  page-LeavesFresh p (some i) s fresh =
      finish-LeavesFresh (result_html outside cfg (with_informer outside cfg p i) i) s fresh

  user_code_page-LeavesFresh :
      (o : Option (Informer Real)) (s : State Real)
      → IsFresh s
      → LeavesFresh (user_code_page outside cfg o s)
  user_code_page-LeavesFresh none s fresh = tt
  user_code_page-LeavesFresh (some i) s fresh = fresh

  respond_chosen :
      (usercode : Bool) (p : Params) (s : State Real) (o : Option (Option (QueryRow Real)))
      → outside.select p.informer_id ≡ o
      → IsFresh s
      → LeavesFresh (respond outside cfg usercode p s)
  unfolding respond
  respond_chosen true p s none e fresh = rw e fresh
  respond_chosen false p s none e fresh = rw e fresh
  respond_chosen true p s (some none) e fresh = rw e fresh
  respond_chosen false p s (some none) e fresh = rw e fresh
  respond_chosen true p s (some (some r)) e fresh =
      let t = holding outside cfg p s r in
      rw e (
        user_code_page-LeavesFresh (pointed t.cell t.informer) t (
          allocate-IsFresh (new_informer cfg.range_category r) (record s { informer = none })
            fresh))
  respond_chosen false p s (some (some r)) e fresh =
      let t = holding outside cfg p s r in
      rw e (
        page-LeavesFresh p (pointed t.cell t.informer) t (
          allocate-IsFresh (new_informer cfg.range_category r) (record s { informer = none })
            fresh))

  pub respond-LeavesFresh :
      (usercode : Bool) (p : Params) (s : State Real)
      → IsFresh s
      → LeavesFresh (respond outside cfg usercode p s)
  respond-LeavesFresh usercode p s fresh =
      respond_chosen usercode p s (outside.select p.informer_id) refl fresh

  deleted-LeavesFresh :
      (items : List LogItem) (a : ℕ) (o : Option (Informer Real)) (s : State Real)
      → IsFresh s
      → LeavesFresh (cleared outside cfg items (deleted outside cfg a o s))
  deleted-LeavesFresh items a none s fresh = tt
  deleted-LeavesFresh items a (some i) s fresh = free-IsFresh a s fresh

  clear_pointer-LeavesFresh :
      (items : List LogItem) (o : Option ℕ) (s : State Real)
      → IsFresh s
      → LeavesFresh (cleared outside cfg items (clear_pointer outside cfg o s))
  clear_pointer-LeavesFresh items none s fresh = fresh
  clear_pointer-LeavesFresh items (some a) s fresh = deleted-LeavesFresh items a (s.cell a) s fresh

  logged-LeavesFresh :
      (o : Option (List LogItem)) (s : State Real)
      → IsFresh s
      → LeavesFresh (logged outside cfg o s)
  unfolding clear
  logged-LeavesFresh none s fresh = tt
  logged-LeavesFresh (some items) s fresh = clear_pointer-LeavesFresh items s.informer s fresh

  pub process_clean-LeavesFresh :
      (p : Params) (s : State Real) → IsFresh s → LeavesFresh (process_clean outside cfg p s)
  unfolding process_clean
  process_clean-LeavesFresh p s fresh =
      logged-LeavesFresh (log outside cfg p (counted s)) (counted s) fresh
