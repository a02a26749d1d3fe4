-- ===== src/Cgi/Threads/Progress.antt =====
-- The threads do not block one another.
use worker_informer.Base.{
  ℕ, ◌+◌, ◌-◌, ◌^◌, ◌<◌, Bool, true, false, some, List, ◌∷◌, ◌≡◌, refl, inl, inr, arith, ltb, subst,
  Option-cases, Bytes, is_empty, All,
}
use worker_informer.Core.State.{State}
use worker_informer.Core.Process.{Settings}
use worker_informer.Core.Balance.{IsFresh}
use worker_informer.Cgi.Request.{Request, Libraries}
use worker_informer.Cgi.Serve.{incremented}
use worker_informer.Cgi.Answers.{process_request-IsAnswered}
use worker_informer.Cgi.Loop.{IsServable}
use worker_informer.Cgi.Threads.{
  Place, locking, accepting, unlocking, processing, sending, stopped, Service, start, Step, lock,
  accept, unlock, look_up, answer, Reach,
}
use worker_informer.Cgi.Threads.Shared.{inside}
use worker_informer.Cgi.Threads.Mutex.{IsLocked, reach-IsLocked, start-IsLocked}
use worker_informer.Cgi.Threads.Once.{start-IsConserved}
use worker_informer.Cgi.Threads.Since.{start-IsReady, reach-IsServing}
use worker_informer.Cgi.Threads.Ready.{PlaceIsServable, IsReady}

abbrev pub in_loop : Place → Bool
in_loop stopped = false
in_loop _ = true

incremented_small : (k : ℕ) → k < 2 ^ 31 - 1 → incremented k ≡ some (k + 1)
incremented_small k h = let e : ltb k (2 ^ 31 - 1) ≡ true = ground arith in rw e refl

module _ {Real : Type 0} (lib : ℕ → Libraries Real) (cfg : Settings Real) (cookie_name : Bytes)
    (n : ℕ) (quiet : cfg.log_informer_id ≡ false)
    (nonempty : (m : ℕ) (name : Bytes) → is_empty ((lib m).status_page name) ≡ false) where
  abbrev Moves : Service Real → Type 0
  Moves s = (t : Service Real) × Step lib cfg cookie_name n s t

  module _ (s : Service Real) (r : Request) (rest : List Request)
      (some_wait : s.waiting ≡ r ∷ rest) where
    inside-Moves : (i : ℕ) (p : Place) → i < n → s.place i ≡ p → inside p ≡ true → Moves s
    inside-Moves i accepting lt at e = (_, accept lt at some_wait refl)
    inside-Moves i (unlocking o) lt at e = (_, unlock lt at refl)
    inside-Moves i locking lt at e = cc
    inside-Moves i (processing q) lt at e = cc
    inside-Moves i (sending q m seen) lt at e = cc
    inside-Moves i stopped lt at e = cc

    locking-Moves : (i : ℕ) → i < n → s.place i ≡ locking → IsLocked n s.mutex s.place → Moves s
    locking-Moves i lt at h = elim (Option-cases s.mutex) [
      | inl free ↦ (_, lock lt at free refl)
      | inr (j, its) ↦ let (less, e) = h.held_by j its in inside-Moves j (s.place j) less refl e
    ]

    sending-Moves :
        (i : ℕ) (q : Request) (m : ℕ) (seen : Bytes)
        → i < n
        → s.place i ≡ sending q m seen
        → s.count_req i < 2 ^ 31 - 1
        → IsServable q
        → IsFresh (s.core i)
        → Moves s
    sending-Moves i q m seen lt at small (fine, later, (query, ip, script, x, y, z, fits)) fresh =
        let (a, name, c, one) =
          process_request-IsAnswered (lib m) cfg cookie_name q query ip script seen (s.core i) fine
            later x y z fits quiet fresh (nonempty m) in
        (_, answer lt at one (incremented_small (s.count_req i) small) refl)

    place-Moves :
        (i : ℕ) (p : Place)
        → i < n
        → s.place i ≡ p
        → in_loop p ≡ true
        → s.count_req i < 2 ^ 31 - 1
        → IsLocked n s.mutex s.place
        → IsReady s
        → Moves s
    place-Moves i locking lt at e small locked h = locking-Moves i lt at locked
    place-Moves i accepting lt at e small locked h = inside-Moves i accepting lt at refl
    place-Moves i (unlocking o) lt at e small locked h = inside-Moves i (unlocking o) lt at refl
    place-Moves i (processing q) lt at e small locked h = (_, look_up lt at refl)
    place-Moves i (sending q m seen) lt at e small locked h =
        sending-Moves i q m seen lt at small (subst PlaceIsServable at (h.held i)) (h.fresh i)
    place-Moves i stopped lt at e small locked h = cc

  -- As long as a request waits and some thread is in its loop, some thread can make a step: the threads do
  -- not block one another. All requests have their query, address and script and no error, ids are not
  -- logged, the status page is not empty, and that thread's count of requests does not overflow.
  pub threads-Moves :
      (rs : List Request) (cores : ℕ → State Real) (name : Bytes) (s : Service Real) (i : ℕ)
      (r : Request) (rest : List Request)
      → All IsServable rs
      → ((j : ℕ) → IsFresh (cores j))
      → Reach lib cfg cookie_name n (start rs cores name) s
      → i < n
      → in_loop (s.place i) ≡ true
      → s.count_req i < 2 ^ 31 - 1
      → s.waiting ≡ r ∷ rest
      → (t : Service Real) × Step lib cfg cookie_name n s t
  threads-Moves rs cores name s i r rest ok fresh reach lt e small some_wait =
      place-Moves s r rest some_wait i (s.place i) lt refl e small
        (reach-IsLocked lib cfg cookie_name n reach
          (start-IsLocked lib cfg cookie_name n rs cores name))
        (reach-IsServing lib cfg cookie_name n quiet nonempty rs (start rs cores name) reach
          (start-IsReady lib cfg cookie_name n quiet nonempty rs cores name ok fresh)
          (start-IsConserved n rs cores name)).ready
