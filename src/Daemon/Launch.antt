-- ===== src/Daemon/Launch.antt =====
-- The two processes of `Server::Server`: the one that was started waits for the one that it forks.
use worker_informer.Base.{ℕ, ℤ, Bool, true, false, ◌≡◌, ◌≢◌, refl, if◌then◌else◌}
use worker_informer.Daemon.Search.{is_positive}

pub data Signal : Type 0 where
  sigalrm sigusr1 sigchld : Signal

-- `child_handler`: the code of `exit`.
unfoldable pub exit_code : Signal → ℕ
exit_code sigalrm = 1
exit_code sigusr1 = 0
exit_code sigchld = 1

-- The forked process: before its user and its lock file are seen to, then up to `kill(parent, SIGUSR1)`,
-- then up to `writePid`, then running; or gone by `exit(EXIT_FAILURE)`.
pub data Child : Type 0 where
  forked prepared told_parent running gone : Child

-- What the forked process finds: whether a lock file is named and there, what the search for another
-- process of the name gives, whether the lock file can be opened, and the pid file if one is named.
pub record World : Type 0 where
  pub lock_named : Bool
  pub lock_there : Bool
  pub found : ℤ
  pub lock_opens : Bool
  pub pid_opens : Bool

-- The part with the lock file; `false` is an exit.
unfoldable pub take_lock : World → Bool
take_lock w =
    if w.lock_named
    then (if w.lock_there
        then (if is_positive w.found then false else w.lock_opens)
        else w.lock_opens)
    else true

abbrev pub after_lock : Bool → Child
after_lock true = prepared
after_lock false = gone

abbrev pub after_pid : Bool → Child
after_pid true = running
after_pid false = gone

-- `waiting` for a signal, or ended with a code.
pub data Launcher : Type 0 where
  waiting : Launcher
  ended : ℕ → Launcher

pub record System : Type 0 where
  pub launcher : Launcher
  pub child : Child
  -- A signal that was sent and not handled yet.
  pub signalled : Bool
  pub child_gone : Bool

abbrev pub is_gone : Child → Bool
is_gone gone = true
is_gone _ = false

abbrev pub start : System
start = record { launcher = waiting; child = forked; signalled = false; child_gone = false }

-- The steps of the two processes, in any order.
pub data Step (w : World) : System → System → Type 0 where
  lock :
      {s t : System}
      → s.child ≡ forked
      → t ≡ record s {
        child = after_lock (take_lock w);
        child_gone = is_gone (after_lock (take_lock w));
      }
      → Step w s t
  tell :
      {s t : System}
      → s.child ≡ prepared
      → t ≡ record s { child = told_parent; signalled = true }
      → Step w s t
  write :
      {s t : System}
      → s.child ≡ told_parent
      → t ≡ record s { child = after_pid w.pid_opens; child_gone = is_gone (after_pid w.pid_opens) }
      → Step w s t
  told :
      {s t : System}
      → s.launcher ≡ waiting
      → s.signalled ≡ true
      → t ≡ record s { launcher = ended (exit_code sigusr1) }
      → Step w s t
  bereaved :
      {s t : System}
      → s.launcher ≡ waiting
      → s.child_gone ≡ true
      → t ≡ record s { launcher = ended (exit_code sigchld) }
      → Step w s t
  alarm :
      {s t : System}
      → s.launcher ≡ waiting
      → t ≡ record s { launcher = ended (exit_code sigalrm) }
      → Step w s t

pub data Reach (w : World) : System → Type 0 where
  here : Reach w start
  next : {s t : System} → Reach w s → Step w s t → Reach w t

-- A launcher that ended with success was told so, and nothing is told before the lock is taken.
pub record IsHonest (w : World) (s : System) : Type 0 where
  pub success : s.launcher ≡ ended 0 → s.signalled ≡ true
  pub taken : s.signalled ≡ true → take_lock w ≡ true
  pub past : s.child ≡ prepared → take_lock w ≡ true

after_lock-prepared : (b : Bool) → after_lock b ≡ prepared → b ≡ true
after_lock-prepared true e = refl
after_lock-prepared false e = cc

after_pid-ne-prepared : (b : Bool) → after_pid b ≢ prepared
after_pid-ne-prepared true e = cc
after_pid-ne-prepared false e = cc

Step-IsHonest : (w : World) (s t : System) → Step w s t → IsHonest w s → IsHonest w t
unfolding exit_code
Step-IsHonest w s t (lock c e) h =
    rw e (record { success = h.success; taken = h.taken; past = after_lock-prepared (take_lock w) })
Step-IsHonest w s t (tell c e) h =
    rw e (record { success = λ _. refl; taken = λ _. h.past c; past = λ k. cc })
Step-IsHonest w s t (write c e) h = rw e (record {
  success = h.success;
  taken = h.taken;
  past = λ k. absurd (after_pid-ne-prepared w.pid_opens k);
})
Step-IsHonest w s t (told l b e) h =
    rw e (record { success = λ _. b; taken = h.taken; past = h.past })
Step-IsHonest w s t (bereaved l b e) h =
    rw e (record { success = λ k. cc; taken = h.taken; past = h.past })
Step-IsHonest w s t (alarm l e) h =
    rw e (record { success = λ k. cc; taken = h.taken; past = h.past })

Reach-IsHonest : (w : World) (s : System) → Reach w s → IsHonest w s
Reach-IsHonest w s here = record { success = λ k. cc; taken = λ k. cc; past = λ k. cc }
Reach-IsHonest w s (next {s = r} before st) = Step-IsHonest w r s st (Reach-IsHonest w r before)

-- However the two processes and the alarm interleave: the launcher ends with success only where the
-- forked process came past its lock file.
pub launch-success :
    (w : World) (s : System) → Reach w s → s.launcher ≡ ended 0 → take_lock w ≡ true
launch-success w s r e = let h = Reach-IsHonest w s r in h.taken (h.success e)

-- A success does not say that the daemon runs: where the pid file does not open, a launcher may end
-- with success and the forked process be gone.
pub launch_without_pid :
    (w : World)
    → take_lock w ≡ true
    → w.pid_opens ≡ false
    → (s : System) × Reach w s × (s.launcher ≡ ended 0) × (s.child ≡ gone)
unfolding exit_code
launch_without_pid w taken shut =
    let s₁ = record start { child = prepared } in
    let s₂ = record s₁ { child = told_parent; signalled = true } in
    let s₃ = record s₂ { launcher = ended 0 } in
    let s₄ = record s₃ { child = gone; child_gone = true } in
    let r₁ : Reach w s₁ = next here (lock refl (rw taken refl)) in
    let r₂ : Reach w s₂ = next r₁ (tell refl refl) in
    let r₃ : Reach w s₃ = next r₂ (told refl refl refl) in
    (s₄, next r₃ (write refl (rw shut refl)), refl, refl)
