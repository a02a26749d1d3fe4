-- ===== src/Daemon/Detach.antt =====
-- What `Server::Server` does to the forked process: its signals, its mask for new files, its session, its
-- directory and its standard files.
use worker_informer.Base.{
  ℕ, Bool, true, List, [], ◌∷◌, ◌≡◌, refl, sym, ap, ◌∙◌, inl, inr, Bool-cases, arith, ◌==◌,
  if◌then◌else◌, Bytes, codes,
}

pub data Disposition : Type 0 where
  by_default ignored child_handler : Disposition

pub record Process : Type 0 where
  -- By the number of a signal.
  pub signals : ℕ → Disposition
  pub umask : ℕ
  pub leads_session : Bool
  pub directory : Bytes
  -- The paths behind the standard files.
  pub stdin : Bytes
  pub stdout : Bytes
  pub stderr : Bytes

-- Which of the calls succeed.
pub record Calls : Type 0 where
  pub setsid : Bool
  pub chdir : Bool
  pub freopen_stdin : Bool
  pub freopen_stdout : Bool
  pub freopen_stderr : Bool

abbrev signal : ℕ → Disposition → Process → Process
signal number d p = record p { signals = λ n. if n == number then d else p.signals n }

-- Before the fork: SIGCHLD, SIGUSR1 and SIGALRM.
unfoldable pub before_fork : Process → Process
before_fork p = signal 14 child_handler (signal 10 child_handler (signal 17 child_handler p))

-- Behind the fork, in the new process: SIGHUP, SIGCHLD, SIGTSTP, SIGTTOU, SIGTTIN, SIGTERM, SIGPIPE and
-- SIGRTMIN, in this order.
unfoldable pub after_fork : Process → Process
after_fork p = signal 34 by_default (
    signal 13 by_default (
      signal 15 by_default (
        signal 21 ignored
          (signal 22 ignored (signal 20 ignored (signal 17 by_default (signal 1 by_default p)))))))

-- A call that may fail: whether it succeeds, what it does then, and the line of the log if it fails, up to
-- the number of the error.
record Attempt : Type 0 where
  succeeds : Bool
  change : Process → Process
  line : Bytes

abbrev with_line : Bytes → Process × List Bytes → Process × List Bytes
with_line line (p, log) = (p, line ∷ log)

unfoldable attempts : List Attempt → Process → Process × List Bytes
attempts [] p = (p, [])
attempts (a ∷ more) p =
    let changed = attempts more (a.change p) in
    let rest = attempts more p in if a.succeeds then changed else with_line a.line rest

abbrev null_device : Bytes
null_device = codes "/dev/null"

abbrev detaching : Calls → List Attempt
detaching calls =
    record {
      succeeds = calls.setsid;
      change = λ q. record q { leads_session = true };
      line = codes "unable to create a new session";
    }
    ∷ record {
      succeeds = calls.chdir;
      change = λ q. record q { directory = codes "/" };
      line = codes "unable to change directory to /";
    }
    ∷ record {
      succeeds = calls.freopen_stdin;
      change = λ q. record q { stdin = null_device };
      line = codes "freopen error: stdin";
    }
    ∷ record {
      succeeds = calls.freopen_stdout;
      change = λ q. record q { stdout = null_device };
      line = codes "freopen error: stdin";
    }
    ∷ record {
      succeeds = calls.freopen_stderr;
      change = λ q. record q { stderr = null_device };
      line = codes "freopen error: stdin";
    }
    ∷ []

unfoldable pub detach : Calls → Process → Process × List Bytes
unfolding attempts
detach calls p = attempts (detaching calls) (record p { umask = 7 })

abbrev all_changes : List Attempt → Process → Process
all_changes [] p = p
all_changes (a ∷ more) p = all_changes more (a.change p)

attempts_quiet :
    (steps : List Attempt) (p : Process)
    → (attempts steps p).1 ≡ []
    → (attempts steps p).0 ≡ all_changes steps p
unfolding attempts
attempts_quiet [] p e = refl
attempts_quiet (a ∷ more) p e = elim (Bool-cases a.succeeds) [
  | inl works ↦
      let step : attempts (a ∷ more) p ≡ attempts more (a.change p) = rw works refl in
      ap (λ r. r.0) step ∙ attempts_quiet more (a.change p) (sym (ap (λ r. r.1) step) ∙ e)
  | inr fails ↦
      let step : (attempts (a ∷ more) p).1 ≡ a.line ∷ (attempts more p).1 = rw fails refl in
      let wrong : a.line ∷ (attempts more p).1 ≡ [] = sym step ∙ e in absurd (ground arith)
]

-- A process of which nothing is logged leads its session, is in the root directory and has no standard
-- files.
detach_quiet :
    (calls : Calls) (p : Process)
    → (detach calls p).1 ≡ []
    → (detach calls p).0 ≡ record p {
      umask = 7;
      leads_session = true;
      directory = codes "/";
      stdin = null_device;
      stdout = null_device;
      stderr = null_device;
    }
unfolding detach
detach_quiet calls p e = attempts_quiet (detaching calls) (record p { umask = 7 }) e

-- The running process still ends on SIGUSR1 and SIGALRM, by the handler from before the fork.
forked_handler :
    (p : Process)
    → ((after_fork (before_fork p)).signals 10 ≡ child_handler)
      × ((after_fork (before_fork p)).signals 14 ≡ child_handler)
unfolding before_fork after_fork
forked_handler p = (refl, refl)
