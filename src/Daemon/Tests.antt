-- ===== src/Daemon/Tests.antt =====
-- A machine with two processes of the service, and the theorems at it.
use worker_informer.Base.{
  ℕ, pos, negsuc, true, false, Option, none, some, List, [], ◌∷◌, ◌++◌, ◌≡◌, ◌≢◌, refl, arith, ◌==◌,
  if◌then◌else◌, Bytes, codes, equal, strtol, c_string, drop, atoi, print,
}
use worker_informer.Daemon.Search.{
  Entry, matches, find_entry, get_proc_id_by_name, program_name, program_name_lem,
}
use worker_informer.Daemon.First.{IsFirst, find_entry-IsFirst}
use worker_informer.Daemon.PidFile.{write_pid, write_pid-atoi}
use worker_informer.Daemon.Detach.{
  by_default, ignored, child_handler, Process, Calls, before_fork, after_fork, detach,
}
use worker_informer.Daemon.User.{Credentials, Passwd}
use worker_informer.Daemon.Launch.{
  World, System, Reach, here, next, lock, tell, told, take_lock, ended, told_parent, gone,
  exit_code, launch-success, launch_without_pid,
}
use worker_informer.Daemon.Stale.{stale_lock}

abbrev service : Entry
service = record { d_name = codes "40"; cmdline = codes "/usr/bin/worker" ++ 0 ∷ codes "-p" }

abbrev shell : Entry
shell = record { d_name = codes "9"; cmdline = codes "sh" }

abbrev entries : List Entry
entries = record { d_name = codes "self"; cmdline = codes "worker" } ∷ shell ∷ service ∷ []

found_40 : get_proc_id_by_name 41 (codes "worker") (some entries) ≡ some (pos 40)
unfolding get_proc_id_by_name strtol equal
found_40 = refl

not_itself : get_proc_id_by_name 40 (codes "worker") (some entries) ≡ some (negsuc 0)
unfolding get_proc_id_by_name strtol equal
not_itself = refl

find_entry-IsFirst_example :
    IsFirst 41 (codes "worker") entries (find_entry 41 (codes "worker") entries)
find_entry-IsFirst_example = find_entry-IsFirst 41 (codes "worker") entries

worker_name :
    program_name ((codes "/usr" ++ b'/' ∷ codes "worker") ++ 0 ∷ codes "-p") ≡ codes "worker"
worker_name =
    program_name_lem (codes "/usr") (codes "worker") (codes "-p") (omega arith) (omega arith)

-- The integer part of the logarithm, for a number of three digits.
abbrev log10 : ℕ → ℕ
log10 n = if n == 734 then 2 else 0

old_file :
    write_pid log10 734 (some (codes "65535" ++ 0 ∷ []))
    ≡ some (codes "734" ++ 0 ∷ codes "5" ++ 0 ∷ [])
unfolding write_pid
old_file = refl

write_pid-atoi_example :
    (content : Bytes) × (write_pid log10 734 (some (codes "65535")) ≡ some content)
    × (content ≡ print 734 ++ 0 ∷ drop 4 (codes "65535"))
    × (c_string content ≡ print 734)
    × (atoi content ≡ pos 734)
write_pid-atoi_example =
    write_pid-atoi log10 734 2 (codes "65535") (omega arith) (omega arith) refl (omega arith)

-- Two calls that root may make, and others not.
abbrev setuid : ℕ → Credentials → Option Credentials
setuid u c = if c.euid == 0 then some (record { uid = u; euid = u; gid = c.gid }) else none

abbrev setgid : ℕ → Credentials → Option Credentials
setgid g c =
    if c.euid == 0 then some (record c { gid = g }) else if g == c.gid then some c else none

abbrev root : Credentials
root = record { uid = 0; euid = 0; gid = 0 }

abbrev nobody : Passwd
nobody = record { pw_uid = 5; pw_gid = 6 }

setgid_refused : (g : ℕ) (d : Credentials) → d.euid ≢ 0 → g ≢ d.gid → setgid g d ≡ none
setgid_refused g d h k = ground arith

abbrev clean : World
clean = record {
  lock_named = true;
  lock_there = false;
  found = negsuc 0;
  lock_opens = true;
  pid_opens = false;
}

abbrev success : System
success = record { launcher = ended 0; child = told_parent; signalled = true; child_gone = false }

success_Reach : Reach clean success
unfolding take_lock exit_code
success_Reach = next (next (next here (lock refl refl)) (tell refl refl)) (told refl refl refl)

launch-success_example : take_lock clean ≡ true
launch-success_example = launch-success clean success success_Reach refl

gone_after_success : (s : System) × Reach clean s × (s.launcher ≡ ended 0) × (s.child ≡ gone)
gone_after_success = launch_without_pid clean (unfold take_lock in refl) refl

abbrev left_over : World
left_over = record {
  lock_named = true;
  lock_there = true;
  found = pos 40;
  lock_opens = true;
  pid_opens = true;
}

stale_lock_example :
    (take_lock left_over ≡ false) × ((s : System) → Reach left_over s → s.launcher ≢ ended 0)
stale_lock_example =
    stale_lock left_over 41 (codes "worker") (shell ∷ []) [] service refl refl
      (unfold matches strtol equal in refl) (unfold find_entry matches strtol equal in refl)

abbrev no_session : Calls
no_session = record {
  setsid = false;
  chdir = true;
  freopen_stdin = true;
  freopen_stdout = true;
  freopen_stderr = true;
}

abbrev started_by_hand : Process
started_by_hand = record {
  signals = λ n. by_default;
  umask = 18;
  leads_session = false;
  directory = codes "/root";
  stdin = codes "/dev/tty";
  stdout = codes "/dev/tty";
  stderr = codes "/dev/tty";
}

-- A failure is logged, and the process goes on.
session_logged : (detach no_session started_by_hand).1 ≡ codes "unable to create a new session" ∷ []
unfolding detach
session_logged = refl

-- The terminal's signals are ignored; SIGUSR1 is still handled as before the fork.
signals_of_child :
    ((after_fork (before_fork started_by_hand)).signals 20 ≡ ignored)
    × ((after_fork (before_fork started_by_hand)).signals 10 ≡ child_handler)
unfolding before_fork after_fork
signals_of_child = (refl, refl)
