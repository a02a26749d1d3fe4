-- ===== src/Daemon/Stale.antt =====
-- A lock file that an earlier run left behind.
use worker_informer.Base.{
  ℕ, Bool, true, false, not, ◌&&◌, List, [], ◌∷◌, ◌++◌, ◌≡◌, ◌≢◌, inl, inr, refl, Bytes, All, atoi,
  is_empty, equal,
}
use worker_informer.Daemon.Search.{
  Entry, matches, is_positive, is_self, first_line, program_name, find_entry,
  find_entry-IsFirstMatch,
}
use worker_informer.Daemon.Launch.{World, System, Reach, take_lock, ended, launch-success}

All-middle :
    (P : Entry → Type 0) (before after : List Entry) (e : Entry) → All P (before ++ e ∷ after) → P e
All-middle P [] after e (p, _) = p
All-middle P (x ∷ before) after e (_, ps) = All-middle P before after e ps

&&-true : (a b : Bool) → (a && b) ≡ true → a ≡ true
&&-true true b h = refl
&&-true false b h = cc

matches-is_positive :
    (self : ℕ) (name : Bytes) (e : Entry)
    → matches self name e ≡ true
    → is_positive (atoi e.d_name) ≡ true
unfolding matches
matches-is_positive self name e h =
    let line = first_line e.cmdline in
    &&-true (is_positive (atoi e.d_name))
      (not (is_empty line)
        && (equal name (program_name line) && not (is_self (atoi e.d_name) self)))
      h

-- Where some process of the name is there, the number found is positive.
find_entry-is_positive :
    (self : ℕ) (name : Bytes) (before after : List Entry) (e : Entry)
    → matches self name e ≡ true
    → is_positive (find_entry self name (before ++ e ∷ after)) ≡ true
find_entry-is_positive self name before after e h =
    elim (find_entry-IsFirstMatch self name (before ++ e ∷ after)) [
      | inl (absent, all) ↦
          let bad : matches self name e ≡ false =
            All-middle (λ x. matches self name x ≡ false) before after e all in
          cc
      | inr (b, x, a, split, all, found, same) ↦ rw same (matches-is_positive self name x found)
    ]

-- Where a lock file is left from an earlier run, the service does not start: the launcher itself waits
-- under the service's name, the forked process takes it for another one running, and the launcher
-- never ends with success.
pub stale_lock :
    (w : World) (self : ℕ) (name : Bytes) (before after : List Entry) (launcher : Entry)
    → w.lock_named ≡ true
    → w.lock_there ≡ true
    → matches self name launcher ≡ true
    → w.found ≡ find_entry self name (before ++ launcher ∷ after)
    → (take_lock w ≡ false) × ((s : System) → Reach w s → s.launcher ≢ ended 0)
stale_lock w self name before after launcher named there same found =
    let positive : is_positive w.found ≡ true =
      rw found (find_entry-is_positive self name before after launcher same) in
    let no : take_lock w ≡ false = unfold take_lock in simp (named, there, positive) in
    (no, λ s r e. let taken = launch-success w s r e in cc)
