-- ===== src/Daemon/User.antt =====
-- The change of the user in `Server::Server`, for a service that root starts.
use worker_informer.Base.{
  ℕ, ◌||◌, Option, none, some, ◌≡◌, ◌≢◌, sym, ◌∙◌, ap, ◌==◌, if◌then◌else◌, Bool-cases, inl, inr,
}

-- The real and the effective user, and the group.
pub record Credentials : Type 0 where
  pub uid : ℕ
  pub euid : ℕ
  pub gid : ℕ

-- `struct passwd`
pub record Passwd : Type 0 where
  pub pw_uid : ℕ
  pub pw_gid : ℕ

-- A refusal is only logged.
abbrev pub or_same : Option Credentials → Credentials → Credentials
or_same none c = c
or_same (some c') c = c'

-- The calls of the system; `none` is a refusal.
module _ (setuid setgid : ℕ → Credentials → Option Credentials) where
  abbrev pub become : Option Passwd → Credentials → Credentials
  become none c = c
  become (some pw) c = let c' = or_same (setuid pw.pw_uid c) c in or_same (setgid pw.pw_gid c') c'

  -- `getpwnam` is given by its result.
  unfoldable pub set_user : Option Passwd → Credentials → Credentials
  set_user pw c = if c.uid == 0 || c.euid == 0 then become pw c else c

  -- The user is set before the group: where root starts the service for a user other than root, whose
  -- group is another one than that of the process, the process keeps its group. `setuid` by root sets
  -- both user numbers and leaves the group alone; `setgid` to another group is refused to all but root.
  pub set_user_gid :
      (pw : Passwd) (c c' : Credentials)
      → c.euid ≡ 0
      → pw.pw_uid ≢ 0
      → pw.pw_gid ≢ c.gid
      → setuid pw.pw_uid c ≡ some c'
      → (c'.euid ≡ pw.pw_uid) × (c'.gid ≡ c.gid)
      → ((g : ℕ) (d : Credentials) → d.euid ≢ 0 → g ≢ d.gid → setgid g d ≡ none)
      → (set_user (some pw) c ≡ c') × ((set_user (some pw) c).gid ≡ c.gid)
  unfolding set_user
  set_user_gid pw c c' root other group e (same_user, same_group) refused =
      let no : setgid pw.pw_gid c' ≡ none =
        refused pw.pw_gid c' (λ z. other (sym same_user ∙ z)) (λ z. group (z ∙ same_group)) in
      let whole : set_user (some pw) c ≡ c' = elim (Bool-cases (c.uid == 0)) [
        | inl u ↦ simp (u, e, no)
        | inr u ↦ simp (u, root, e, no)
      ] in
      (whole, ap (λ (d : Credentials). d.gid) whole ∙ same_group)
