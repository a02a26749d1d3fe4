-- ===== src/Daemon/First.antt =====
-- What the search for a process by its name finds.
use worker_informer.Base.{
  ℕ, ◌<◌, ℤ, pos, negsuc, true, false, not, ◌&&◌, List, [], ◌∷◌, ◌++◌, ◌≡◌, ◌≢◌, ◌⊎◌, ◌↔◌, inl, inr,
  refl, sym, ◌∙◌, arith, Bytes, equal, equal_iff, is_empty, atoi, All, ltb, ◌==◌,
}
use worker_informer.Daemon.Search.{
  Entry, matches, first_line, program_name, find_entry, find_entry-IsFirstMatch,
}

-- An entry of another process than `self`, whose command line is there and names the program.
abbrev pub IsOther : ℕ → Bytes → Entry → Type 0
IsOther self proc_name e =
    (n : ℕ) × (atoi e.d_name ≡ pos n)
    × (0 < n)
    × (n ≢ self)
    × (first_line e.cmdline ≢ [])
    × (program_name (first_line e.cmdline) ≡ proc_name)

-- -1 with no such entry, or the number of the first one.
abbrev pub IsFirst : ℕ → Bytes → List Entry → ℤ → Type 0
IsFirst self proc_name es id =
    ((id ≡ negsuc 0) × All (λ e. ¬ IsOther self proc_name e) es)
    ⊎ ((before : List Entry) × (e : Entry) × (after : List Entry) × (es ≡ before ++ e ∷ after)
        × All (λ x. ¬ IsOther self proc_name x) before
        × IsOther self proc_name e
        × (id ≡ atoi e.d_name))

nonempty : (line : Bytes) → (not (is_empty line) ≡ true) ↔ (line ≢ [])
nonempty [] = ((λ e. absurd (ground arith)), λ h. absurd (h refl))
nonempty (c ∷ line) = ((λ e q. cc), λ h. refl)

tested :
    (self n : ℕ) (proc_name line : Bytes)
    → ((ltb 0 n
          && (not (is_empty line) && (equal proc_name (program_name line) && not (n == self))))
        ≡ true)
      ↔ ((0 < n) × (n ≢ self) × (line ≢ []) × (program_name line ≡ proc_name))
tested self n proc_name line = (
  (λ e. (
    ground arith,
    ground arith,
    (nonempty line).0 (ground arith),
    sym ((equal_iff proc_name (program_name line)).0 (ground arith)),
  )),
  (λ (positive, other, some_line, same).
      let a : ltb 0 n ≡ true = ground arith in
      let b : not (is_empty line) ≡ true = (nonempty line).1 some_line in
      let c : equal proc_name (program_name line) ≡ true =
        (equal_iff proc_name (program_name line)).1 (sym same) in
      let d : (n == self) ≡ false = ground arith in rw (a, b, c, d) refl),
)

-- The loop's test is this description.
matches_iff :
    (self : ℕ) (proc_name : Bytes) (e : Entry)
    → (matches self proc_name e ≡ true) ↔ IsOther self proc_name e
unfolding matches
matches_iff self proc_name e = by_number (atoi e.d_name) refl
  where
    by_number :
        (z : ℤ) → atoi e.d_name ≡ z → (matches self proc_name e ≡ true) ↔ IsOther self proc_name e
    by_number (pos n) at =
        let (to, from) = tested self n proc_name (first_line e.cmdline) in
        (
          (λ h.
              let (positive, other, some_line, same) = to (rw at at h) in
              (n, at, positive, other, some_line, same)),
          (λ (k, is, positive, other, some_line, same).
              let number : pos k ≡ pos n = sym is ∙ at in
              let equal_numbers : k ≡ n = ground arith in
              rw at (from (omega arith, (λ q. other (equal_numbers ∙ q)), some_line, same))),
        )
    by_number (negsuc n) at = (
      (λ h. let bad : false ≡ true = rw at at h in absurd (ground arith)),
      (λ (k, is, _, _, _, _). let bad : pos k ≡ negsuc n = sym is ∙ at in absurd (ground arith)),
    )

module _ (self : ℕ) (proc_name : Bytes) where
  none-IsOther :
      (es : List Entry)
      → All (λ e. matches self proc_name e ≡ false) es
      → All (λ e. ¬ IsOther self proc_name e) es
  none-IsOther [] _ = tt
  none-IsOther (e ∷ es) (h, hs) = (
    (λ is.
        let passes : matches self proc_name e ≡ true = (matches_iff self proc_name e).1 is in cc),
    none-IsOther es hs,
  )

  -- The search by name gives the number of the first entry of another process than the searching one, whose
  -- command line is not empty and whose program has the name, and -1 if there is none.
  pub find_entry-IsFirst :
      (es : List Entry) → IsFirst self proc_name es (find_entry self proc_name es)
  find_entry-IsFirst es = elim (find_entry-IsFirstMatch self proc_name es) [
    | inl (absent, all) ↦ inl (absent, none-IsOther es all)
    | inr (before, e, after, split, all, found, same) ↦ inr (
      before,
      e,
      after,
      split,
      none-IsOther before all,
      (matches_iff self proc_name e).0 found,
      same,
    )
  ]
