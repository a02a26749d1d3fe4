-- ===== src/Daemon/Search.antt =====
-- `Server::getProcIdByName`.
use worker_informer.Base.{
  ℕ, suc, ◌+◌, ℤ, pos, negsuc, Bool, true, false, not, ◌&&◌, Option, none, some, List, [], ◌∷◌,
  ◌++◌, ◌≡◌, ◌⊎◌, inl, inr, refl, ap, ◌==◌, ltb, if◌then◌else◌, Bool-cases, arith, Bytes, equal,
  is_empty, c_string, c_string-append, length, drop, atoi, All, Lacks,
}

-- An entry of /proc, with what its file `cmdline` holds; that is empty where the file does not open.
pub record Entry : Type 0 where
  pub d_name : Bytes
  pub cmdline : Bytes

-- `getline`
unfoldable pub first_line : Bytes → Bytes
first_line [] = []
first_line (c ∷ s) = let rest = first_line s in if c == 10 then [] else c ∷ rest

abbrev pub rfind_behind : ℕ → ℕ → Option ℕ → Option ℕ
rfind_behind c x none = if x == c then some 0 else none
rfind_behind c x (some i) = some (i + 1)

unfoldable pub rfind : ℕ → Bytes → Option ℕ
rfind c [] = none
rfind c (x ∷ s) = rfind_behind c x (rfind c s)

abbrev pub behind : Bytes → Option ℕ → Bytes
behind s none = s
behind s (some i) = drop (i + 1) s

-- The program's name: up to the first NUL, behind the last slash.
unfoldable pub program_name : Bytes → Bytes
unfolding rfind c_string
program_name line = behind (c_string line) (rfind b'/' (c_string line))

abbrev pub is_self : ℤ → ℕ → Bool
is_self (pos n) self = n == self
is_self (negsuc n) self = false

abbrev pub is_positive : ℤ → Bool
is_positive (pos n) = ltb 0 n
is_positive (negsuc n) = false

-- Whether the loop stops at an entry. `self` is `getpid()`.
unfoldable pub matches : ℕ → Bytes → Entry → Bool
unfolding program_name first_line
matches self proc_name e =
    let id = atoi e.d_name in
    let line = first_line e.cmdline in
    is_positive id
    && (not (is_empty line) && (equal proc_name (program_name line) && not (is_self id self)))

unfoldable pub find_entry : ℕ → Bytes → List Entry → ℤ
unfolding matches
find_entry self proc_name [] = negsuc 0
find_entry self proc_name (e ∷ es) =
    let rest = find_entry self proc_name es in
    if matches self proc_name e then atoi e.d_name else rest

-- `none` is undefined behaviour: where /proc does not open, `closedir` is called with a null pointer.
unfoldable pub get_proc_id_by_name : ℕ → Bytes → Option (List Entry) → Option ℤ
unfolding find_entry
get_proc_id_by_name self proc_name none = none
get_proc_id_by_name self proc_name (some es) = some (find_entry self proc_name es)

-- What is found, by the loop's own test.
abbrev pub IsFirstMatch : ℕ → Bytes → List Entry → ℤ → Type 0
IsFirstMatch self proc_name es id =
    ((id ≡ negsuc 0) × All (λ e. matches self proc_name e ≡ false) es)
    ⊎ ((before : List Entry) × (e : Entry) × (after : List Entry) × (es ≡ before ++ e ∷ after)
        × All (λ x. matches self proc_name x ≡ false) before
        × (matches self proc_name e ≡ true)
        × (id ≡ atoi e.d_name))

module _ (self : ℕ) (proc_name : Bytes) where
  find_entry_here :
      (e : Entry) (es : List Entry)
      → matches self proc_name e ≡ true
      → find_entry self proc_name (e ∷ es) ≡ atoi e.d_name
  unfolding find_entry
  find_entry_here e es h = rw h

  find_entry_next :
      (e : Entry) (es : List Entry)
      → matches self proc_name e ≡ false
      → find_entry self proc_name (e ∷ es) ≡ find_entry self proc_name es
  unfolding find_entry
  find_entry_next e es h = rw h

  IsFirstMatch-next :
      (e : Entry) (es : List Entry) (id : ℤ)
      → matches self proc_name e ≡ false
      → IsFirstMatch self proc_name es id
      → IsFirstMatch self proc_name (e ∷ es) id
  IsFirstMatch-next e es id h (inl (absent, all)) = inl (absent, (h, all))
  IsFirstMatch-next e es id h (inr (before, x, after, split, all, found, same)) =
      inr (e ∷ before, x, after, ap (◌∷◌ e) split, (h, all), found, same)

  pub find_entry-IsFirstMatch :
      (es : List Entry) → IsFirstMatch self proc_name es (find_entry self proc_name es)
  find_entry-IsFirstMatch [] = inl (unfold find_entry in refl, tt)
  find_entry-IsFirstMatch (e ∷ es) = elim (Bool-cases (matches self proc_name e)) [
    | inl h ↦ inr ([], e, es, refl, tt, h, find_entry_here e es h)
    | inr h ↦
        rw (find_entry_next e es h)
          (IsFirstMatch-next e es (find_entry self proc_name es) h (find_entry-IsFirstMatch es))
  ]

rfind-Lacks : (c : ℕ) (s : Bytes) → Lacks c s → rfind c s ≡ none
unfolding rfind
rfind-Lacks c [] _ = refl
rfind-Lacks c (x ∷ s) (h, hs) =
    let other : (x == c) ≡ false = ground arith in rw (rfind-Lacks c s hs) (rw other)

rfind-append : (c : ℕ) (a s : Bytes) → Lacks c s → rfind c (a ++ c ∷ s) ≡ some (length a)
unfolding rfind
rfind-append c [] s h =
    let same : (c == c) ≡ true = ground arith in rw (rfind-Lacks c s h) (rw same)
rfind-append c (x ∷ a) s h = rw (rfind-append c a s h) (ap some (omega arith))

behind_lem : (a s : Bytes) (c : ℕ) → drop (length a + 1) (a ++ c ∷ s) ≡ s
behind_lem [] s c = refl
behind_lem (x ∷ a) s c =
    let e : suc (length a) + 1 ≡ suc (length a + 1) = omega arith in rw e (behind_lem a s c)

-- Of a command line with a path and arguments, the name is the last part of the path.
pub program_name_lem :
    (directory name arguments : Bytes)
    → Lacks 0 (directory ++ b'/' ∷ name)
    → Lacks b'/' name
    → program_name ((directory ++ b'/' ∷ name) ++ 0 ∷ arguments) ≡ name
unfolding program_name
program_name_lem directory name arguments text plain =
    rw
      (
        c_string-append (directory ++ b'/' ∷ name) arguments text,
        rfind-append b'/' directory name plain,
      )
      (behind_lem directory name b'/')
