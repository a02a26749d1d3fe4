-- ===== src/Sql/Literals.antt =====
-- The string literals of a SQL text, as SQLite documents them: a literal stands between quotes, and two
-- quotes in it are one.
use worker_informer.Base.{
  ℕ, Bool-cases, inl, inr, false, List, [], ◌∷◌, ◌++◌, ◌==◌, ◌≡◌, ◌≢◌, refl, ap, arith,
  if◌then◌else◌, Bytes, Lacks,
}

-- Where a reader is: outside of a literal, in one, or behind a quote in one.
pub data Place : Type 0 where
  outside_literal in_literal behind_quote : Place

-- A byte at the front of the literal that is being read; a text that ends inside a literal has none.
abbrev pub grow : ℕ → List Bytes → List Bytes
grow c [] = []
grow c (l ∷ ls) = (c ∷ l) ∷ ls

unfoldable pub read_literals : Place → Bytes → List Bytes
read_literals outside_literal [] = []
read_literals outside_literal (c ∷ s) =
    let inner = read_literals in_literal s in
    let rest = read_literals outside_literal s in if c == b'\'' then inner else rest
read_literals in_literal [] = []
read_literals in_literal (c ∷ s) =
    let stop = read_literals behind_quote s in
    let rest = read_literals in_literal s in if c == b'\'' then stop else grow c rest
read_literals behind_quote [] = [] ∷ []
read_literals behind_quote (c ∷ s) =
    let inner = read_literals in_literal s in
    let rest = read_literals outside_literal s in if c == b'\'' then grow c inner else [] ∷ rest

unfoldable pub literals : Bytes → List Bytes
unfolding read_literals
literals s = read_literals outside_literal s

-- Each quote twice.
unfoldable pub doubled : Bytes → Bytes
doubled [] = []
doubled (c ∷ s) = let rest = doubled s in if c == b'\'' then c ∷ c ∷ rest else c ∷ rest

pub doubled-Lacks : (s : Bytes) → Lacks b'\'' s → doubled s ≡ s
unfolding doubled
doubled-Lacks [] _ = refl
doubled-Lacks (c ∷ s) (h, hs) =
    let other : (c == b'\'') ≡ false = ground arith in rw other (ap (◌∷◌ c) (doubled-Lacks s hs))

-- A text outside of literals is passed over.
pub literals-append : (front s : Bytes) → Lacks b'\'' front → literals (front ++ s) ≡ literals s
unfolding literals read_literals
literals-append [] s _ = refl
literals-append (c ∷ front) s (h, hs) =
    let other : (c == b'\'') ≡ false = ground arith in rw other (literals-append front s hs)

pub literals-Lacks : (s : Bytes) → Lacks b'\'' s → literals s ≡ []
unfolding literals read_literals
literals-Lacks [] _ = refl
literals-Lacks (c ∷ s) (h, hs) =
    let other : (c == b'\'') ≡ false = ground arith in rw other (literals-Lacks s hs)

-- Behind an opening quote, a text with its quotes doubled is read as it is, up to a quote that no other
-- follows.
in_literal-doubled :
    (t : Bytes) (b : ℕ) (s : Bytes)
    → b ≢ b'\''
    → read_literals in_literal (doubled t ++ b'\'' ∷ b ∷ s) ≡ t ∷ literals s
unfolding literals read_literals doubled
in_literal-doubled [] b s h = let other : (b == b'\'') ≡ false = ground arith in rw other refl
in_literal-doubled (c ∷ t) b s h = elim (Bool-cases (c == b'\'')) [
  | inl e ↦ rw (e, e, in_literal-doubled t b s h) refl
  | inr e ↦ rw (e, e, in_literal-doubled t b s h) refl
]

pub literals_quote :
    (t : Bytes) (b : ℕ) (s : Bytes)
    → b ≢ b'\''
    → literals (b'\'' ∷ doubled t ++ b'\'' ∷ b ∷ s) ≡ t ∷ literals s
unfolding literals read_literals
literals_quote t b s h = in_literal-doubled t b s h
