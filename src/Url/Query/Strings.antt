-- ===== src/Url/Query/Strings.antt =====
-- `std::string::find_first_of` for one character, and `substr`.
use worker_informer.Base.{
  ℕ, ◌+◌, ◌-◌, ◌^◌, Option, none, some, [], ◌∷◌, ◌++◌, ◌≡◌, refl, ◌==◌, leb, if◌then◌else◌, arith,
  Bytes, length, take, drop, Lacks, length-append, drop-length_append, take-length_append,
}

abbrev pub npos : ℕ
npos = 2 ^ 64 - 1

unfoldable pub find_at : Bytes → ℕ → ℕ → ℕ
find_at [] c i = npos
find_at (x ∷ s) c i = if x == c then i else find_at s c (i + 1)

unfoldable pub find_first_of : Bytes → ℕ → ℕ → ℕ
unfolding find_at
find_first_of s c pos = find_at (drop pos s) c pos

-- `none` where `substr` throws `std::out_of_range`.
unfoldable pub substr : Bytes → ℕ → ℕ → Option Bytes
substr s pos n = if leb pos (length s) then some (take n (drop pos s)) else none

find_at-Lacks : (s : Bytes) (c i : ℕ) → Lacks c s → find_at s c i ≡ npos
unfolding find_at
find_at-Lacks [] c i h = refl
find_at-Lacks (x ∷ s) c i (h, hs) = ground (arith, find_at-Lacks s c (i + 1) hs)

find_at-append : (a s : Bytes) (c i : ℕ) → Lacks c a → find_at (a ++ c ∷ s) c i ≡ i + length a
unfolding find_at
find_at-append [] s c i h = ground arith
find_at-append (x ∷ a) s c i (h, hs) = ground (arith, find_at-append a s c (i + 1) hs)

module _ (pre : Bytes) {i : ℕ} (at : i ≡ length pre) where
  pub find_first_of-Lacks : (s : Bytes) (c : ℕ) → Lacks c s → find_first_of (pre ++ s) c i ≡ npos
  unfolding find_first_of
  find_first_of-Lacks s c h = rw (at, drop-length_append pre s) (find_at-Lacks s c _ h)

  pub find_first_of-append :
      (a s : Bytes) (c : ℕ) → Lacks c a → find_first_of (pre ++ (a ++ c ∷ s)) c i ≡ i + length a
  unfolding find_first_of
  find_first_of-append a s c h = rw (at, drop-length_append pre _) (find_at-append a s c _ h)

  pub substr-append : (a s : Bytes) {n : ℕ} → n ≡ length a → substr (pre ++ (a ++ s)) i n ≡ some a
  unfolding substr
  substr-append a s k =
      rw (at, drop-length_append pre (a ++ s), k, take-length_append a s)
        (ground (arith, length-append pre (a ++ s)))
