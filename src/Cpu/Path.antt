-- ===== src/Cpu/Path.antt =====
-- Which file is measured, and when the measure is undefined; the bounds of the free memory.
use Prim.Native.Nat.pow
use native.Mathlib.Nat.{div-lt_iff_lt-mul, div-mul-le_self, lt-div-mul-add}
use worker_informer.Base.{
  to_int_small, ℕ, zero, suc, ◌+◌, ◌*◌, ◌/◌, ◌%◌, ◌^◌, ◌≤◌, ◌<◌, ℤ, pos, true, false, Option, none,
  some, [], ◌∷◌, ◌++◌, ◌≡◌, ◌↔◌, ◌≢◌, refl, ap, ◌∙◌, Bool-cases, inl, inr, arith, Bytes, codes,
  length, length-append, take_all, digits_of, print, ltb, List,
}
use worker_informer.Cpu.Measure.{
  Meterage, System, undefined, strncat, stat_path, with_times, with_process, with_files, get_usage,
  free_mem,
}

more_digits :
    (f n k : ℕ)
    → n < 10 ^ suc k
    → ltb n 10 ≡ false
    → ((j : ℕ) → n / 10 < 10 ^ suc j → length (digits_of f (n / 10)) ≤ suc j)
    → length (digits_of f (n / 10) ++ (48 + n % 10) ∷ []) ≤ suc k
more_digits f n zero h large few = absurd (ground arith)
more_digits f n (suc k) h large few = omega (
  arith,
  length-append (digits_of f (n / 10)) ((48 + n % 10) ∷ []),
  few k (omega (arith, pow.suc 10 (suc k))),
)

-- A number below 10^(k+1) has at most k + 1 digits.
length-digits_of-le : (f n k : ℕ) → n < 10 ^ suc k → length (digits_of f n) ≤ suc k
unfolding digits_of
length-digits_of-le zero n k h = omega arith
length-digits_of-le (suc f) n k h = elim (Bool-cases (ltb n 10)) [
  | inl small ↦ rw small (omega arith)
  | inr large ↦ rw large (more_digits f n k h large (length-digits_of-le f (n / 10)))
]

strncat_fits : (dest src : Bytes) → length dest + length src < 30 → strncat dest src ≡ dest ++ src
strncat_fits dest src h = ap (λ s. dest ++ s) (take_all _ src (omega arith))

-- The arrays are long enough.
stat_path_lem :
    (pid : ℕ) → pid < 2 ^ 31 → stat_path (pos pid) ≡ (codes "/proc/" ++ print pid) ++ codes "/stat"
unfolding stat_path
stat_path_lem pid h =
    let short : length (print pid) ≤ 10 = length-digits_of-le (suc pid) pid 9 (omega arith) in
    ap (λ s. strncat (strncat (codes "/proc/") s) (codes "/stat"))
      (take_all 19 (print pid) (omega arith))
    ∙ ap (λ s. strncat s (codes "/stat")) (strncat_fits (codes "/proc/") (print pid) (omega arith))
    ∙ strncat_fits (codes "/proc/" ++ print pid) (codes "/stat")
        (omega (arith, length-append (codes "/proc/") (print pid)))

module _ {File : Type 0} (sys : System File) where
  with_times-returned : (m : Meterage) (o : Option (List ℕ)) → with_times sys m o ≢ undefined
  with_times-returned m none e = cc
  with_times-returned m (some times) e = cc

  with_process-returned :
      (all : File) (o : Option (Meterage × ℤ)) → with_process sys all o ≢ undefined
  with_process-returned all none e = cc
  with_process-returned all (some (m, rss)) e = with_times-returned _ _ e

  with_files-undefined :
      (m : Meterage) (old_rss : ℤ) (own all : Option File)
      → (with_files sys m old_rss own all ≡ undefined)
        ↔ ((file : File) × (own ≡ some file) × (all ≡ none))
  with_files-undefined m old_rss none all = (λ e. cc, λ h. cc)
  with_files-undefined m old_rss (some own) none = (λ e. (own, refl, refl), λ h. refl)
  with_files-undefined m old_rss (some own) (some all) =
      (λ e. absurd (with_process-returned _ _ e), λ h. cc)

-- A measure is undefined exactly where the file of the process opens and that of all processors does not:
-- `fclose` is called with the null pointer. `pid` is a process number below 2^31.
pub get_usage_undefined :
    {File : Type 0} (sys : System File) (pid : ℕ) (m : Meterage) (old_rss : ℤ)
    → pid < 2 ^ 31
    → (get_usage sys (pos pid) m old_rss ≡ undefined) ↔ (
        (file : File) × (sys.open_file ((codes "/proc/" ++ print pid) ++ codes "/stat") ≡ some file)
        × (sys.open_file (codes "/proc/stat") ≡ none))
unfolding get_usage
get_usage_undefined sys pid m old_rss h =
    rw (stat_path_lem pid h) (with_files-undefined sys m old_rss _ _)

-- Where there is memory at all, the free share of it is a percentage.
pub free_mem_le :
    (free total : ℕ)
    → 0 < total
    → free ≤ total
    → free * 100 < 2 ^ 64
    → (p : ℕ) × (free_mem (some (free, total)) ≡ some (pos p))
      × (p ≤ 100)
      × (p * total ≤ free * 100)
      × (free * 100 < (p + 1) * total)
unfolding free_mem
free_mem_le free total nonzero le fits =
    let whole : free * 100 % 2 ^ 64 ≡ free * 100 = omega arith in
    let share : free * 100 / total ≤ 100 =
      omega (
        arith,
        (div-lt_iff_lt-mul {k = total} {x = free * 100} {y = 101} nonzero).1 (omega arith),
      ) in
    (
      free * 100 / total,
      let some_memory : ltb 0 total ≡ true = ground arith in
          rw (some_memory, whole) (ap some (to_int_small _ (omega (arith, share)))),
      share,
      div-mul-le_self (free * 100) total,
      omega (arith, lt-div-mul-add {a = free * 100} {b = total} nonzero),
    )
