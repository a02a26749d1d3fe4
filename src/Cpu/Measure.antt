-- ===== src/Cpu/Measure.antt =====
-- `CpuStat::getUsage`, `cpuUsage` and `freeMem`.
use worker_informer.Base.{
  ℕ, ◌+◌, ◌-◌, ◌*◌, ◌/◌, ◌%◌, ◌^◌, ℤ, pos, negsuc, to_int, to_unsigned_long, Bool, true, false,
  Option, none, some, List, [], ◌∷◌, ◌++◌, Bytes, codes, take, length, print_int, ltb,
  if◌then◌else◌,
}

-- `struct meterage`
pub record Meterage : Type 0 where
  pub utime_ticks : ℕ
  pub cutime_ticks : ℤ
  pub stime_ticks : ℕ
  pub cstime_ticks : ℤ
  pub vsize : ℕ
  pub rss : ℕ
  pub cpu_total_time : ℕ

-- `bzero`
abbrev pub zeroed : Meterage
zeroed = record {
  utime_ticks = 0;
  cutime_ticks = pos 0;
  stime_ticks = 0;
  cstime_ticks = pos 0;
  vsize = 0;
  rss = 0;
  cpu_total_time = 0;
}

-- What is taken from the system: `fopen`; `fscanf` of a process's file, on the zeroed structure and the
-- local `rss`, and of the file of all processors, on ten zeros, where `none` is EOF; `getpagesize`.
pub record System (File : Type 0) : Type 0 where
  pub open_file : Bytes → Option File
  pub scan_process : File → Meterage → ℤ → Option (Meterage × ℤ)
  pub scan_times : File → List ℕ → Option (List ℕ)
  pub page_size : ℕ

-- `returned`, with the structure and the files that were left open; or undefined behaviour.
pub data Outcome : Type 0 where
  returned : Bool → Meterage → List Bytes → Outcome
  undefined : Outcome

-- `strncat` into an array of 30 bytes.
abbrev pub strncat : Bytes → Bytes → Bytes
strncat dest src = dest ++ take (30 - length dest - 1) src

-- `stat_filepath`; the number is printed into 20 bytes.
unfoldable pub stat_path : ℤ → Bytes
stat_path pid = strncat (strncat (codes "/proc/") (take 19 (print_int pid))) (codes "/stat")

abbrev pub times_path : Bytes
times_path = codes "/proc/stat"

-- `rss * getpagesize()`, of a `long`.
abbrev pub pages : ℤ → ℕ → ℕ
pages rss size = to_unsigned_long rss * size % 2 ^ 64

-- The loop over the ten times.
unfoldable pub add_times : List ℕ → ℕ → ℕ
add_times [] t = t
add_times (x ∷ xs) t = add_times xs ((t + x) % 2 ^ 64)

abbrev pub ten_zeros : List ℕ
ten_zeros = 0 ∷ 0 ∷ 0 ∷ 0 ∷ 0 ∷ 0 ∷ 0 ∷ 0 ∷ 0 ∷ 0 ∷ []

module _ {File : Type 0} (sys : System File) where
  abbrev pub with_times : Meterage → Option (List ℕ) → Outcome
  with_times m none = returned false m []
  with_times m (some times) =
      returned true (record m { cpu_total_time = add_times times m.cpu_total_time }) []

  -- Behind the scan of the process's file; the early return leaves the other file open.
  abbrev pub with_process : File → Option (Meterage × ℤ) → Outcome
  with_process all none = returned false zeroed (times_path ∷ [])
  with_process all (some (m, rss)) =
      with_times (record m { rss = pages rss sys.page_size }) (sys.scan_times all ten_zeros)

  -- `fclose` is called with the null pointer where the second file does not open.
  abbrev pub with_files : Meterage → ℤ → Option File → Option File → Outcome
  with_files m old_rss none all = returned false m []
  with_files m old_rss (some own) none = undefined
  with_files m old_rss (some own) (some all) =
      with_process all (sys.scan_process own zeroed old_rss)

  -- `m` is the old contents of the structure, `old_rss` those of the local.
  unfoldable pub get_usage : ℤ → Meterage → ℤ → Outcome
  unfolding stat_path add_times
  get_usage pid m old_rss =
      with_files m old_rss (sys.open_file (stat_path pid)) (sys.open_file times_path)

-- The percentages, by `1000 * (n / (double) t)`.
pub record Cpu (Real : Type 0) : Type 0 where
  pub cpu_user : Real
  pub cpu_sys : Real
  pub rss : ℕ
  pub last_usage : Meterage

-- `a - b` of `unsigned long`, and a sum of one and a `long`.
abbrev pub minus : ℕ → ℕ → ℕ
minus a b = (a + (2 ^ 64 - b % 2 ^ 64)) % 2 ^ 64

abbrev pub ticks : ℕ → ℤ → ℕ
ticks own children = (own + to_unsigned_long children) % 2 ^ 64

module _ {File Real : Type 0} (sys : System File) (percent : ℕ → ℕ → Real) where
  abbrev pub measured : Meterage → Cpu Real → Cpu Real
  measured cur c =
      let last = c.last_usage in
      let total = minus cur.cpu_total_time last.cpu_total_time in
      record {
        cpu_user =
            percent
              (minus (ticks cur.utime_ticks cur.cutime_ticks)
                (ticks last.utime_ticks last.cutime_ticks))
              total;
        cpu_sys =
            percent
              (minus (ticks cur.stime_ticks cur.cstime_ticks)
                (ticks last.stime_ticks last.cstime_ticks))
              total;
        rss = cur.rss;
        last_usage = cur;
      }

  abbrev pub after_usage : Outcome → Cpu Real → Option (Cpu Real)
  after_usage undefined c = none
  after_usage (returned b cur files) c = some (measured cur c)

  -- The result of `getUsage` is not looked at; `memory` is what the local structure holds before.
  unfoldable pub cpu_usage : ℤ → Meterage → ℤ → Cpu Real → Option (Cpu Real)
  unfolding get_usage
  cpu_usage pid memory old_rss c = after_usage (get_usage sys pid memory old_rss) c

-- `freeMem`, of `freeram` and `totalram` where `sysinfo` succeeds; `none` is a division by zero.
unfoldable pub free_mem : Option (ℕ × ℕ) → Option ℤ
free_mem none = some (negsuc 0)
free_mem (some (free, total)) =
    if ltb 0 total then some (to_int (pos (free * 100 % 2 ^ 64 / total))) else none
