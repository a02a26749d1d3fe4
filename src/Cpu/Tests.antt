-- ===== src/Cpu/Tests.antt =====
-- A run on a system that has the file of process 7 only.
use worker_informer.Base.{ℕ, pos, none, some, ◌≡◌, refl, codes, digits_of, equal, if◌then◌else◌}
use worker_informer.Cpu.Measure.{System, undefined, zeroed, stat_path, get_usage}

abbrev one_process : System ℕ
one_process = record {
  open_file = λ path. if equal path (codes "/proc/7/stat") then some 3 else none;
  scan_process = λ f m rss. some (m, rss);
  scan_times = λ f times. some times;
  page_size = 4096;
}

one_process_undefined : get_usage one_process (pos 7) zeroed (pos 0) ≡ undefined
unfolding get_usage stat_path equal digits_of
one_process_undefined = refl
