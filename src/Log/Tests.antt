-- ===== src/Log/Tests.antt =====
-- Lines on a new stream.
use worker_informer.Base.{
  none, some, pos, starts_with, is_digit, strtol, [], ◌∷◌, ◌++◌, ◌≡◌, refl, codes, c_string, arith,
}
use worker_informer.Log.Memory.{skip_to_digit, parse_line, vm_size, mem_usage}
use worker_informer.Log.Stream.{new_log, log_debug, sync, overflow, write, end_line}
use worker_informer.Log.Race.{Shared, Reach, messages_mixed}
use worker_informer.Log.Lines.{write_lines, entries, flushed, write_lines-sent}

-- What follows a NUL is lost.
cut :
    (end_line (write (codes "a" ++ 0 ∷ codes "b") new_log)).sent
    ≡ record { priority = 7; text = codes "a" } ∷ []
unfolding sync overflow write c_string
cut = refl

write_lines-sent_example :
    write_lines (codes "ab" ∷ [] ∷ []) new_log
    ≡ flushed log_debug ([] ++ entries log_debug (codes "ab" ∷ [] ∷ []))
write_lines-sent_example =
    write_lines-sent (codes "ab" ∷ [] ∷ []) log_debug []
      (((omega arith, (omega arith, tt)), (omega arith, (omega arith, tt))), ((tt, tt), tt))

abbrev quiet_log : Shared
quiet_log = record { buffer = []; sent = []; printed = λ i. none }

messages_mixed_example :
    (s' : Shared) × Reach quiet_log s'
    × (s'.sent
        ≡ []
          ++ record { priority = 3; text = c_string (codes "b") }
            ∷ record { priority = 4; text = c_string (codes "b") }
            ∷ [])
    × (s'.printed 0 ≡ none)
    × (s'.printed 1 ≡ none)
messages_mixed_example =
    messages_mixed quiet_log 0 1 3 4 (codes "a") (codes "b") (λ e. absurd (omega arith)) refl refl
      (omega arith) (omega arith)

memory_read :
    mem_usage
      (some (codes "Name:\tx1\n" ∷ codes "VmSize:\t   12345 kB\n" ∷ codes "VmLck:\t 7 kB\n" ∷ []))
    ≡ some (pos 12345)
unfolding mem_usage vm_size starts_with parse_line skip_to_digit is_digit strtol
memory_read = refl
