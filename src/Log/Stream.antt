-- ===== src/Log/Stream.antt =====
-- The stream buffer `Log`: it has no put area, so that the stream hands it each byte by `overflow`.
use worker_informer.Base.{
  ℕ, zero, suc, ◌-◌, ℤ, pos, negsuc, ◌%◌, List, [], ◌∷◌, ◌++◌, if◌then◌else◌, Bytes, is_empty,
  c_string,
}

-- LOG_ERR, LOG_WARNING, LOG_INFO and LOG_DEBUG, as in syslog.h.
abbrev pub log_debug : ℕ
log_debug = 7

-- A call of `syslog(priority, "%s", text)`.
pub record Entry : Type 0 where
  pub priority : ℕ
  pub text : Bytes

-- `buffer_` and `priority_`, and the calls of `syslog` so far.
pub record Log : Type 0 where
  pub buffer : Bytes
  pub priority : ℕ
  pub sent : List Entry

-- The constructor.
abbrev pub new_log : Log
new_log = record { buffer = []; priority = log_debug; sent = [] }

-- `%s` of a `c_str()` prints up to the first NUL.
unfoldable pub sync : Log → Log
unfolding c_string
sync l = if is_empty l.buffer then l else record l {
  buffer = [];
  sent = l.sent ++ record { priority = l.priority; text = c_string l.buffer } ∷ [];
}

-- The argument is an `int`; EOF is -1.
unfoldable pub overflow : ℤ → Log → Log
unfolding sync
overflow (negsuc zero) l = sync l
overflow (negsuc (suc n)) l = record l { buffer = l.buffer ++ (255 - suc n % 256) ∷ [] }
overflow (pos n) l = record l { buffer = l.buffer ++ n % 256 ∷ [] }

-- `os << text`
unfoldable pub write : Bytes → Log → Log
unfolding overflow
write [] l = l
write (c ∷ s) l = write s (overflow (pos c) l)

-- `os << std::endl`: a line end, and a flush.
abbrev pub end_line : Log → Log
end_line l = sync (overflow (pos 10) l)

-- `os << priority`
abbrev pub set_priority : ℕ → Log → Log
set_priority p l = record l { priority = p }
