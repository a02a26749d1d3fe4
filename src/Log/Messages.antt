-- ===== src/Log/Messages.antt =====
-- `Log::err`, `warn`, `info` and `gdb`, which print a format into one buffer of the whole process.
use worker_informer.Base.{
  ℕ, ◌*◌, Bool, true, false, Option, none, some, List, [], ◌∷◌, ◌++◌, ltb, Bytes, length, c_string,
  if◌then◌else◌,
}
use worker_informer.Log.Stream.{Entry, log_debug}

-- `BUFLEN`
abbrev pub buffer_size : ℕ
buffer_size = 1024 * 1024

-- LOG_ERR, LOG_WARNING and LOG_INFO, as in syslog.h.
abbrev pub log_err : ℕ
log_err = 3

abbrev pub log_warning : ℕ
log_warning = 4

abbrev pub log_info : ℕ
log_info = 6

-- The text in the buffer, which is none before the constructor of `Log`; the calls of `syslog` so far.
pub record Messages : Type 0 where
  pub buffer : Option Bytes
  pub sent : List Entry

abbrev pub sent_text : ℕ → Bytes → Messages → Messages
sent_text p t m = record m { sent = m.sent ++ record { priority = p; text = c_string t } ∷ [] }

-- `none` is undefined behaviour: no buffer, or a text that does not fit into it with its NUL.
abbrev pub into_buffer : Option Bytes → Bytes → Messages → Option Messages
into_buffer none t m = none
into_buffer (some old) t m =
    if ltb (length t) buffer_size then some (record m { buffer = some t }) else none

abbrev pub sent_buffer : ℕ → Bytes → Option Messages → Option Messages
sent_buffer p t none = none
sent_buffer p t (some m) = some (sent_text p t m)

abbrev pub formatted : ℕ → Option Bytes → Messages → Option Messages
formatted p none m = none
formatted p (some t) m = sent_buffer p t (into_buffer m.buffer t m)

-- `vsprintf` is the C library's: the text without its NUL, or `none` for undefined behaviour.
module _ {Args : Type 0} (vsprintf : Bytes → Args → Option Bytes) where
  unfoldable pub err : Bytes → Args → Messages → Option Messages
  err fmt args m = formatted log_err (vsprintf fmt args) m

  unfoldable pub warn : Bytes → Args → Messages → Option Messages
  warn fmt args m = formatted log_warning (vsprintf fmt args) m

  unfoldable pub info : Bytes → Args → Messages → Option Messages
  info fmt args m = formatted log_info (vsprintf fmt args) m

  -- The flag is the macro DEBUG.
  unfoldable pub gdb : Bool → Bytes → Args → Messages → Option Messages
  gdb false fmt args m = some m
  gdb true fmt args m = formatted log_debug (vsprintf fmt args) m

unfoldable pub err_text : Bytes → Messages → Messages
err_text = sent_text log_err

unfoldable pub warn_text : Bytes → Messages → Messages
warn_text = sent_text log_warning

unfoldable pub info_text : Bytes → Messages → Messages
info_text = sent_text log_info

unfoldable pub gdb_text : Bool → Bytes → Messages → Messages
gdb_text false t m = m
gdb_text true t m = sent_text log_debug t m
