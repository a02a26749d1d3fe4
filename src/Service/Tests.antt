-- ===== src/Service/Tests.antt =====
-- One message, a table in memory and one request; and the theorems at them.
use worker_informer.Base.{
  ℕ, ◌+◌, ◌*◌, true, false, Bool, Option, none, some, List, [], ◌∷◌, ◌≡◌, refl, equal,
  if◌then◌else◌, Bytes, codes, lookup, is_digit, strtol,
}
use worker_informer.Informers.Memory.{Rows}
use worker_informer.Informers.Sample.{nothing, doc_row}
use worker_informer.Queue.Broker.{Message}
use worker_informer.Queue.Process.{Filter, BaseCore}
use worker_informer.Core.Informer.{QueryRow}
use worker_informer.Core.State.{State}
use worker_informer.Cgi.Request.{Request, Libraries}
use worker_informer.Core.Process.{Settings}
use worker_informer.Cgi.Threads
use worker_informer.Cgi.Sample.{libraries, initial, request}
use worker_informer.Config.Fields.{settings_of}
use worker_informer.Config.Load.{load}
use worker_informer.Config.Steps.{done, check}
use worker_informer.Config.Sample.{environment, before, after}
use worker_informer.Status.Sample.{clock, service, counters, at}
use worker_informer.Service.Wiring.{columns}
use worker_informer.Service.Updated.{update_message}
use worker_informer.Service.Configured.{with_status}

after_load : load environment before ≡ done true after
unfolding load equal lookup check is_digit strtol
after_load = refl

-- The clock goes on by a second with each moment.
abbrev libs : ℕ → Libraries ℕ
libs =
    with_status environment clock 5 (λ m. libraries) after.config service
      (λ m. at (3000 + 1000 * m)) (λ m. counters)

abbrev cfg : Settings ℕ
cfg = settings_of 5 after.config

abbrev asked : Request
asked = request (some (codes "show=status"))

abbrev begin : Threads.Service ℕ
begin = Threads.start (asked ∷ []) (λ i. initial) []

-- The query on a table that has no row but that of the document.
abbrev select : Bytes → Rows → Option (Option (QueryRow ℕ))
select g db = if equal g (codes "ab-1") then some (some (columns doc_row)) else some none

abbrev find : Filter → Option (List Bytes)
find f = if equal f.value (codes "g") then some (codes "doc" ∷ []) else some []

abbrev core : BaseCore Rows (List Message × Bool) ℕ
core = record {
  store = record { mq_log = []; db = nothing };
  mq_informer = (update_message (codes "g") ∷ [], false);
  mq_account = ([], false);
  time_mq_check = 0;
}
