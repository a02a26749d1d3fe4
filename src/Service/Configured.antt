-- ===== src/Service/Configured.antt =====
-- From the settings of a file to the answers of the threads.
use worker_informer.Base.{ℕ, none, some, ◌≡◌, Bytes, codes}
use worker_informer.Config.Fields.{Config}
use worker_informer.Config.Steps.{Environment, State}
use worker_informer.Cgi.Request.{Request, Libraries}
use worker_informer.Core.State
use worker_informer.Cgi.Threads
use worker_informer.Status.Page.{Printers, Service, Now, Counters, status}

module _ {Xml Fs : Type 0} (env : Environment Xml Fs) where
  -- The file's document, whose root has no section `log`.
  pub record HasNoLog (file_name : Bytes) : Type 0 where
    pub document : Xml
    pub root : Xml
    pub read : env.load_file file_name ≡ some document
    pub has_root : env.first_child document (codes "root") ≡ some root
    pub has_no_log : env.first_child root (codes "log") ≡ none

  module _ {Time Real : Type 0} (out : Printers Time Real) (range_category : Real)
      (lib : ℕ → Libraries Real) where
    -- At each moment, the status page as `Status` makes it then.
    abbrev pub with_status :
        Config → Service Time Real → (ℕ → Now Time) → (ℕ → Counters Time) → ℕ → Libraries Real
    with_status cfg service now counters m = record (lib m) {
      status_page = λ name. (status out cfg service (now m) name (counters m)).0;
    }
