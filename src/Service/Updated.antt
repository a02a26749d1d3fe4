-- ===== src/Service/Updated.antt =====
-- From a message of an informer's change to the page of a request.
use worker_informer.Base.{
  ◌<◌, ℤ, false, Option, some, List, [], ◌∷◌, ◌≡◌, Bytes, codes, equal, is_empty, length,
}
use worker_informer.Url.Query.Strings.{npos}
use worker_informer.Url.Query.{ParamMap, parse, param}
use worker_informer.Informers.Json.{JsonApi}
use worker_informer.Informers.Table.{Values, Row, Sqlite}
use worker_informer.Informers.Laws.{SqliteLaws, IsSent}
use worker_informer.Sql.Format.{Printf}
use worker_informer.Informers.Values.{Defaults, Outside}
use worker_informer.Informers.Upsert.{IsRead, stored, statement_for}
use worker_informer.Queue.Broker.{Message, Reply}
use worker_informer.Queue.Drain.{handle_all}
use worker_informer.Queue.Process.{Filter, Parent, BaseCore, handle_informer}
use worker_informer.Core.Informer.{QueryRow}
use worker_informer.Core.State.{State}
use worker_informer.Core.Process.{Settings, text_for}
use worker_informer.Cgi.Body.{read_post}
use worker_informer.Cgi.Request.{Request, Libraries, request_params}
use worker_informer.Service.Wiring.{columns, parent}

-- The message of the change of an informer.
abbrev pub update_message : Bytes → Message
update_message g = record { routing_key = codes "informer.update"; text = g }

module _ {Json Real Db : Type 0} (api : JsonApi Json Real) (outside : Outside Real)
    (defaults : Defaults Real) (printf : Printf Real) (sqlite : Sqlite Real Db)
    (row : ℤ → Db → Option (Row Real)) (laws : SqliteLaws printf sqlite row)
    (find : Filter → Option (List Bytes)) (push_back : List Bytes → Bytes → List Bytes) where
  abbrev pub pdb : Parent Db
  pdb = parent api outside defaults sqlite find

  -- The document that the main database finds under the guid of a message, and its statement on `db`.
  pub record IsUpdate (g i guid : Bytes) (n : ℤ) (v : Values Real) (db db' : Db) : Type 0 where
    pub found : find (record { key = codes "guid"; value = g }) ≡ some (i ∷ [])
    pub read : IsRead api outside defaults i guid n v
    pub named : is_empty (api.to_lower guid) ≡ false
    pub unique : (j : ℤ) (s : Row Real) → row j db ≡ some s → s.guid ≡ api.to_lower guid → j ≡ n
    pub sent : IsSent printf (statement_for n (api.to_lower guid) v (row n db))
    pub run : sqlite.exec (statement_for n (api.to_lower guid) v (row n db)) db ≡ some db'

  module _ {Q Time : Type 0} (get : Q → Reply Q) (now : Time) (c : BaseCore Db Q Time) where
    module _ (select : Bytes → Db → Option (Option (QueryRow Real))) (lib : Libraries Real)
        (cfg : Settings Real) (cookie_name : Bytes) (r : Request) (query : Bytes)
        (url : ParamMap) where
      -- The row that the message leaves, by the table that it finds.
      abbrev pub left_row : ℤ → Bytes → Values Real → List Message → QueryRow Real
      left_row n guid v ms = columns (
          stored n (api.to_lower guid) v
            (row n ((handle_all (handle_informer push_back pdb) ms c.store).db)))

      -- A page request, with its query read.
      pub record IsPageRequest (guid : Bytes) : Type 0 where
        pub ip : Bytes
        pub script : Bytes
        pub no_error : r.error ≡ false
        pub no_later_error : r.error_later ≡ false
        pub has_query : r.query_string ≡ some query
        pub has_ip : r.remote_addr ≡ some ip
        pub has_script : r.script_name ≡ some script
        pub fits : length query < npos
        pub parsed : parse query ≡ some url
        pub not_status : equal (param url (codes "show")) (codes "status") ≡ false
        pub asks : lib.to_lower (param url (codes "scr")) ≡ guid

      -- The text of the page for a row.
      abbrev pub shown : QueryRow Real → Option Bytes
      shown q =
          text_for lib.outside cfg (equal (param url (codes "show")) (codes "usercode"))
            (request_params lib cfg cookie_name r query
              (read_post r.content_length r.delivered r.beyond) url)
            q
