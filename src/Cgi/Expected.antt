-- ===== src/Cgi/Expected.antt =====
-- Which response a request is due, from its parameters, the table and the settings alone.
use worker_informer.Base.{
  [], Bool, Option, none, some, Bytes, codes, equal, is_empty, if◌then◌else◌, ◌≡◌,
}
use worker_informer.Url.Query.{ParamMap, parse, param}
use worker_informer.Core.Params.{Params}
use worker_informer.Core.Informer.{QueryRow}
use worker_informer.Core.Process.{Settings, text_for}
use worker_informer.Cgi.Body.{read_post}
use worker_informer.Cgi.Visitor.{visitor}
use worker_informer.Cgi.Request.{Request, Libraries, Answer, page, status, named, request_params}

module _ {Real : Type 0} (lib : Libraries Real) (cfg : Settings Real) where
  -- The text for what the table has, and the error page where it has no row or the statement throws;
  -- `none` is an exception.
  abbrev pub text_of_row : Bool → Params → Option (Option (QueryRow Real)) → Option Bytes
  text_of_row usercode p none = some cfg.template_error
  text_of_row usercode p (some none) = some cfg.template_error
  text_of_row usercode p (some (some row)) = text_for lib.outside cfg usercode p row

  abbrev pub expected_text : Bool → Params → Option Bytes
  expected_text usercode p = text_of_row usercode p (lib.outside.select p.informer_id)

  abbrev pub with_cookie : Bytes → Option Bytes → Answer
  with_cookie html none = status 503
  with_cookie html (some cookie) = page html cookie

  abbrev pub expected_reply : Bytes → Option Bytes → Answer
  expected_reply id none = status 503
  expected_reply id (some html) =
      if is_empty html then status 500 else with_cookie html (lib.cookie_text id)

  -- The status page, or the core's text with the visitor's cookie.
  abbrev pub expected_answer : Request → Bytes → Bytes → Bytes → ParamMap → Bytes → Bytes → Answer
  expected_answer r cookie_name id query url postq name =
      let show = param url (codes "show") in
      if equal show (codes "status")
      then page (lib.status_page (named r.server_name name)) []
      else expected_reply id (
          expected_text (equal show (codes "usercode"))
            (request_params lib cfg cookie_name r query postq url))

  -- `a` is the response that the request is due, where the service's name is `name`.
  abbrev pub IsDue : Bytes → Request → Bytes → Answer → Type 0
  IsDue cookie_name r name a =
      (query : Bytes) × (url : ParamMap) × (r.query_string ≡ some query)
      × (parse query ≡ some url)
      × (a
          ≡ expected_answer r cookie_name
              (visitor lib.split lib.replace_symbol cookie_name r.http_cookie r.time) query url
              (read_post r.content_length r.delivered r.beyond) name)
