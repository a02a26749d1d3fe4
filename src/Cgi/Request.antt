-- ===== src/Cgi/Request.antt =====
-- `CgiService::ProcessRequest` and the two `Response` functions.
use worker_informer.Base.{
  ℕ, ℤ, Bool, Option, none, some, List, [], ◌∷◌, ◌++◌, if◌then◌else◌, Bytes, codes, equal, is_empty,
}
use worker_informer.Url.Query.{ParamMap, parse, param}
use worker_informer.Core.Params.{
  Params, new_params, set_get, set_post, set_informer_id, set_country, set_region, set_test_mode,
}
use worker_informer.Core.State.{State, Run, done, thrown, crash}
use worker_informer.Core.Process.{Outside, Settings, LogItem, respond, process_clean}
use worker_informer.Cgi.Body.{read_post}
use worker_informer.Cgi.Visitor.{visitor}

-- What one request brings: `FCGX_GetError` at the start and when a response is written, the server's
-- variables, the body with the memory behind its buffer, the clock, and the old contents of the
-- memory that `Params` is built on.
pub record Request : Type 0 where
  pub error : Bool
  pub error_later : Bool
  pub query_string : Option Bytes
  pub content_length : Option Bytes
  pub remote_addr : Option Bytes
  pub script_name : Option Bytes
  pub http_cookie : Option Bytes
  pub server_name : Option Bytes
  pub delivered : Bytes
  pub beyond : Bytes
  pub time : Bytes
  pub old_informer_id_int : ℤ
  pub old_capacity : ℕ
  pub old_rating_division : ℤ

-- What is taken from boost, SQLite and the cookie library, and the page of `BaseCore::Status`.
pub record Libraries (Real : Type 0) : Type 0 where
  pub outside : Outside Real
  pub to_lower : Bytes → Bytes
  pub split : ℕ → Bytes → List Bytes
  pub replace_symbol : Bytes → Option Bytes
  -- `Cookie::to_string`, for this value; `none` is an exception.
  pub cookie_text : Bytes → Option Bytes
  pub status_page : Bytes → Bytes

-- A page with its cookie, or a bare status.
pub data Answer : Type 0 where
  page : Bytes → Bytes → Answer
  status : ℕ → Answer

-- The responses that were written, and what is left: `CgiService::server_name` and the core's state.
-- `died` is undefined behaviour or an exception that nothing catches.
pub data Outcome (Real : Type 0) : Type 0 where
  ended : List Answer → Bytes → State Real → Outcome Real
  died : List Answer → Outcome Real

unfoldable pub send_page : Request → Bytes → Bytes → List Answer
send_page r content cookie =
    if is_empty content then [] else if r.error_later then [] else page content cookie ∷ []

unfoldable pub send_status : Request → ℕ → List Answer
send_status r code = if r.error_later then [] else status code ∷ []

-- `server_name`, once the status page was asked for.
abbrev pub named : Option Bytes → Bytes → Bytes
named none name = name
named (some given) name = if is_empty name then given else name

module _ {Real : Type 0} (lib : Libraries Real) (cfg : Settings Real) (cookie_name : Bytes) where
  -- The chain of setters.
  unfoldable pub request_params : Request → Bytes → Bytes → ParamMap → Params
  unfolding param
  request_params r query postq url =
      set_test_mode (equal (param url (codes "test")) (codes "true")) (
        set_region (param url (codes "region")) (
          set_country (param url (codes "country")) (
            set_informer_id lib.to_lower (param url (codes "scr")) (
              set_post postq (
                set_get query
                  (new_params r.old_informer_id_int r.old_capacity r.old_rating_division))))))

  abbrev pub after_clean : Request → List Answer → Bytes → Run Real (List LogItem) → Outcome Real
  after_clean r answers name (done items s) = ended answers name s
  after_clean r answers name (thrown s) = ended (answers ++ send_status r 503) name s
  after_clean r answers name crash = died answers

  -- The handler of an exception asks for the cookie's text once more, for the log: it throws there too, and
  -- the outer handler answers.
  abbrev pub send_result :
      Request → Params → Bytes → Bytes → State Real → Option Bytes → Outcome Real
  send_result r p name result s none = ended (send_status r 503) name s
  send_result r p name result s (some cookie) =
      after_clean r (send_page r result cookie) name (process_clean lib.outside cfg p s)

  unfoldable pub reply : Request → Bytes → Params → Bytes → Bytes → State Real → Outcome Real
  unfolding send_page send_status
  reply r id p name result s =
      if is_empty result
      then after_clean r (send_status r 500) name (process_clean lib.outside cfg p s)
      else send_result r p name result s (lib.cookie_text id)

  abbrev pub after_respond : Request → Bytes → Params → Bytes → Run Real Bytes → Outcome Real
  after_respond r id p name (done result s) = reply r id p name result s
  after_respond r id p name (thrown s) = ended (send_status r 503) name s
  after_respond r id p name crash = died []

  -- From the parsed texts on.
  unfoldable pub serve_query :
      Request → Bytes → Bytes → Bytes → ParamMap → Bytes → State Real → Outcome Real
  unfolding request_params respond param send_page
  serve_query r id query postq url name s =
      let show = param url (codes "show") in
      let p = request_params r query postq url in
      if equal show (codes "status")
      then (let name' = named r.server_name name in
          ended (send_page r (lib.status_page name') []) name' s)
      else after_respond r id p name (respond lib.outside cfg (equal show (codes "usercode")) p s)

  -- An exception of `UrlParser` is outside the `try`.
  abbrev pub with_parsed :
      Request
      → Bytes
      → Bytes
      → Bytes
      → Option ParamMap
      → Option ParamMap
      → Bytes
      → State Real
      → Outcome Real
  with_parsed r id query postq (some url) (some post) name s =
      serve_query r id query postq url name s
  with_parsed r id query postq _ _ name s = died []

  -- From the variables on: REMOTE_ADDR and SCRIPT_NAME have to be there, their values are not used.
  abbrev pub with_variables :
      Request → Option Bytes → Option Bytes → Option Bytes → Bytes → State Real → Outcome Real
  with_variables r (some query) (some ip) (some script) name s =
      let postq = read_post r.content_length r.delivered r.beyond in
      let id = visitor lib.split lib.replace_symbol cookie_name r.http_cookie r.time in
      with_parsed r id query postq (parse query) (parse postq) name s
  with_variables r _ _ _ name s = ended [] name s

  unfoldable pub process_request : Request → Bytes → State Real → Outcome Real
  unfolding serve_query parse read_post visitor
  process_request r name s =
      if r.error
      then ended [] name s
      else with_variables r r.query_string r.remote_addr r.script_name name s
