-- ===== src/Cgi/Loop.antt =====
-- What a request and the loop around it leave of a core, and the requests that can be served.
use worker_informer.Base.{
  ℕ, ◌<◌, Bool, true, false, Option, none, some, List, [], ◌≡◌, ◌==◌, Bool-cases, inl, inr,
  if◌then◌else◌, Bytes, codes, equal, is_empty, length,
}
use worker_informer.Url.Query.Strings.{npos}
use worker_informer.Url.Query.{ParamMap, parse, param}
use worker_informer.Core.Params.{Params}
use worker_informer.Core.State.{State, Run, done, thrown, crash}
use worker_informer.Core.Process.{Settings, LogItem, respond, process_clean}
use worker_informer.Core.Balance.{IsFresh}
use worker_informer.Core.Fresh.{LeavesFresh, respond-LeavesFresh, process_clean-LeavesFresh}
use worker_informer.Cgi.Body.{read_post}
use worker_informer.Cgi.Request.{
  Request, Libraries, Answer, Outcome, ended, died, request_params, after_clean, send_result, reply,
  after_respond, serve_query, with_parsed, with_variables, process_request,
}
use worker_informer.Cgi.Serve.{new_core}

-- The core that a request leaves behind.
abbrev pub KeepsFresh : {Real : Type 0} → Outcome Real → Type 0
KeepsFresh (ended answers name s) = IsFresh s
KeepsFresh (died answers) = Unit

module _ {Real : Type 0} (lib : Libraries Real) (cfg : Settings Real) (cookie_name : Bytes)
    (r : Request) where
  after_clean-KeepsFresh :
      (answers : List Answer) (name : Bytes) (run : Run Real (List LogItem))
      → LeavesFresh run
      → KeepsFresh (after_clean lib cfg cookie_name r answers name run)
  after_clean-KeepsFresh answers name (done items s) fresh = fresh
  after_clean-KeepsFresh answers name (thrown s) fresh = fresh
  after_clean-KeepsFresh answers name crash fresh = tt

  send_result-KeepsFresh :
      (p : Params) (name result : Bytes) (s : State Real) (cookie : Option Bytes)
      → IsFresh s
      → KeepsFresh (send_result lib cfg cookie_name r p name result s cookie)
  send_result-KeepsFresh p name result s none fresh = fresh
  send_result-KeepsFresh p name result s (some cookie) fresh =
      after_clean-KeepsFresh _ name (process_clean lib.outside cfg p s)
        (process_clean-LeavesFresh lib.outside cfg p s fresh)

  reply-KeepsFresh :
      (id : Bytes) (p : Params) (name result : Bytes) (s : State Real)
      → IsFresh s
      → KeepsFresh (reply lib cfg cookie_name r id p name result s)
  unfolding reply
  reply-KeepsFresh id p name result s fresh = elim (Bool-cases (is_empty result)) [
    | inl h ↦ rw h (
        after_clean-KeepsFresh _ name (process_clean lib.outside cfg p s)
          (process_clean-LeavesFresh lib.outside cfg p s fresh))
    | inr h ↦ rw h (send_result-KeepsFresh p name result s (lib.cookie_text id) fresh)
  ]

  after_respond-KeepsFresh :
      (id name : Bytes) (p : Params) (run : Run Real Bytes)
      → LeavesFresh run
      → KeepsFresh (after_respond lib cfg cookie_name r id p name run)
  after_respond-KeepsFresh id name p (done html s) fresh = reply-KeepsFresh id p name html s fresh
  after_respond-KeepsFresh id name p (thrown s) fresh = fresh
  after_respond-KeepsFresh id name p crash fresh = tt

  serve_query-KeepsFresh :
      (id query postq : Bytes) (url : ParamMap) (name : Bytes) (s : State Real)
      → IsFresh s
      → KeepsFresh (serve_query lib cfg cookie_name r id query postq url name s)
  unfolding serve_query
  serve_query-KeepsFresh id query postq url name s fresh =
      let show = param url (codes "show") in
      let p = request_params lib cfg cookie_name r query postq url in
      elim (Bool-cases (equal show (codes "status"))) [
        | inl e ↦ rw e fresh
        | inr e ↦ rw e (
            after_respond-KeepsFresh id name p
              (respond lib.outside cfg (equal show (codes "usercode")) p s)
              (respond-LeavesFresh lib.outside cfg (equal show (codes "usercode")) p s fresh))
      ]

  with_parsed-KeepsFresh :
      (id query postq : Bytes) (url post : Option ParamMap) (name : Bytes) (s : State Real)
      → IsFresh s
      → KeepsFresh (with_parsed lib cfg cookie_name r id query postq url post name s)
  with_parsed-KeepsFresh id query postq (some url) (some post) name s fresh =
      serve_query-KeepsFresh id query postq url name s fresh
  with_parsed-KeepsFresh id query postq none post name s fresh = tt
  with_parsed-KeepsFresh id query postq (some url) none name s fresh = tt

  with_variables-KeepsFresh :
      (q i c : Option Bytes) (name : Bytes) (s : State Real)
      → IsFresh s
      → KeepsFresh (with_variables lib cfg cookie_name r q i c name s)
  with_variables-KeepsFresh none i c name s fresh = fresh
  with_variables-KeepsFresh (some q) none c name s fresh = fresh
  with_variables-KeepsFresh (some q) (some i) none name s fresh = fresh
  with_variables-KeepsFresh (some q) (some i) (some c) name s fresh =
      with_parsed-KeepsFresh _ q _ (parse q)
        (parse (read_post r.content_length r.delivered r.beyond)) name s fresh

  -- A request keeps the addresses that were not given out empty, whatever it asks for and however it
  -- ends.
  pub process_request-KeepsFresh :
      (name : Bytes) (s : State Real)
      → IsFresh s
      → KeepsFresh (process_request lib cfg cookie_name r name s)
  unfolding process_request
  process_request-KeepsFresh name s fresh = if_fresh r.error
    where
      if_fresh :
          (b : Bool)
          → KeepsFresh (
              if b
              then ended [] name s
              else with_variables lib cfg cookie_name r r.query_string r.remote_addr r.script_name
                  name s)
      if_fresh true = fresh
      if_fresh false =
          with_variables-KeepsFresh r.query_string r.remote_addr r.script_name name s fresh

-- A request without error, with its query, address and script.
abbrev pub IsServable : Request → Type 0
IsServable r =
    (r.error ≡ false)
    × (r.error_later ≡ false)
    × ((query : Bytes) × (ip : Bytes) × (script : Bytes) × (r.query_string ≡ some query)
        × (r.remote_addr ≡ some ip)
        × (r.script_name ≡ some script)
        × (length query < npos))

pub new_core-IsFresh :
    {Real : Type 0} (n : ℕ) (s : State Real)
    → IsFresh s
    → IsFresh (if n == 10000000 then new_core s else s)
new_core-IsFresh n s fresh = elim (Bool-cases (n == 10000000)) [
  | inl e ↦ rw e fresh
  | inr e ↦ rw e fresh
]
