-- ===== src/Cgi/Replies.antt =====
-- The single responses of a request, and the request as far as its parsed query.
use worker_informer.Base.{
  subst, List, ℕ, ◌<◌, Bool, false, some, [], ◌∷◌, ◌≡◌, inl, inr, Bool-cases, Option-cases, arith,
  Bytes, codes, equal, is_empty, length, if◌then◌else◌,
}
use worker_informer.Url.Query.Strings.{npos}
use worker_informer.Url.Query.{ParamMap, parse, param}
use worker_informer.Url.Query.Parse.{parse_total}
use worker_informer.Core.Params.{Params}
use worker_informer.Core.State.{State, done}
use worker_informer.Core.Process.{Settings, LogItem, respond, process_clean}
use worker_informer.Core.Balance.{IsFresh}
use worker_informer.Cgi.Body.{read_post, length-read_post}
use worker_informer.Cgi.Visitor.{visitor}
use worker_informer.Cgi.Serving.{serves}
use worker_informer.Cgi.Expected.{expected_reply, expected_answer}
use worker_informer.Cgi.Request.{
  Request, Libraries, Answer, page, status, Outcome, ended, send_page, send_status, named,
  request_params, reply, after_clean, serve_query, process_request,
}

pub if_false : {A : Type 0} {b : Bool} (x y : A) → b ≡ false → (if b then x else y) ≡ y
if_false x y e = rw e

pub parsed : (s : Bytes) → length s < npos → (ps : ParamMap) × (parse s ≡ some ps)
parsed s h = let (_, _, _, _, e) = parse_total s h in (_, e)

module _ {Real : Type 0} (lib : Libraries Real) (cfg : Settings Real) (cookie_name : Bytes)
    (r : Request) where
  pub send_page_one :
      (content cookie : Bytes)
      → r.error_later ≡ false
      → is_empty content ≡ false
      → send_page r content cookie ≡ page content cookie ∷ []
  unfolding send_page
  send_page_one content cookie fine h = rw (h, fine)

  pub send_status_one : (code : ℕ) → r.error_later ≡ false → send_status r code ≡ status code ∷ []
  unfolding send_status
  send_status_one code fine = rw fine

  -- Exactly one response was written, and it is `a`.
  abbrev pub IsAnsweredBy : Answer → Outcome Real → Type 0
  IsAnsweredBy a o = (name : Bytes) × (s : State Real) × (o ≡ ended (a ∷ []) name s)

  -- Exactly one response was written.
  abbrev pub IsAnswered : Outcome Real → Type 0
  IsAnswered o = (a : Answer) × (name : Bytes) × (s : State Real) × (o ≡ ended (a ∷ []) name s)

  reply-IsAnsweredBy :
      (id : Bytes) (p : Params) (name result : Bytes) (s : State Real) {items : List LogItem}
      {s' : State Real}
      → r.error_later ≡ false
      → process_clean lib.outside cfg p s ≡ done items s'
      → IsAnsweredBy
          (expected_reply lib cfg id (some result))
          (reply lib cfg cookie_name r id p name result s)
  unfolding reply
  reply-IsAnsweredBy id p name result s {items} {s'} fine cleans =
      elim (Bool-cases (is_empty result)) [
        | inl h ↦ (name, s', rw (h, cleans, send_status_one 500 fine))
        | inr h ↦ elim (Option-cases (lib.cookie_text id)) [
          | inl e ↦ (name, s, rw (h, e, send_status_one 503 fine))
          | inr (cookie, e) ↦ (name, s', rw (h, e, cleans, send_page_one result cookie fine h))
        ]
      ]

  pub serve_query-IsAnsweredBy :
      (id query postq : Bytes) (url : ParamMap) (name : Bytes) (s : State Real)
      → r.error_later ≡ false
      → cfg.log_informer_id ≡ false
      → IsFresh s
      → ((n : Bytes) → is_empty (lib.status_page n) ≡ false)
      → IsAnsweredBy
          (expected_answer lib cfg r cookie_name id query url postq name)
          (serve_query lib cfg cookie_name r id query postq url name s)
  unfolding serve_query
  serve_query-IsAnsweredBy id query postq url name s fine quiet fresh nonempty =
      let show = param url (codes "show") in
      let p = request_params lib cfg cookie_name r query postq url in
      elim (Bool-cases (equal show (codes "status"))) [
        | inl e ↦
            let name' = named r.server_name name in
            (name', s, rw (e, send_page_one (lib.status_page name') [] fine (nonempty name')))
        | inr e ↦ elim (serves lib cfg (equal show (codes "usercode")) p s quiet fresh) [
          | inl (html, s', items, s'', k, l, due) ↦
              rw (e, k, due) (reply-IsAnsweredBy id p name html s' fine l)
          | inr (s', k, due) ↦ (name, s', rw (e, k, due, send_status_one 503 fine))
        ]
      ]

  -- A page that the core made is sent with the visitor's cookie.
  pub serve_query-page :
      (id query postq : Bytes) (url : ParamMap) (name : Bytes) (s : State Real)
      {html cookie : Bytes} {s' : State Real}
      → r.error_later ≡ false
      → equal (param url (codes "show")) (codes "status") ≡ false
      → respond lib.outside cfg
          (equal (param url (codes "show")) (codes "usercode"))
          (request_params lib cfg cookie_name r query postq url)
          s
        ≡ done html s'
      → is_empty html ≡ false
      → lib.cookie_text id ≡ some cookie
      → serve_query lib cfg cookie_name r id query postq url name s
        ≡ after_clean lib cfg cookie_name r (page html cookie ∷ []) name (
            process_clean lib.outside cfg (request_params lib cfg cookie_name r query postq url) s')
  unfolding serve_query reply
  serve_query-page id query postq url name s {html} {cookie} fine other answers full k =
      rw (other, answers, full, k, send_page_one html cookie fine full)

  pub process_request_valid :
      (query ip script name : Bytes) (s : State Real)
      → r.error ≡ false
      → r.query_string ≡ some query
      → r.remote_addr ≡ some ip
      → r.script_name ≡ some script
      → length query < npos
      → (url : ParamMap) × (parse query ≡ some url)
        × (process_request lib cfg cookie_name r name s
            ≡ serve_query lib cfg cookie_name r
                (visitor lib.split lib.replace_symbol cookie_name r.http_cookie r.time)
                query
                (read_post r.content_length r.delivered r.beyond)
                url
                name
                s)
  unfolding process_request
  process_request_valid query ip script name s e q i c fits =
      let (url, u) = parsed query fits in
      let (post, o) =
        parsed (read_post r.content_length r.delivered r.beyond)
          (omega (arith, length-read_post r.content_length r.delivered r.beyond)) in
      (url, u, rw (e, q, i, c, u, o))

  -- The same of a request, whose query was parsed.
  pub process_request_parsed :
      (query ip script name : Bytes) (s : State Real) (url : ParamMap)
      → r.error ≡ false
      → r.query_string ≡ some query
      → r.remote_addr ≡ some ip
      → r.script_name ≡ some script
      → length query < npos
      → parse query ≡ some url
      → process_request lib cfg cookie_name r name s
        ≡ serve_query lib cfg cookie_name r
            (visitor lib.split lib.replace_symbol cookie_name r.http_cookie r.time)
            query
            (read_post r.content_length r.delivered r.beyond)
            url
            name
            s
  process_request_parsed query ip script name s url e q i c fits u =
      let (url', u', run) = process_request_valid query ip script name s e q i c fits in
      let same : url' ≡ url = cc in
      subst
        (λ x.
          process_request lib cfg cookie_name r name s
          ≡ serve_query lib cfg cookie_name r
              (visitor lib.split lib.replace_symbol cookie_name r.http_cookie r.time) query
              (read_post r.content_length r.delivered r.beyond) x name s)
        same run
