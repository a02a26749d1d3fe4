-- ===== src/Cgi/Answers.antt =====
-- How many responses a request gets, and which.
use worker_informer.Base.{
  ℕ, ◌+◌, ◌<◌, true, false, Option, none, some, [], ◌∷◌, ◌≡◌, ◌⊎◌, inl, inr, refl, ap, ◌∙◌,
  Bool-cases, Bytes, codes, equal, is_empty, length,
}
use worker_informer.Url.Query.Strings.{npos}
use worker_informer.Url.Query.{ParamMap, parse, param}
use worker_informer.Core.Informer.{QueryRow}
use worker_informer.Core.State.{State}
use worker_informer.Core.Process.{Settings, text_for}
use worker_informer.Core.Balance.{IsFresh, respond-process_clean, respond-missing-process_clean}
use worker_informer.Cgi.Body.{read_post}
use worker_informer.Cgi.Visitor.{visitor}
use worker_informer.Cgi.Request.{
  after_clean, Request, Libraries, Answer, page, ended, died, request_params, with_variables,
  process_request,
}
use worker_informer.Cgi.Expected.{IsDue}
use worker_informer.Cgi.Replies.{
  if_false, IsAnswered, IsAnsweredBy, serve_query-IsAnsweredBy, process_request_valid,
  process_request_parsed, serve_query-page,
}

module _ {Real : Type 0} (lib : Libraries Real) (cfg : Settings Real) (cookie_name : Bytes)
    (r : Request) where
  -- A request with its query, address and script set is answered by exactly one response, and it is the one
  -- that is due: the status page where that is asked for; else the text for the informer's row, or the error
  -- page where there is no row, with the visitor's cookie; 500 where that text is empty, and 503 where the
  -- text or the cookie's text is an exception. The query is shorter than 2^64 - 1 bytes, the connection
  -- without error, ids are not logged, and the status page is not empty.
  pub process_request-IsDue :
      (query ip script name : Bytes) (s : State Real)
      → r.error ≡ false
      → r.error_later ≡ false
      → r.query_string ≡ some query
      → r.remote_addr ≡ some ip
      → r.script_name ≡ some script
      → length query < npos
      → cfg.log_informer_id ≡ false
      → IsFresh s
      → ((n : Bytes) → is_empty (lib.status_page n) ≡ false)
      → (a : Answer) × IsDue lib cfg cookie_name r name a
        × IsAnsweredBy lib cfg cookie_name r a (process_request lib cfg cookie_name r name s)
  process_request-IsDue query ip script name s e fine q i c fits quiet fresh nonempty =
      let (url, u, run) =
        process_request_valid lib cfg cookie_name r query ip script name s e q i c fits in
      let (name', s', k) =
        serve_query-IsAnsweredBy lib cfg cookie_name r
          (visitor lib.split lib.replace_symbol cookie_name r.http_cookie r.time) query
          (read_post r.content_length r.delivered r.beyond) url name s fine quiet fresh nonempty in
      (_, (query, url, q, u, refl), (name', s', run ∙ k))

  pub process_request-IsAnswered :
      (query ip script name : Bytes) (s : State Real)
      → r.error ≡ false
      → r.error_later ≡ false
      → r.query_string ≡ some query
      → r.remote_addr ≡ some ip
      → r.script_name ≡ some script
      → length query < npos
      → cfg.log_informer_id ≡ false
      → IsFresh s
      → ((n : Bytes) → is_empty (lib.status_page n) ≡ false)
      → IsAnswered lib cfg cookie_name r (process_request lib cfg cookie_name r name s)
  process_request-IsAnswered query ip script name s e fine q i c fits quiet fresh nonempty =
      let (a, _, (name', s', k)) =
        process_request-IsDue query ip script name s e fine q i c fits quiet fresh nonempty in
      (a, name', s', k)

  -- A page request for an informer that is found gets its page, with the visitor's cookie; the
  -- request is counted, and the heap is left as it was.
  pub process_request-page :
      (query ip script name : Bytes) (s : State Real) (url : ParamMap) (row : QueryRow Real)
      {html cookie : Bytes}
      → r.error ≡ false
      → r.error_later ≡ false
      → r.query_string ≡ some query
      → r.remote_addr ≡ some ip
      → r.script_name ≡ some script
      → length query < npos
      → IsFresh s
      → parse query ≡ some url
      → equal (param url (codes "show")) (codes "status") ≡ false
      → lib.outside.select (lib.to_lower (param url (codes "scr"))) ≡ some (some row)
      → text_for lib.outside cfg
          (equal (param url (codes "show")) (codes "usercode"))
          (request_params lib cfg cookie_name r query
            (read_post r.content_length r.delivered r.beyond)
            url)
          row
        ≡ some html
      → is_empty html ≡ false
      → lib.cookie_text (visitor lib.split lib.replace_symbol cookie_name r.http_cookie r.time)
        ≡ some cookie
      → (s' : State Real) × (process_request lib cfg cookie_name r name s
          ≡ ended (page html cookie ∷ []) name s')
        × ((a : ℕ) → s'.cell a ≡ s.cell a)
        × (s'.request_processed ≡ s.request_processed + 1)
  unfolding request_params
  process_request-page query ip script name s url row {html} {cookie} e fine q i c fits fresh u
        other found t full k =
      let p =
        request_params lib cfg cookie_name r query (read_post r.content_length r.delivered r.beyond)
          url in
      let (s', items, s'', answers, cleans, heap, count) =
        respond-process_clean lib.outside cfg p s
          (equal (param url (codes "show")) (codes "usercode")) row fresh found t in
      (
        s'',
        process_request_parsed lib cfg cookie_name r query ip script name s url e q i c fits u
            ∙ serve_query-page lib cfg cookie_name r _ query _ url name s fine other answers full k
            ∙ ap (after_clean lib cfg cookie_name r (page html cookie ∷ []) name) cleans,
        heap,
        count,
      )

  -- A request whose query, address or script is not set.
  abbrev pub IsUnset : Type 0
  IsUnset = (r.query_string ≡ none) ⊎ ((r.remote_addr ≡ none) ⊎ (r.script_name ≡ none))

  with_variables-unset :
      (q i c : Option Bytes) (name : Bytes) (s : State Real)
      → (q ≡ none) ⊎ ((i ≡ none) ⊎ (c ≡ none))
      → with_variables lib cfg cookie_name r q i c name s ≡ ended [] name s
  with_variables-unset none i c name s h = refl
  with_variables-unset (some q) none c name s h = refl
  with_variables-unset (some q) (some i) none name s h = refl
  with_variables-unset (some q) (some i) (some c) name s (inl h) = cc
  with_variables-unset (some q) (some i) (some c) name s (inr (inl h)) = cc
  with_variables-unset (some q) (some i) (some c) name s (inr (inr h)) = cc

  -- A request with an error, or whose query, address or script is not set, gets no response, and
  -- the service is as before.
  pub process_request_unserved :
      (name : Bytes) (s : State Real)
      → (r.error ≡ true) ⊎ IsUnset
      → process_request lib cfg cookie_name r name s ≡ ended [] name s
  unfolding process_request
  process_request_unserved name s h = elim (Bool-cases r.error) [
    | inl e ↦ rw e
    | inr e ↦ elim h [
      | inl bad ↦ cc
      | inr unset ↦
          if_false _ _ e
          ∙ with_variables-unset r.query_string r.remote_addr r.script_name name s unset
    ]
  ]

  -- A core that logs ids dies on a page request for an informer that is not found, after its error
  -- page was written.
  pub process_request_died :
      (query ip script name : Bytes) (s : State Real) (url : ParamMap) {cookie : Bytes}
      → r.error ≡ false
      → r.error_later ≡ false
      → r.query_string ≡ some query
      → r.remote_addr ≡ some ip
      → r.script_name ≡ some script
      → length query < npos
      → parse query ≡ some url
      → equal (param url (codes "show")) (codes "status") ≡ false
      → lib.outside.select (lib.to_lower (param url (codes "scr"))) ≡ some none
      → cfg.log_informer_id ≡ true
      → is_empty cfg.template_error ≡ false
      → lib.cookie_text (visitor lib.split lib.replace_symbol cookie_name r.http_cookie r.time)
        ≡ some cookie
      → process_request lib cfg cookie_name r name s ≡ died (page cfg.template_error cookie ∷ [])
  unfolding request_params
  process_request_died query ip script name s url e fine q i c fits u other absent logs full k =
      let p =
        request_params lib cfg cookie_name r query (read_post r.content_length r.delivered r.beyond)
          url in
      let (s', answers, _, crashes, _) =
        respond-missing-process_clean lib.outside cfg p s
          (equal (param url (codes "show")) (codes "usercode")) (inr absent) in
      process_request_parsed lib cfg cookie_name r query ip script name s url e q i c fits u
      ∙ serve_query-page lib cfg cookie_name r _ query _ url name s fine other answers full k
      ∙ ap (after_clean lib cfg cookie_name r _ name) (crashes logs)
