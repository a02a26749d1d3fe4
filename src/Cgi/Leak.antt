-- ===== src/Cgi/Leak.antt =====
-- A request whose page cannot be made: the handler of the exception in `ProcessRequest`.
use worker_informer.Base.{
  ◌<◌, false, none, some, [], ◌∷◌, ◌≡◌, ◌≢◌, refl, ◌∙◌, Bytes, codes, equal, length,
}
use worker_informer.Url.Query.Strings.{npos}
use worker_informer.Url.Query.{ParamMap, parse, param}
use worker_informer.Core.Informer.{QueryRow, new_informer}
use worker_informer.Core.State.{State, thrown}
use worker_informer.Core.Process.{Settings, text_for, respond, get_informer}
use worker_informer.Core.Balance.{respond_thrown}
use worker_informer.Cgi.Body.{read_post}
use worker_informer.Cgi.Request.{
  Request, Libraries, status, ended, request_params, serve_query, process_request,
}
use worker_informer.Cgi.Replies.{send_status_one, process_request_parsed}

module _ {Real : Type 0} (lib : Libraries Real) (cfg : Settings Real) (cookie_name : Bytes)
    (r : Request) where
  serve_query-thrown :
      (id query postq : Bytes) (url : ParamMap) (name : Bytes) (s : State Real) {s' : State Real}
      → r.error_later ≡ false
      → equal (param url (codes "show")) (codes "status") ≡ false
      → equal (param url (codes "show")) (codes "usercode") ≡ false
      → respond lib.outside cfg false (request_params lib cfg cookie_name r query postq url) s
        ≡ thrown s'
      → serve_query lib cfg cookie_name r id query postq url name s
        ≡ ended (status 503 ∷ []) name s'
  unfolding serve_query
  serve_query-thrown id query postq url name s fine other page e =
      rw (other, page, e, send_status_one lib cfg cookie_name r 503 fine) refl

  -- A page request for an informer that is found, where the format of the page throws, is answered by the
  -- status 503. Behind the handler of the exception the informer object is still on the heap and the
  -- request is not counted; the next `getInformer`, for any informer, loses the pointer to the object and
  -- leaves it on the heap.
  pub process_request_thrown :
      (query ip script name : Bytes) (s : State Real) (url : ParamMap) (row : QueryRow Real)
      → r.error ≡ false
      → r.error_later ≡ false
      → r.query_string ≡ some query
      → r.remote_addr ≡ some ip
      → r.script_name ≡ some script
      → length query < npos
      → parse query ≡ some url
      → equal (param url (codes "show")) (codes "status") ≡ false
      → equal (param url (codes "show")) (codes "usercode") ≡ false
      → lib.outside.select (lib.to_lower (param url (codes "scr"))) ≡ some (some row)
      → text_for lib.outside cfg false
          (request_params lib cfg cookie_name r query
            (read_post r.content_length r.delivered r.beyond)
            url)
          row
        ≡ none
      → (s' : State Real) × (process_request lib cfg cookie_name r name s
          ≡ ended (status 503 ∷ []) name s')
        × (s'.cell s.next ≡ some (new_informer cfg.range_category row))
        × (s'.request_processed ≡ s.request_processed)
        × ((other : Bytes)
            → ((get_informer lib.outside cfg other s').1.informer ≢ some s.next)
              × ((get_informer lib.outside cfg other s').1.cell s.next
                  ≡ some (new_informer cfg.range_category row)))
  unfolding request_params
  process_request_thrown query ip script name s url row e fine q i c fits u other page found t =
      let p =
        request_params lib cfg cookie_name r query (read_post r.content_length r.delivered r.beyond)
          url in
      let (s', throws, kept, uncounted, lost) = respond_thrown lib.outside cfg p s row found t in
      (
        s',
        process_request_parsed lib cfg cookie_name r query ip script name s url e q i c fits u
            ∙ serve_query-thrown _ query _ url name s fine other page throws,
        kept,
        uncounted,
        lost,
      )
