-- ===== src/Core/Process.antt =====
-- `Core_DataBase::getInformer` and `clear`, `Core::Process`, `UserCode`, `resultHtml`, `log` and
-- `ProcessClean`.
use worker_informer.Base.{
  ℕ, ◌+◌, ℤ, Bool, true, false, not, ◌||◌, Option, none, some, List, [], ◌∷◌, ◌++◌, if◌then◌else◌,
  Bytes, codes,
}
use worker_informer.Core.Params.{
  Params, Object, to_json, set_informer_id_int, set_capacity, set_rating_division,
}
use worker_informer.Core.Informer.{Informer, QueryRow, new_informer, informer_to_json}
use worker_informer.Core.State.{State, Run, done, thrown, crash, allocate, free}

-- What is taken from SQLite, the JSON library and `boost::format` with the page's template.
pub record Outside (Real : Type 0) : Type 0 where
  -- The first row of the query of getInformer.sql with this text pasted in; the outer `none` is a
  -- `Kompex::SQLiteException`, the inner one is an empty result.
  pub select : Bytes → Option (Option (QueryRow Real))
  pub dump : Object → Bytes
  -- `boost::str(boost::format(cfg->template_) % a % b % c)`; `none` is an exception.
  pub format : Bytes → Bytes → Bytes → Option Bytes

-- The fields of `Config` that a `Core` uses.
pub record Settings (Real : Type 0) : Type 0 where
  pub template_error : Bytes
  pub range_category : Real
  pub log_core_time : Bool
  pub log_ip : Bool
  pub log_country : Bool
  pub log_region : Bool
  pub log_cookie : Bool
  pub log_context : Bool
  pub log_search : Bool
  pub log_informer_id : Bool
  pub log_location : Bool

-- The pieces of the log line.
pub data LogItem : Type 0 where
  thread core_time : LogItem
  country region : Bytes → LogItem
  informer_id : ℤ → LogItem

-- The object that the pointer `informer` points to, if there is one.
abbrev pub pointed :
    {Real : Type 0} → (ℕ → Option (Informer Real)) → Option ℕ → Option (Informer Real)
pointed cell none = none
pointed cell (some p) = cell p

abbrev pub when : Bool → LogItem → List LogItem
when true item = item ∷ []
when false item = []

module _ {Real : Type 0} (outside : Outside Real) (cfg : Settings Real) where
  -- The result of the query, and the object built from it.
  abbrev pub built : Option (Option (QueryRow Real)) → State Real → Bool × State Real
  built none s = (false, s)
  built (some none) s = (false, s)
  built (some (some r)) s = (true, allocate (new_informer cfg.range_category r) s)

  unfoldable pub get_informer : Bytes → State Real → Bool × State Real
  get_informer id s = built (outside.select id) (record s { informer = none })

  -- `resultHtml`; `none` is an exception of `boost::format`.
  unfoldable pub result_html : Params → Informer Real → Option Bytes
  result_html p i =
      elim (outside.format (informer_to_json outside.dump i) (to_json outside.dump p)
        i.teasers_css) [
          | none ↦ none
          | some html ↦ some (if p.test_mode then html ++ codes "<!--test-->" else html)
        ]

  abbrev pub with_informer : Params → Informer Real → Params
  with_informer p i =
      set_rating_division i.rating_division (set_capacity i.capacity (set_informer_id_int i.id p))

  abbrev pub finish : Option Bytes → State Real → Run Real Bytes
  finish none s = thrown s
  finish (some html) s = done html s

  abbrev pub page : Params → Option (Informer Real) → State Real → Run Real Bytes
  page p none s = crash
  page p (some i) s = finish (result_html (with_informer p i) i) s

  unfoldable pub process : Params → State Real → Run Real Bytes
  unfolding get_informer result_html
  process p s =
      let (found, s') = get_informer p.informer_id s in
      if not found then done cfg.template_error s' else page p (pointed s'.cell s'.informer) s'

  abbrev pub user_code_page : Option (Informer Real) → State Real → Run Real Bytes
  user_code_page none s = crash
  user_code_page (some i) s =
      done
        (codes
            "<html><head><META http-equiv=\"Content-Type\" content=\"text/html; charset=utf-8\"><style type=\"text/css\">html, body {padding: 0; margin: 0; border: 0;}</style></head><body>"
          ++ (i.user_code ++ codes "</body></html>"))
        s

  unfoldable pub user_code : Params → State Real → Run Real Bytes
  unfolding get_informer
  user_code p s =
      let (found, s') = get_informer p.informer_id s in
      if not found
      then done cfg.template_error s'
      else user_code_page (pointed s'.cell s'.informer) s'

  -- `Config::toLog`
  abbrev pub to_log : Bool
  to_log =
      cfg.log_core_time || cfg.log_ip || cfg.log_country || cfg.log_region || cfg.log_cookie
      || cfg.log_context || cfg.log_search || cfg.log_informer_id || cfg.log_location

  abbrev pub id_item : Bool → Option (Informer Real) → Option (List LogItem)
  id_item false i = some []
  id_item true none = none
  id_item true (some i) = some (informer_id i.id ∷ [])

  -- `log`; `none` where it reads `informer->id` and there is no object.
  unfoldable pub log : Params → State Real → Option (List LogItem)
  log p s = elim (id_item cfg.log_informer_id (pointed s.cell s.informer)) [
    | none ↦ none
    | some items ↦ some (
        when to_log thread
        ++ (when cfg.log_core_time core_time
            ++ (when cfg.log_country (country p.country)
                ++ (when cfg.log_region (region p.region) ++ items))))
  ]

  -- `clear`: `delete informer` where the pointer is not null. The pointer is left as it is.
  abbrev pub deleted : ℕ → Option (Informer Real) → State Real → Option (State Real)
  deleted p none s = none
  deleted p (some i) s = some (free p s)

  abbrev pub clear_pointer : Option ℕ → State Real → Option (State Real)
  clear_pointer none s = some s
  clear_pointer (some p) s = deleted p (s.cell p) s

  unfoldable pub clear : State Real → Option (State Real)
  clear s = clear_pointer s.informer s

  abbrev pub cleared : List LogItem → Option (State Real) → Run Real (List LogItem)
  cleared items none = crash
  cleared items (some s) = done items s

  abbrev pub logged : Option (List LogItem) → State Real → Run Real (List LogItem)
  logged none s = crash
  logged (some items) s = cleared items (clear s)

  unfoldable pub process_clean : Params → State Real → Run Real (List LogItem)
  unfolding log clear
  process_clean p s =
      let s' = record s { request_processed = s.request_processed + 1 } in logged (log p s') s'

  -- The choice of `CgiService::ProcessRequest`: the user's code, or the page.
  unfoldable pub respond : Bool → Params → State Real → Run Real Bytes
  unfolding process user_code
  respond usercode p s = if usercode then user_code p s else process p s

  -- The text for an informer that is found; `none` is an exception.
  unfoldable pub text_for : Bool → Params → QueryRow Real → Option Bytes
  unfolding result_html
  text_for usercode p r =
      let i = new_informer cfg.range_category r in
      if usercode
      then some (
          codes
            "<html><head><META http-equiv=\"Content-Type\" content=\"text/html; charset=utf-8\"><style type=\"text/css\">html, body {padding: 0; margin: 0; border: 0;}</style></head><body>"
          ++ (i.user_code ++ codes "</body></html>"))
      else result_html (with_informer p i) i
