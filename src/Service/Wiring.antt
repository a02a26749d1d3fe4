-- ===== src/Service/Wiring.antt =====
-- How `BaseCore` calls `ParentDB`, and how a row of the table becomes the columns of a request's query.
use worker_informer.Base.{
  ℤ, pos, to_int, Bool, true, false, Option, some, List, ◌≡◌, ◌==◌, not, Bytes,
}
use worker_informer.Informers.Json.{JsonApi}
use worker_informer.Informers.Table.{Row, Sqlite}
use worker_informer.Informers.Values.{Defaults, Outside}
use worker_informer.Informers.Update.{informer_update, informer_remove}
use worker_informer.Queue.Process.{Parent, Filter}
use worker_informer.Core.Informer.{QueryRow}
use worker_informer.Cgi.Request.{Libraries}

-- The number in the column of a `%d` for a truth value.
abbrev pub column : Bool → ℤ
column true = pos 1
column false = pos 0

-- The columns of getInformer.sql, as `GetColumnInt` and `GetColumnBool` read them.
unfoldable pub columns : {Real : Type 0} → Row Real → QueryRow Real
columns r = record {
  id = r.id;
  guid = r.guid;
  title = r.values.title;
  account = r.values.account;
  domain = r.values.domain;
  capacity = r.values.capacity;
  auto_reload = r.values.auto_reload;
  blinking = r.values.blinking;
  shake = r.values.shake;
  blinking_reload = column r.values.blinking_reload;
  shake_reload = column r.values.shake_reload;
  shake_mouse = column r.values.shake_mouse;
  teasers_css = r.values.teasers_css;
  header_html = r.values.header_html;
  footer_html = r.values.footer_html;
  range_short_term = r.values.range_short_term;
  range_long_term = r.values.range_long_term;
  range_context = r.values.range_context;
  range_search = r.values.range_search;
  retargeting_capacity = to_int (pos r.values.retargeting_capacity);
  valid = r.values.valid;
  social_branch = not (r.values.social_branch == 0);
  user_code = r.values.user_code;
  html_notification = r.values.html_notification;
  place_branch = r.values.place_branch;
  retargeting_branch = r.values.retargeting_branch;
  rating_division = r.values.rating_division;
}

-- The query by guid on the table `db`: `none` is an exception, `some none` an empty result. Guids are
-- unique, so that a row is found under its own.
pub record SelectLaw {Real Db : Type 0} (select : Bytes → Db → Option (Option (QueryRow Real)))
    (row : ℤ → Db → Option (Row Real)) (db : Db) : Type 0 where
  pub select_row :
      (n : ℤ) (r : Row Real) → row n db ≡ some r → select r.guid db ≡ some (some (columns r))

-- What the requests take from the libraries while the table is `db`.
abbrev pub at_table :
    {Real Db : Type 0}
    → (Bytes → Db → Option (Option (QueryRow Real)))
    → Libraries Real
    → Db
    → Libraries Real
at_table select lib db = record lib { outside = record lib.outside { select = λ g. select g db } }

module _ {Json Real Db : Type 0} (api : JsonApi Json Real) (outside : Outside Real)
    (cfg : Defaults Real) (sqlite : Sqlite Real Db)
    -- The texts of the documents that the main database finds; `none` is an exception.
    (find : Filter → Option (List Bytes)) where
  abbrev pub parent : Parent Db
  parent = record {
    informer_update = λ f db. informer_update api outside cfg sqlite (find f) db;
    informer_remove = λ g db. informer_remove api outside cfg sqlite g db;
  }
