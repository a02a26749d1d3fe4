-- ===== src/Informers/Table.antt =====
-- The table `Informer` of the SQLite database: its rows, and the statements that `ParentDB` runs.
use worker_informer.Base.{ℕ, ℤ, Bool, true, false, Option, none, some, Bytes}

-- The columns that a document gives; `valid` is 1 in every row that is written.
pub record Values (Real : Type 0) : Type 0 where
  pub title : Bytes
  pub account : Bytes
  pub domain : Bytes
  pub teasers_css : Bytes
  pub header_html : Bytes
  pub footer_html : Bytes
  pub social_branch : ℕ
  pub valid : Bool
  pub height : ℤ
  pub width : ℤ
  pub height_banner : ℤ
  pub width_banner : ℤ
  pub capacity : ℤ
  pub auto_reload : ℤ
  pub blinking : ℤ
  pub shake : ℤ
  pub blinking_reload : Bool
  pub shake_reload : Bool
  pub shake_mouse : Bool
  pub range_short_term : Real
  pub range_long_term : Real
  pub range_context : Real
  pub range_search : Real
  pub retargeting_capacity : ℕ
  pub user_code : Bytes
  pub html_notification : Bool
  pub place_branch : Bool
  pub retargeting_branch : Bool
  pub rating_division : ℤ

pub record Row (Real : Type 0) : Type 0 where
  pub id : ℤ
  pub guid : Bytes
  pub values : Values Real

-- `UPDATE Informer SET … WHERE id=…`, `INSERT OR IGNORE INTO Informer(…) VALUES(…)` and
-- `DELETE FROM Informer WHERE guid='…'`.
pub data Statement (Real : Type 0) : Type 0 where
  update : ℤ → Values Real → Statement Real
  insert_or_ignore : Row Real → Statement Real
  delete_guid : Bytes → Statement Real

-- `none` is a `Kompex::SQLiteException`.
pub record Sqlite (Real Db : Type 0) : Type 0 where
  -- `SELECT id FROM Informer WHERE id=…`: whether a row is found
  pub has_id : ℤ → Db → Option Bool
  pub exec : Statement Real → Db → Option Db

abbrev pub is_some {ℓ} : {A : Type ℓ} → Option A → Bool
is_some none = false
is_some (some a) = true
