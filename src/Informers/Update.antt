-- ===== src/Informers/Update.antt =====
-- `ParentDB::InformerUpdate` and `ParentDB::InformerRemove`. A `Kompex::SQLiteException` is caught where
-- the statement runs, and any other exception around the whole loop.
use worker_informer.Base.{
  ℤ, false, Option, none, some, List, [], ◌∷◌, ◌>>=◌, if◌then◌else◌, is_empty, Bytes, codes,
}
use worker_informer.Informers.Json.{JsonApi, string_at}
use worker_informer.Informers.Table.{Values, update, insert_or_ignore, delete_guid, Sqlite}
use worker_informer.Informers.Values.{Defaults, Outside, read_values}

-- The `catch` blocks for SQLite's exceptions log the text and go on.
abbrev pub or_log {ℓ} : {A : Type ℓ} → Option A → A → A
or_log none old = old
or_log (some a) old = a

module _ {Json Real Db : Type 0} (api : JsonApi Json Real) (outside : Outside Real)
    (cfg : Defaults Real) (sqlite : Sqlite Real Db) where
  -- The search for a row under the number, and the statement that depends on it.
  unfoldable pub write_row : ℤ → Bytes → Values Real → Db → Db
  write_row long_id id values db =
      let find = or_log (sqlite.has_id long_id db) false in
      let statement =
        if find
        then update long_id values
        else insert_or_ignore (record { id = long_id; guid = id; values = values }) in
      or_log (sqlite.exec statement db) db

  -- A round with a nonempty guid.
  unfoldable pub update_row : Json → Bytes → Db → Option Db
  update_row x id db = do
    guid_int ← api.at x (codes "guid_int")
    long_id ← api.get_long_long guid_int
    values ← read_values api outside cfg x
    some (write_row long_id id values db)

  -- One round of the loop over the documents' texts. `none` leaves the loop.
  unfoldable pub update_item : Bytes → Db → Option Db
  update_item i db = do
    x ← api.parse i
    guid ← string_at api x (codes "guid")
    let id = api.to_lower guid
    if is_empty id then some db else update_row x id db

  unfoldable pub update_items : List Bytes → Db → Db
  update_items [] db = db
  update_items (i ∷ items) db = elim (update_item i db) [
    | none ↦ db
    | some db' ↦ update_items items db'
  ]

  -- The documents that the cursor yields; `none` is an exception while it is read.
  unfoldable pub informer_update : Option (List Bytes) → Db → Db
  informer_update none db = db
  informer_update (some items) db = update_items items db

  unfoldable pub informer_remove : Bytes → Db → Db
  informer_remove id db = if is_empty id then db else or_log (sqlite.exec (delete_guid id) db) db
