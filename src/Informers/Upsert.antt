-- ===== src/Informers/Upsert.antt =====
-- What `InformerUpdate` does to the rows, document by document.
use worker_informer.Base.{
  ℤ, true, false, Option, none, some, List, [], ◌∷◌, ◌++◌, ◌>>=◌, ◌≡◌, ◌≢◌, ◌∙◌, arith, is_empty,
  Bytes, codes, Option-cases, inl, inr,
}
use worker_informer.Informers.Json.{JsonApi, string_at}
use worker_informer.Informers.Table.{Values, Row, Statement, update, insert_or_ignore, Sqlite}
use worker_informer.Informers.Laws.{SqliteLaws, IsSent}
use worker_informer.Sql.Format.{Printf}
use worker_informer.Informers.Values.{Defaults, Outside}
use worker_informer.Informers.Document.{IsDocument, read_values-IsDocument}
use worker_informer.Informers.Update.{or_log, write_row, update_row, update_item, update_items}

module _ {Json Real : Type 0} (api : JsonApi Json Real) (outside : Outside Real)
    (cfg : Defaults Real) where
  -- The text `i` of a document is read: its guid, its number and its columns.
  pub record IsRead (i guid : Bytes) (n : ℤ) (v : Values Real) : Type 0 where
    pub x : Json
    pub number : Json
    pub parsed : api.parse i ≡ some x
    pub guid_read : string_at api x (codes "guid") ≡ some guid
    pub number_found : api.at x (codes "guid_int") ≡ some number
    pub number_read : api.get_long_long number ≡ some n
    pub document : IsDocument api outside cfg x v

-- The row that is to stand in place of `old`: an old row keeps its guid.
abbrev pub stored : {Real : Type 0} → ℤ → Bytes → Values Real → Option (Row Real) → Row Real
stored n guid v none = record { id = n; guid = guid; values = v }
stored n guid v (some r) = record r { values = v }

abbrev pub statement_for :
    {Real : Type 0} → ℤ → Bytes → Values Real → Option (Row Real) → Statement Real
statement_for n guid v none = insert_or_ignore (record { id = n; guid = guid; values = v })
statement_for n guid v (some r) = update n v

module _ {Json Real Db : Type 0} (api : JsonApi Json Real) (outside : Outside Real)
    (cfg : Defaults Real) (printf : Printf Real) (sqlite : Sqlite Real Db)
    (row : ℤ → Db → Option (Row Real)) (laws : SqliteLaws printf sqlite row) where
  -- A round with a document that is read runs the statement for the row that stands under its number.
  update_item_step :
      (i guid : Bytes) (n : ℤ) (v : Values Real) (db : Db)
      → IsRead api outside cfg i guid n v
      → is_empty (api.to_lower guid) ≡ false
      → update_item api outside cfg sqlite i db
        ≡ some (or_log (sqlite.exec (statement_for n (api.to_lower guid) v (row n db)) db) db)
  unfolding update_item update_row write_row
  update_item_step i guid n v db r e =
      let values_read = read_values-IsDocument api outside cfg r.x v r.document in
      elim (Option-cases (row n db)) [
        | inl absent ↦
            let found : sqlite.has_id n db ≡ some false = laws.has_id_row n db ∙ rw absent in
            rw (r.parsed, r.guid_read, e, r.number_found, r.number_read, found, values_read, absent)
        | inr (old, present) ↦
            let found : sqlite.has_id n db ≡ some true = laws.has_id_row n db ∙ rw present in
            rw
              (r.parsed, r.guid_read, e, r.number_found, r.number_read, found, values_read, present)
      ]

  pub update_item-Row :
      (i guid : Bytes) (n : ℤ) (v : Values Real) (db db' : Db)
      → IsRead api outside cfg i guid n v
      → is_empty (api.to_lower guid) ≡ false
      → ((j : ℤ) (s : Row Real) → row j db ≡ some s → s.guid ≡ api.to_lower guid → j ≡ n)
      → IsSent printf (statement_for n (api.to_lower guid) v (row n db))
      → sqlite.exec (statement_for n (api.to_lower guid) v (row n db)) db ≡ some db'
      → (update_item api outside cfg sqlite i db ≡ some db')
        × (row n db' ≡ some (stored n (api.to_lower guid) v (row n db)))
        × ((j : ℤ) → j ≢ n → row j db' ≡ row j db)
  update_item-Row i guid n v db db' r e free sent run = (
    update_item_step i guid n v db r e ∙ rw run,
    elim (Option-cases (row n db)) [
      | inl absent ↦
          let done = rw absent at run in
          rw absent (
            laws.insert_new _ db db' (rw absent at sent) done absent (λ j s p q.
              let same : j ≡ n = free j s p q in
              let at_n : row n db ≡ some s = rw (← same) p in cc))
      | inr (old, present) ↦
          rw present
            (laws.update_same n v db db' old (rw present at sent) (rw present at run) present)
    ],
    λ j other. elim (Option-cases (row n db)) [
      | inl absent ↦ laws.insert_other _ j db db' (rw absent at sent) (rw absent at run) other
      | inr (old, present) ↦
          laws.update_other n j v db db' (rw present at sent) (rw present at run) other
    ],
  )

module _ {Json Real Db : Type 0} (api : JsonApi Json Real) (outside : Outside Real)
    (cfg : Defaults Real) (sqlite : Sqlite Real Db) where
  -- The rounds over documents that all go through.
  abbrev pub applied : List Bytes → Db → Option Db
  applied [] db = some db
  applied (i ∷ items) db = do db' ← update_item api outside cfg sqlite i db; applied items db'

  -- The documents go through in order up to the first that throws, `bad`; that one changes nothing,
  -- and the documents `rest` behind it are not looked at.
  pub update_items_stop :
      (good : List Bytes) (bad : Bytes) (rest : List Bytes) (db : Db) {db' : Db}
      → applied good db ≡ some db'
      → update_item api outside cfg sqlite bad db' ≡ none
      → update_items api outside cfg sqlite (good ++ bad ∷ rest) db ≡ db'
  unfolding update_items
  update_items_stop [] bad rest db a b = ground arith
  update_items_stop (i ∷ good) bad rest db {db'} a b =
      elim (Option-cases (update_item api outside cfg sqlite i db)) [
        | inl e ↦ absurd (ground arith)
        | inr (next, e) ↦ rw (e, update_items) (update_items_stop good bad rest next (rw e at a) b)
      ]
