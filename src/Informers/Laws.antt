-- ===== src/Informers/Laws.antt =====
-- What the program relies on of SQLite.
use worker_informer.Base.{
  ◌<◌, ℤ, Option, none, some, List, [], ◌∷◌, ◌++◌, ◌≡◌, ◌≢◌, ◌⊎◌, Bytes, Lacks, All, length,
}
use worker_informer.Informers.Table.{
  Values, Row, Statement, update, insert_or_ignore, delete_guid, Sqlite, is_some,
}
use worker_informer.Sql.Format.{Printf}
use worker_informer.Sql.Statements.{buf_size, whole_text}
use worker_informer.Sql.Whole.{IsQuotable}

abbrev texts_of_values : {Real : Type 0} → Values Real → List Bytes
texts_of_values v =
    v.title ∷ v.account ∷ v.domain ∷ v.teasers_css ∷ v.header_html ∷ v.footer_html ∷ v.user_code
    ∷ []

abbrev pub sent_texts : {Real : Type 0} → Statement Real → List Bytes
sent_texts (update id v) = texts_of_values v
sent_texts (insert_or_ignore r) = r.guid ∷ texts_of_values r.values
sent_texts (delete_guid guid) = guid ∷ []

-- The text of a statement says what the statement means: it fits in the buffer of `ParentDB`, no text in it
-- has a NUL, and the text of a removal, which is pasted as it is, has no quote.
pub record IsSent {Real : Type 0} (printf : Printf Real) (st : Statement Real) : Type 0 where
  pub fits : length (whole_text printf st) < buf_size
  pub no_nul : All (Lacks 0) (sent_texts st)
  pub quotable : IsQuotable st

-- What SQLite documents of these statements, in terms of the row under each primary key. Both `id`
-- and `guid` are unique, and an insertion that would repeat one is ignored.
pub record SqliteLaws {Real Db : Type 0} (printf : Printf Real) (sqlite : Sqlite Real Db)
    (row : ℤ → Db → Option (Row Real)) : Type 0 where
  pub has_id_row : (id : ℤ) (db : Db) → sqlite.has_id id db ≡ some (is_some (row id db))
  pub update_same :
      (id : ℤ) (v : Values Real) (db db' : Db) (r : Row Real)
      → IsSent printf (update id v)
      → sqlite.exec (update id v) db ≡ some db'
      → row id db ≡ some r
      → row id db' ≡ some (record r { values = v })
  pub update_other :
      (id j : ℤ) (v : Values Real) (db db' : Db)
      → IsSent printf (update id v)
      → sqlite.exec (update id v) db ≡ some db'
      → j ≢ id
      → row j db' ≡ row j db
  pub insert_new :
      (r : Row Real) (db db' : Db)
      → IsSent printf (insert_or_ignore r)
      → sqlite.exec (insert_or_ignore r) db ≡ some db'
      → row r.id db ≡ none
      → ((j : ℤ) (s : Row Real) → row j db ≡ some s → s.guid ≢ r.guid)
      → row r.id db' ≡ some r
  pub insert_either :
      (r : Row Real) (db db' : Db)
      → IsSent printf (insert_or_ignore r)
      → sqlite.exec (insert_or_ignore r) db ≡ some db'
      → (row r.id db' ≡ some r) ⊎ (row r.id db' ≡ row r.id db)
  pub insert_other :
      (r : Row Real) (j : ℤ) (db db' : Db)
      → IsSent printf (insert_or_ignore r)
      → sqlite.exec (insert_or_ignore r) db ≡ some db'
      → j ≢ r.id
      → row j db' ≡ row j db
  pub delete_same :
      (g : Bytes) (j : ℤ) (db db' : Db) (r : Row Real)
      → IsSent printf (delete_guid g)
      → sqlite.exec (delete_guid g) db ≡ some db'
      → row j db ≡ some r
      → r.guid ≡ g
      → row j db' ≡ none
  pub delete_other :
      (g : Bytes) (j : ℤ) (db db' : Db) (r : Row Real)
      → IsSent printf (delete_guid g)
      → sqlite.exec (delete_guid g) db ≡ some db'
      → row j db ≡ some r
      → r.guid ≢ g
      → row j db' ≡ some r

-- Of any statement, also one whose text was cut: an UPDATE writes no guid, and an INSERT that runs was not
-- cut before its end and writes its guid, up to a NUL.
pub record GuidLaws {Real Db : Type 0} (sqlite : Sqlite Real Db) (row : ℤ → Db → Option (Row Real))
    : Type 0 where
  pub update_guid :
      (id j : ℤ) (v : Values Real) (db db' : Db) (r : Row Real)
      → sqlite.exec (update id v) db ≡ some db'
      → row j db' ≡ some r
      → (old : Row Real) × (row j db ≡ some old) × (r.guid ≡ old.guid)
  pub insert_guid :
      (new : Row Real) (j : ℤ) (db db' : Db) (r : Row Real)
      → sqlite.exec (insert_or_ignore new) db ≡ some db'
      → row j db' ≡ some r
      → ((old : Row Real) × (row j db ≡ some old) × (r.guid ≡ old.guid))
        ⊎ ((rest : Bytes) × (new.guid ≡ r.guid ++ rest))
