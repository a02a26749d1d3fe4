-- ===== src/Schema/Open.antt =====
-- `DataBase::openDb`.
use worker_informer.Base.{
  Bool, true, false, not, ◌&&◌, Option, none, some, List, [], ◌∷◌, ◌++◌, ◌>>=◌, if◌then◌else◌,
  Bytes, codes, equal,
}
use worker_informer.Schema.Files.{
  System, Run, done, exited, then_run, exec_all, read_dir, get_sql_file,
}

abbrev pub pragmas : List Bytes
pragmas =
    codes "PRAGMA foreign_keys = ON;"
    ∷ codes "PRAGMA synchronous = OFF;"
    ∷ codes "PRAGMA count_changes = OFF;"
    ∷ codes "PRAGMA auto_vacuum = FULL;"
    ∷ codes "PRAGMA journal_mode = OFF;"
    ∷ codes "PRAGMA temp_store = MEMORY;"
    ∷ codes "PRAGMA cache_size = 20000;"
    ∷ codes "PRAGMA read_uncommitted = 1"
    ∷ []

-- `dbFileName`, `dirName` and `create`.
pub record DataBase : Type 0 where
  pub db_file_name : Bytes
  pub dir_name : Bytes
  pub create : Bool

module _ {Db : Type 0} (sys : System Db)
    -- `new Kompex::SQLiteDatabase`, with SQLITE_OPEN_CREATE or without; `none` is an exception.
    (open_database : Bytes → Bool → Option Db) (file_exists : Bytes → Bool) where
  abbrev pub reopens : DataBase → Bool
  reopens d = not (equal d.db_file_name (codes ":memory:")) && file_exists d.db_file_name

  abbrev pub creates_file : DataBase → Bool
  creates_file d = not (equal d.db_file_name (codes ":memory:")) && not (file_exists d.db_file_name)

  -- The connection, with the pragmas set.
  unfoldable pub connect : Bytes → Bool → Option Db
  unfolding exec_all
  connect name creating = open_database name creating >>= exec_all sys pragmas

  abbrev pub load_tables : DataBase → Option Db → Run Db Bool
  load_tables d none = exited
  load_tables d (some db) =
      if reopens d
      then done true db
      else then_run (read_dir sys (d.dir_name ++ codes "/tables") db) (λ read. done true)

  abbrev pub opened : Option Db → Run Db Bool
  opened none = exited
  opened (some db) = done true db

  abbrev pub with_query : DataBase → Option Bytes → Run Db Bytes
  with_query d none = exited
  with_query d (some query) =
      then_run
        (if not d.create
          then opened (connect d.db_file_name false)
          else load_tables d (connect d.db_file_name (creates_file d)))
        (λ result. done query)

  -- The result is the text for `informerSqlStr`.
  unfoldable pub open_db : DataBase → Run Db Bytes
  unfolding connect read_dir
  open_db d = with_query d (get_sql_file sys d.dir_name (codes "requests/getInformer.sql"))
