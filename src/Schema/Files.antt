-- ===== src/Schema/Files.antt =====
-- `DataBase::runSqlFile`, `runSqlFiles`, `readDir` and `getSqlFile`.
use worker_informer.Base.{
  Bool, true, false, not, ◌&&◌, Option, none, some, List, [], ◌∷◌, ◌++◌, ◌>>=◌, ◌==◌, ltb,
  if◌then◌else◌, Bytes, codes, length, c_string, finds,
}

-- `open` failed; `read` gave fewer bytes than the file has; or all of them.
pub data FileRead : Type 0 where
  not_opened wrong_size : FileRead
  contents : Bytes → FileRead

-- What is taken from SQLite and from the system.
pub record System (Db : Type 0) : Type 0 where
  -- `SqlStatement`; `none` is a `Kompex::SQLiteException`.
  pub sql_statement : Bytes → Db → Option Db
  pub read_file : Bytes → FileRead
  -- The memory behind the buffer that holds the file.
  pub beyond : Bytes → Bytes
  pub list_directory : Bytes → Option (List Bytes)
  -- A regular file, where the build defines GLIBC_2_17.
  pub is_alien : Bytes → Bool
  pub sort : List Bytes → List Bytes

-- A step ends with its result, or ends the process.
pub data Run (Db A : Type 0) : Type 0 where
  done : A → Db → Run Db A
  exited : Run Db A

abbrev pub then_run : {Db A B : Type 0} → Run Db A → (A → Db → Run Db B) → Run Db B
then_run (done a db) rest = rest a db
then_run exited rest = exited

module _ {Db : Type 0} (sys : System Db) where
  -- The loop over the buffer: behind each `;` with at least 30 bytes behind it, the text that begins
  -- there is run.
  unfoldable pub scan : Bytes → Bytes → Db → Run Db Bool
  scan beyond [] db = done true db
  scan beyond (c ∷ s) db = elim (c == b';' && ltb 30 (length (c ∷ s))) [
    | true ↦ elim (sys.sql_statement (c_string (s ++ beyond)) db) [
      | none ↦ exited
      | some db' ↦ scan beyond s db'
    ]
    | false ↦ scan beyond s db
  ]

  -- Texts run in order, up to the first exception.
  unfoldable pub exec_all : List Bytes → Db → Option Db
  exec_all [] db = some db
  exec_all (text ∷ texts) db = sys.sql_statement text db >>= exec_all texts

  abbrev pub run_contents : Bytes → FileRead → Db → Run Db Bool
  run_contents beyond not_opened db = done false db
  run_contents beyond wrong_size db = exited
  run_contents beyond (contents text) db = elim (sys.sql_statement (c_string (text ++ beyond)) db) [
    | none ↦ exited
    | some db' ↦ scan beyond text db'
  ]

  unfoldable pub run_sql_file : Bytes → Db → Run Db Bool
  unfolding scan
  run_sql_file file db = run_contents (sys.beyond file) (sys.read_file file) db

  unfoldable pub run_sql_files : List Bytes → Db → Run Db Bool
  unfolding run_sql_file
  run_sql_files [] db = done true db
  run_sql_files (file ∷ files) db = then_run (run_sql_file file db) (λ ran. run_sql_files files)

  -- The names in a directory that end up in the list of files.
  unfoldable pub sql_files : Bytes → List Bytes → List Bytes
  sql_files dname [] = []
  sql_files dname (name ∷ names) =
      let rest = sql_files dname names in
      if not (sys.is_alien name) && finds (codes ".sql") name
      then (dname ++ (codes "/" ++ name)) ∷ rest
      else rest

  abbrev pub read_names : Bytes → Option (List Bytes) → Db → Run Db Bool
  read_names dname none db = done false db
  read_names dname (some names) db = run_sql_files (sys.sort (sql_files dname names)) db

  -- The result is left out by the caller.
  unfoldable pub read_dir : Bytes → Db → Run Db Bool
  unfolding run_sql_files sql_files
  read_dir dname db = read_names dname (sys.list_directory dname) db

  -- `getSqlFile`; `none` ends the process.
  abbrev pub whole_file : FileRead → Option Bytes
  whole_file not_opened = none
  whole_file wrong_size = none
  whole_file (contents text) = some text

  abbrev pub get_sql_file : Bytes → Bytes → Option Bytes
  get_sql_file dir_name file = whole_file (sys.read_file (dir_name ++ (codes "/" ++ file)))
