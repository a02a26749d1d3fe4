-- ===== src/Schema/Tests.antt =====
-- A schema of two statements, and the theorems at these inputs.
use worker_informer.Base.{
  Bool, true, false, none, some, List, [], ◌∷◌, ◌≡◌, refl, inl, arith, Bytes, codes, equal, finds,
  if◌then◌else◌,
}
use worker_informer.Schema.Reindex.{Connection, ran, threw, index_rebuild}
use worker_informer.Schema.Files.{System, done, contents, exec_all, run_sql_file, sql_files}
use worker_informer.Schema.Open.{DataBase, connect, open_db}
use worker_informer.Schema.Starts.{
  Starts, next, short, c_strings, all_run, run_sql_file-Starts, open_db-connect,
}

-- A database is the list of the texts run, the last one first.
abbrev system : System (List Bytes)
system = record {
  sql_statement = λ text db. some (text ∷ db);
  read_file = λ file. contents (
      if equal file (codes "t.sql")
      then codes "a;0123456789012345678901234567890;b"
      else codes "q");
  beyond = λ file. 0 ∷ [];
  list_directory = λ name. none;
  is_alien = λ name. false;
  sort = λ files. files;
}

second :
    Starts
      (codes "a;0123456789012345678901234567890;b")
      (codes "0123456789012345678901234567890;b" ∷ [])
second =
    next (codes "a") refl (omega arith, tt) (omega arith)
      (short (codes "0123456789012345678901234567890") (codes "b") refl (omega arith) (omega arith))

run_sql_file-Starts_example :
    run_sql_file system (codes "t.sql") []
    ≡ all_run (
        exec_all system
          (c_strings (0 ∷ []) (
            codes "a;0123456789012345678901234567890;b"
            ∷ codes "0123456789012345678901234567890;b"
            ∷ []))
          [])
run_sql_file-Starts_example =
    run_sql_file-Starts system (codes "t.sql") (codes "a;0123456789012345678901234567890;b")
      (codes "0123456789012345678901234567890;b" ∷ []) [] (unfold equal in refl) second

names : sql_files system (codes "d") (codes "b.sql" ∷ codes "x" ∷ []) ≡ codes "d/b.sql" ∷ []
unfolding sql_files finds
names = refl

abbrev old_database : DataBase
old_database = record { db_file_name = codes "f"; dir_name = codes "d"; create = false }

opened_again :
    open_db system (λ name creating. some []) (λ name. true) old_database
    ≡ done (codes "q") (
        codes "PRAGMA read_uncommitted = 1"
        ∷ codes "PRAGMA cache_size = 20000;"
        ∷ codes "PRAGMA temp_store = MEMORY;"
        ∷ codes "PRAGMA journal_mode = OFF;"
        ∷ codes "PRAGMA auto_vacuum = FULL;"
        ∷ codes "PRAGMA count_changes = OFF;"
        ∷ codes "PRAGMA synchronous = OFF;"
        ∷ codes "PRAGMA foreign_keys = ON;"
        ∷ [])
opened_again =
    open_db-connect system (λ name creating. some []) (λ name. true) old_database (codes "q") _
      (unfold equal in refl) (inl refl) (unfold connect exec_all in refl)

-- A connection is whether a transaction is open; a REINDEX fails.
abbrev no_reindex : Connection Bool
no_reindex = record {
  begin_transaction = λ is_open. if is_open then threw true else ran true;
  commit_transaction = λ is_open. if is_open then ran false else threw false;
  sql_statement =
      λ sql is_open. if equal sql (codes "REINDEX;") then threw is_open else ran is_open;
}

left_open : index_rebuild no_reindex false ≡ true
unfolding index_rebuild equal
left_open = refl
