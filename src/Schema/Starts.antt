-- ===== src/Schema/Starts.antt =====
-- Where the statements begin that `runSqlFile` runs.
use worker_informer.Base.{
  suc, ◌≤◌, ◌<◌, ◌≡◌, refl, ◌∙◌, Bool, true, false, Option, none, some, List, [], ◌∷◌, ◌++◌, ◌==◌,
  ltb, Bool-cases, Option-cases, inl, inr, ◌⊎◌, arith, Bytes, codes, length, Lacks, c_string,
}
use worker_informer.Schema.Files.{
  System, Run, done, exited, contents, run_contents, scan, exec_all, run_sql_file, get_sql_file,
}
use worker_informer.Schema.Open.{DataBase, open_db, connect, reopens, creates_file}

-- The texts behind the semicolons of a file, from the left, up to the first with fewer than 30 bytes.
pub data Starts : Bytes → List Bytes → Type 0 where
  last : {s : Bytes} → Lacks b';' s → Starts s []
  short :
      {s : Bytes} (a rest : Bytes)
      → s ≡ a ++ b';' ∷ rest
      → Lacks b';' a
      → length rest < 30
      → Starts s []
  next :
      {s : Bytes} (a : Bytes) {rest : Bytes} {texts : List Bytes}
      → s ≡ a ++ b';' ∷ rest
      → Lacks b';' a
      → 30 ≤ length rest
      → Starts rest texts
      → Starts s (rest ∷ texts)

-- As C strings, which go on behind the buffer.
abbrev pub c_strings : Bytes → List Bytes → List Bytes
c_strings beyond [] = []
c_strings beyond (t ∷ ts) = c_string (t ++ beyond) ∷ c_strings beyond ts

abbrev pub all_run : {Db : Type 0} → Option Db → Run Db Bool
all_run none = exited
all_run (some db) = done true db

module _ {Db : Type 0} (sys : System Db) (beyond : Bytes) where
  scan_short : (s : Bytes) (db : Db) → length s ≤ 30 → scan sys beyond s db ≡ done true db
  unfolding scan
  scan_short [] db h = refl
  scan_short (c ∷ s) db h =
      let few : ltb 30 (length (c ∷ s)) ≡ false = ground arith in
      elim (Bool-cases (c == b';')) [
        | inl e ↦ rw (scan, e, few) (scan_short s db (omega arith))
        | inr e ↦ rw (scan, e) (scan_short s db (omega arith))
      ]

  scan-append :
      (a t : Bytes) (db : Db) → Lacks b';' a → scan sys beyond (a ++ t) db ≡ scan sys beyond t db
  unfolding scan
  scan-append [] t db _ = refl
  scan-append (c ∷ a) t db (h, hs) =
      let other : (c == b';') ≡ false = ground arith in rw (scan, other) (scan-append a t db hs)

  scan-Lacks : (a : Bytes) (db : Db) → Lacks b';' a → scan sys beyond a db ≡ done true db
  unfolding scan
  scan-Lacks [] db _ = refl
  scan-Lacks (c ∷ a) db (h, hs) =
      let other : (c == b';') ≡ false = ground arith in rw (scan, other) (scan-Lacks a db hs)

  scan_semicolon :
      (rest : Bytes) (db : Db)
      → 30 ≤ length rest
      → scan sys beyond (b';' ∷ rest) db
        ≡ (elim (sys.sql_statement (c_string (rest ++ beyond)) db) [
          | none ↦ exited
          | some db' ↦ scan sys beyond rest db'
        ])
  unfolding scan
  scan_semicolon rest db h =
      let many : ltb 30 (suc (length rest)) ≡ true = ground arith in rw (scan, many) refl

  scan-Starts :
      {s : Bytes} {texts : List Bytes} (db : Db)
      → Starts s texts
      → scan sys beyond s db ≡ all_run (exec_all sys (c_strings beyond texts) db)
  unfolding exec_all
  scan-Starts {s} db (last h) = scan-Lacks s db h
  scan-Starts db (short a rest e h few) =
      rw e (scan-append a (b';' ∷ rest) db h ∙ scan_short (b';' ∷ rest) db (omega arith))
  scan-Starts db (next a {rest} e h many more) = rw e (
      scan-append a (b';' ∷ rest) db h
      ∙ (scan_semicolon rest db many
          ∙ elim (Option-cases (sys.sql_statement (c_string (rest ++ beyond)) db)) [
            | inl k ↦ rw k refl
            | inr (db', k) ↦ rw k (scan-Starts db' more)
          ]))

module _ {Db : Type 0} (sys : System Db) where
  -- A file is run from its beginning, and again from behind each semicolon, as long as at least 30
  -- bytes are left there; the first exception ends the process.
  pub run_sql_file-Starts :
      (file text : Bytes) (texts : List Bytes) (db : Db)
      → sys.read_file file ≡ contents text
      → Starts text texts
      → run_sql_file sys file db
        ≡ all_run (exec_all sys (c_strings (sys.beyond file) (text ∷ texts)) db)
  unfolding run_sql_file exec_all
  run_sql_file-Starts file text texts db e starts =
      rw e (elim (Option-cases (sys.sql_statement (c_string (text ++ sys.beyond file)) db)) [
        | inl k ↦ rw (run_contents, k) refl
        | inr (db', k) ↦ rw (run_contents, k) (scan-Starts sys (sys.beyond file) db' starts)
      ])

module _ {Db : Type 0} (sys : System Db) (open_database : Bytes → Bool → Option Db)
    (file_exists : Bytes → Bool) where
  reopens_lem :
      (d : DataBase)
      → reopens sys open_database file_exists d ≡ true
      → creates_file sys open_database file_exists d ≡ false
  reopens_lem d h = ground arith

  -- A database that is opened without leave to create it, or whose file is there already, gets no
  -- tables from the SQL files: `openDb` connects, sets the pragmas, and leaves it as it is.
  pub open_db-connect :
      (d : DataBase) (query : Bytes) (db : Db)
      → get_sql_file sys d.dir_name (codes "requests/getInformer.sql") ≡ some query
      → (d.create ≡ false) ⊎ (reopens sys open_database file_exists d ≡ true)
      → connect sys open_database file_exists d.db_file_name false ≡ some db
      → open_db sys open_database file_exists d ≡ done query db
  unfolding open_db
  open_db-connect d query db q (inl old) e = rw (q, old, e) refl
  open_db-connect d query db q (inr there) e = elim (Bool-cases d.create) [
    | inl k ↦ rw (q, k, reopens_lem d there, e, there) refl
    | inr k ↦ rw (q, k, e) refl
  ]
