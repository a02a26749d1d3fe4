-- ===== src/Schema/Reindex.antt =====
-- `DataBase::indexRebuild`, `DataBase::exec` and the destructor.
use worker_informer.Base.{Bool, true, false, Option, none, some, ◌≡◌, refl, Bytes, codes}

-- A call of the connection ends or throws; it leaves the connection in a state either way.
pub data Ran (Db : Type 0) : Type 0 where
  ran : Db → Ran Db
  threw : Db → Ran Db

abbrev then_ran : {Db : Type 0} → Ran Db → (Db → Ran Db) → Ran Db
then_ran (ran db) rest = rest db
then_ran (threw db) rest = threw db

-- Behind the `catch`, which only logs.
abbrev behind_catch : {Db : Type 0} → Ran Db → Db
behind_catch (ran db) = db
behind_catch (threw db) = db

-- `BeginTransaction`, `CommitTransaction` and `SqlStatement`.
pub record Connection (Db : Type 0) : Type 0 where
  pub begin_transaction : Db → Ran Db
  pub commit_transaction : Db → Ran Db
  pub sql_statement : Bytes → Db → Ran Db

module _ {Db : Type 0} (connection : Connection Db) where
  abbrev in_transaction : Bytes → Db → Ran Db
  in_transaction sql db =
      then_ran (connection.begin_transaction db)
        (λ begun. then_ran (connection.sql_statement sql begun) connection.commit_transaction)

  unfoldable pub index_rebuild : Db → Db
  index_rebuild db =
      behind_catch
        (then_ran (in_transaction (codes "REINDEX;") db) (in_transaction (codes "ANALYZE;")))

  unfoldable pub exec : Bytes → Db → Db
  exec sql db = behind_catch (connection.sql_statement sql db)

  -- What SQLite documents of transactions, in terms of whether one is open.
  record ConnectionLaws (is_open : Db → Bool) : Type 0 where
    begin_opens : (db db' : Db) → connection.begin_transaction db ≡ ran db' → is_open db' ≡ true
    begin_refused : (db : Db) → is_open db ≡ true → connection.begin_transaction db ≡ threw db
    commit_closes : (db db' : Db) → connection.commit_transaction db ≡ ran db' → is_open db' ≡ false

  -- If the statement of the first transaction fails and leaves the transaction open, nothing closes it: it
  -- is open behind the call, and a further call does nothing.
  index_rebuild_left_open :
      (is_open : Db → Bool) (db begun failed : Db)
      → ConnectionLaws is_open
      → connection.begin_transaction db ≡ ran begun
      → connection.sql_statement (codes "REINDEX;") begun ≡ threw failed
      → is_open failed ≡ true
      → (index_rebuild db ≡ failed) × (index_rebuild (index_rebuild db) ≡ failed)
  unfolding index_rebuild
  index_rebuild_left_open is_open db begun failed laws b s o =
      (rw (b, s) refl, rw (b, s, laws.begin_refused failed o) refl)

  -- If all calls end, no transaction is open.
  index_rebuild_closed :
      (is_open : Db → Bool) (db a b c d e f : Db)
      → ConnectionLaws is_open
      → connection.begin_transaction db ≡ ran a
      → connection.sql_statement (codes "REINDEX;") a ≡ ran b
      → connection.commit_transaction b ≡ ran c
      → connection.begin_transaction c ≡ ran d
      → connection.sql_statement (codes "ANALYZE;") d ≡ ran e
      → connection.commit_transaction e ≡ ran f
      → (index_rebuild db ≡ f) × (is_open f ≡ false)
  unfolding index_rebuild
  index_rebuild_closed is_open db a b c d e f laws p q r s t u =
      (rw (p, q, r, s, t, u) refl, laws.commit_closes e f u)

-- The destructor, on the pointer to the statement; `none` is undefined behaviour: `FreeQuery` is called
-- before the test of the pointer.
unfoldable pub destroy :
    {Statement World : Type 0}
    → (free_query delete_statement : Statement → World → World) → Option Statement
    → World
    → Option World
destroy free_query delete_statement none w = none
destroy free_query delete_statement (some statement) w =
    some (delete_statement statement (free_query statement w))
