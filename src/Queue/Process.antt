-- ===== src/Queue/Process.antt =====
-- `BaseCore::ProcessMQ`: the informer queue, then the account queue, within one `try`.
use worker_informer.Base.{ℕ, Bool, false, List, ◌++◌, if◌then◌else◌, Bytes, codes, equal}
use worker_informer.Queue.Broker.{Message, Reply}
use worker_informer.Queue.Drain.{Ending, finished, thrown, drain}

-- The filter `{key: value}` for `ParentDB::InformerUpdate`.
pub record Filter : Type 0 where
  pub key : Bytes
  pub value : Bytes

-- What `BaseCore` calls of `ParentDB`, on the state `Db` of the databases.
pub record Parent (Db : Type 0) : Type 0 where
  pub informer_update : Filter → Db → Db
  pub informer_remove : Bytes → Db → Db

-- What the loops change: the log `mq_log_`, and the databases.
pub record Store (Db : Type 0) : Type 0 where
  pub mq_log : List Bytes
  pub db : Db

-- The fields of `BaseCore` that the check uses.
pub record BaseCore (Db Q Time : Type 0) : Type 0 where
  pub store : Store Db
  pub mq_informer : Q
  pub mq_account : Q
  pub time_mq_check : Time

-- `MAXCOUNT`
abbrev pub max_count : ℕ
max_count = 1000

-- `push_back` is that of the circular buffer.
module _ (push_back : List Bytes → Bytes → List Bytes) {Db : Type 0} (pdb : Parent Db) where
  abbrev pub logged : Message → Store Db → Store Db
  logged m s = record s {
    mq_log = push_back s.mq_log (m.routing_key ++ (codes ":" ++ (m.text ++ codes "</br>")));
  }

  unfoldable pub handle_informer : Message → Store Db → Store Db
  handle_informer m s =
      if equal m.routing_key (codes "informer.update")
      then record (logged m s) {
        db = pdb.informer_update (record { key = codes "guid"; value = m.text }) s.db;
      }
      else if equal m.routing_key (codes "informer.delete")
      then record (logged m s) { db = pdb.informer_remove m.text s.db }
      else logged m s

  unfoldable pub handle_account : Message → Store Db → Store Db
  handle_account m s =
      if equal m.routing_key (codes "account.update")
      then record (logged m s) {
        db = pdb.informer_update (record { key = codes "user"; value = m.text }) s.db;
      }
      else logged m s

  -- The `catch` block.
  abbrev pub log_error : Bytes → Store Db → Store Db
  log_error e s = record s { mq_log = push_back s.mq_log (codes "error: " ++ e) }

  module _ {Q Time : Type 0} where
    unfoldable pub end_account : BaseCore Db Q Time → Store Db → Ending Q → BaseCore Db Q Time
    end_account c s (finished q) = record c { store = s; mq_account = q }
    end_account c s (thrown e q) = record c { store = log_error e s; mq_account = q }

    -- Behind the first loop: the second one, or the `catch` block.
    unfoldable pub end_informer :
        (Q → Reply Q) → BaseCore Db Q Time → Store Db → Ending Q → BaseCore Db Q Time
    unfolding end_account
    end_informer get c s (finished q) =
        let (s', ending) = drain get handle_account max_count (get c.mq_account) s in
        end_account (record c { mq_informer = q }) s' ending
    end_informer get c s (thrown e q) = record c { store = log_error e s; mq_informer = q }

    unfoldable pub process_mq :
        (Q → Reply Q) → Time → BaseCore Db Q Time → BaseCore Db Q Time × Bool
    unfolding end_informer
    process_mq get now c =
        let (s, ending) = drain get handle_informer max_count (get c.mq_informer) c.store in
        (end_informer get (record c { time_mq_check = now }) s ending, false)
