-- ===== src/Startup/Queues.antt =====
-- `BaseCore::BaseCore` with `InitMessageQueue` and `LoadAllEntities`, and the first `ProcessMQ` behind it.
use worker_informer.Base.{Bool, Option, none, some, List, ◌++◌, if◌then◌else◌, Bytes, codes}
use worker_informer.Queue.Broker.{Reply}
use worker_informer.Queue.Drain.{Ending, finished, thrown, drain}
use worker_informer.Queue.Process.{Parent, Store, max_count, handle_informer, log_error, process_mq}

-- A call of the AMQP client, on the state of the broker: a result, or an `AMQPException`.
pub data Called (X Broker : Type 0) : Type 0 where
  ok : X → Broker → Called X Broker
  raised : Bytes → Broker → Called X Broker

pub record Client (Broker Link Exchange Q : Type 0) : Type 0 where
  -- `new AMQP`
  pub connect : Bytes → Broker → Called Link Broker
  pub create_exchange : Link → Broker → Called Exchange Broker
  -- By name and type, with AMQP_AUTODELETE.
  pub declare_exchange : Exchange → Bytes → Bytes → Broker → Called (Unit {0}) Broker
  pub create_queue : Link → Broker → Called Q Broker
  -- By name, with AMQP_AUTODELETE and AMQP_EXCLUSIVE.
  pub declare_queue : Q → Bytes → Broker → Called (Unit {0}) Broker
  -- By the queue's name and the key.
  pub bind : Exchange → Bytes → Bytes → Broker → Called (Unit {0}) Broker

-- The pointers of `BaseCore`; `none` is one that nothing was written to.
pub record Pointers (Link Exchange Q : Type 0) : Type 0 where
  pub amqp : Option Link
  pub exchange : Option Exchange
  pub mq_informer : Option Q
  pub mq_account : Option Q

abbrev pub unset : {Link Exchange Q : Type 0} → Pointers Link Exchange Q
unset = record { amqp = none; exchange = none; mq_informer = none; mq_account = none }

pub record State (Broker Link Exchange Q : Type 0) : Type 0 where
  pub pointers : Pointers Link Exchange Q
  pub broker : Broker

pub data Run (S A : Type 0) : Type 0 where
  done : A → S → Run S A
  failed : Bytes → S → Run S A

abbrev pub then_run : {S A B : Type 0} → Run S A → (A → S → Run S B) → Run S B
then_run (done a s) f = f a s
then_run (failed e s) f = failed e s

infixl 5 ◌>>=◌ ◌>>◌
abbrev pub ◌>>=◌ : {S A B : Type 0} → (S → Run S A) → (A → S → Run S B) → S → Run S B
◌>>=◌ m f s = then_run (m s) f

abbrev pub ◌>>◌ : {S A B : Type 0} → (S → Run S A) → (S → Run S B) → S → Run S B
m >> k = m >>= λ _. k

module _ {Broker Link Exchange Q : Type 0} (client : Client Broker Link Exchange Q) where
  abbrev answered :
      {X : Type 0}
      → Pointers Link Exchange Q
      → Called X Broker
      → Run (State Broker Link Exchange Q) X
  answered p (ok x b) = done x (record { pointers = p; broker = b })
  answered p (raised e b) = failed e (record { pointers = p; broker = b })

  abbrev pub call :
      {X : Type 0}
      → (Broker → Called X Broker)
      → State Broker Link Exchange Q
      → Run (State Broker Link Exchange Q) X
  call f s = answered s.pointers (f s.broker)

  abbrev pub set :
      (Pointers Link Exchange Q → Pointers Link Exchange Q)
      → State Broker Link Exchange Q
      → Run (State Broker Link Exchange Q) (Unit {0})
  set f s = done tt (record s { pointers = f s.pointers })

  -- The `try` block: `postfix` is the time by boost, with a comma for the first point.
  unfoldable pub open_queues :
      Bytes → Bytes → State Broker Link Exchange Q → Run (State Broker Link Exchange Q) (Unit {0})
  open_queues path postfix = do
    link ← call (client.connect path)
    set (λ p. record p { amqp = some link })
    exchange ← call (client.create_exchange link)
    set (λ p. record p { exchange = some exchange })
    call (client.declare_exchange exchange (codes "getmyad") (codes "topic"))
    informer ← call (client.create_queue link)
    set (λ p. record p { mq_informer = some informer })
    call (client.declare_queue informer (codes "getmyad.informer." ++ postfix))
    account ← call (client.create_queue link)
    set (λ p. record p { mq_account = some account })
    call (client.declare_queue account (codes "getmyad.account." ++ postfix))
    call (client.bind exchange (codes "getmyad.informer." ++ postfix) (codes "informer.#"))
    call (client.bind exchange (codes "getmyad.account." ++ postfix) (codes "account.#"))

  -- The `catch` block only prints.
  abbrev pub caught : Run (State Broker Link Exchange Q) (Unit {0}) → State Broker Link Exchange Q
  caught (done a s) = s
  caught (failed e s) = s

  unfoldable pub init_message_queue :
      Bytes → Bytes → State Broker Link Exchange Q → State Broker Link Exchange Q
  unfolding open_queues
  init_message_queue path postfix s = caught (open_queues path postfix s)

module _ {Db : Type 0}
    -- `InformerUpdate` with an empty filter, and `indexRebuild`.
    (update_all : Db → Db) (index_rebuild : Db → Db) where
  -- `reopen` is that of the database.
  unfoldable pub load_all_entities : Bool → Db → Db
  load_all_entities reopen db = if reopen then db else index_rebuild (update_all db)

-- The first check of the queues, by their pointers; `none` is the use of one that was never set.
module _ {Db Q Time : Type 0} (push_back : List Bytes → Bytes → List Bytes) (pdb : Parent Db)
    (get : Q → Reply Q) (now : Time) where
  abbrev pub after_informers : Store Db → Ending Q → Option (Store Db)
  after_informers s (finished q) = none
  after_informers s (thrown e q) = some (log_error push_back pdb e s)

  abbrev pub check_with : Store Db → Option Q → Option Q → Option (Store Db)
  check_with s none account = none
  check_with s (some q₁) none =
      let (s', ending) = drain get (handle_informer push_back pdb) max_count (get q₁) s in
      after_informers s' ending
  check_with s (some q₁) (some q₂) = some (
      (process_mq push_back pdb get now
        (record { store = s; mq_informer = q₁; mq_account = q₂; time_mq_check = now })).0.store)

  unfoldable pub first_check :
      {Link Exchange : Type 0} → Pointers Link Exchange Q → Store Db → Option (Store Db)
  unfolding process_mq drain handle_informer
  first_check p s = check_with s p.mq_informer p.mq_account
