-- ===== src/Queue/Delivery.antt =====
-- Which messages a check handles, which it leaves, and which it loses.
use worker_informer.Base.{◌≤◌, false, List, ◌≡◌, Bytes, length}
use worker_informer.Queue.Broker.{Message, Reply, message, empty, failed, Replies}
use worker_informer.Queue.Drain.{handle_all, drain_all, drain_failed, drain_more}
use worker_informer.Queue.Process.{
  Parent, BaseCore, max_count, handle_informer, handle_account, log_error, process_mq,
}

module _ (push_back : List Bytes → Bytes → List Bytes) {Db Q Time : Type 0} (pdb : Parent Db)
    (get : Q → Reply Q) (now : Time) (c : BaseCore Db Q Time) where
  -- A check with at most a thousand messages waiting in each queue handles every message, those of
  -- the informer queue first and each queue in its order, and leaves both queues empty.
  pub process_mq_all :
      {q₁ q₂ : Q} {ms₁ ms₂ : List Message}
      → Replies get (empty q₁) (get c.mq_informer) ms₁
      → Replies get (empty q₂) (get c.mq_account) ms₂
      → length ms₁ ≤ max_count
      → length ms₂ ≤ max_count
      → process_mq push_back pdb get now c ≡ (
        record {
          store =
              handle_all
                (handle_account push_back pdb)
                ms₂
                (handle_all (handle_informer push_back pdb) ms₁ c.store);
          mq_informer = q₁;
          mq_account = q₂;
          time_mq_check = now;
        },
        false,
      )
  unfolding process_mq
  process_mq_all r₁ r₂ h₁ h₂ = rw (
    drain_all get (handle_informer push_back pdb) max_count c.store r₁ h₁,
    drain_all get (handle_account push_back pdb) max_count _ r₂ h₂,
  )

  -- Where a thousand messages `ms` and a further one `m` wait in the informer queue, the check
  -- handles `ms` only, and the queue that it leaves is the one behind `m`: `m` is lost.
  pub process_mq_lost :
      {q₁ q₂ : Q} {m : Message} {ms ms₂ : List Message}
      → Replies get (message m q₁) (get c.mq_informer) ms
      → Replies get (empty q₂) (get c.mq_account) ms₂
      → length ms ≡ max_count
      → length ms₂ ≤ max_count
      → process_mq push_back pdb get now c ≡ (
        record {
          store =
              handle_all
                (handle_account push_back pdb)
                ms₂
                (handle_all (handle_informer push_back pdb) ms c.store);
          mq_informer = q₁;
          mq_account = q₂;
          time_mq_check = now;
        },
        false,
      )
  unfolding process_mq
  process_mq_lost r₁ r₂ h₁ h₂ = rw (
    drain_more get (handle_informer push_back pdb) max_count c.store r₁ h₁,
    drain_all get (handle_account push_back pdb) max_count _ r₂ h₂,
  )

  -- An exception on the informer queue ends the check: the messages before it are handled, its text
  -- is logged, and the account queue is not read.
  pub process_mq_failed :
      {q : Q} {e : Bytes} {ms : List Message}
      → Replies get (failed e q) (get c.mq_informer) ms
      → length ms ≤ max_count
      → process_mq push_back pdb get now c ≡ (
        record {
          store = log_error push_back pdb e (handle_all (handle_informer push_back pdb) ms c.store);
          mq_informer = q;
          mq_account = c.mq_account;
          time_mq_check = now;
        },
        false,
      )
  unfolding process_mq
  process_mq_failed r h =
      rw (drain_failed get (handle_informer push_back pdb) max_count c.store r h)
