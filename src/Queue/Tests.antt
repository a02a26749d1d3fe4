-- ===== src/Queue/Tests.antt =====
-- Runs of the check, with lists for queues and a list of calls for the databases.
use worker_informer.Base.{
  ℕ, suc, zero, Bool, true, false, List, [], ◌∷◌, ◌++◌, ◌≡◌, refl, arith, Bytes, codes, replicate,
  equal, length, ◌+◌, ◌/◌,
}
use worker_informer.Queue.Broker.{Message, Replies, here, next}
use worker_informer.Queue.Drain.{drain, handle_all}
use worker_informer.Queue.Process.{
  Filter, Parent, BaseCore, max_count, handle_informer, handle_account, log_error, process_mq,
}
use worker_informer.Queue.Sample.{get, push_back, mail}
use worker_informer.Queue.Backlog.{run_checks, kept, IsBacklog, run_checks-kept}
use worker_informer.Queue.Delivery.{process_mq_failed}

data Call : Type 0 where
  update : Filter → Call
  remove : Bytes → Call

abbrev recorder : Parent (List Call)
recorder = record {
  informer_update = λ f db. db ++ update f ∷ [];
  informer_remove = λ id db. db ++ remove id ∷ [];
}

abbrev update_a : Message
update_a = mail "informer.update" "a"

abbrev core :
    List Message × Bool → List Message × Bool → BaseCore (List Call) (List Message × Bool) ℕ
core q₁ q₂ = record {
  store = record { mq_log = []; db = [] };
  mq_informer = q₁;
  mq_account = q₂;
  time_mq_check = 0;
}

abbrev accounts : List Message
accounts = mail "account.update" "u" ∷ mail "account.other" "v" ∷ []

abbrev three : BaseCore (List Call) (List Message × Bool) ℕ
three =
    core (update_a ∷ mail "informer.delete" "b" ∷ mail "informer.new" "c" ∷ [], false)
      (accounts, false)

three_calls :
    (process_mq push_back recorder get 7 three).0.store.db
    ≡ update (record { key = codes "guid"; value = codes "a" })
      ∷ remove (codes "b")
      ∷ update (record { key = codes "user"; value = codes "u" })
      ∷ []
unfolding process_mq drain handle_informer handle_account equal
three_calls = refl

Replies-replicate :
    (n : ℕ) (m : Message) (rest : List Message)
    → Replies get (get (rest, false)) (get (replicate n m ++ rest, false)) (replicate n m)
Replies-replicate zero m rest = here
Replies-replicate (suc n) m rest = next (Replies-replicate n m rest)

abbrev many : BaseCore (List Call) (List Message × Bool) ℕ
many = core (replicate max_count update_a ++ mail "informer.delete" "b" ∷ [], false) ([], false)

process_mq_failed_example :
    process_mq push_back recorder get 7 (core (update_a ∷ [], true) (accounts, false)) ≡ (
      record {
        store =
            log_error push_back recorder
              (codes "closed")
              (handle_informer push_back recorder update_a (record { mq_log = []; db = [] }));
        mq_informer = ([], false);
        mq_account = (accounts, false);
        time_mq_check = 7;
      },
      false,
    )
process_mq_failed_example =
    process_mq_failed push_back recorder get 7 (core (update_a ∷ [], true) (accounts, false))
      (next here) (omega arith)

Replies-all : (ms : List Message) → Replies get (get ([], false)) (get (ms, false)) ms
Replies-all [] = here
Replies-all (m ∷ ms) = next (Replies-all ms)

abbrev waiting : List Message
waiting = replicate (suc max_count) update_a ++ mail "informer.delete" "b" ∷ []

waiting-IsBacklog :
    IsBacklog push_back recorder get ([], false) waiting (core (waiting, false) ([], false))
waiting-IsBacklog = record { informers = Replies-all waiting; stays = refl; accounts = refl }

run_checks-kept_example :
    ((run_checks push_back recorder get (λ k. k) 2 (core (waiting, false) ([], false))).store
      ≡ handle_all
          (handle_informer push_back recorder)
          (kept 2 max_count waiting)
          (record { mq_log = []; db = [] }))
    × IsBacklog push_back recorder get
        ([], false)
        []
        (run_checks push_back recorder get (λ k. k) 2 (core (waiting, false) ([], false)))
    × (length (kept 2 max_count waiting) + length waiting / 1001 ≡ length waiting)
run_checks-kept_example =
    run_checks-kept push_back recorder get (λ k. k) 2 ([], false) waiting
      (core (waiting, false) ([], false)) waiting-IsBacklog (omega arith)
