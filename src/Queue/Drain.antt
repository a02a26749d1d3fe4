-- ===== src/Queue/Drain.antt =====
-- The loop over one queue, which both halves of `ProcessMQ` share but for what they do with a message:
-- `while (m->getMessageCount() > -1 && stopCount--) { …; Get(AMQP_NOACK); m = getMessage(); }`.
use worker_informer.Base.{ℕ, zero, suc, ◌≤◌, List, [], ◌∷◌, ◌++◌, ◌≡◌, refl, Bytes, length, arith}
use worker_informer.Queue.Broker.{Message, Reply, message, empty, failed, Replies, here, next}

-- How a loop ends: by its condition, or by an exception.
pub data Ending (Q : Type 0) : Type 0 where
  finished : Q → Ending Q
  thrown : Bytes → Q → Ending Q

-- To handle messages one after the other.
module _ {S : Type 0} (handle : Message → S → S) where
  abbrev pub handle_all : List Message → S → S
  handle_all [] s = s
  handle_all (m ∷ ms) s = handle_all ms (handle m s)

  pub handle_all-append :
      (xs ys : List Message) (s : S) → handle_all (xs ++ ys) s ≡ handle_all ys (handle_all xs s)
  handle_all-append [] ys s = refl
  handle_all-append (x ∷ xs) ys s = handle_all-append xs ys (handle x s)

module _ {Q S : Type 0} (get : Q → Reply Q) (handle : Message → S → S) where
  -- The message got last is in the reply. It is dropped where `stopCount` is used up.
  unfoldable pub drain : ℕ → Reply Q → S → S × Ending Q
  drain n (empty q) s = (s, finished q)
  drain n (failed e q) s = (s, thrown e q)
  drain zero (message m q) s = (s, finished q)
  drain (suc n) (message m q) s = drain n (get q) (handle m s)

  -- Up to `n` messages and then none: all are handled, in order.
  pub drain_all :
      {q : Q} (n : ℕ) {r : Reply Q} {ms : List Message} (s : S)
      → Replies get (empty q) r ms
      → length ms ≤ n
      → drain n r s ≡ (handle_all handle ms s, finished q)
  unfolding drain
  drain_all n s here h = refl
  drain_all zero s (next r) h = absurd (omega arith)
  drain_all (suc n) s (next {m} r) h = drain_all n (handle m s) r (omega arith)

  -- Up to `n` messages and then an exception.
  pub drain_failed :
      {e : Bytes} {q : Q} (n : ℕ) {r : Reply Q} {ms : List Message} (s : S)
      → Replies get (failed e q) r ms
      → length ms ≤ n
      → drain n r s ≡ (handle_all handle ms s, thrown e q)
  unfolding drain
  drain_failed n s here h = refl
  drain_failed zero s (next r) h = absurd (omega arith)
  drain_failed (suc n) s (next {m} r) h = drain_failed n (handle m s) r (omega arith)

  -- More than `n` messages: `n` are handled, and one more has left the queue.
  pub drain_more :
      {m : Message} {q : Q} (n : ℕ) {r : Reply Q} {ms : List Message} (s : S)
      → Replies get (message m q) r ms
      → length ms ≡ n
      → drain n r s ≡ (handle_all handle ms s, finished q)
  unfolding drain
  drain_more zero s here h = refl
  drain_more (suc n) s here h = absurd (omega arith)
  drain_more zero s (next r) h = absurd (omega arith)
  drain_more (suc n) s (next {m = m'} r) h = drain_more n (handle m' s) r (omega arith)
