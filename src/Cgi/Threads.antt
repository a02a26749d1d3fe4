-- ===== src/Cgi/Threads.antt =====
-- `CgiService::Serve` on several threads: they share the requests, the mutex around `FCGX_Accept_r` and
-- `server_name`; each has its own core.
use worker_informer.Base.{
  updated, ℕ, zero, suc, ◌+◌, ◌<◌, Option, none, some, List, [], ◌∷◌, ◌++◌, ◌≡◌, ◌==◌,
  if◌then◌else◌, Bytes, equal,
}
use worker_informer.Core.State.{State}
use worker_informer.Core.Process.{Settings}
use worker_informer.Cgi.Request.{Request, Libraries, Answer, ended, process_request}
use worker_informer.Cgi.Serve.{new_core, incremented}
pub mod Shared
pub mod Mutex
pub mod Ready
pub mod Once
pub mod Since
pub mod Progress
mod Tests

-- Where a thread stands in the loop: before it locks, before it accepts, before it unlocks with what it
-- accepted (`none` is a negative result), in `ProcessRequest` before its query, behind it, or out of the
-- loop. Behind the query stand its moment and the `server_name` that was read then.
pub data Place : Type 0 where
  locking accepting : Place
  unlocking : Option Request → Place
  processing : Request → Place
  sending : Request → ℕ → Bytes → Place
  stopped : Place

pub record Service (Real : Type 0) : Type 0 where
  -- The requests that the web server has for the socket, in their order.
  pub waiting : List Request
  -- The thread that holds `accept_mutex`.
  pub mutex : Option ℕ
  pub place : ℕ → Place
  pub core : ℕ → State Real
  pub count_req : ℕ → ℕ
  pub server_name : Bytes
  -- How often the surroundings have changed: the table by the main thread, the clock, the counters.
  pub moment : ℕ
  -- The requests that are done with, and the responses, as they were sent.
  pub finished : List Request
  pub sent : List Answer

abbrev pub unlocked : Option Request → Place
unlocked none = stopped
unlocked (some r) = processing r

-- `server_name` behind a request that read `seen` and has `name`: it is written where they differ.
abbrev pub renamed : Bytes → Bytes → Bytes → Bytes
renamed seen name old = if equal name seen then old else name

-- The `n` threads behind the constructor.
abbrev pub start : {Real : Type 0} → List Request → (ℕ → State Real) → Bytes → Service Real
start rs cores name = record {
  waiting = rs;
  mutex = none;
  place = λ i. locking;
  core = cores;
  count_req = λ i. 0;
  server_name = name;
  moment = 0;
  finished = [];
  sent = [];
}

-- `lib` is what a request finds that looks at the surroundings at a moment: its query's result, the status
-- page and the text of its cookie.
module _ {Real : Type 0} (lib : ℕ → Libraries Real) (cfg : Settings Real) (cookie_name : Bytes)
    (n : ℕ) where
  -- A step of one thread.
  pub data Step (s t : Service Real) : Type 0 where
    lock :
        {i : ℕ}
        → i < n
        → s.place i ≡ locking
        → s.mutex ≡ none
        → t ≡ record s { mutex = some i; place = updated s.place i accepting }
        → Step s t
    accept :
        {i : ℕ} {r : Request} {rest : List Request}
        → i < n
        → s.place i ≡ accepting
        → s.waiting ≡ r ∷ rest
        → t ≡ record s { waiting = rest; place = updated s.place i (unlocking (some r)) }
        → Step s t
    refuse :
        {i : ℕ}
        → i < n
        → s.place i ≡ accepting
        → t ≡ record s { place = updated s.place i (unlocking none) }
        → Step s t
    unlock :
        {i : ℕ} {o : Option Request}
        → i < n
        → s.place i ≡ unlocking o
        → t ≡ record s { mutex = none; place = updated s.place i (unlocked o) }
        → Step s t
    look_up :
        {i : ℕ} {r : Request}
        → i < n
        → s.place i ≡ processing r
        → t ≡ record s { place = updated s.place i (sending r s.moment s.server_name) }
        → Step s t
    answer :
        {i : ℕ} {r : Request} {m : ℕ} {seen : Bytes} {answers : List Answer} {name : Bytes}
        {c : State Real} {k : ℕ}
        → i < n
        → s.place i ≡ sending r m seen
        → process_request (lib m) cfg cookie_name r seen (s.core i) ≡ ended answers name c
        → incremented (s.count_req i) ≡ some k
        → t ≡ record s {
          place = updated s.place i locking;
          core = updated s.core i (if s.count_req i == 10000000 then new_core c else c);
          count_req = updated s.count_req i k;
          server_name = renamed seen name s.server_name;
          finished = s.finished ++ r ∷ [];
          sent = s.sent ++ answers;
        }
        → Step s t

  -- The states that the threads come to from `s`, in any order of their steps and of
  -- the changes around them.
  pub data Reach (s : Service Real) : Service Real → Type 0 where
    here : Reach s s
    next : {t u : Service Real} → Reach s t → Step t u → Reach s u
    changed : {t u : Service Real} → Reach s t → u ≡ record t { moment = suc t.moment } → Reach s u
