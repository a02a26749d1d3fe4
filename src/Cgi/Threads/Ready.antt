-- ===== src/Cgi/Threads/Ready.antt =====
-- What one step of a thread keeps, and what it sends.
use worker_informer.Base.{
  ℕ, ◌≡◌, Option, none, some, List, [], ◌∷◌, ◌++◌, sym, ap, ◌∙◌, subst, false, Bytes, is_empty, All,
}
use worker_informer.Core.State.{State}
use worker_informer.Core.Process.{Settings}
use worker_informer.Core.Balance.{IsFresh}
use worker_informer.Cgi.Request.{Request, Libraries, Answer, ended, process_request}
use worker_informer.Cgi.Answers.{process_request-IsDue}
use worker_informer.Cgi.Expected.{IsDue}
use worker_informer.Cgi.Loop.{IsServable, KeepsFresh, process_request-KeepsFresh, new_core-IsFresh}
use worker_informer.Cgi.Threads.{
  Place, locking, accepting, unlocking, processing, sending, Service, unlocked, Step, lock, accept,
  refuse, unlock, look_up, answer,
}
use worker_informer.Cgi.Threads.Shared.{updated-keeps}

abbrev pub PlaceIsServable : Place → Type 0
PlaceIsServable (unlocking (some r)) = IsServable r
PlaceIsServable (processing r) = IsServable r
PlaceIsServable (sending r m seen) = IsServable r
PlaceIsServable _ = Unit

-- All requests can be served, and all cores are in order.
pub record IsReady {Real : Type 0} (s : Service Real) : Type 0 where
  pub waiting : All IsServable s.waiting
  pub held : (j : ℕ) → PlaceIsServable (s.place j)
  pub fresh : (j : ℕ) → IsFresh (s.core j)

ended_answers :
    {Real : Type 0} {x y : List Answer} {a b : Bytes} {s t : State Real}
    → ended x a s ≡ ended y b t
    → x ≡ y
ended_answers e = cc

unlocked-IsServable :
    (o : Option Request) → PlaceIsServable (unlocking o) → PlaceIsServable (unlocked o)
unlocked-IsServable none h = tt
unlocked-IsServable (some r) h = h

module _ {Real : Type 0} (lib : ℕ → Libraries Real) (cfg : Settings Real) (cookie_name : Bytes)
    (n : ℕ) where
  pub step-IsReady : (s t : Service Real) → Step lib cfg cookie_name n s t → IsReady s → IsReady t
  step-IsReady s t (lock {i} lt at free e) h = subst IsReady (sym e) (record {
    waiting = h.waiting;
    held = updated-keeps PlaceIsServable s.place i accepting h.held tt;
    fresh = h.fresh;
  })
  step-IsReady s t (accept {i} {r} {rest} lt at some_wait e) h =
      let (first, others) = subst (All IsServable) some_wait h.waiting in
      subst IsReady (sym e) (record {
        waiting = others;
        held = updated-keeps PlaceIsServable s.place i (unlocking (some r)) h.held first;
        fresh = h.fresh;
      })
  step-IsReady s t (refuse {i} lt at e) h = subst IsReady (sym e) (record {
    waiting = h.waiting;
    held = updated-keeps PlaceIsServable s.place i (unlocking none) h.held tt;
    fresh = h.fresh;
  })
  step-IsReady s t (unlock {i} {o} lt at e) h = subst IsReady (sym e) (record {
    waiting = h.waiting;
    held =
        updated-keeps PlaceIsServable s.place i (unlocked o) h.held
          (unlocked-IsServable o (subst PlaceIsServable at (h.held i)));
    fresh = h.fresh;
  })
  step-IsReady s t (look_up {i} {r} lt at e) h = subst IsReady (sym e) (record {
    waiting = h.waiting;
    held =
        updated-keeps PlaceIsServable s.place i (sending r s.moment s.server_name) h.held
          (subst PlaceIsServable at (h.held i));
    fresh = h.fresh;
  })
  step-IsReady s t (answer {i} {r} {m} {seen} {answers} {name} {c} {k} lt at run inc e) h =
      subst IsReady (sym e) (record {
        waiting = h.waiting;
        held = updated-keeps PlaceIsServable s.place i locking h.held tt;
        fresh = updated-keeps IsFresh s.core i _ h.fresh (
            new_core-IsFresh (s.count_req i) c (
              subst KeepsFresh run (
                process_request-KeepsFresh (lib m) cfg cookie_name r seen (s.core i) (h.fresh i))));
      })

  -- A step sends nothing, or it is done with one request and sends the response that it is due by the
  -- surroundings at the moment of its query.
  pub data Sends (s t : Service Real) : Type 0 where
    nothing_sent : t.finished ≡ s.finished → t.sent ≡ s.sent → Sends s t
    one_sent :
        {i : ℕ} (r : Request) (m : ℕ) (seen : Bytes) (a : Answer)
        → s.place i ≡ sending r m seen
        → IsDue (lib m) cfg cookie_name r seen a
        → t.finished ≡ s.finished ++ r ∷ []
        → t.sent ≡ s.sent ++ a ∷ []
        → Sends s t

  module _ (quiet : cfg.log_informer_id ≡ false)
      (nonempty : (m : ℕ) (name : Bytes) → is_empty ((lib m).status_page name) ≡ false) where
    answered_once :
        (m : ℕ) (r : Request) (name : Bytes) (c : State Real) {answers : List Answer}
        {name' : Bytes} {c' : State Real}
        → IsServable r
        → IsFresh c
        → process_request (lib m) cfg cookie_name r name c ≡ ended answers name' c'
        → (a : Answer) × IsDue (lib m) cfg cookie_name r name a × (answers ≡ a ∷ [])
    answered_once m r name c (fine, later, (query, ip, script, q, i, x, fits)) fresh e =
        let (a, first, (name₁, c₁, one)) =
          process_request-IsDue (lib m) cfg cookie_name r query ip script name c fine later q i x
            fits quiet fresh (nonempty m) in
        (a, first, ended_answers (sym e ∙ one))

    pub step-Sends : (s t : Service Real) → Step lib cfg cookie_name n s t → IsReady s → Sends s t
    step-Sends s t (lock lt at free e) h =
        nothing_sent (ap (λ u. u.finished) e) (ap (λ u. u.sent) e)
    step-Sends s t (accept lt at some_wait e) h =
        nothing_sent (ap (λ u. u.finished) e) (ap (λ u. u.sent) e)
    step-Sends s t (refuse lt at e) h = nothing_sent (ap (λ u. u.finished) e) (ap (λ u. u.sent) e)
    step-Sends s t (unlock lt at e) h = nothing_sent (ap (λ u. u.finished) e) (ap (λ u. u.sent) e)
    step-Sends s t (look_up lt at e) h = nothing_sent (ap (λ u. u.finished) e) (ap (λ u. u.sent) e)
    step-Sends s t (answer {i} {r} {m} {seen} lt at run inc e) h =
        let (a, first, one) =
          answered_once m r seen (s.core i) (subst PlaceIsServable at (h.held i)) (h.fresh i) run in
        one_sent r m seen a at first (ap (λ u. u.finished) e)
          (ap (λ u. u.sent) e ∙ ap (λ x. s.sent ++ x) one)
