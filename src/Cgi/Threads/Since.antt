-- ===== src/Cgi/Threads/Since.antt =====
-- What the threads send between two states, while the table, the clock and the counters change.
use worker_informer.Base.{
  ℕ, suc, ◌≤◌, ◌⊎◌, inl, inr, false, Option, none, some, List, [], ◌∷◌, ◌++◌, append-nil,
  append_assoc, ◌≡◌, refl, sym, ap, ◌∙◌, subst, arith, Bytes, is_empty, All,
}
use worker_informer.Core.State.{State}
use worker_informer.Core.Process.{Settings}
use worker_informer.Core.Balance.{IsFresh}
use worker_informer.Cgi.Request.{Request, Libraries, Answer}
use worker_informer.Cgi.Expected.{IsDue}
use worker_informer.Cgi.Loop.{IsServable}
use worker_informer.Cgi.Threads.{
  Place, locking, accepting, unlocking, processing, sending, stopped, Service, unlocked, start,
  Step, lock, accept, refuse, unlock, look_up, answer, Reach, here, next, changed,
}
use worker_informer.Cgi.Threads.Shared.{updated-keeps}
use worker_informer.Cgi.Threads.Ready.{
  IsReady, Sends, nothing_sent, one_sent, step-IsReady, step-Sends,
}
use worker_informer.Cgi.Threads.Once.{IsConserved, step-IsConserved}

module _ {Real : Type 0} (s : Service Real) where
  -- A request whose query had the moment `m`: not before `s` and not after `hi`; or a thread had it
  -- behind its query already in the state `s`.
  abbrev pub IsSeen : ℕ → Request → ℕ → Bytes → Type 0
  IsSeen hi r m seen = ((s.moment ≤ m) × (m ≤ hi)) ⊎ ((i : ℕ) × (s.place i ≡ sending r m seen))

  abbrev pub PlaceIsSeen : ℕ → Place → Type 0
  PlaceIsSeen hi (sending r m seen) = IsSeen hi r m seen
  PlaceIsSeen hi _ = Unit

  PlaceIsSeen-here : (hi i : ℕ) (p : Place) → s.place i ≡ p → PlaceIsSeen hi p
  PlaceIsSeen-here hi i locking e = tt
  PlaceIsSeen-here hi i accepting e = tt
  PlaceIsSeen-here hi i (unlocking o) e = tt
  PlaceIsSeen-here hi i (processing r) e = tt
  PlaceIsSeen-here hi i (sending r m seen) e = inr (i, e)
  PlaceIsSeen-here hi i stopped e = tt

  PlaceIsSeen-unlocked : (hi : ℕ) (o : Option Request) → PlaceIsSeen hi (unlocked o)
  PlaceIsSeen-unlocked hi none = tt
  PlaceIsSeen-unlocked hi (some r) = tt

  IsSeen-suc :
      (hi : ℕ) (r : Request) (m : ℕ) (seen : Bytes) → IsSeen hi r m seen → IsSeen (suc hi) r m seen
  IsSeen-suc hi r m seen (inl (low, high)) = inl (low, omega arith)
  IsSeen-suc hi r m seen (inr there) = inr there

  PlaceIsSeen-suc : (hi : ℕ) (p : Place) → PlaceIsSeen hi p → PlaceIsSeen (suc hi) p
  PlaceIsSeen-suc hi locking h = tt
  PlaceIsSeen-suc hi accepting h = tt
  PlaceIsSeen-suc hi (unlocking o) h = tt
  PlaceIsSeen-suc hi (processing r) h = tt
  PlaceIsSeen-suc hi (sending r m seen) h = IsSeen-suc hi r m seen h
  PlaceIsSeen-suc hi stopped h = tt

  -- The threads, on the way from `s`.
  pub record IsOnWay (t : Service Real) : Type 0 where
    pub later : s.moment ≤ t.moment
    pub in_flight : (j : ℕ) → PlaceIsSeen t.moment (t.place j)

module _ {Real : Type 0} (lib : ℕ → Libraries Real) (cfg : Settings Real) (cookie_name : Bytes)
    (n : ℕ) where
  step-IsOnWay : (s t u : Service Real) → Step lib cfg cookie_name n t u → IsOnWay s t → IsOnWay s u
  step-IsOnWay s t u (lock {i} lt at free e) h = subst (IsOnWay s) (sym e) (record {
    later = h.later;
    in_flight = updated-keeps (PlaceIsSeen s t.moment) t.place i accepting h.in_flight tt;
  })
  step-IsOnWay s t u (accept {i} {r} lt at some_wait e) h = subst (IsOnWay s) (sym e) (record {
    later = h.later;
    in_flight =
        updated-keeps (PlaceIsSeen s t.moment) t.place i (unlocking (some r)) h.in_flight tt;
  })
  step-IsOnWay s t u (refuse {i} lt at e) h = subst (IsOnWay s) (sym e) (record {
    later = h.later;
    in_flight = updated-keeps (PlaceIsSeen s t.moment) t.place i (unlocking none) h.in_flight tt;
  })
  step-IsOnWay s t u (unlock {i} {o} lt at e) h = subst (IsOnWay s) (sym e) (record {
    later = h.later;
    in_flight =
        updated-keeps (PlaceIsSeen s t.moment) t.place i (unlocked o) h.in_flight
          (PlaceIsSeen-unlocked s t.moment o);
  })
  step-IsOnWay s t u (look_up {i} {r} lt at e) h = subst (IsOnWay s) (sym e) (record {
    later = h.later;
    in_flight =
        updated-keeps (PlaceIsSeen s t.moment) t.place i (sending r t.moment t.server_name)
          h.in_flight (inl (h.later, omega arith));
  })
  step-IsOnWay s t u (answer {i} lt at run inc e) h = subst (IsOnWay s) (sym e) (record {
    later = h.later;
    in_flight = updated-keeps (PlaceIsSeen s t.moment) t.place i locking h.in_flight tt;
  })

  changed-IsOnWay :
      (s t u : Service Real) → u ≡ record t { moment = suc t.moment } → IsOnWay s t → IsOnWay s u
  changed-IsOnWay s t u e h = subst (IsOnWay s) (sym e) (record {
    later = omega (arith, h.later);
    in_flight = λ j. PlaceIsSeen-suc s t.moment (t.place j) (h.in_flight j);
  })

  -- One for one and in order, the responses are those that the requests are due by the surroundings at the
  -- moments of their queries.
  pub data AreShown (s : Service Real) (hi : ℕ) : List Request → List Answer → Type 0 where
    none_shown : AreShown s hi [] []
    shown :
        {rs qs : List Request} {xs ys : List Answer} (m : ℕ) (r : Request) (a : Answer)
        (seen : Bytes)
        → AreShown s hi rs xs
        → IsSeen s hi r m seen
        → IsDue (lib m) cfg cookie_name r seen a
        → qs ≡ rs ++ r ∷ []
        → ys ≡ xs ++ a ∷ []
        → AreShown s hi qs ys

  AreShown-suc :
      (s : Service Real) (hi : ℕ) {rs : List Request} {xs : List Answer}
      → AreShown s hi rs xs
      → AreShown s (suc hi) rs xs
  AreShown-suc s hi none_shown = none_shown
  AreShown-suc s hi (shown m r a seen rest h d e f) =
      shown m r a seen (AreShown-suc s hi rest) (IsSeen-suc s hi r m seen h) d e f

  -- What was sent on the way from `s` to `t`.
  pub record IsSince (s t : Service Real) : Type 0 where
    pub rs : List Request
    pub xs : List Answer
    pub finished : t.finished ≡ s.finished ++ rs
    pub sent : t.sent ≡ s.sent ++ xs
    pub up_to_date : AreShown s t.moment rs xs

  step_moment : (s t : Service Real) → Step lib cfg cookie_name n s t → t.moment ≡ s.moment
  step_moment s t (lock lt at free e) = ap (λ u. u.moment) e
  step_moment s t (accept lt at some_wait e) = ap (λ u. u.moment) e
  step_moment s t (refuse lt at e) = ap (λ u. u.moment) e
  step_moment s t (unlock lt at e) = ap (λ u. u.moment) e
  step_moment s t (look_up lt at e) = ap (λ u. u.moment) e
  step_moment s t (answer lt at run inc e) = ap (λ u. u.moment) e

  IsSince-Sends :
      (s t u : Service Real)
      → IsSince s t
      → IsOnWay s t
      → u.moment ≡ t.moment
      → Sends lib cfg cookie_name n t u
      → IsSince s u
  IsSince-Sends s t u h w same (nothing_sent e k) = record {
    rs = h.rs;
    xs = h.xs;
    finished = e ∙ h.finished;
    sent = k ∙ h.sent;
    up_to_date = subst (λ hi. AreShown s hi h.rs h.xs) (sym same) h.up_to_date;
  }
  IsSince-Sends s t u h w same (one_sent {i} r m seen a at d e k) = record {
    rs = h.rs ++ r ∷ [];
    xs = h.xs ++ a ∷ [];
    finished = e ∙ ap (λ l. l ++ r ∷ []) h.finished ∙ append_assoc s.finished h.rs (r ∷ []);
    sent = k ∙ ap (λ l. l ++ a ∷ []) h.sent ∙ append_assoc s.sent h.xs (a ∷ []);
    up_to_date =
        subst (λ hi. AreShown s hi (h.rs ++ r ∷ []) (h.xs ++ a ∷ [])) (sym same)
          (shown m r a seen h.up_to_date (subst (PlaceIsSeen s t.moment) at (w.in_flight i)) d refl
            refl);
  }

  module _ (quiet : cfg.log_informer_id ≡ false)
      (nonempty : (m : ℕ) (name : Bytes) → is_empty ((lib m).status_page name) ≡ false) where
    -- What every step and every change keeps, from `s` on.
    pub record IsServing (rs : List Request) (s t : Service Real) : Type 0 where
      pub ready : IsReady t
      pub conserved : IsConserved n rs t
      pub on_way : IsOnWay s t
      pub since : IsSince s t

    pub reach-IsServing :
        (rs : List Request) (s : Service Real) {t : Service Real}
        → Reach lib cfg cookie_name n s t
        → IsReady s
        → IsConserved n rs s
        → IsServing rs s t
    reach-IsServing rs s here ready conserved = record {
      ready = ready;
      conserved = conserved;
      on_way = record {
        later = omega arith;
        in_flight = λ j. PlaceIsSeen-here s s.moment j (s.place j) refl;
      };
      since = record {
        rs = [];
        xs = [];
        finished = sym (append-nil s.finished);
        sent = sym (append-nil s.sent);
        up_to_date = none_shown;
      };
    }
    reach-IsServing rs s (next {t} {u} r step) ready conserved =
        let h = reach-IsServing rs s r ready conserved in
        record {
          ready = step-IsReady lib cfg cookie_name n t u step h.ready;
          conserved = step-IsConserved lib cfg cookie_name n rs t u step h.conserved;
          on_way = step-IsOnWay s t u step h.on_way;
          since =
              IsSince-Sends s t u h.since h.on_way (step_moment t u step)
                (step-Sends lib cfg cookie_name n quiet nonempty t u step h.ready);
        }
    reach-IsServing rs s (changed {t} {u} r e) ready conserved =
        let h = reach-IsServing rs s r ready conserved in
        subst (IsServing rs s) (sym e) (record {
          ready = record { waiting = h.ready.waiting; held = h.ready.held; fresh = h.ready.fresh };
          conserved = h.conserved;
          on_way = changed-IsOnWay s t _ refl h.on_way;
          since = record {
            rs = h.since.rs;
            xs = h.since.xs;
            finished = h.since.finished;
            sent = h.since.sent;
            up_to_date = AreShown-suc s t.moment h.since.up_to_date;
          };
        })

    pub start-IsReady :
        (rs : List Request) (cores : ℕ → State Real) (name : Bytes)
        → All IsServable rs
        → ((j : ℕ) → IsFresh (cores j))
        → IsReady (start rs cores name)
    start-IsReady rs cores name ok fresh = record { waiting = ok; held = λ j. tt; fresh = fresh }
