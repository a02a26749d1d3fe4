-- ===== src/Core/Balance.antt =====
-- The life of the `Informer` object over one request: built by `getInformer`, deleted by
-- `ProcessClean`.
use worker_informer.Base.{
  ℕ, ◌+◌, ◌≤◌, ◌<◌, Bool, true, false, Option, none, some, List, ◌≡◌, ◌≢◌, ◌⊎◌, inl, inr, refl, sym,
  ◌∙◌, ◌==◌, Bool-cases, Option-cases, arith, Bytes,
}
use worker_informer.Core.Params.{Params}
use worker_informer.Core.Informer.{QueryRow, new_informer}
use worker_informer.Core.State.{State, done, thrown, crash, allocate, free}
use worker_informer.Core.Process.{
  Outside, Settings, LogItem, built, get_informer, respond, text_for, log, clear, process_clean,
}

==_refl : (n : ℕ) → (n == n) ≡ true
==_refl n = ground arith

-- Nothing lives at an address that was not given out yet.
abbrev pub IsFresh : {Real : Type 0} → State Real → Type 0
IsFresh s = (a : ℕ) → s.next ≤ a → s.cell a ≡ none

-- One more request processed.
abbrev pub counted : {Real : Type 0} → State Real → State Real
counted t = record t { request_processed = t.request_processed + 1 }

module _ {Real : Type 0} (outside : Outside Real) (cfg : Settings Real) (p : Params)
    (s : State Real) where
  -- The request's informer is built at the next address.
  abbrev pub holding : QueryRow Real → State Real
  holding r = allocate (new_informer cfg.range_category r) (record s { informer = none })

  holding_cell :
      (r : QueryRow Real) → (holding r).cell s.next ≡ some (new_informer cfg.range_category r)
  holding_cell r = let e : (s.next == s.next) ≡ true = ground arith in rw e

  free-holding :
      (r : QueryRow Real) (a : ℕ)
      → IsFresh s
      → (free s.next (counted (holding r))).cell a ≡ s.cell a
  free-holding r a fresh = elim (Bool-cases (a == s.next)) [
    | inl e ↦ rw e (sym (fresh a (ground arith)))
    | inr e ↦ rw e
  ]

  respond_found :
      (usercode : Bool) (r : QueryRow Real) {html : Bytes}
      → outside.select p.informer_id ≡ some (some r)
      → text_for outside cfg usercode p r ≡ some html
      → respond outside cfg usercode p s ≡ done html (holding r)
  unfolding respond text_for
  respond_found true r found e = rw (found, holding_cell r) cc
  respond_found false r found e = rw (found, holding_cell r) (rw e)

  log-holding-ne-none : (r : QueryRow Real) → log outside cfg p (counted (holding r)) ≢ none
  unfolding log
  log-holding-ne-none r e = elim (Bool-cases cfg.log_informer_id) [
    | inl f ↦ ground (arith, holding_cell r)
    | inr f ↦ let bad = rw f at e in cc
  ]

  log-holding :
      (r : QueryRow Real)
      → (items : List LogItem) × (log outside cfg p (counted (holding r)) ≡ some items)
  log-holding r = elim (Option-cases (log outside cfg p (counted (holding r)))) [
    | inl e ↦ absurd (log-holding-ne-none r e)
    | inr found ↦ found
  ]

  clear-holding :
      (r : QueryRow Real)
      → clear outside cfg (counted (holding r)) ≡ some (free s.next (counted (holding r)))
  unfolding clear
  clear-holding r = rw (holding_cell r)

  -- A request for an informer that is found, with the page's format in order, is answered with the
  -- text for it. `ProcessClean` then counts the request and deletes the object: every cell of the
  -- heap is as it was before the request.
  pub respond-process_clean :
      (usercode : Bool) (r : QueryRow Real) {html : Bytes}
      → IsFresh s
      → outside.select p.informer_id ≡ some (some r)
      → text_for outside cfg usercode p r ≡ some html
      → (s' : State Real) × (items : List LogItem) × (s'' : State Real) × (respond outside cfg
            usercode p s
          ≡ done html s')
        × (process_clean outside cfg p s' ≡ done items s'')
        × ((a : ℕ) → s''.cell a ≡ s.cell a)
        × (s''.request_processed ≡ s.request_processed + 1)
  unfolding process_clean
  respond-process_clean usercode r fresh found e =
      let (items, logged) = log-holding r in
      (
        holding r,
        items,
        free s.next (counted (holding r)),
        respond_found usercode r found e,
        rw (logged, clear-holding r),
        λ a. free-holding r a fresh,
        refl,
      )

  -- The state with no object for the request.
  abbrev pub missing : State Real
  missing = record s { informer = none }

  -- The query gives no row: an exception, or an empty result.
  abbrev pub IsMissing : Type 0
  IsMissing = (outside.select p.informer_id ≡ none) ⊎ (outside.select p.informer_id ≡ some none)

  respond-missing :
      (usercode : Bool)
      → IsMissing
      → respond outside cfg usercode p s ≡ done cfg.template_error missing
  unfolding respond
  respond-missing true (inl e) = rw e
  respond-missing true (inr e) = rw e
  respond-missing false (inl e) = rw e
  respond-missing false (inr e) = rw e

  log-missing-ne-none : cfg.log_informer_id ≡ false → log outside cfg p (counted missing) ≢ none
  unfolding log
  log-missing-ne-none f e = let bad = rw f at e in cc

  -- A request for an informer that is not found is answered with the error template and leaves the
  -- heap as it is. `ProcessClean` then goes through where ids are not logged; where they are, it
  -- reads through the null pointer.
  pub respond-missing-process_clean :
      (usercode : Bool)
      → IsMissing
      → (s' : State Real) × (respond outside cfg usercode p s ≡ done cfg.template_error s')
        × ((a : ℕ) → s'.cell a ≡ s.cell a)
        × (cfg.log_informer_id ≡ true → process_clean outside cfg p s' ≡ crash)
        × (cfg.log_informer_id ≡ false
            → (items : List LogItem) × (process_clean outside cfg p s' ≡ done items (counted s')))
  unfolding process_clean
  respond-missing-process_clean usercode none_found = (
    missing,
    respond-missing usercode none_found,
    λ a. refl,
    λ f. unfold log in rw f,
    λ f. elim (Option-cases (log outside cfg p (counted missing))) [
      | inl e ↦ absurd (log-missing-ne-none f e)
      | inr (items, e) ↦ (items, rw e)
    ],
  )

  built_keeps :
      (o : Option (Option (QueryRow Real))) (t : State Real) (a : ℕ)
      → t.informer ≡ none
      → a < t.next
      → ((built outside cfg o t).1.informer ≢ some a)
        × ((built outside cfg o t).1.cell a ≡ t.cell a)
  built_keeps none t a e h = ((λ k. cc), refl)
  built_keeps (some none) t a e h = ((λ k. cc), refl)
  built_keeps (some (some r)) t a e h = ((λ k. absurd (ground arith)), ground arith)

  -- Where the page's format throws, the object built for the request stays on the heap, and the
  -- request is not counted. The pointer to the object is lost by the next `getInformer`.
  pub respond_thrown :
      (r : QueryRow Real)
      → outside.select p.informer_id ≡ some (some r)
      → text_for outside cfg false p r ≡ none
      → (s' : State Real) × (respond outside cfg false p s ≡ thrown s')
        × (s'.cell s.next ≡ some (new_informer cfg.range_category r))
        × (s'.request_processed ≡ s.request_processed)
        × ((other : Bytes)
            → ((get_informer outside cfg other s').1.informer ≢ some s.next)
              × ((get_informer outside cfg other s').1.cell s.next
                  ≡ some (new_informer cfg.range_category r)))
  unfolding respond text_for get_informer
  respond_thrown r found e =
      let lost : State Real = record (holding r) { informer = none } in
      (
        holding r,
        rw (found, holding_cell r) (rw e),
        holding_cell r,
        refl,
        λ other. (
          (built_keeps (outside.select other) lost s.next refl (omega arith)).0,
          (built_keeps (outside.select other) lost s.next refl (omega arith)).1 ∙ holding_cell r,
        ),
      )
