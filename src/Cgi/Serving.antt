-- ===== src/Cgi/Serving.antt =====
-- The core's part in a request: it answers and cleans up, or it throws.
use worker_informer.Base.{
  Bool, true, false, none, some, List, ◌≡◌, ◌⊎◌, inl, inr, refl, Option-cases, Bytes,
}
use worker_informer.Core.Params.{Params}
use worker_informer.Core.Informer.{QueryRow}
use worker_informer.Core.State.{State, done, thrown}
use worker_informer.Core.Process.{Settings, LogItem, respond, text_for, process_clean}
use worker_informer.Core.Balance.{
  IsFresh, IsMissing, respond-process_clean, respond-missing-process_clean, respond_thrown,
}
use worker_informer.Cgi.Request.{Libraries}
use worker_informer.Cgi.Expected.{expected_text}

module _ {Real : Type 0} (lib : Libraries Real) (cfg : Settings Real) where
  -- The core answers, and cleans up behind it; or it throws.
  abbrev Serves : Bool → Params → State Real → Type 0
  Serves usercode p s =
      ((html : Bytes) × (s' : State Real) × (items : List LogItem) × (s'' : State Real) × (respond
            lib.outside cfg usercode p s
          ≡ done html s')
        × (process_clean lib.outside cfg p s' ≡ done items s'')
        × (expected_text lib cfg usercode p ≡ some html))
      ⊎ ((s' : State Real) × (respond lib.outside cfg usercode p s ≡ thrown s')
          × (expected_text lib cfg usercode p ≡ none))

  expected-missing :
      (usercode : Bool) (p : Params) (s : State Real)
      → IsMissing lib.outside cfg p s
      → expected_text lib cfg usercode p ≡ some cfg.template_error
  expected-missing usercode p s (inl e) = rw e
  expected-missing usercode p s (inr e) = rw e

  Serves-missing :
      (usercode : Bool) (p : Params) (s : State Real)
      → cfg.log_informer_id ≡ false
      → IsMissing lib.outside cfg p s
      → Serves usercode p s
  Serves-missing usercode p s quiet h =
      let (s', e, _, _, cleans) = respond-missing-process_clean lib.outside cfg p s usercode h in
      let (items, k) = cleans quiet in
      inl (cfg.template_error, s', items, _, e, k, expected-missing usercode p s h)

  Serves-found :
      (usercode : Bool) (p : Params) (s : State Real) (row : QueryRow Real)
      → IsFresh s
      → lib.outside.select p.informer_id ≡ some (some row)
      → Serves usercode p s
  unfolding text_for
  Serves-found true p s row fresh e =
      let (s', items, s'', k, l, _, _) =
        respond-process_clean lib.outside cfg p s true row fresh e refl in
      inl (_, s', items, s'', k, l, rw e)
  Serves-found false p s row fresh e = elim (Option-cases (text_for lib.outside cfg false p row)) [
    | inl n ↦
        let (s', k, _, _, _) = respond_thrown lib.outside cfg p s row e n in inr (s', k, rw e n)
    | inr (html, n) ↦
        let (s', items, s'', k, l, _, _) =
          respond-process_clean lib.outside cfg p s false row fresh e n in
        inl (html, s', items, s'', k, l, rw e n)
  ]

  pub serves :
      (usercode : Bool) (p : Params) (s : State Real)
      → cfg.log_informer_id ≡ false
      → IsFresh s
      → Serves usercode p s
  serves usercode p s quiet fresh = elim (Option-cases (lib.outside.select p.informer_id)) [
    | inl e ↦ Serves-missing usercode p s quiet (inl e)
    | inr (none, e) ↦ Serves-missing usercode p s quiet (inr e)
    | inr (some row, e) ↦ Serves-found usercode p s row fresh e
  ]
