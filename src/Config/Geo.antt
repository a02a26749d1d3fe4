-- ===== src/Config/Geo.antt =====
-- The paths of the two geographical files.
use worker_informer.Base.{true, false, Option, some, ◌≡◌, refl, sym, ap, subst, ◌∙◌, Bytes, codes}
use worker_informer.Helpers.Path.{Outcome, returned, thrown, undefined, check_path}
use worker_informer.Config.Fields.{Config}
use worker_informer.Config.Steps.{
  Environment, State, done, Step, then_run, ◌>>◌, modify, if_some, text_at, checked, check,
  exit_unless,
}
use worker_informer.Config.Load.{require_geocity, load_geo}
use worker_informer.Config.Rules.{then_run_done}

module _ {Xml Fs : Type 0} (env : Environment Xml Fs) where
  checked_either :
      (c c' : Config) (o : Outcome Fs) (t : State Fs)
      → then_run (checked env c o) (exit_unless env) ≡ done tt t
      → then_run (checked env c' o) (exit_unless env) ≡ done tt (record { config = c'; fs = t.fs })
  checked_either c c' (returned true fs) t e = cc
  checked_either c c' (returned false fs) t e = cc
  checked_either c c' (thrown fs) t e = cc
  checked_either c c' undefined t e = cc

  checked_same :
      (c : Config) (o : Outcome Fs) (t : State Fs)
      → then_run (checked env c o) (exit_unless env) ≡ done tt t
      → t.config ≡ c
  checked_same c (returned true fs) t e = cc
  checked_same c (returned false fs) t e = cc
  checked_same c (thrown fs) t e = cc
  checked_same c undefined t e = cc

  -- A third step, on a text of the document.
  abbrev country : Option Bytes → Step Fs (Unit {0})
  country o = if_some o (λ t. modify (λ c. record c { geocountry_path = t }) >> require_geocity env)

  country_either :
      (a b : Bytes) (s t : State Fs)
      → country (some a) s ≡ done tt t
      → country (some b) s ≡ done tt (record t { config = record t.config { geocountry_path = b } })
  unfolding check
  country_either a b s t e =
      let o = check_path env.sys s.config.geocity_path false true s.fs in
      let same : t.config ≡ record s.config { geocountry_path = a } =
        checked_same (record s.config { geocountry_path = a }) o t e in
      let other : country (some b) s
          ≡ done tt (record { config = record s.config { geocountry_path = b }; fs = t.fs }) =
        checked_either (record s.config { geocountry_path = a })
          (record s.config { geocountry_path = b }) o t e in
      other ∙ rw same refl

  abbrev steps : Option Bytes → Option Bytes → Option Bytes → Step Fs (Unit {0})
  steps ip city o =
      if_some ip (λ t. modify (λ c. record c { server_ip = t }))
      >> (if_some city (λ t. modify (λ c. record c { geocity_path = t }) >> require_geocity env)
          >> country o)

  steps_either :
      (ip city : Option Bytes) (a b : Bytes) (s t : State Fs)
      → steps ip city (some a) s ≡ done tt t
      → steps ip city (some b) s
        ≡ done tt (record t { config = record t.config { geocountry_path = b } })
  steps_either ip city a b s t e =
      let first = if_some ip (λ t. modify (λ c. record c { server_ip = t })) in
      let second =
        if_some city (λ t. modify (λ c. record c { geocity_path = t }) >> require_geocity env) in
      let (_, s₁, p, q) = then_run_done (first s) (λ _. second >> country (some a)) e in
      let (_, s₂, p', q') = then_run_done (second s₁) (λ _. country (some a)) q in
      ap (λ r. then_run r (λ _. second >> country (some b))) p
      ∙ (ap (λ r. then_run r (λ _. country (some b))) p' ∙ country_either a b s₂ t q')

  -- The path in `geocountry_path` is never checked: a document that `Load` takes is taken as well with
  -- any other text in that element, and the setting is then that text.
  pub load_geo_unchecked :
      (x y : Xml) (a b : Bytes) (s t : State Fs)
      → text_at env y (codes "ip") ≡ text_at env x (codes "ip")
      → text_at env y (codes "geocity_path") ≡ text_at env x (codes "geocity_path")
      → text_at env x (codes "geocountry_path") ≡ some a
      → text_at env y (codes "geocountry_path") ≡ some b
      → load_geo env x s ≡ done tt t
      → load_geo env y s ≡ done tt (record t { config = record t.config { geocountry_path = b } })
  unfolding load_geo
  load_geo_unchecked x y a b s t i g p q e =
      let at : steps (text_at env x (codes "ip")) (text_at env x (codes "geocity_path")) (some a) s
          ≡ done tt t =
        subst
          (λ o.
            steps (text_at env x (codes "ip")) (text_at env x (codes "geocity_path")) o s
            ≡ done tt t)
          p e in
      let goal : State Fs = record t { config = record t.config { geocountry_path = b } } in
      subst
        (λ o.
          steps o (text_at env y (codes "geocity_path")) (text_at env y (codes "geocountry_path")) s
          ≡ done tt goal)
        (sym i)
        (subst
          (λ o.
            steps (text_at env x (codes "ip")) o (text_at env y (codes "geocountry_path")) s
            ≡ done tt goal)
          (sym g)
          (subst
            (λ o.
              steps (text_at env x (codes "ip")) (text_at env x (codes "geocity_path")) o s
              ≡ done tt goal)
            (sym q)
            (steps_either (text_at env x (codes "ip")) (text_at env x (codes "geocity_path")) a b s
              t at)))
