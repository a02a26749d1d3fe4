-- ===== src/Config/Rules.antt =====
-- What a step makes of the settings where it does not end early, rule by rule.
use worker_informer.Base.{Bool, true, false, Option, none, some, ◌≡◌, refl, ap, sym, ◌∙◌, Bytes}
use worker_informer.Helpers.Path.{Outcome, returned, thrown, undefined, check_path}
use worker_informer.Config.Fields.{Config}
use worker_informer.Config.Steps.{
  Environment, Stop, State, Run, done, stopped, Step, then_run, ◌>>=◌, ◌>>◌, pure, stop, modify,
  if_some, if_some_else, checked, check, exit_unless, require_path, remove_file,
}

-- Where the step comes through, it has changed the settings by `g`.
pub record Updates {Fs A : Type 0} (m : Step Fs A) (g : Config → Config) : Type 0 where
  pub holds : (s : State Fs) (a : A) (s' : State Fs) → m s ≡ done a s' → s'.config ≡ g s.config

-- The new value from a text that is there, and the old one otherwise.
abbrev pub or_old : {V : Type 0} → (Bytes → V) → Option Bytes → V → V
or_old conv none old = old
or_old conv (some t) old = conv t

-- What a section changes, if it is there.
abbrev pub section : {X : Type 0} → Option X → (X → Config → Config) → Config → Config
section none g c = c
section (some x) g c = g x c

done_config :
    {Fs A : Type 0} {a b : A} {s t : State Fs}
    → ◌≡◌ {A = Run (State Fs) A} (done a s) (done b t)
    → t.config ≡ s.config
done_config e = cc

module _ {Fs : Type 0} where
  pub then_run_done :
      {A B : Type 0} (r : Run (State Fs) A) (f : A → State Fs → Run (State Fs) B) {b : B}
      {t : State Fs}
      → then_run r f ≡ done b t
      → (a : A) × (s : State Fs) × (r ≡ done a s) × (f a s ≡ done b t)
  then_run_done (done a s) f e = (a, s, refl, e)
  then_run_done (stopped x) f e = cc

  pub bind-Updates :
      {A B : Type 0} {m : Step Fs A} {f : A → Step Fs B} {g h : Config → Config}
      → Updates m g
      → ((a : A) → Updates (f a) h)
      → Updates (m >>= f) (λ c. h (g c))
  bind-Updates {m} {f} {g} {h} first next = record {
    holds = λ s b t e.
        let (a, s', p, q) = then_run_done (m s) f e in
        (next a).holds s' b t q ∙ ap h (first.holds s a s' p);
  }

  pub seq-Updates :
      {B : Type 0} {m : Step Fs (Unit {0})} {k : Step Fs B} {g h : Config → Config}
      → Updates m g
      → Updates k h
      → Updates (m >> k) (λ c. h (g c))
  seq-Updates first next = bind-Updates first (λ _. next)

  pub pure-Updates : {A : Type 0} (a : A) → Updates {Fs = Fs} (pure a) (λ c. c)
  pure-Updates a = record { holds = λ s b t e. done_config e }

  pub modify-Updates : (g : Config → Config) → Updates {Fs = Fs} (modify g) g
  modify-Updates g = record { holds = λ s b t e. done_config e }

  pub stop-Updates :
      {A : Type 0} (x : Stop) (g : Config → Config) → Updates {Fs = Fs} {A = A} (stop x) g
  stop-Updates x g = record { holds = λ s b t e. cc }

  -- An optional field: `get` and `put` are the field.
  pub if_some-Updates :
      {V : Type 0} (get : Config → V) (put : V → Config → Config) (conv : Config → Bytes → V)
      (o : Option Bytes) {f : Bytes → Step Fs (Unit {0})}
      → ((c : Config) → put (get c) c ≡ c)
      → ((t : Bytes) → Updates (f t) (λ c. put (conv c t) c))
      → Updates (if_some o f) (λ c. put (or_old (conv c) o (get c)) c)
  if_some-Updates get put conv none same each = record {
    holds = λ s b t e. done_config e ∙ sym (same s.config);
  }
  if_some-Updates get put conv (some t) same each = each t

  -- A field that is put to `v` or has to be there.
  pub if_some_else-Updates :
      {V : Type 0} (put : V → Config → Config) (conv : Config → Bytes → V) (v : Config → V)
      (o : Option Bytes) {f : Bytes → Step Fs (Unit {0})} {otherwise : Step Fs (Unit {0})}
      → ((t : Bytes) → Updates (f t) (λ c. put (conv c t) c))
      → Updates otherwise (λ c. put (v c) c)
      → Updates (if_some_else o f otherwise) (λ c. put (or_old (conv c) o (v c)) c)
  if_some_else-Updates put conv v none each missing = missing
  if_some_else-Updates put conv v (some t) each missing = each t

  pub section-Updates :
      {X : Type 0} (o : Option X) {f : X → Step Fs (Unit {0})} {g : X → Config → Config}
      → ((x : X) → Updates (f x) (g x))
      → Updates (if_some o f) (section o g)
  section-Updates none each = record { holds = λ s b t e. done_config e }
  section-Updates (some x) each = each x

module _ {Xml Fs : Type 0} (env : Environment Xml Fs) where
  checked_config :
      (c : Config) (o : Outcome Fs) {b : Bool} {t : State Fs}
      → checked env c o ≡ done b t
      → t.config ≡ c
  checked_config c (returned b fs) e = done_config e
  checked_config c (thrown fs) e = cc
  checked_config c undefined e = cc

  pub check-Updates :
      (path : Bytes) (write is_file : Bool) → Updates (check env path write is_file) (λ c. c)
  unfolding check
  check-Updates path write is_file = record {
    holds = λ s b t e. checked_config s.config (check_path env.sys path write is_file s.fs) e;
  }

  exit_unless-Updates : (b : Bool) → Updates (exit_unless env b) (λ c. c)
  exit_unless-Updates true = pure-Updates tt
  exit_unless-Updates false = stop-Updates _ _

  pub require_path-Updates :
      (path : Bytes) (write is_file : Bool) → Updates (require_path env path write is_file) (λ c. c)
  require_path-Updates path write is_file =
      bind-Updates (check-Updates path write is_file) exit_unless-Updates

  pub remove_file-Updates : (path : Bytes) → Updates (remove_file env path) (λ c. c)
  remove_file-Updates path = record { holds = λ s b t e. done_config e }
