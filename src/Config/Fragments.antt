-- ===== src/Config/Fragments.antt =====
-- The steps that the sections of `Load` share: an element that is read, with what follows it.
use worker_informer.Base.{Bool, true, false, Option, ◌++◌, ◌≡◌, if◌then◌else◌, Bytes}
use worker_informer.Config.Fields.{Config}
use worker_informer.Config.Steps.{
  Environment, exit, Step, ◌>>◌, pure, stop, modify, if_some, if_some_else, get_file_contents,
  remove_file,
}
use worker_informer.Config.Load.{require_geocity, set_db_dump_path, beside}
use worker_informer.Config.Rules.{
  Updates, or_old, pure-Updates, modify-Updates, stop-Updates, if_some-Updates,
  if_some_else-Updates, seq-Updates, require_path-Updates, remove_file-Updates,
}

module _ {Fs : Type 0} where
  pub field :
      {V : Type 0} (get : Config → V) (put : V → Config → Config) (conv : Bytes → V)
      (o : Option Bytes)
      → ((c : Config) → put (get c) c ≡ c)
      → Updates {Fs = Fs}
          (if_some o (λ t. modify (put (conv t))))
          (λ c. put (or_old conv o (get c)) c)
  field get put conv o same =
      if_some-Updates get put (λ c. conv) o same (λ t. modify-Updates (put (conv t)))

  -- A field with a step behind it that leaves the settings alone.
  pub guarded :
      {V : Type 0} (get : Config → V) (put : V → Config → Config) (conv : Bytes → V)
      (o : Option Bytes) (rest : Bytes → Step Fs (Unit {0}))
      → ((c : Config) → put (get c) c ≡ c)
      → ((t : Bytes) → Updates (rest t) (λ c. c))
      → Updates
          (if_some o (λ t. modify (put (conv t)) >> rest t))
          (λ c. put (or_old conv o (get c)) c)
  guarded get put conv o rest same quiet =
      if_some-Updates get put (λ c. conv) o same
        (λ t. seq-Updates (modify-Updates (put (conv t))) (quiet t))

  pub required :
      (get : Config → Bytes) (put : Bytes → Config → Config) (o : Option Bytes)
      → Updates {Fs = Fs}
          (if_some_else o (λ t. modify (put t)) (stop exit))
          (λ c. put (or_old (λ t. t) o (get c)) c)
  required get put o =
      if_some_else-Updates put (λ c t. t) get o (λ t. modify-Updates (put t)) (stop-Updates exit _)

  pub if-Updates :
      {m k : Step Fs (Unit {0})} (b : Bool)
      → Updates m (λ c. c)
      → Updates k (λ c. c)
      → Updates (if b then m else k) (λ c. c)
  if-Updates true u v = u
  if-Updates false u v = v

module _ {Xml Fs : Type 0} (env : Environment Xml Fs) where
  pub beside-Updates :
      (put : Bytes → Config → Config) (t : Bytes)
      → Updates (beside env put t) (λ c. put (get_file_contents env (c.cfg_file_path ++ t)) c)
  beside-Updates put t = record {
    holds = λ s.
        (seq-Updates (require_path-Updates env (s.config.cfg_file_path ++ t) false true)
            (modify-Updates (put (get_file_contents env (s.config.cfg_file_path ++ t))))).holds
          s;
  }

  pub require_geocity-Updates : Updates (require_geocity env) (λ c. c)
  require_geocity-Updates = record {
    holds = λ s. (require_path-Updates env s.config.geocity_path false true).holds s;
  }

  abbrev pub remove_if : Bytes → Bool → Step Fs (Unit {0})
  remove_if t ok = if ok then remove_file env t else pure tt

  pub remove_if-Updates : (t : Bytes) (b : Bool) → Updates (remove_if t b) (λ c. c)
  remove_if-Updates t true = remove_file-Updates env t
  remove_if-Updates t false = pure-Updates tt

  pub set_db_dump_path-Updates :
      (t : Bytes)
      → Updates (set_db_dump_path env t) (λ c. record c { db_dump_path = c.cfg_file_path ++ t })
  set_db_dump_path-Updates t = record {
    holds = λ s.
        (seq-Updates (modify-Updates (λ c. record c { db_dump_path = s.config.cfg_file_path ++ t }))
            (require_path-Updates env (s.config.cfg_file_path ++ t) false false)).holds
          s;
  }
