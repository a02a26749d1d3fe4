-- ===== src/Config/Returned.antt =====
-- What `Load` returns: false only where the file is not there.
use worker_informer.Base.{
  Bool, true, Option, none, some, ◌≡◌, ◌⊎◌, inl, inr, Bool-cases, codes, is_empty,
}
use worker_informer.Config.Steps.{
  Environment, Run, State, done, exit, Step, ◌>>◌, pure, stop, modify, if_some_else, get_config_dir,
}
use worker_informer.Config.Load.{
  load_mongo, load_log, default_log, load_server, set_instance_id, load_root, load_document,
  with_root, load,
}
use worker_informer.Config.Rules.{then_run_done}
use worker_informer.Config.Refinement.{IsLoaded, started, load-IsLoaded}

-- The step returns nothing but `b`.
record Returns {Fs A : Type 0} (m : Step Fs A) (b : A) : Type 0 where
  only : (s : State Fs) (a : A) (s' : State Fs) → m s ≡ done a s' → a ≡ b

done_result : {S A : Type 0} {a b : A} {s t : S} → ◌≡◌ {A = Run S A} (done a s) (done b t) → b ≡ a
done_result e = cc

seq-Returns :
    {Fs B : Type 0} (m : Step Fs (Unit {0})) (k : Step Fs B) (b : B)
    → Returns k b
    → Returns (m >> k) b
seq-Returns m k b r = record {
  only = λ s a t e. let (u, s', p, q) = then_run_done (m s) (λ _. k) e in r.only s' a t q;
}

pure-Returns : {Fs A : Type 0} (b : A) → Returns {Fs = Fs} (pure b) b
pure-Returns b = record { only = λ s a t e. done_result e }

module _ {Xml Fs : Type 0} (env : Environment Xml Fs) where
  load_root-Returns : (root : Xml) → Returns (load_root env root) true
  unfolding load_root
  load_root-Returns root =
      let all = seq-Returns (set_instance_id env (env.attribute root (codes "id"))) _ true (
        seq-Returns
          (if_some_else (env.first_child root (codes "mongo"))
            (λ m. if_some_else (env.first_child m (codes "main")) (load_mongo env) (stop exit))
            (stop exit))
          _ true
          (seq-Returns
            (if_some_else (env.first_child root (codes "server")) (load_server env) (stop exit)) _
            true
            (seq-Returns
              (if_some_else (env.first_child root (codes "log")) (load_log env)
                (modify (default_log env)))
              _ true
              (seq-Returns
                (modify (λ c. record c {
                  request_processed = 0;
                  last_time_request_processed = 0;
                  is_inited = true;
                }))
                _ true (pure-Returns true))))) in
      all

  with_root-Returns : (o : Option Xml) → Returns (with_root env o) true
  with_root-Returns none = record { only = λ s a t e. cc }
  with_root-Returns (some root) = load_root-Returns root

  load_document-Returns : (o : Option Xml) → Returns (load_document env o) true
  load_document-Returns none = record { only = λ s a t e. cc }
  load_document-Returns (some x) = with_root-Returns (env.first_child x (codes "root"))

  -- A load that comes to its end has loaded the file, or has found no such file and changed nothing but
  -- the directory and the flag `is_inited`.
  pub load_end :
      (s s' : State Fs) (b : Bool)
      → load env s ≡ done b s'
      → IsLoaded env s.config.file_name (started env s).config s'.config
        ⊎ ((is_empty (get_config_dir env s.config.file_name) ≡ true) × (s' ≡ started env s))
  unfolding load
  load_end s s' b e = elim (Bool-cases (is_empty (get_config_dir env s.config.file_name))) [
    | inl h ↦ inr (h, let none_read = rw h at e in cc)
    | inr h ↦
        let run = rw h at e in
        let true_read =
          (load_document-Returns (env.load_file s.config.file_name)).only (started env s) b s'
            run in
        inl (load-IsLoaded env s s' (rw (← true_read) e))
  ]
