-- ===== src/Startup/Served.antt =====
-- With which settings the process comes to serve.
use worker_informer.Base.{
  ℕ, Bool, true, false, Option, none, some, List, ◌≡◌, ◌⊎◌, inl, inr, refl, Option-cases, Bytes,
  is_empty,
}
use worker_informer.Config.Steps.{Environment, State, Run, done, stopped, get_config_dir}
use worker_informer.Config.Refinement.{IsLoaded, started}
use worker_informer.Config.Returned.{load_end}
use worker_informer.Startup.Options.{
  Argument, Options, default_options, read_options, serving, with_socket, served, after_load,
  loaded, main,
}

module _ {Xml Fs : Type 0} (env : Environment Xml Fs) (usage : Bytes)
    (server : Bytes → Bytes → Option ℕ) where
  -- The state in which the file of `-c` is looked for.
  abbrev pub opened : Options → State Fs → State Fs
  opened o s = started env (record s { config = record s.config { file_name = o.config } })

  -- How a process that serves with the settings of `s'` came to it.
  pub record IsServing (arguments : List Argument) (s s' : State Fs) : Type 0 where
    pub options : Options
    pub left : State Fs
    pub read : read_options arguments default_options ≡ some options
    pub no_test : options.test_config ≡ false
    pub no_print : options.print_pid_file ≡ false
    pub launched : server left.config.lock_file left.config.pid_file ≡ none
    pub settings : s'.config ≡ with_socket options.sock_path left.config
    pub origin :
        IsLoaded env options.config (opened options s).config left.config
        ⊎ ((is_empty (get_config_dir env options.config) ≡ true) × (left ≡ opened options s))

  -- What the end of `after_load` tells.
  record IsPast (o : Options) (left s' : State Fs) : Type 0 where
    no_test : o.test_config ≡ false
    no_print : o.print_pid_file ≡ false
    launched : server left.config.lock_file left.config.pid_file ≡ none
    settings : s'.config ≡ with_socket o.sock_path left.config

  served-IsPast :
      (o : Options) (s s' : State Fs) (code : Option ℕ)
      → served env usage server o s code ≡ serving s'
      → (code ≡ none) × (s'.config ≡ with_socket o.sock_path s.config)
  served-IsPast o s s' none e = (refl, cc)
  served-IsPast o s s' (some code) e = cc

  after_load-IsPast :
      (o : Options) (s s' : State Fs) (b c : Bool)
      → o.test_config ≡ b
      → o.print_pid_file ≡ c
      → after_load env usage server o s ≡ serving s'
      → IsPast o s s'
  unfolding after_load
  after_load-IsPast o s s' true c t p e = let bad = rw t at e in cc
  after_load-IsPast o s s' false true t p e = let bad = rw (t, p) at e in cc
  after_load-IsPast o s s' false false t p e =
      let (launched, settings) = served-IsPast o s s' _ (rw (t, p) at e) in
      record { no_test = t; no_print = p; launched = launched; settings = settings }

  loaded-done :
      (o : Options) (run : Run (State Fs) Bool) (s' : State Fs)
      → loaded env usage server o run ≡ serving s'
      → (b : Bool) × (left : State Fs) × (run ≡ done b left) × IsPast o left s'
  loaded-done o (done b left) s' e =
      (b, left, refl, after_load-IsPast o left s' o.test_config o.print_pid_file refl refl e)
  loaded-done o (stopped x) s' e = cc

  -- A process that comes to serve was given neither `-t` nor `-p`, is what `new Server` left running,
  -- and has the settings of its file, or, where there is no such file, those it had before; but for the
  -- socket, if `-s` names one of more than 8 bytes.
  pub main-IsServing :
      (arguments : List Argument) (s s' : State Fs)
      → main env usage server arguments s ≡ serving s'
      → IsServing arguments s s'
  unfolding main
  main-IsServing arguments s s' e = elim (Option-cases (read_options arguments default_options)) [
    | inl bad ↦ let exits = rw bad at e in cc
    | inr (o, read) ↦
        let (b, left, run, past) = loaded-done o _ s' (rw read at e) in
        record {
          options = o;
          left = left;
          read = read;
          no_test = past.no_test;
          no_print = past.no_print;
          launched = past.launched;
          settings = past.settings;
          origin =
              load_end env (record s { config = record s.config { file_name = o.config } }) left b
                run;
        }
  ]
