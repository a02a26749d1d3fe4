-- ===== src/Config/Refinement.antt =====
-- `Load` as a whole, beside the settings that the file describes.
use worker_informer.Base.{
  Bool, true, false, Option, none, some, ◌≡◌, refl, Bool-cases, inl, inr, Bytes, codes, is_empty,
  atoi,
}
use worker_informer.Config.Fields.{Config}
use worker_informer.Config.Steps.{
  Environment, exit, State, done, Step, ◌>>◌, pure, stop, modify, if_some_else, get_config_dir,
}
use worker_informer.Config.Load.{
  load_mongo, load_log, default_log, load_server, set_instance_id, load_root, load_document,
  with_root, load,
}
use worker_informer.Config.Rules.{Updates, pure-Updates, modify-Updates, seq-Updates}
use worker_informer.Config.Expected.{mongo_config, server_config, log_or_default, root_config}
use worker_informer.Config.Sections.{load_mongo-Updates, load_log-Updates, load_server-Updates}
use worker_informer.Config.Required.{IsServer, load_root-Requires}

module _ {Xml Fs : Type 0} (env : Environment Xml Fs) where
  log_or_default-Updates :
      (o : Option Xml)
      → Updates (if_some_else o (load_log env) (modify (default_log env))) (log_or_default env o)
  log_or_default-Updates none = modify-Updates (default_log env)
  log_or_default-Updates (some x) = load_log-Updates env x

  abbrev sections : Option Bytes → Option Xml → Option Xml → Option Xml → Step Fs Bool
  sections id mongo server log =
      set_instance_id env id
      >> (if_some_else mongo
            (λ m. if_some_else (env.first_child m (codes "main")) (load_mongo env) (stop exit))
            (stop exit)
          >> (if_some_else server (load_server env) (stop exit)
              >> (if_some_else log (load_log env) (modify (default_log env))
                  >> (modify (λ c. record c {
                    request_processed = 0;
                    last_time_request_processed = 0;
                    is_inited = true;
                  })
                      >> pure true))))

  main_section-Updates :
      (mongo main : Xml)
      → env.first_child mongo (codes "main") ≡ some main
      → Updates
          (if_some_else (env.first_child mongo (codes "main")) (load_mongo env) (stop exit))
          (mongo_config env main)
  main_section-Updates mongo main e = rw e (load_mongo-Updates env main)

  sections-Updates :
      (id : Bytes) (mongo main server : Xml) (log : Option Xml)
      → env.first_child mongo (codes "main") ≡ some main
      → Updates (sections (some id) (some mongo) (some server) log) (λ c.
        record (log_or_default env log
          (server_config env server (mongo_config env main (record c { instance_id = atoi id })))) {
            request_processed = 0;
            last_time_request_processed = 0;
            is_inited = true;
          })
  sections-Updates id mongo main server log e =
      let all = seq-Updates (modify-Updates (λ c. record c { instance_id = atoi id })) (
        seq-Updates (main_section-Updates mongo main e) (
          seq-Updates (load_server-Updates env server) (
            seq-Updates (log_or_default-Updates log) (
              seq-Updates
                (modify-Updates (λ c. record c {
                  request_processed = 0;
                  last_time_request_processed = 0;
                  is_inited = true;
                }))
                (pure-Updates {Fs = Fs} true))))) in
      all

  load_root-Updates :
      (root : Xml) (id : Bytes) (mongo main server : Xml)
      → env.attribute root (codes "id") ≡ some id
      → env.first_child root (codes "mongo") ≡ some mongo
      → env.first_child mongo (codes "main") ≡ some main
      → env.first_child root (codes "server") ≡ some server
      → Updates (load_root env root) (root_config env root id main server)
  unfolding load_root
  load_root-Updates root id mongo main server a m n e =
      rw (a, m, e) (sections-Updates id mongo main server (env.first_child root (codes "log")) n)

  -- The state in which the file is looked at.
  abbrev pub started : State Fs → State Fs
  started s = record s {
    config = record s.config {
      is_inited = false;
      cfg_file_path = get_config_dir env s.config.file_name;
    };
  }

  -- What a file has that is loaded into `c'`, from `c` on.
  pub record IsLoaded (file_name : Bytes) (c c' : Config) : Type 0 where
    pub document : Xml
    pub root : Xml
    pub id : Bytes
    pub mongo : Xml
    pub main : Xml
    pub server : Xml
    pub read : env.load_file file_name ≡ some document
    pub has_root : env.first_child document (codes "root") ≡ some root
    pub has_id : env.attribute root (codes "id") ≡ some id
    pub has_mongo : env.first_child root (codes "mongo") ≡ some mongo
    pub has_main : env.first_child mongo (codes "main") ≡ some main
    pub has_server : env.first_child root (codes "server") ≡ some server
    pub complete : IsServer env server
    pub config : c' ≡ root_config env root id main server c

  load_root-IsLoaded :
      (name : Bytes) (document root : Xml) (s s' : State Fs)
      → env.load_file name ≡ some document
      → env.first_child document (codes "root") ≡ some root
      → load_root env root s ≡ done true s'
      → IsLoaded name s.config s'.config
  load_root-IsLoaded name document root s s' read found e =
      let ((id, a), (mongo, m, (main, n)), (server, h, complete)) =
        (load_root-Requires env root).needs s true s' e in
      record {
        document = document;
        root = root;
        id = id;
        mongo = mongo;
        main = main;
        server = server;
        read = read;
        has_root = found;
        has_id = a;
        has_mongo = m;
        has_main = n;
        has_server = h;
        complete = complete;
        config = (load_root-Updates root id mongo main server a m n h).holds s true s' e;
      }

  with_root-IsLoaded :
      (name : Bytes) (document : Xml) (o : Option Xml) (s s' : State Fs)
      → env.load_file name ≡ some document
      → env.first_child document (codes "root") ≡ o
      → with_root env o s ≡ done true s'
      → IsLoaded name s.config s'.config
  with_root-IsLoaded name document none s s' read found e = cc
  with_root-IsLoaded name document (some root) s s' read found e =
      load_root-IsLoaded name document root s s' read found e

  load_document-IsLoaded :
      (name : Bytes) (o : Option Xml) (s s' : State Fs)
      → env.load_file name ≡ o
      → load_document env o s ≡ done true s'
      → IsLoaded name s.config s'.config
  load_document-IsLoaded name none s s' read e = cc
  load_document-IsLoaded name (some document) s s' read e =
      with_root-IsLoaded name document (env.first_child document (codes "root")) s s' read refl e

  -- Where `Load` returns true, the file had its required elements: a number, the sections `mongo` with
  -- `main` and `server`, and all the elements of the sections `templates` and `cookie` if these are
  -- there. Each setting is then what the file says, the old value where it has no element, or the
  -- default where the code has one; the check of a path changes no setting.
  pub load-IsLoaded :
      (s s' : State Fs)
      → load env s ≡ done true s'
      → IsLoaded s.config.file_name (started s).config s'.config
  unfolding load
  load-IsLoaded s s' e = elim (Bool-cases (is_empty (get_config_dir env s.config.file_name))) [
    | inl h ↦ let bad = rw h at e in cc
    | inr h ↦
        load_document-IsLoaded s.config.file_name (env.load_file s.config.file_name) (started s) s'
          refl (rw h at e)
  ]
