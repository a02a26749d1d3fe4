-- ===== src/Config/Load.antt =====
-- `Config::Load`, section by section.
use worker_informer.Base.{
  ℤ, pos, negsuc, Bool, true, false, Option, none, some, [], ◌∷◌, ◌++◌, ◌==◌, leb, if◌then◌else◌,
  Bytes, codes, equal, is_empty, atoi,
}
use worker_informer.Helpers.Clock.{get_seconds}
use worker_informer.Config.Fields.{Config}
use worker_informer.Config.Steps.{
  Environment, exit, undefined_behaviour, done, Step, ◌>>=◌, ◌>>◌, pure, stop, modify, if_some,
  if_some_else, get_config_dir, get_file_contents, minifyhtml, text_at, check, require_path,
  remove_file,
}

-- `strncmp(text, "1", 1) >= 0`: the first byte, or the NUL of an empty text, is not below `1`.
unfoldable pub is_on : Bytes → Bool
is_on [] = false
is_on (c ∷ s) = leb b'1' c

abbrev pub is_minus_one : ℤ → Bool
is_minus_one (pos n) = false
is_minus_one (negsuc n) = n == 0

module _ {Xml Fs : Type 0} (env : Environment Xml Fs) where
  unfoldable pub load_mongo : Xml → Step Fs (Unit {0})
  load_mongo main = do
    if_some (text_at env main (codes "db")) (λ t. modify (λ c. record c { mongo_main_db = t }))
    if_some (text_at env main (codes "url")) (λ t. modify (λ c. record c { mongo_main_url = t }))

  -- geocity_path, which both elements check, is the value at this point.
  abbrev pub require_geocity : Step Fs (Unit {0})
  require_geocity s = require_path env s.config.geocity_path false true s

  unfoldable pub load_geo : Xml → Step Fs (Unit {0})
  load_geo server = do
    if_some (text_at env server (codes "ip")) (λ t. modify (λ c. record c { server_ip = t }))
    if_some (text_at env server (codes "geocity_path"))
        (λ t. modify (λ c. record c { geocity_path = t }) >> require_geocity)
    if_some (text_at env server (codes "geocountry_path"))
        (λ t. modify (λ c. record c { geocountry_path = t }) >> require_geocity)

  unfoldable pub load_socket : Xml → Step Fs (Unit {0})
  load_socket server = do
    if_some (text_at env server (codes "socket_path")) (λ t.
        modify (λ c. record c { server_socket_path = t })
        >> (check env t true true >>= λ ok. if ok then remove_file env t else pure tt))
    if_some (text_at env server (codes "children"))
        (λ t. modify (λ c. record c { server_children = atoi t }))

  abbrev pub set_db_dump_path : Bytes → Step Fs (Unit {0})
  set_db_dump_path t s =
      (modify (λ c. record c { db_dump_path = s.config.cfg_file_path ++ t })
          >> require_path env (s.config.cfg_file_path ++ t) false false)
        s

  unfoldable pub load_sqlite : Xml → Step Fs (Unit {0})
  load_sqlite sqlite = do
    if_some_else (text_at env sqlite (codes "db"))
        (λ t.
          modify (λ c. record c { dbpath = t })
          >> (if equal t (codes ":memory:") then pure tt else require_path env t true true))
        (modify (λ c. record c { dbpath = codes ":memory:" }))
    if_some (text_at env sqlite (codes "schema")) set_db_dump_path

  unfoldable pub load_files : Xml → Step Fs (Unit {0})
  load_files server = do
    if_some (text_at env server (codes "lock_file"))
        (λ t. modify (λ c. record c { lock_file = t }) >> require_path env t true true)
    if_some (text_at env server (codes "pid_file"))
        (λ t. modify (λ c. record c { pid_file = t }) >> require_path env t true true)
    if_some (text_at env server (codes "mq_path")) (λ t. modify (λ c. record c { mq_path = t }))
    if_some (text_at env server (codes "user")) (λ t. modify (λ c. record c { user = t }))
    if_some (text_at env server (codes "group")) (λ t. modify (λ c. record c { group = t }))
    if_some (text_at env server (codes "time_update")) (λ t.
        modify (λ c. record c { time_update = get_seconds t })
        >> (if is_minus_one (get_seconds t) then stop exit else pure tt))

  -- A file beside the configuration: checked, then read.
  abbrev pub beside : (Bytes → Config → Config) → Bytes → Step Fs (Unit {0})
  beside put t s =
      (require_path env (s.config.cfg_file_path ++ t) false true
          >> modify (put (get_file_contents env (s.config.cfg_file_path ++ t))))
        s

  unfoldable pub load_templates : Xml → Step Fs (Unit {0})
  load_templates templates = do
    if_some_else (text_at env templates (codes "teaser"))
        (beside (λ t c. record c { template = minifyhtml env t })) (stop exit)
    if_some_else (text_at env templates (codes "error"))
        (beside (λ t c. record c { template_error = minifyhtml env t })) (stop exit)
    if_some_else (text_at env templates (codes "swfobject"))
        (beside (λ t c. record c { swfobject = t })) (stop exit)

  unfoldable pub load_cookie : Xml → Step Fs (Unit {0})
  load_cookie cookie = do
    if_some_else (text_at env cookie (codes "name"))
        (λ t. modify (λ c. record c { cookie_name = t })) (stop exit)
    if_some_else (text_at env cookie (codes "domain"))
        (λ t. modify (λ c. record c { cookie_domain = t })) (stop exit)
    if_some_else (text_at env cookie (codes "path"))
        (λ t. modify (λ c. record c { cookie_path = t })) (stop exit)

  unfoldable pub load_log : Xml → Step Fs (Unit {0})
  unfolding is_on
  load_log log = do
    if_some (text_at env log (codes "coretime"))
        (λ t. modify (λ c. record c { log_core_time = is_on t }))
    if_some (text_at env log (codes "ip")) (λ t. modify (λ c. record c { log_ip = is_on t }))
    if_some (text_at env log (codes "country"))
        (λ t. modify (λ c. record c { log_country = is_on t }))
    if_some (text_at env log (codes "region"))
        (λ t. modify (λ c. record c { log_region = is_on t }))
    if_some (text_at env log (codes "cookie"))
        (λ t. modify (λ c. record c { log_cookie = is_on t }))
    if_some (text_at env log (codes "context"))
        (λ t. modify (λ c. record c { log_context = is_on t }))
    if_some (text_at env log (codes "search"))
        (λ t. modify (λ c. record c { log_search = is_on t }))
    if_some (text_at env log (codes "informerId"))
        (λ t. modify (λ c. record c { log_informer_id = is_on t }))
    if_some (text_at env log (codes "location"))
        (λ t. modify (λ c. record c { log_location = is_on t }))

  -- Without a section `log`.
  abbrev pub default_log : Config → Config
  default_log c = record c {
    log_core_time = true;
    log_ip = true;
    log_location = false;
    log_informer_id = false;
    log_search = false;
    log_context = false;
    log_cookie = false;
    log_country = false;
    log_region = false;
  }

  unfoldable pub load_server : Xml → Step Fs (Unit {0})
  unfolding load_geo load_socket load_sqlite load_files load_templates load_cookie
  load_server server = do
    load_geo server
    load_socket server
    if_some (env.first_child server (codes "sqlite")) load_sqlite
    load_files server
    if_some (env.first_child server (codes "templates")) load_templates
    if_some (env.first_child server (codes "cookie")) load_cookie

  -- `atoi(mRoot->Attribute("id"))`, which may be null.
  abbrev pub set_instance_id : Option Bytes → Step Fs (Unit {0})
  set_instance_id none = stop undefined_behaviour
  set_instance_id (some t) = modify (λ c. record c { instance_id = atoi t })

  unfoldable pub load_root : Xml → Step Fs Bool
  unfolding load_mongo load_server load_log
  load_root root = do
    set_instance_id (env.attribute root (codes "id"))
    if_some_else (env.first_child root (codes "mongo"))
        (λ mongo. if_some_else (env.first_child mongo (codes "main")) load_mongo (stop exit))
        (stop exit)
    if_some_else (env.first_child root (codes "server")) load_server (stop exit)
    if_some_else (env.first_child root (codes "log")) load_log (modify default_log)
    modify
        (λ c. record c { request_processed = 0; last_time_request_processed = 0; is_inited = true })
    pure true

  abbrev pub with_root : Option Xml → Step Fs Bool
  with_root none = stop exit
  with_root (some root) = load_root root

  abbrev pub load_document : Option Xml → Step Fs Bool
  load_document none = stop exit
  load_document (some document) = with_root (env.first_child document (codes "root"))

  unfoldable pub load : Step Fs Bool
  unfolding load_root get_config_dir
  load s =
      let dir = get_config_dir env s.config.file_name in
      let s' = record s { config = record s.config { is_inited = false; cfg_file_path = dir } } in
      if is_empty dir then done false s' else load_document (env.load_file s.config.file_name) s'

  -- `Config::LoadConfig`
  abbrev pub load_config : Bytes → Step Fs Bool
  load_config name s = load (record s { config = record s.config { file_name = name } })
