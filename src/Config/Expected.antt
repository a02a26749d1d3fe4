-- ===== src/Config/Expected.antt =====
-- The settings that a file describes, as functions on records, beside what `Load` leaves.
use worker_informer.Base.{Bool, true, Option, none, some, ◌++◌, Bytes, codes, atoi}
use worker_informer.Helpers.Clock.{get_seconds}
use worker_informer.Config.Fields.{Config}
use worker_informer.Config.Steps.{Environment, get_file_contents, minifyhtml, text_at}
use worker_informer.Config.Load.{is_on, default_log}
use worker_informer.Config.Rules.{or_old, section}

module _ {Xml Fs : Type 0} (env : Environment Xml Fs) where
  -- The text of the element `name`, or else the old value.
  abbrev pub text_or : Xml → Bytes → Bytes → Bytes
  text_or x name old = or_old (λ t. t) (text_at env x name) old

  abbrev pub flag_or : Xml → Bytes → Bool → Bool
  flag_or x name old = or_old is_on (text_at env x name) old

  -- The file that the element names, beside the configuration.
  abbrev pub file_or : Xml → Bytes → Bytes → Bytes → Bytes
  file_or x name dir old = or_old (λ t. get_file_contents env (dir ++ t)) (text_at env x name) old

  abbrev pub html_or : Xml → Bytes → Bytes → Bytes → Bytes
  html_or x name dir old =
      or_old (λ t. minifyhtml env (get_file_contents env (dir ++ t))) (text_at env x name) old

  abbrev pub mongo_config : Xml → Config → Config
  mongo_config main c = record c {
    mongo_main_db = text_or main (codes "db") c.mongo_main_db;
    mongo_main_url = text_or main (codes "url") c.mongo_main_url;
  }

  abbrev pub sqlite_config : Xml → Config → Config
  sqlite_config sqlite c = record c {
    dbpath = text_or sqlite (codes "db") (codes ":memory:");
    db_dump_path =
        or_old (λ t. c.cfg_file_path ++ t) (text_at env sqlite (codes "schema")) c.db_dump_path;
  }

  abbrev pub templates_config : Xml → Config → Config
  templates_config x c = record c {
    template = html_or x (codes "teaser") c.cfg_file_path c.template;
    template_error = html_or x (codes "error") c.cfg_file_path c.template_error;
    swfobject = file_or x (codes "swfobject") c.cfg_file_path c.swfobject;
  }

  abbrev pub cookie_config : Xml → Config → Config
  cookie_config x c = record c {
    cookie_name = text_or x (codes "name") c.cookie_name;
    cookie_domain = text_or x (codes "domain") c.cookie_domain;
    cookie_path = text_or x (codes "path") c.cookie_path;
  }

  abbrev pub address_config : Xml → Config → Config
  address_config x c = record c {
    server_ip = text_or x (codes "ip") c.server_ip;
    geocity_path = text_or x (codes "geocity_path") c.geocity_path;
    geocountry_path = text_or x (codes "geocountry_path") c.geocountry_path;
    server_socket_path = text_or x (codes "socket_path") c.server_socket_path;
    server_children = or_old atoi (text_at env x (codes "children")) c.server_children;
  }

  abbrev pub files_config : Xml → Config → Config
  files_config x c = record c {
    lock_file = text_or x (codes "lock_file") c.lock_file;
    pid_file = text_or x (codes "pid_file") c.pid_file;
    mq_path = text_or x (codes "mq_path") c.mq_path;
    user = text_or x (codes "user") c.user;
    group = text_or x (codes "group") c.group;
    time_update = or_old get_seconds (text_at env x (codes "time_update")) c.time_update;
  }

  abbrev pub server_config : Xml → Config → Config
  server_config x c = section (env.first_child x (codes "cookie")) cookie_config (
      section (env.first_child x (codes "templates")) templates_config (
        files_config x
          (section (env.first_child x (codes "sqlite")) sqlite_config (address_config x c))))

  abbrev pub log_config : Xml → Config → Config
  log_config x c = record c {
    log_core_time = flag_or x (codes "coretime") c.log_core_time;
    log_ip = flag_or x (codes "ip") c.log_ip;
    log_country = flag_or x (codes "country") c.log_country;
    log_region = flag_or x (codes "region") c.log_region;
    log_cookie = flag_or x (codes "cookie") c.log_cookie;
    log_context = flag_or x (codes "context") c.log_context;
    log_search = flag_or x (codes "search") c.log_search;
    log_informer_id = flag_or x (codes "informerId") c.log_informer_id;
    log_location = flag_or x (codes "location") c.log_location;
  }

  -- The section `log`, or its defaults.
  abbrev pub log_or_default : Option Xml → Config → Config
  log_or_default none c = default_log env c
  log_or_default (some x) c = log_config x c

  abbrev pub root_config : Xml → Bytes → Xml → Xml → Config → Config
  root_config root id main server c =
      let logged =
        log_or_default (env.first_child root (codes "log"))
          (server_config server (mongo_config main (record c { instance_id = atoi id }))) in
      record logged { request_processed = 0; last_time_request_processed = 0; is_inited = true }
