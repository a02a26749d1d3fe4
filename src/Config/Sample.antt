-- ===== src/Config/Sample.antt =====
-- A small document and a machine, for the tests.
use worker_informer.Base.{
  ℕ, pos, true, false, Option, none, some, List, [], ◌∷◌, ◌++◌, ◌==◌, if◌then◌else◌, Bytes, codes,
  lookup,
}
use worker_informer.Helpers.Path.{System}
use worker_informer.Config.Fields.{Config}
use worker_informer.Config.Steps.{Environment, State}

-- 0 is the document, 1 the root, 2 mongo, 3 main, 4 and 7 are two servers, the rest are texts.
abbrev pub children : ℕ → List (Bytes × ℕ)
children x =
    if x == 0
    then (codes "root", 1) ∷ []
    else if x == 1
    then (codes "mongo", 2) ∷ (codes "server", 4) ∷ []
    else if x == 2
    then (codes "main", 3) ∷ []
    else if x == 3
    then (codes "db", 8) ∷ []
    else if x == 4
    then (codes "geocity_path", 5) ∷ (codes "geocountry_path", 6) ∷ []
    else if x == 7
    then (codes "geocity_path", 5) ∷ (codes "geocountry_path", 8) ∷ []
    else []

abbrev pub texts : ℕ → Option Bytes
texts x =
    if x == 5
    then some (codes "/a")
    else if x == 6
    then some (codes "/b")
    else if x == 8
    then some (codes "zz")
    else none

abbrev pub files : System ℕ
files = record {
  uid = 0;
  gid = 0;
  exists = λ path fs. some true;
  stat = λ path fs. record { st_uid = 0; st_gid = 0; st_mode = 0 };
  is_regular_file = λ path fs. true;
  is_directory = λ path fs. true;
  create_directories = λ path fs. (some true, fs);
  try_file = λ path fs. fs;
  elements = λ path. path ∷ [];
  join = λ a b. a ++ b;
}

abbrev pub environment : Environment ℕ ℕ
environment = record {
  sys = files;
  load_file = λ name. some 0;
  first_child = λ x name. lookup name (children x);
  get_text = texts;
  attribute = λ x name. if x == 1 then some (codes "7") else none;
  is_regular_file = λ path. some true;
  parent_path = λ path. none;
  read_file = λ name. none;
  unlink = λ path fs. fs;
  replace_whitespace = λ s. s;
}

abbrev pub blank : Config
blank = record {
  mongo_main_db = [];
  mongo_main_url = codes "u";
  server_ip = [];
  geocity_path = [];
  geocountry_path = [];
  server_socket_path = [];
  server_children = pos 1;
  dbpath = [];
  cookie_name = [];
  cookie_domain = [];
  cookie_path = [];
  db_dump_path = [];
  instance_id = pos 0;
  lock_file = [];
  pid_file = [];
  user = [];
  group = [];
  template = [];
  template_error = [];
  swfobject = [];
  time_update = pos 0;
  mq_path = [];
  log_core_time = false;
  log_ip = false;
  log_country = true;
  log_region = true;
  log_cookie = true;
  log_context = true;
  log_search = true;
  log_informer_id = true;
  log_location = true;
  is_inited = false;
  file_name = codes "c.xml";
  cfg_file_path = [];
  request_processed = 5;
  last_time_request_processed = 4;
}

abbrev pub before : State ℕ
before = record { config = blank; fs = 0 }

abbrev pub after : State ℕ
after = record {
  config = record blank {
    mongo_main_db = codes "zz";
    geocity_path = codes "/a";
    geocountry_path = codes "/b";
    instance_id = pos 7;
    log_core_time = true;
    log_ip = true;
    log_country = false;
    log_region = false;
    log_cookie = false;
    log_context = false;
    log_search = false;
    log_informer_id = false;
    log_location = false;
    is_inited = true;
    cfg_file_path = codes "./";
    request_processed = 0;
    last_time_request_processed = 0;
  };
  fs = 0;
}
