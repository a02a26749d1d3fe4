-- ===== src/Config/Fields.antt =====
-- The fields of `Config` that `Config::Load` writes, with the two counters beside them.
use worker_informer.Base.{ℕ, ℤ, Bool, Bytes}
use worker_informer.Core.Process.{Settings}

pub record Config : Type 0 where
  pub mongo_main_db : Bytes
  pub mongo_main_url : Bytes
  pub server_ip : Bytes
  pub geocity_path : Bytes
  pub geocountry_path : Bytes
  pub server_socket_path : Bytes
  pub server_children : ℤ
  pub dbpath : Bytes
  pub cookie_name : Bytes
  pub cookie_domain : Bytes
  pub cookie_path : Bytes
  pub db_dump_path : Bytes
  pub instance_id : ℤ
  pub lock_file : Bytes
  pub pid_file : Bytes
  pub user : Bytes
  pub group : Bytes
  pub template : Bytes
  pub template_error : Bytes
  pub swfobject : Bytes
  pub time_update : ℤ
  pub mq_path : Bytes
  pub log_core_time : Bool
  pub log_ip : Bool
  pub log_country : Bool
  pub log_region : Bool
  pub log_cookie : Bool
  pub log_context : Bool
  pub log_search : Bool
  pub log_informer_id : Bool
  pub log_location : Bool
  pub is_inited : Bool
  pub file_name : Bytes
  pub cfg_file_path : Bytes
  pub request_processed : ℕ
  pub last_time_request_processed : ℕ

-- What a core reads of it; `range_category_` is a constant of the header.
abbrev pub settings_of : {Real : Type 0} → Real → Config → Settings Real
settings_of range_category c = record {
  template_error = c.template_error;
  range_category = range_category;
  log_core_time = c.log_core_time;
  log_ip = c.log_ip;
  log_country = c.log_country;
  log_region = c.log_region;
  log_cookie = c.log_cookie;
  log_context = c.log_context;
  log_search = c.log_search;
  log_informer_id = c.log_informer_id;
  log_location = c.log_location;
}
