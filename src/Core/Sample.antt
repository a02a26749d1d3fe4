-- ===== src/Core/Sample.antt =====
-- One informer, and a configuration of the core, as test data.
use worker_informer.Base.{ℕ, pos, Bool, true, false, none, some, [], if◌then◌else◌, equal, codes}
use worker_informer.Core.Informer.{QueryRow}
use worker_informer.Core.Process.{Outside, Settings}

abbrev pub query_row : QueryRow ℕ
query_row = record {
  id = pos 7;
  guid = codes "ab";
  title = [];
  account = [];
  domain = [];
  capacity = pos 3;
  auto_reload = pos 0;
  blinking = pos 0;
  shake = pos 0;
  blinking_reload = pos 1;
  shake_reload = pos 0;
  shake_mouse = pos 0;
  teasers_css = codes "c";
  header_html = [];
  footer_html = [];
  range_short_term = 5;
  range_long_term = 5;
  range_context = 5;
  range_search = 5;
  retargeting_capacity = pos 1;
  valid = true;
  social_branch = true;
  user_code = codes "u";
  html_notification = false;
  place_branch = true;
  retargeting_branch = true;
  rating_division = pos 1000;
}

-- The template shows the style sheet; the flag makes its format throw.
abbrev pub outside : Bool → Outside ℕ
outside broken = record {
  select = λ id. some (if equal id (codes "ab") then some query_row else none);
  dump = λ o. [];
  format = λ a b c. if broken then none else some c;
}

abbrev pub settings : Bool → Settings ℕ
settings ids = record {
  template_error = codes "error";
  range_category = 5;
  log_core_time = true;
  log_ip = false;
  log_country = false;
  log_region = false;
  log_cookie = false;
  log_context = false;
  log_search = false;
  log_informer_id = ids;
  log_location = false;
}
