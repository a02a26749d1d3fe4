-- ===== src/Config/Sections.antt =====
-- Each section of `Load` makes of the settings what the file describes.
use worker_informer.Base.{true, ◌++◌, refl, if◌then◌else◌, codes, equal, atoi}
use worker_informer.Helpers.Clock.{get_seconds}
use worker_informer.Config.Steps.{
  Environment, exit, ◌>>=◌, pure, stop, get_file_contents, minifyhtml, text_at, check, require_path,
}
use worker_informer.Config.Load.{
  is_on, is_minus_one, require_geocity, load_mongo, load_geo, load_socket, load_sqlite, load_files,
  load_templates, load_cookie, load_log, load_server,
}
use worker_informer.Config.Rules.{
  Updates, or_old, bind-Updates, pure-Updates, modify-Updates, stop-Updates, if_some-Updates,
  if_some_else-Updates, seq-Updates, section-Updates, check-Updates, require_path-Updates,
}
use worker_informer.Config.Expected.{
  text_or, mongo_config, sqlite_config, templates_config, cookie_config, files_config,
  server_config, log_config,
}
use worker_informer.Config.Fragments.{
  field, guarded, required, beside-Updates, require_geocity-Updates, remove_if, remove_if-Updates,
  if-Updates, set_db_dump_path-Updates,
}

module _ {Xml Fs : Type 0} (env : Environment Xml Fs) where
  pub load_mongo-Updates : (x : Xml) → Updates (load_mongo env x) (mongo_config env x)
  unfolding load_mongo
  load_mongo-Updates x =
      let all =
        seq-Updates
          (field (λ c. c.mongo_main_db) (λ v c. record c { mongo_main_db = v }) (λ t. t)
            (text_at env x (codes "db")) (λ c. refl))
          ((field (λ c. c.mongo_main_url) (λ v c. record c { mongo_main_url = v }) (λ t. t)
            (text_at env x (codes "url")) (λ c. refl))) in
      all

  pub load_log-Updates : (x : Xml) → Updates (load_log env x) (log_config env x)
  unfolding load_log
  load_log-Updates x =
      let all =
        seq-Updates
          (field (λ c. c.log_core_time) (λ v c. record c { log_core_time = v }) is_on
            (text_at env x (codes "coretime")) (λ c. refl))
          (seq-Updates
            (field (λ c. c.log_ip) (λ v c. record c { log_ip = v }) is_on
              (text_at env x (codes "ip")) (λ c. refl))
            (seq-Updates
              (field (λ c. c.log_country) (λ v c. record c { log_country = v }) is_on
                (text_at env x (codes "country")) (λ c. refl))
              (seq-Updates
                (field (λ c. c.log_region) (λ v c. record c { log_region = v }) is_on
                  (text_at env x (codes "region")) (λ c. refl))
                (seq-Updates
                  (field (λ c. c.log_cookie) (λ v c. record c { log_cookie = v }) is_on
                    (text_at env x (codes "cookie")) (λ c. refl))
                  (seq-Updates
                    (field (λ c. c.log_context) (λ v c. record c { log_context = v }) is_on
                      (text_at env x (codes "context")) (λ c. refl))
                    (seq-Updates
                      (field (λ c. c.log_search) (λ v c. record c { log_search = v }) is_on
                        (text_at env x (codes "search")) (λ c. refl))
                      (seq-Updates
                        (field (λ c. c.log_informer_id) (λ v c. record c { log_informer_id = v })
                          is_on (text_at env x (codes "informerId")) (λ c. refl))
                        ((field (λ c. c.log_location) (λ v c. record c { log_location = v }) is_on
                          (text_at env x (codes "location")) (λ c. refl)))))))))) in
      all

  load_geo-Updates :
      (x : Xml)
      → Updates (load_geo env x) (λ c. record c {
        server_ip = text_or env x (codes "ip") c.server_ip;
        geocity_path = text_or env x (codes "geocity_path") c.geocity_path;
        geocountry_path = text_or env x (codes "geocountry_path") c.geocountry_path;
      })
  unfolding load_geo
  load_geo-Updates x =
      let all =
        seq-Updates
          (field (λ c. c.server_ip) (λ v c. record c { server_ip = v }) (λ t. t)
            (text_at env x (codes "ip")) (λ c. refl))
          (seq-Updates
            (guarded (λ c. c.geocity_path) (λ v c. record c { geocity_path = v }) (λ t. t)
              (text_at env x (codes "geocity_path")) (λ t. require_geocity env) (λ c. refl)
              (λ t. require_geocity-Updates env))
            ((guarded (λ c. c.geocountry_path) (λ v c. record c { geocountry_path = v }) (λ t. t)
              (text_at env x (codes "geocountry_path")) (λ t. require_geocity env) (λ c. refl)
              (λ t. require_geocity-Updates env)))) in
      all

  load_socket-Updates :
      (x : Xml)
      → Updates (load_socket env x) (λ c. record c {
        server_socket_path = text_or env x (codes "socket_path") c.server_socket_path;
        server_children = or_old atoi (text_at env x (codes "children")) c.server_children;
      })
  unfolding load_socket
  load_socket-Updates x =
      let all =
        seq-Updates
          (guarded (λ c. c.server_socket_path) (λ v c. record c { server_socket_path = v }) (λ t. t)
            (text_at env x (codes "socket_path")) (λ t. check env t true true >>= remove_if env t)
            (λ c. refl)
            (λ t. bind-Updates (check-Updates env t true true) (remove_if-Updates env t)))
          ((field (λ c. c.server_children) (λ v c. record c { server_children = v }) atoi
            (text_at env x (codes "children")) (λ c. refl))) in
      all

  load_sqlite-Updates : (x : Xml) → Updates (load_sqlite env x) (sqlite_config env x)
  unfolding load_sqlite
  load_sqlite-Updates x =
      let all =
        seq-Updates
          (if_some_else-Updates (λ v c. record c { dbpath = v }) (λ c t. t) (λ c. codes ":memory:")
            (text_at env x (codes "db"))
            (λ t. seq-Updates (modify-Updates (λ c. record c { dbpath = t })) (
              if-Updates (equal t (codes ":memory:")) (pure-Updates tt)
                (require_path-Updates env t true true)))
            (modify-Updates (λ c. record c { dbpath = codes ":memory:" })))
          ((if_some-Updates (λ c. c.db_dump_path) (λ v c. record c { db_dump_path = v })
            (λ c t. c.cfg_file_path ++ t) (text_at env x (codes "schema")) (λ c. refl)
            (set_db_dump_path-Updates env))) in
      all

  load_files-Updates : (x : Xml) → Updates (load_files env x) (files_config env x)
  unfolding load_files
  load_files-Updates x =
      let all =
        seq-Updates
          (guarded (λ c. c.lock_file) (λ v c. record c { lock_file = v }) (λ t. t)
            (text_at env x (codes "lock_file")) (λ t. require_path env t true true) (λ c. refl)
            (λ t. require_path-Updates env t true true))
          (seq-Updates
            (guarded (λ c. c.pid_file) (λ v c. record c { pid_file = v }) (λ t. t)
              (text_at env x (codes "pid_file")) (λ t. require_path env t true true) (λ c. refl)
              (λ t. require_path-Updates env t true true))
            (seq-Updates
              (field (λ c. c.mq_path) (λ v c. record c { mq_path = v }) (λ t. t)
                (text_at env x (codes "mq_path")) (λ c. refl))
              (seq-Updates
                (field (λ c. c.user) (λ v c. record c { user = v }) (λ t. t)
                  (text_at env x (codes "user")) (λ c. refl))
                (seq-Updates
                  (field (λ c. c.group) (λ v c. record c { group = v }) (λ t. t)
                    (text_at env x (codes "group")) (λ c. refl))
                  ((guarded (λ c. c.time_update) (λ v c. record c { time_update = v }) get_seconds
                    (text_at env x (codes "time_update"))
                    (λ t. if is_minus_one (get_seconds t) then stop exit else pure tt) (λ c. refl)
                    (λ t.
                      if-Updates (is_minus_one (get_seconds t)) (stop-Updates exit (λ c. c))
                        (pure-Updates tt)))))))) in
      all

  load_templates-Updates : (x : Xml) → Updates (load_templates env x) (templates_config env x)
  unfolding load_templates
  load_templates-Updates x =
      let all =
        seq-Updates
          (if_some_else-Updates (λ v c. record c { template = v })
            (λ c t. minifyhtml env (get_file_contents env (c.cfg_file_path ++ t))) (λ c. c.template)
            (text_at env x (codes "teaser"))
            (beside-Updates env (λ t c. record c { template = minifyhtml env t }))
            (stop-Updates exit _))
          (seq-Updates
            (if_some_else-Updates (λ v c. record c { template_error = v })
              (λ c t. minifyhtml env (get_file_contents env (c.cfg_file_path ++ t)))
              (λ c. c.template_error) (text_at env x (codes "error"))
              (beside-Updates env (λ t c. record c { template_error = minifyhtml env t }))
              (stop-Updates exit _))
            ((if_some_else-Updates (λ v c. record c { swfobject = v })
              (λ c t. get_file_contents env (c.cfg_file_path ++ t)) (λ c. c.swfobject)
              (text_at env x (codes "swfobject"))
              (beside-Updates env (λ t c. record c { swfobject = t })) (stop-Updates exit _)))) in
      all

  load_cookie-Updates : (x : Xml) → Updates (load_cookie env x) (cookie_config env x)
  unfolding load_cookie
  load_cookie-Updates x =
      let all =
        seq-Updates
          (required (λ c. c.cookie_name) (λ v c. record c { cookie_name = v })
            (text_at env x (codes "name")))
          (seq-Updates
            (required (λ c. c.cookie_domain) (λ v c. record c { cookie_domain = v })
              (text_at env x (codes "domain")))
            ((required (λ c. c.cookie_path) (λ v c. record c { cookie_path = v })
              (text_at env x (codes "path"))))) in
      all

  pub load_server-Updates : (x : Xml) → Updates (load_server env x) (server_config env x)
  unfolding load_server
  load_server-Updates x =
      let all = seq-Updates (load_geo-Updates x) (
        seq-Updates (load_socket-Updates x) (
          seq-Updates (section-Updates (env.first_child x (codes "sqlite")) load_sqlite-Updates) (
            seq-Updates (load_files-Updates x) (
              seq-Updates
                (section-Updates (env.first_child x (codes "templates")) load_templates-Updates)
                ((section-Updates (env.first_child x (codes "cookie")) load_cookie-Updates)))))) in
      all
