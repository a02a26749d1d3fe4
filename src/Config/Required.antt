-- ===== src/Config/Required.antt =====
-- The elements without which `Load` does not come through.
use worker_informer.Base.{Bool, true, Option, none, some, ◌≡◌, refl, Bytes, codes}
use worker_informer.Config.Steps.{
  Environment, exit, State, done, Step, ◌>>◌, pure, stop, modify, if_some, if_some_else, text_at,
}
use worker_informer.Config.Load.{
  load_geo, load_socket, load_sqlite, load_files, load_mongo, load_log, default_log, load_templates,
  load_cookie, load_server, set_instance_id, load_root,
}
use worker_informer.Config.Rules.{then_run_done}

-- Where the step comes through, `P` holds.
pub record Requires {Fs A : Type 0} (m : Step Fs A) (P : Type 0) : Type 0 where
  pub needs : (s : State Fs) (a : A) (s' : State Fs) → m s ≡ done a s' → P

module _ {Fs : Type 0} where
  first-Requires :
      {B P : Type 0} (m : Step Fs (Unit {0})) (k : Step Fs B) → Requires m P → Requires (m >> k) P
  first-Requires m k r = record {
    needs = λ s b t e. let (a, s', p, q) = then_run_done (m s) (λ _. k) e in r.needs s a s' p;
  }

  second-Requires :
      {B P : Type 0} (m : Step Fs (Unit {0})) (k : Step Fs B) → Requires k P → Requires (m >> k) P
  second-Requires m k r = record {
    needs = λ s b t e. let (a, s', p, q) = then_run_done (m s) (λ _. k) e in r.needs s' b t q;
  }

  some-Requires :
      {A : Type 0} {P : A → Type 0} (o : Option A) (f : A → Step Fs (Unit {0}))
      → ((x : A) → Requires (f x) (P x))
      → Requires (if_some_else o f (stop exit)) ((x : A) × (o ≡ some x) × P x)
  some-Requires none f each = record { needs = λ s b t e. cc }
  some-Requires (some x) f each = record { needs = λ s b t e. (x, refl, (each x).needs s b t e) }

  given-Requires :
      {A : Type 0} {P : A → Type 0} (o : Option A) (f : A → Step Fs (Unit {0}))
      → ((x : A) → Requires (f x) (P x))
      → Requires (if_some o f) ((x : A) → o ≡ some x → P x)
  given-Requires none f each = record { needs = λ s b t e x h. cc }
  given-Requires {P} (some x) f each = record {
    needs = λ s b t e y h. let same : x ≡ y = cc in rw (← same) ((each x).needs s b t e);
  }

  nothing-Requires : {A : Type 0} (m : Step Fs A) → Requires m (Unit {0})
  nothing-Requires m = record { needs = λ s b t e. tt }

  both-Requires :
      {A P Q : Type 0} {m : Step Fs A} → Requires m P → Requires m Q → Requires m (P × Q)
  both-Requires u v = record { needs = λ s b t e. (u.needs s b t e, v.needs s b t e) }

  there-Requires :
      {A : Type 0} (o : Option A) (f : A → Step Fs (Unit {0}))
      → Requires (if_some_else o f (stop exit)) ((x : A) × (o ≡ some x))
  there-Requires none f = record { needs = λ s b t e. cc }
  there-Requires (some x) f = record { needs = λ s b t e. (x, refl) }

module _ {Xml Fs : Type 0} (env : Environment Xml Fs) where
  abbrev pub HasText : Xml → Bytes → Type 0
  HasText x name = (t : Bytes) × (text_at env x name ≡ some t)

  abbrev pub HasAll : Xml → Bytes → Bytes → Bytes → Type 0
  HasAll x a b c = HasText x a × HasText x b × HasText x c

  abbrev three :
      Xml
      → Bytes
      → Bytes
      → Bytes
      → (Bytes → Step Fs (Unit {0}))
      → (Bytes → Step Fs (Unit {0}))
      → (Bytes → Step Fs (Unit {0}))
      → Step Fs (Unit {0})
  three x a b c f g h =
      if_some_else (text_at env x a) f (stop exit)
      >> (if_some_else (text_at env x b) g (stop exit)
          >> if_some_else (text_at env x c) h (stop exit))

  three-Requires :
      (x : Xml) (a b c : Bytes) (f g h : Bytes → Step Fs (Unit {0}))
      → Requires (three x a b c f g h) (HasAll x a b c)
  three-Requires x a b c f g h = record {
    needs = λ s u t e.
        let (_, s₁, p, q) =
          then_run_done (if_some_else (text_at env x a) f (stop exit) s)
            (λ _.
              if_some_else (text_at env x b) g (stop exit)
              >> if_some_else (text_at env x c) h (stop exit))
            e in
        let (_, s₂, p', q') =
          then_run_done (if_some_else (text_at env x b) g (stop exit) s₁)
            (λ _. if_some_else (text_at env x c) h (stop exit)) q in
        (
          (there-Requires (text_at env x a) f).needs s tt s₁ p,
          (there-Requires (text_at env x b) g).needs s₁ tt s₂ p',
          (there-Requires (text_at env x c) h).needs s₂ u t q',
        );
  }

  load_templates-Requires :
      (x : Xml)
      → Requires
          (load_templates env x)
          (HasAll x (codes "teaser") (codes "error") (codes "swfobject"))
  unfolding load_templates
  load_templates-Requires x =
      three-Requires x (codes "teaser") (codes "error") (codes "swfobject") _ _ _

  load_cookie-Requires :
      (x : Xml)
      → Requires (load_cookie env x) (HasAll x (codes "name") (codes "domain") (codes "path"))
  unfolding load_cookie
  load_cookie-Requires x = three-Requires x (codes "name") (codes "domain") (codes "path") _ _ _

  -- A section for the templates or for the cookie has all three of its elements.
  abbrev pub IsServer : Xml → Type 0
  IsServer server =
      ((x : Xml)
        → env.first_child server (codes "templates") ≡ some x
        → HasAll x (codes "teaser") (codes "error") (codes "swfobject"))
      × ((x : Xml)
          → env.first_child server (codes "cookie") ≡ some x
          → HasAll x (codes "name") (codes "domain") (codes "path"))

  load_server-Requires : (server : Xml) → Requires (load_server env server) (IsServer server)
  unfolding load_server
  load_server-Requires server =
      let templates = if_some (env.first_child server (codes "templates")) (load_templates env) in
      let cookie = if_some (env.first_child server (codes "cookie")) (load_cookie env) in
      second-Requires (load_geo env server) _ (
        second-Requires (load_socket env server) _ (
          second-Requires (if_some (env.first_child server (codes "sqlite")) (load_sqlite env)) _ (
            second-Requires (load_files env server) _ (
              both-Requires
                (first-Requires templates cookie (
                  given-Requires (env.first_child server (codes "templates")) _
                    load_templates-Requires))
                (second-Requires templates cookie (
                  given-Requires (env.first_child server (codes "cookie")) _
                    load_cookie-Requires))))))

  set_instance_id-Requires :
      (o : Option Bytes) → Requires (set_instance_id env o) ((t : Bytes) × (o ≡ some t))
  set_instance_id-Requires none = record { needs = λ s b t e. cc }
  set_instance_id-Requires (some x) = record { needs = λ s b t e. (x, refl) }

  -- The root has a number and the sections `mongo`, with `main` in it, and `server`.
  abbrev pub IsRoot : Xml → Type 0
  IsRoot root =
      ((t : Bytes) × (env.attribute root (codes "id") ≡ some t))
      × ((mongo : Xml) × (env.first_child root (codes "mongo") ≡ some mongo)
          × ((main : Xml) × (env.first_child mongo (codes "main") ≡ some main)))
      × ((server : Xml) × (env.first_child root (codes "server") ≡ some server) × IsServer server)

  pub load_root-Requires : (root : Xml) → Requires (load_root env root) (IsRoot root)
  unfolding load_root
  load_root-Requires root =
      let id = set_instance_id env (env.attribute root (codes "id")) in
      let mongo =
        if_some_else (env.first_child root (codes "mongo"))
          (λ m. if_some_else (env.first_child m (codes "main")) (load_mongo env) (stop exit))
          (stop exit) in
      let server =
        if_some_else (env.first_child root (codes "server")) (load_server env) (stop exit) in
      let rest : Step Fs Bool =
        (if_some_else (env.first_child root (codes "log")) (load_log env) (modify (default_log env))
          >> (modify (λ c. record c {
            request_processed = 0;
            last_time_request_processed = 0;
            is_inited = true;
          })
              >> pure true)) in
      let first =
        first-Requires id (mongo >> (server >> rest))
          (set_instance_id-Requires (env.attribute root (codes "id"))) in
      let second = second-Requires id (mongo >> (server >> rest)) (
        first-Requires mongo (server >> rest) (
          some-Requires (env.first_child root (codes "mongo")) _
            (λ m. there-Requires (env.first_child m (codes "main")) (load_mongo env)))) in
      let third = second-Requires id (mongo >> (server >> rest)) (
        second-Requires mongo (server >> rest) (
          first-Requires server rest
            (some-Requires (env.first_child root (codes "server")) _ load_server-Requires))) in
      record { needs = λ s b t e. (first.needs s b t e, second.needs s b t e, third.needs s b t e) }
