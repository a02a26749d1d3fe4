-- ===== src/Config/Tests.antt =====
-- A small document, and the theorems at it.
use worker_informer.Base.{true, ◌≡◌, refl, codes, equal, lookup, strtol, is_digit}
use worker_informer.Config.Steps.{done, check}
use worker_informer.Config.Load.{load, load_geo, is_on}
use worker_informer.Config.Sample.{environment, blank, before, after}
use worker_informer.Config.Refinement.{IsLoaded, started, load-IsLoaded}

loaded : load environment before ≡ done true after
unfolding load equal lookup check strtol is_digit
loaded = refl

-- Any text that begins with a byte from `1` on turns a flag on.
no_is_on : is_on (codes "no") ≡ true
unfolding is_on
no_is_on = refl

load-IsLoaded_example :
    IsLoaded environment (codes "c.xml") (started environment before).config after.config
load-IsLoaded_example = load-IsLoaded environment before after loaded

geo_loaded :
    load_geo environment 4 before
    ≡ done tt (record {
      config = record blank { geocity_path = codes "/a"; geocountry_path = codes "/b" };
      fs = 0;
    })
unfolding load_geo equal lookup check
geo_loaded = refl
