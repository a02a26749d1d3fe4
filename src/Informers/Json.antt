-- ===== src/Informers/Json.antt =====
-- What `ParentDB` uses of the JSON library and of boost's text functions. `none` is an exception
-- derived from `std::exception`.
use worker_informer.Base.{ℤ, Bool, Option, ◌>>=◌, Bytes}

pub record JsonApi (Json Real : Type 0) : Type 0 where
  pub parse : Bytes → Option Json
  -- `x["key"]`: a null value where an object lacks the key.
  pub at : Json → Bytes → Option Json
  pub get_string : Json → Option Bytes
  pub get_int : Json → Option ℤ
  pub get_long_long : Json → Option ℤ
  pub get_bool : Json → Option Bool
  pub get_float : Json → Option Real
  pub is_number : Json → Bool
  pub is_string : Json → Bool
  -- `boost::lexical_cast<int>`
  pub lexical_cast_int : Bytes → Option ℤ
  -- `boost::to_lower`
  pub to_lower : Bytes → Bytes

module _ {Json Real : Type 0} (api : JsonApi Json Real) where
  abbrev pub string_at : Json → Bytes → Option Bytes
  string_at x key = do v ← api.at x key; api.get_string v

  abbrev pub int_at : Json → Bytes → Option ℤ
  int_at x key = do v ← api.at x key; api.get_int v

  abbrev pub bool_at : Json → Bytes → Option Bool
  bool_at x key = do v ← api.at x key; api.get_bool v
