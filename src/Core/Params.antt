-- ===== src/Core/Params.antt =====
-- src/Params.cpp. The constructor sets `test_mode_` only: the other numbers hold what the memory held.
use worker_informer.Base.{ℕ, ℤ, Bool, false, List, [], Bytes, codes, insert}

pub record Params : Type 0 where
  pub test_mode : Bool
  pub informer_id : Bytes
  pub informer_id_int : ℤ
  pub get : Bytes
  pub post : Bytes
  pub capacity : ℕ
  pub rating_division : ℤ
  pub country : Bytes
  pub region : Bytes

-- `Params()`, on the old contents of the memory.
abbrev pub new_params : ℤ → ℕ → ℤ → Params
new_params id capacity rating = record {
  test_mode = false;
  informer_id = [];
  informer_id_int = id;
  get = [];
  post = [];
  capacity = capacity;
  rating_division = rating;
  country = [];
  region = [];
}

-- `boost::to_lower` is a parameter.
abbrev pub set_informer_id : (Bytes → Bytes) → Bytes → Params → Params
set_informer_id to_lower id p = record p { informer_id = to_lower id }

-- A value in a JSON object.
pub data Scalar : Type 0 where
  text : Bytes → Scalar
  int : ℤ → Scalar
  unsigned : ℕ → Scalar
  flag : Bool → Scalar

abbrev pub Object : Type 0
Object = List (Bytes × Scalar)

-- The assignments `j["…"] = …` of `toJson`; `dump` is the JSON library's.
unfoldable pub to_json : (Object → Bytes) → Params → Bytes
to_json dump p = dump (
    insert (codes "request") (text (codes "initial")) (
      insert (codes "region") (text p.region) (
        insert (codes "country") (text p.country) (
          insert (codes "rating_division") (int p.rating_division) (
            insert (codes "capacity") (unsigned p.capacity) (
              insert (codes "test") (flag p.test_mode) (
                insert (codes "informer_id_int") (int p.informer_id_int)
                  (insert (codes "informer_id") (text p.informer_id) []))))))))

abbrev pub set_informer_id_int : ℤ → Params → Params
set_informer_id_int n p = record p { informer_id_int = n }

abbrev pub set_capacity : ℕ → Params → Params
set_capacity n p = record p { capacity = n }

abbrev pub set_rating_division : ℤ → Params → Params
set_rating_division n p = record p { rating_division = n }

abbrev pub set_country : Bytes → Params → Params
set_country c p = record p { country = c }

abbrev pub set_region : Bytes → Params → Params
set_region r p = record p { region = r }

abbrev pub set_test_mode : Bool → Params → Params
set_test_mode b p = record p { test_mode = b }

abbrev pub set_get : Bytes → Params → Params
set_get g p = record p { get = g }

abbrev pub set_post : Bytes → Params → Params
set_post t p = record p { post = t }
