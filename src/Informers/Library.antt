-- ===== src/Informers/Library.antt =====
-- A small JSON library with one document, an instance of the interface for runs.
use Prim.Native.String.{String}
use worker_informer.Base.{
  ℕ, ◌+◌, ℤ, pos, Bool, true, false, ◌&&◌, leb, Option, none, some, [], ◌∷◌, ◌≡◌, refl, ap₂, arith,
  if◌then◌else◌, equal, Bytes, codes,
}
use worker_informer.Informers.Json.{JsonApi}
use worker_informer.Informers.Table.{Values}
use worker_informer.Informers.Values.{Defaults, Outside}

mutual
  pub data Value : Type 0 where
    null : Value
    num : ℤ → Value
    text : Bytes → Value
    flag : Bool → Value
    object : Fields → Value

  pub data Fields : Type 0 where
    end : Fields
    field : Bytes → Value → Fields → Fields

unfoldable pub find : Bytes → Fields → Value
find key end = null
find key (field name v fs) = if equal name key then v else find key fs

abbrev pub value_at : Value → Bytes → Option Value
unfolding find
value_at (object fs) key = some (find key fs)
value_at null key = some null
value_at _ key = none

abbrev pub as_text : Value → Option Bytes
as_text (text t) = some t
as_text _ = none

abbrev pub as_number : Value → Option ℤ
as_number (num n) = some n
as_number _ = none

abbrev pub as_flag : Value → Option Bool
as_flag (flag b) = some b
as_flag _ = none

abbrev pub as_float : Value → Option ℕ
as_float (num (pos n)) = some n
as_float _ = none

abbrev pub is_num : Value → Bool
is_num (num n) = true
is_num _ = false

abbrev pub is_text : Value → Bool
is_text (text n) = true
is_text _ = false

abbrev pub lower : ℕ → ℕ
lower c = if leb b'A' c && leb c b'Z' then c + 32 else c

pub lower_idem : (c : ℕ) → lower (lower c) ≡ lower c
lower_idem c = ground arith

abbrev pub to_lower : Bytes → Bytes
to_lower [] = []
to_lower (c ∷ s) = lower c ∷ to_lower s

pub to_lower_idem : (s : Bytes) → to_lower (to_lower s) ≡ to_lower s
to_lower_idem [] = refl
to_lower_idem (c ∷ s) = ap₂ (λ x xs. x ∷ xs) (lower_idem c) (to_lower_idem s)

abbrev pub put : String → Value → Fields → Fields
put key v fs = field (codes key) v fs

abbrev pub doc : Value
doc = object (
    put "guid" (text (codes "Ab-1")) (
      put "guid_int" (num (pos 7)) (
        put "admaker"
          (object (
            put "Main" (object (put "itemsNumber" (num (pos 3)) end)) (
              put "MainHeader" (object (put "html" (text (codes "h")) end))
                (put "MainFooter" (object (put "html" (text (codes "f")) end)) end))))
          (put "nonRelevant"
            (object
              (put "action" (text (codes "usercode")) (put "userCode" (text (codes "u")) end)))
            (put "css" (text (codes "c")) (
              put "title" (text (codes "t")) (
                put "user" (text (codes "a")) (
                  put "domain" (text (codes "d")) (
                    put "height" (num (pos 1)) (
                      put "width" (num (pos 2)) (
                        put "height_banner" (num (pos 3)) (
                          put "width_banner" (num (pos 4)) (
                            put "blinking_reload" (flag true) (
                              put "shake_reload" (flag false) (
                                put "shake_mouse" (flag false) (
                                  put "html_notification" (flag true) (
                                    put "plase_branch" (flag true)
                                      (put "retargeting_branch" (flag false) end))))))))))))))))))

abbrev pub library : JsonApi Value ℕ
library = record {
  parse = λ i. if equal i (codes "doc") then some doc else none;
  at = value_at;
  get_string = as_text;
  get_int = as_number;
  get_long_long = as_number;
  get_bool = as_flag;
  get_float = as_float;
  is_number = is_num;
  is_string = is_text;
  lexical_cast_int = λ s. none;
  to_lower = to_lower;
}

abbrev pub arithmetic : Outside ℕ
arithmetic = record { portion = λ c x. x; thousand = 1000; printed_int = pos; minify = λ s. s }

abbrev pub defaults : Defaults ℕ
defaults = record {
  range_short_term = 5;
  range_long_term = 5;
  range_context = 5;
  range_search = 5;
  retargeting_percentage = 50;
}

abbrev pub doc_values : Values ℕ
doc_values = record {
  title = codes "t";
  account = codes "a";
  domain = codes "d";
  teasers_css = codes "c";
  header_html = codes "h";
  footer_html = codes "f";
  social_branch = 0;
  valid = true;
  height = pos 1;
  width = pos 2;
  height_banner = pos 3;
  width_banner = pos 4;
  capacity = pos 3;
  auto_reload = pos 0;
  blinking = pos 0;
  shake = pos 0;
  blinking_reload = true;
  shake_reload = false;
  shake_mouse = false;
  range_short_term = 5;
  range_long_term = 5;
  range_context = 5;
  range_search = 5;
  retargeting_capacity = 1;
  user_code = codes "u";
  html_notification = true;
  place_branch = true;
  retargeting_branch = false;
  rating_division = pos 1000;
}
