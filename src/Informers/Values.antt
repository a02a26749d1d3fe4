-- ===== src/Informers/Values.antt =====
-- The columns that `ParentDB::InformerUpdate` computes from a document.
use worker_informer.Base.{
  ℕ, ◌*◌, ◌/◌, suc, ℤ, pos, negsuc, negate, to_unsigned, to_int, true, Option, some, ◌>>=◌,
  if◌then◌else◌, Bytes, codes, equal,
}
use worker_informer.Informers.Json.{JsonApi, string_at, int_at, bool_at}
use worker_informer.Informers.Table.{Values}

-- The defaults of `Config` that the columns fall back to.
pub record Defaults (Real : Type 0) : Type 0 where
  pub range_short_term : Real
  pub range_long_term : Real
  pub range_context : Real
  pub range_search : Real
  pub retargeting_percentage : ℕ

-- What is taken from floating-point arithmetic and from boost's regular expressions: the product
-- `(unsigned)(capacity * x)`, the number 1000, what `%d` prints for a `double`, and
-- `Config::minifyhtml`.
pub record Outside (Real : Type 0) : Type 0 where
  pub portion : ℤ → Real → ℕ
  pub thousand : Real
  pub printed_int : Real → ℤ
  pub minify : Bytes → Bytes

abbrev product : ℕ → ℤ → ℤ
product k (pos n) = pos (k * n)
product k (negsuc n) = negate (k * suc n)

-- A quotient is cut towards 0.
abbrev hundredth : ℤ → ℤ
hundredth (pos n) = pos (n / 100)
hundredth (negsuc n) = negate (suc n / 100)

-- `(unsigned)(cfg->retargeting_percentage_ * capacity / 100)`: the product is an `int`. Where it overflows,
-- which C++ leaves undefined, it wraps around, as the processor's multiplication does.
unfoldable pub default_portion : ℕ → ℤ → ℕ
default_portion percentage capacity = to_unsigned (hundredth (to_int (product percentage capacity)))

module _ {Json Real : Type 0} (api : JsonApi Json Real) (outside : Outside Real)
    (cfg : Defaults Real) where
  -- A number, or a text that spells one; anything else is 0.
  unfoldable pub read_capacity : Json → Option ℤ
  read_capacity e =
      if api.is_number e
      then api.get_int e
      else if api.is_string e
      then (api.get_string e >>= api.lexical_cast_int)
      else some (pos 0)

  unfoldable pub int_or_zero : Json → Bytes → Option ℤ
  int_or_zero x key = do v ← api.at x key; if api.is_number v then api.get_int v else some (pos 0)

  unfoldable pub float_or : Json → Bytes → Real → Option Real
  float_or x key default = do
    v ← api.at x key
    if api.is_number v then api.get_float v else some default

  unfoldable pub read_retargeting : Json → ℤ → Option ℕ
  unfolding default_portion
  read_retargeting x capacity = do
    v ← api.at x (codes "retargeting_capacity")
    if api.is_number v
        then (do f ← api.get_float v; some (outside.portion capacity f))
        else some (default_portion cfg.retargeting_percentage capacity)

  unfoldable pub read_rating : Json → Option ℤ
  read_rating x = do
    v ← api.at x (codes "rating_division")
    f ← if api.is_number v then api.get_float v else some outside.thousand
    some (outside.printed_int f)

  -- `x["admaker"]["Main"]["itemsNumber"]` and the like
  abbrev at₂ : Json → Bytes → Bytes → Option Json
  at₂ x a b = do v ← api.at x a; api.at v b

  unfoldable pub read_values : Json → Option (Values Real)
  unfolding read_capacity int_or_zero float_or read_retargeting read_rating
  read_values x = do
    admaker ← api.at x (codes "admaker")
    capacity_element ← at₂ admaker (codes "Main") (codes "itemsNumber")
    header_html ← at₂ admaker (codes "MainHeader") (codes "html")
    footer_html ← at₂ admaker (codes "MainFooter") (codes "html")
    nonrelevant_element ← at₂ x (codes "nonRelevant") (codes "action")
    user_code_element ← at₂ x (codes "nonRelevant") (codes "userCode")
    capacity ← read_capacity capacity_element
    action ← api.get_string nonrelevant_element
    header ← api.get_string header_html
    footer ← api.get_string footer_html
    user_code ← api.get_string user_code_element
    css ← string_at api x (codes "css")
    title ← string_at api x (codes "title")
    user ← string_at api x (codes "user")
    domain ← string_at api x (codes "domain")
    height ← int_at api x (codes "height")
    width ← int_at api x (codes "width")
    height_banner ← int_at api x (codes "height_banner")
    width_banner ← int_at api x (codes "width_banner")
    auto_reload ← int_or_zero x (codes "auto_reload")
    blinking ← int_or_zero x (codes "blinking")
    shake ← int_or_zero x (codes "shake")
    blinking_reload ← bool_at api x (codes "blinking_reload")
    shake_reload ← bool_at api x (codes "shake_reload")
    shake_mouse ← bool_at api x (codes "shake_mouse")
    short_term ← float_or x (codes "range_short_term") cfg.range_short_term
    long_term ← float_or x (codes "range_long_term") cfg.range_long_term
    context ← float_or x (codes "range_context") cfg.range_context
    search_range ← float_or x (codes "range_search") cfg.range_search
    retargeting ← read_retargeting x capacity
    html_notification ← bool_at api x (codes "html_notification")
    place_branch ← bool_at api x (codes "plase_branch")
    retargeting_branch ← bool_at api x (codes "retargeting_branch")
    rating ← read_rating x
    some (record {
      title = title;
      account = user;
      domain = domain;
      teasers_css = outside.minify css;
      header_html = header;
      footer_html = footer;
      social_branch = if equal action (codes "usercode") then 0 else 1;
      valid = true;
      height = height;
      width = width;
      height_banner = height_banner;
      width_banner = width_banner;
      capacity = capacity;
      auto_reload = auto_reload;
      blinking = blinking;
      shake = shake;
      blinking_reload = blinking_reload;
      shake_reload = shake_reload;
      shake_mouse = shake_mouse;
      range_short_term = short_term;
      range_long_term = long_term;
      range_context = context;
      range_search = search_range;
      retargeting_capacity = retargeting;
      user_code = user_code;
      html_notification = html_notification;
      place_branch = place_branch;
      retargeting_branch = retargeting_branch;
      rating_division = rating;
    })
