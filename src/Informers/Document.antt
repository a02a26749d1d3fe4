-- ===== src/Informers/Document.antt =====
-- What a document holds, column by column, beside the code that reads it.
use worker_informer.Base.{
  ℕ, ℤ, pos, true, false, Option, some, ◌>>=◌, ◌≡◌, ◌⊎◌, inl, inr, refl, sym, ap, ◌∙◌,
  if◌then◌else◌, Bytes, codes, equal,
}
use worker_informer.Informers.Json.{JsonApi}
use worker_informer.Informers.Table.{Values}
use worker_informer.Informers.Values.{
  Defaults, Outside, default_portion, read_capacity, int_or_zero, float_or, read_retargeting,
  read_rating, read_values,
}

some_bind :
    {A B : Type 0} {m : Option A} {a : A} {b : B} (f : A → Option B)
    → m ≡ some a
    → f a ≡ some b
    → (m >>= f) ≡ some b
some_bind f e h = rw e h

module _ {Json Real : Type 0} (api : JsonApi Json Real) (outside : Outside Real)
    (cfg : Defaults Real) where
  -- `y` stands under two keys of `x`.
  abbrev pub IsAt : Json → Bytes → Bytes → Json → Type 0
  IsAt x key key' y = (z : Json) × (api.at x key ≡ some z) × (api.at z key' ≡ some y)

  -- What stands under a key is read as `a`.
  abbrev pub Has : {A : Type 0} → Json → Bytes → (Json → Option A) → A → Type 0
  Has x key get a = (y : Json) × (api.at x key ≡ some y) × (get y ≡ some a)

  -- It is a number that is read as `a`, or no number, and `a` is the default.
  abbrev pub HasOr : {A : Type 0} → Json → Bytes → (Json → Option A) → A → A → Type 0
  HasOr x key get default a =
      (y : Json) × (api.at x key ≡ some y)
      × (((api.is_number y ≡ true) × (get y ≡ some a))
          ⊎ ((api.is_number y ≡ false) × (a ≡ default)))

  -- A number, a text that spells one, or something else for 0.
  abbrev pub IsCapacity : Json → ℤ → Type 0
  IsCapacity y n =
      ((api.is_number y ≡ true) × (api.get_int y ≡ some n))
      ⊎ ((api.is_number y ≡ false)
          × (((api.is_string y ≡ true)
                × ((t : Bytes) × (api.get_string y ≡ some t) × (api.lexical_cast_int t ≡ some n)))
              ⊎ ((api.is_string y ≡ false) × (n ≡ pos 0))))

  -- The given part of the capacity, or the default percentage of it.
  abbrev pub IsPortion : Json → ℤ → ℕ → Type 0
  IsPortion x capacity n =
      (y : Json) × (api.at x (codes "retargeting_capacity") ≡ some y)
      × (((api.is_number y ≡ true)
            × ((part : Real) × (api.get_float y ≡ some part) × (n ≡ outside.portion capacity part)))
          ⊎ ((api.is_number y ≡ false) × (n ≡ default_portion cfg.retargeting_percentage capacity)))

  abbrev pub IsRating : Json → ℤ → Type 0
  IsRating x n =
      (y : Json) × (api.at x (codes "rating_division") ≡ some y)
      × (((api.is_number y ≡ true)
            × ((f : Real) × (api.get_float y ≡ some f) × (n ≡ outside.printed_int f)))
          ⊎ ((api.is_number y ≡ false) × (n ≡ outside.printed_int outside.thousand)))

  -- The document `x` has the columns `v`.
  pub record IsDocument (x : Json) (v : Values Real) : Type 0 where
    pub admaker : Json
    pub admaker_at : api.at x (codes "admaker") ≡ some admaker
    pub items_number : Json
    pub items_number_at : IsAt admaker (codes "Main") (codes "itemsNumber") items_number
    pub capacity : IsCapacity items_number v.capacity
    pub header_html : Json
    pub header_html_at : IsAt admaker (codes "MainHeader") (codes "html") header_html
    pub header_html_text : api.get_string header_html ≡ some v.header_html
    pub footer_html : Json
    pub footer_html_at : IsAt admaker (codes "MainFooter") (codes "html") footer_html
    pub footer_html_text : api.get_string footer_html ≡ some v.footer_html
    pub action : Json
    pub action_at : IsAt x (codes "nonRelevant") (codes "action") action
    pub action_name : Bytes
    pub action_text : api.get_string action ≡ some action_name
    pub social_branch : v.social_branch ≡ (if equal action_name (codes "usercode") then 0 else 1)
    pub user_code : Json
    pub user_code_at : IsAt x (codes "nonRelevant") (codes "userCode") user_code
    pub user_code_text : api.get_string user_code ≡ some v.user_code
    pub css : Bytes
    pub css_text : Has x (codes "css") api.get_string css
    pub teasers_css : v.teasers_css ≡ outside.minify css
    pub title : Has x (codes "title") api.get_string v.title
    pub account : Has x (codes "user") api.get_string v.account
    pub domain : Has x (codes "domain") api.get_string v.domain
    pub height : Has x (codes "height") api.get_int v.height
    pub width : Has x (codes "width") api.get_int v.width
    pub height_banner : Has x (codes "height_banner") api.get_int v.height_banner
    pub width_banner : Has x (codes "width_banner") api.get_int v.width_banner
    pub auto_reload : HasOr x (codes "auto_reload") api.get_int (pos 0) v.auto_reload
    pub blinking : HasOr x (codes "blinking") api.get_int (pos 0) v.blinking
    pub shake : HasOr x (codes "shake") api.get_int (pos 0) v.shake
    pub blinking_reload : Has x (codes "blinking_reload") api.get_bool v.blinking_reload
    pub shake_reload : Has x (codes "shake_reload") api.get_bool v.shake_reload
    pub shake_mouse : Has x (codes "shake_mouse") api.get_bool v.shake_mouse
    pub range_short_term :
        HasOr x (codes "range_short_term") api.get_float cfg.range_short_term v.range_short_term
    pub range_long_term :
        HasOr x (codes "range_long_term") api.get_float cfg.range_long_term v.range_long_term
    pub range_context :
        HasOr x (codes "range_context") api.get_float cfg.range_context v.range_context
    pub range_search : HasOr x (codes "range_search") api.get_float cfg.range_search v.range_search
    pub retargeting_capacity : IsPortion x v.capacity v.retargeting_capacity
    pub html_notification : Has x (codes "html_notification") api.get_bool v.html_notification
    pub place_branch : Has x (codes "plase_branch") api.get_bool v.place_branch
    pub retargeting_branch : Has x (codes "retargeting_branch") api.get_bool v.retargeting_branch
    pub rating_division : IsRating x v.rating_division
    pub valid : v.valid ≡ true

  at-IsAt :
      {x y : Json} {key key' : Bytes}
      → IsAt x key key' y
      → (do z ← api.at x key; api.at z key') ≡ some y
  at-IsAt (z, first, second) = some_bind _ first second

  get-Has :
      {A : Type 0} {x : Json} {key : Bytes} {get : Json → Option A} {a : A}
      → Has x key get a
      → (do y ← api.at x key; get y) ≡ some a
  get-Has (y, first, second) = some_bind _ first second

  read_capacity_lem : (y : Json) (n : ℤ) → IsCapacity y n → read_capacity api outside cfg y ≡ some n
  unfolding read_capacity
  read_capacity_lem y n (inl (number, e)) = rw number e
  read_capacity_lem y n (inr (other, inl (string, (t, e, cast)))) =
      rw (other, string) (some_bind _ e cast)
  read_capacity_lem y n (inr (other, inr (no_string, zero_is))) =
      rw (other, no_string, zero_is) refl

  int_or_zero_lem :
      (x : Json) (key : Bytes) (n : ℤ)
      → HasOr x key api.get_int (pos 0) n
      → int_or_zero api outside cfg x key ≡ some n
  unfolding int_or_zero
  int_or_zero_lem x key n (y, at, inl (number, e)) = some_bind _ at (rw number e)
  int_or_zero_lem x key n (y, at, inr (other, zero_is)) = some_bind _ at (rw (other, zero_is) refl)

  float_or_lem :
      (x : Json) (key : Bytes) (default r : Real)
      → HasOr x key api.get_float default r
      → float_or api outside cfg x key default ≡ some r
  unfolding float_or
  float_or_lem x key default r (y, at, inl (number, e)) = some_bind _ at (rw number e)
  float_or_lem x key default r (y, at, inr (other, same)) = some_bind _ at (rw (other, same) refl)

  read_retargeting_lem :
      (x : Json) (capacity : ℤ) (n : ℕ)
      → IsPortion x capacity n
      → read_retargeting api outside cfg x capacity ≡ some n
  unfolding read_retargeting
  read_retargeting_lem x capacity n (y, at, inl (number, (part, e, same))) =
      some_bind _ at (rw (number, same) (some_bind _ e refl))
  read_retargeting_lem x capacity n (y, at, inr (other, same)) =
      some_bind _ at (rw (other, same) refl)

  read_rating_lem : (x : Json) (n : ℤ) → IsRating x n → read_rating api outside cfg x ≡ some n
  unfolding read_rating
  read_rating_lem x n (y, at, inl (number, (f, e, same))) =
      some_bind _ at (rw (number, same) (some_bind _ e refl))
  read_rating_lem x n (y, at, inr (other, same)) = some_bind _ at (rw (other, same) refl)

  -- The code reads exactly these columns.
  pub read_values-IsDocument :
      (x : Json) (v : Values Real) → IsDocument x v → read_values api outside cfg x ≡ some v
  unfolding read_values
  read_values-IsDocument x v d = some_bind _ d.admaker_at (
      some_bind _ (at-IsAt d.items_number_at) (
        some_bind _ (at-IsAt d.header_html_at) (
          some_bind _ (at-IsAt d.footer_html_at) (
            some_bind _ (at-IsAt d.action_at) (
              some_bind _ (at-IsAt d.user_code_at) (
                some_bind _ (read_capacity_lem _ v.capacity d.capacity) (
                  some_bind _ d.action_text (
                    some_bind _ d.header_html_text (
                      some_bind _ d.footer_html_text (
                        some_bind _ d.user_code_text (
                          some_bind _ (get-Has d.css_text) (
                            some_bind _ (get-Has d.title) (
                              some_bind _ (get-Has d.account) (
                                some_bind _ (get-Has d.domain) (
                                  some_bind _ (get-Has d.height) (
                                    some_bind _ (get-Has d.width) (
                                      some_bind _ (get-Has d.height_banner) (
                                        some_bind _ (get-Has d.width_banner) (
                                          some_bind _
                                            (int_or_zero_lem x (codes "auto_reload") v.auto_reload
                                              d.auto_reload)
                                            (some_bind _
                                              (int_or_zero_lem x (codes "blinking") v.blinking
                                                d.blinking)
                                              (some_bind _
                                                (int_or_zero_lem x (codes "shake") v.shake d.shake)
                                                (some_bind _ (get-Has d.blinking_reload) (
                                                  some_bind _ (get-Has d.shake_reload) (
                                                    some_bind _ (get-Has d.shake_mouse) (
                                                      some_bind _
                                                        (float_or_lem x (codes "range_short_term")
                                                          cfg.range_short_term v.range_short_term
                                                          d.range_short_term)
                                                        (some_bind _
                                                          (float_or_lem x (codes "range_long_term")
                                                            cfg.range_long_term v.range_long_term
                                                            d.range_long_term)
                                                          (some_bind _
                                                            (float_or_lem x (codes "range_context")
                                                            cfg.range_context v.range_context
                                                            d.range_context)
                                                            (some_bind _
                                                            (float_or_lem x (codes "range_search")
                                                            cfg.range_search v.range_search
                                                            d.range_search)
                                                            (some_bind _
                                                            (read_retargeting_lem x v.capacity
                                                            v.retargeting_capacity
                                                            d.retargeting_capacity)
                                                            (some_bind _
                                                            (get-Has d.html_notification)
                                                            (some_bind _ (get-Has d.place_branch) (
                                                            some_bind _
                                                            (get-Has d.retargeting_branch)
                                                            (some_bind _
                                                            (read_rating_lem x v.rating_division
                                                            d.rating_division)
                                                            (ap
                                                            (λ b. some (record v {
                                                            teasers_css = outside.minify d.css;
                                                            social_branch = b;
                                                            valid = true;
                                                            }))
                                                            (sym d.social_branch)
                                                            ∙ ap
                                                            (λ c. some (record v {
                                                            teasers_css = c;
                                                            valid = true;
                                                            }))
                                                            (sym d.teasers_css)
                                                            ∙ ap
                                                            (λ t. some (record v { valid = t }))
                                                            (sym
                                                            d.valid)))))))))))))))))))))))))))))))))))
