-- ===== src/Core/Informer.antt =====
-- src/Informer.cpp, include/Informer.h, and the columns that `Core_DataBase::getInformer` builds it from.
use worker_informer.Base.{ℕ, ℤ, pos, to_unsigned, Bool, true, [], ◌==◌, not, Bytes, codes, insert}
use worker_informer.Core.Params.{text, int, unsigned, flag, Object}

pub record Informer (Real : Type 0) : Type 0 where
  pub id : ℤ
  pub guid : Bytes
  pub title : Bytes
  pub account : Bytes
  pub domain : Bytes
  pub capacity : ℕ
  pub auto_reload : ℕ
  pub blinking : ℕ
  pub shake : ℕ
  pub blinking_reload : Bool
  pub shake_reload : Bool
  pub shake_mouse : Bool
  pub teasers_css : Bytes
  pub header_html : Bytes
  pub footer_html : Bytes
  pub retargeting_capacity : ℕ
  pub range_short_term : Real
  pub range_long_term : Real
  pub range_context : Real
  pub range_search : Real
  pub range_category : Real
  pub blocked : Bool
  pub social_branch : Bool
  pub user_code : Bytes
  pub html_notification : Bool
  pub plase_branch : Bool
  pub retargeting_branch : Bool
  pub rating_division : ℤ

-- The columns of db_dump/requests/getInformer.sql, 0 to 26.
pub record QueryRow (Real : Type 0) : Type 0 where
  pub id : ℤ
  pub guid : Bytes
  pub title : Bytes
  pub account : Bytes
  pub domain : Bytes
  pub capacity : ℤ
  pub auto_reload : ℤ
  pub blinking : ℤ
  pub shake : ℤ
  pub blinking_reload : ℤ
  pub shake_reload : ℤ
  pub shake_mouse : ℤ
  pub teasers_css : Bytes
  pub header_html : Bytes
  pub footer_html : Bytes
  pub range_short_term : Real
  pub range_long_term : Real
  pub range_context : Real
  pub range_search : Real
  pub retargeting_capacity : ℤ
  pub valid : Bool
  pub social_branch : Bool
  pub user_code : Bytes
  pub html_notification : Bool
  pub place_branch : Bool
  pub retargeting_branch : Bool
  pub rating_division : ℤ

-- The conversion of an `int` to `bool`.
abbrev pub to_bool : ℤ → Bool
to_bool (pos n) = not (n == 0)
to_bool _ = true

-- The call of the constructor; `range_category` is that of the configuration. Column 20, `valid`, is
-- passed for the parameter `blocked`.
unfoldable pub new_informer : {Real : Type 0} → Real → QueryRow Real → Informer Real
new_informer range_category r = record {
  id = r.id;
  guid = r.guid;
  title = r.title;
  account = r.account;
  domain = r.domain;
  capacity = to_unsigned r.capacity;
  auto_reload = to_unsigned r.auto_reload;
  blinking = to_unsigned r.blinking;
  shake = to_unsigned r.shake;
  blinking_reload = to_bool r.blinking_reload;
  shake_reload = to_bool r.shake_reload;
  shake_mouse = to_bool r.shake_mouse;
  teasers_css = r.teasers_css;
  header_html = r.header_html;
  footer_html = r.footer_html;
  retargeting_capacity = to_unsigned r.retargeting_capacity;
  range_short_term = r.range_short_term;
  range_long_term = r.range_long_term;
  range_context = r.range_context;
  range_search = r.range_search;
  range_category = range_category;
  blocked = r.valid;
  social_branch = r.social_branch;
  user_code = r.user_code;
  html_notification = r.html_notification;
  plase_branch = r.place_branch;
  retargeting_branch = r.retargeting_branch;
  rating_division = r.rating_division;
}

unfoldable pub informer_to_json : {Real : Type 0} → (Object → Bytes) → Informer Real → Bytes
informer_to_json dump i = dump (
    insert (codes "retargeting_branch") (flag i.retargeting_branch) (
      insert (codes "place_branch") (flag i.plase_branch) (
        insert (codes "html_notification") (flag i.html_notification) (
          insert (codes "social_branch") (flag i.social_branch) (
            insert (codes "retargeting_capacity") (unsigned i.retargeting_capacity) (
              insert (codes "footerHtml") (text i.footer_html) (
                insert (codes "headerHtml") (text i.header_html) (
                  insert (codes "shake_mouse") (flag i.shake_mouse) (
                    insert (codes "shake_reload") (flag i.shake_reload) (
                      insert (codes "blinking_reload") (flag i.blinking_reload) (
                        insert (codes "shake") (unsigned i.shake) (
                          insert (codes "blinking") (unsigned i.blinking) (
                            insert (codes "auto_reload") (unsigned i.auto_reload) (
                              insert (codes "capacity") (unsigned i.capacity) (
                                insert (codes "domain") (text i.domain) (
                                  insert (codes "account") (text i.account) (
                                    insert (codes "title") (text i.title) (
                                      insert (codes "informer_id") (text i.guid) (
                                        insert (codes "informer_id_int") (int i.id)
                                          [])))))))))))))))))))
