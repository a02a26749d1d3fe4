-- ===== src/Sql/Statements.antt =====
-- The texts of the statements that write the table, as the format strings of src/ParentDB.cpp give them.
use worker_informer.Base.{ℕ, ℤ, pos, List, [], ◌∷◌, ◌++◌, Bytes, codes, replicate}
use worker_informer.Informers.Table.{Values, Row, Statement, update, insert_or_ignore, delete_guid}
use worker_informer.Sql.Format.{Printf, Item, text, int, unsigned, real, with_quoted, one_if}

-- `sizeof(buf)` of `ParentDB`.
abbrev pub buf_size : ℕ
buf_size = 262144

-- The spaces of a format string that goes on in the next line.
abbrev pub gap : Bytes
gap = replicate 30 b' '

-- The columns that are numbers in the middle of the UPDATE.
abbrev pub update_numbers : {Real : Type 0} → Values Real → List (Item Real)
update_numbers v =
    text (codes ",")
    ∷ text gap
    ∷ text (codes "social_branch=")
    ∷ int (pos v.social_branch)
    ∷ text (codes ", valid=1,height=")
    ∷ int v.height
    ∷ text (codes ",width=")
    ∷ int v.width
    ∷ text (codes ",height_banner=")
    ∷ int v.height_banner
    ∷ text (codes ",width_banner=")
    ∷ int v.width_banner
    ∷ text (codes ",capacity=")
    ∷ int v.capacity
    ∷ text (codes ", auto_reload=")
    ∷ int v.auto_reload
    ∷ text (codes ",")
    ∷ text gap
    ∷ text (codes "blinking=")
    ∷ int v.blinking
    ∷ text (codes ", shake=")
    ∷ int v.shake
    ∷ text (codes ", blinking_reload=")
    ∷ int (one_if v.blinking_reload)
    ∷ text (codes ", shake_reload=")
    ∷ int (one_if v.shake_reload)
    ∷ text (codes ", shake_mouse=")
    ∷ int (one_if v.shake_mouse)
    ∷ text (codes ",")
    ∷ text gap
    ∷ text (codes "range_short_term=")
    ∷ real v.range_short_term
    ∷ text (codes ", range_long_term=")
    ∷ real v.range_long_term
    ∷ text (codes ", range_context=")
    ∷ real v.range_context
    ∷ text (codes ", range_search=")
    ∷ real v.range_search
    ∷ text (codes ", retargeting_capacity=")
    ∷ unsigned v.retargeting_capacity
    ∷ text (codes ", user_code=")
    ∷ []

-- Those behind the last text, up to the last of the columns.
abbrev pub update_branches : {Real : Type 0} → Values Real → List (Item Real)
update_branches v =
    text (codes ", html_notification=")
    ∷ int (one_if v.html_notification)
    ∷ text (codes ", place_branch=")
    ∷ int (one_if v.place_branch)
    ∷ text (codes ", retargeting_branch=")
    ∷ int (one_if v.retargeting_branch)
    ∷ text (codes ",")
    ∷ text gap
    ∷ text (codes "rating_division=")
    ∷ int v.rating_division
    ∷ []

abbrev pub update_where : {Real : Type 0} → ℤ → List (Item Real)
update_where id = text (codes "WHERE id=") ∷ int id ∷ text (codes ";") ∷ []

abbrev pub update_parts : {Real : Type 0} → Values Real → List (List (Item Real) × Bytes)
update_parts v =
    (text (codes "UPDATE Informer SET title=") ∷ [], v.title)
    ∷ (text (codes ",account=") ∷ [], v.account)
    ∷ (text (codes ",domain=") ∷ [], v.domain)
    ∷ (text (codes ",teasersCss=") ∷ [], v.teasers_css)
    ∷ (text (codes ",headerHtml=") ∷ [], v.header_html)
    ∷ (text (codes ",footerHtml=") ∷ [], v.footer_html)
    ∷ (update_numbers v, v.user_code)
    ∷ []

abbrev pub insert_head : {Real : Type 0} → ℤ → List (Item Real)
insert_head id =
    text (
      codes
        "INSERT OR IGNORE INTO Informer(id,guid,title, account, domain, teasersCss,headerHtml,footerHtml,")
    ∷ text gap
    ∷ text
        (codes "social_branch,valid,height,width,height_banner,width_banner,capacity, auto_reload,")
    ∷ text gap
    ∷ text (codes "blinking, shake, blinking_reload, shake_reload, shake_mouse,")
    ∷ text gap
    ∷ text (codes "range_short_term, range_long_term, range_context, range_search, ")
    ∷ text (
        codes
          "retargeting_capacity, user_code, html_notification, place_branch, retargeting_branch,")
    ∷ text gap
    ∷ text (codes "rating_division")
    ∷ text gap
    ∷ text (codes ") VALUES(")
    ∷ text gap
    ∷ int id
    ∷ text (codes ",")
    ∷ []

abbrev pub insert_numbers : {Real : Type 0} → Values Real → List (Item Real)
insert_numbers v =
    text (codes ",")
    ∷ text gap
    ∷ int (pos v.social_branch)
    ∷ text (codes ",1,")
    ∷ int v.height
    ∷ text (codes ",")
    ∷ int v.width
    ∷ text (codes ",")
    ∷ int v.height_banner
    ∷ text (codes ",")
    ∷ int v.width_banner
    ∷ text (codes ",")
    ∷ int v.capacity
    ∷ text (codes ", ")
    ∷ int v.auto_reload
    ∷ text (codes ",")
    ∷ text gap
    ∷ int v.blinking
    ∷ text (codes ",")
    ∷ int v.shake
    ∷ text (codes ",")
    ∷ int (one_if v.blinking_reload)
    ∷ text (codes ",")
    ∷ int (one_if v.shake_reload)
    ∷ text (codes ", ")
    ∷ int (one_if v.shake_mouse)
    ∷ text (codes ",")
    ∷ text gap
    ∷ real v.range_short_term
    ∷ text (codes ",")
    ∷ real v.range_long_term
    ∷ text (codes ",")
    ∷ real v.range_context
    ∷ text (codes ",")
    ∷ real v.range_search
    ∷ text (codes ",")
    ∷ unsigned v.retargeting_capacity
    ∷ text (codes ",")
    ∷ []

abbrev pub insert_branches : {Real : Type 0} → Values Real → List (Item Real)
insert_branches v =
    text (codes ",")
    ∷ int (one_if v.html_notification)
    ∷ text (codes ",")
    ∷ int (one_if v.place_branch)
    ∷ text (codes ",")
    ∷ int (one_if v.retargeting_branch)
    ∷ text (codes ",")
    ∷ int v.rating_division
    ∷ text (codes ");")
    ∷ []

abbrev pub insert_parts : {Real : Type 0} → Row Real → List (List (Item Real) × Bytes)
insert_parts r =
    (insert_head r.id, r.guid)
    ∷ (text (codes ",") ∷ [], r.values.title)
    ∷ (text (codes ",") ∷ [], r.values.account)
    ∷ (text (codes ",") ∷ [], r.values.domain)
    ∷ (text (codes ",") ∷ [], r.values.teasers_css)
    ∷ (text (codes ",") ∷ [], r.values.header_html)
    ∷ (text (codes ",") ∷ [], r.values.footer_html)
    ∷ (insert_numbers r.values, r.values.user_code)
    ∷ []

abbrev pub delete_parts : {Real : Type 0} → Bytes → List (List (Item Real) × Bytes)
delete_parts guid = (text (codes "DELETE FROM Informer WHERE guid=") ∷ [], guid) ∷ []

module _ {Real : Type 0} (printf : Printf Real) where
  unfoldable pub update_text : ℤ → Values Real → Bytes
  unfolding with_quoted
  update_text id v =
      with_quoted printf printf.percent_q (update_parts v)
        (update_branches v ++ text gap ∷ update_where id)

  unfoldable pub insert_text : Row Real → Bytes
  unfolding with_quoted
  insert_text r = with_quoted printf printf.percent_q (insert_parts r) (insert_branches r.values)

  unfoldable pub delete_text : Bytes → Bytes
  unfolding with_quoted
  delete_text guid = with_quoted printf printf.percent_s (delete_parts guid) (text (codes ";") ∷ [])

  -- The text of a statement, and what is run of it: as much as the buffer holds.
  unfoldable pub whole_text : Statement Real → Bytes
  unfolding update_text insert_text delete_text
  whole_text (update id v) = update_text id v
  whole_text (insert_or_ignore r) = insert_text r
  whole_text (delete_guid guid) = delete_text guid

  unfoldable pub statement_text : Statement Real → Bytes
  unfolding whole_text
  statement_text st = printf.fill buf_size (whole_text st)
