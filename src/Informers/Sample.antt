-- ===== src/Informers/Sample.antt =====
-- The document of the small JSON library, read; and the table with its row.
use worker_informer.Base.{ℕ, pos, none, inl, inr, refl, arith, equal, codes, c_string, digits_of}
use worker_informer.Informers.Table.{Row, insert_or_ignore}
use worker_informer.Informers.Values.{default_portion}
use worker_informer.Informers.Document.{IsDocument}
use worker_informer.Informers.Laws.{IsSent}
use worker_informer.Sql.Format.{printed, with_quoted}
use worker_informer.Sql.Literals.{doubled}
use worker_informer.Sql.Statements.{whole_text, insert_text}
use worker_informer.Sql.Sample.{printf}
use worker_informer.Informers.Upsert.{IsRead}
use worker_informer.Informers.Memory.{Rows, run_statement}
use worker_informer.Informers.Library.{
  num, text, doc, doc_values, find, library, arithmetic, defaults,
}

doc-IsDocument : IsDocument library arithmetic defaults doc doc_values
unfolding equal find
doc-IsDocument = record {
  admaker = _;
  admaker_at = refl;
  items_number = num (pos 3);
  items_number_at = (_, refl, refl);
  capacity = inl (refl, refl);
  header_html = text (codes "h");
  header_html_at = (_, refl, refl);
  header_html_text = refl;
  footer_html = text (codes "f");
  footer_html_at = (_, refl, refl);
  footer_html_text = refl;
  action = text (codes "usercode");
  action_at = (_, refl, refl);
  action_name = codes "usercode";
  action_text = refl;
  social_branch = refl;
  user_code = text (codes "u");
  user_code_at = (_, refl, refl);
  user_code_text = refl;
  css = codes "c";
  css_text = (_, refl, refl);
  teasers_css = refl;
  title = (_, refl, refl);
  account = (_, refl, refl);
  domain = (_, refl, refl);
  height = (_, refl, refl);
  width = (_, refl, refl);
  height_banner = (_, refl, refl);
  width_banner = (_, refl, refl);
  auto_reload = (_, refl, inr (refl, refl));
  blinking = (_, refl, inr (refl, refl));
  shake = (_, refl, inr (refl, refl));
  blinking_reload = (_, refl, refl);
  shake_reload = (_, refl, refl);
  shake_mouse = (_, refl, refl);
  range_short_term = (_, refl, inr (refl, refl));
  range_long_term = (_, refl, inr (refl, refl));
  range_context = (_, refl, inr (refl, refl));
  range_search = (_, refl, inr (refl, refl));
  retargeting_capacity = (_, refl, inr (refl, unfold default_portion in refl));
  html_notification = (_, refl, refl);
  place_branch = (_, refl, refl);
  retargeting_branch = (_, refl, refl);
  rating_division = (_, refl, inr (refl, refl));
  valid = refl;
}

pub doc-IsRead : IsRead library arithmetic defaults (codes "doc") (codes "Ab-1") (pos 7) doc_values
unfolding equal find
doc-IsRead = record {
  x = doc;
  number = num (pos 7);
  parsed = refl;
  guid_read = refl;
  number_found = refl;
  number_read = refl;
  document = doc-IsDocument;
}

abbrev pub nothing : Rows
nothing = λ j. none

abbrev pub doc_row : Row ℕ
doc_row = record { id = pos 7; guid = codes "ab-1"; values = doc_values }

-- The table after the document.
abbrev pub one_row : Rows
one_row = run_statement (insert_or_ignore doc_row) nothing

pub doc-IsSent : IsSent printf (insert_or_ignore doc_row)
unfolding whole_text insert_text with_quoted printed doubled c_string digits_of
doc-IsSent = record { fits = omega arith; no_nul = (omega arith); quotable = tt }
