-- ===== src/Sql/Tests.antt =====
-- Runs of the statements' texts, with the conversions as the C library prints them.
use worker_informer.Base.{
  ℕ, zero, suc, ◌+◌, ◌-◌, pos, [], ◌∷◌, ◌++◌, ◌≡◌, ◌↔◌, refl, ap, ap₂, ◌∙◌, arith, Bytes, codes,
  Lacks, length, length-append, length-replicate, replicate, c_string, digits_of,
}
use worker_informer.Informers.Table.{Values, Row, update, insert_or_ignore, delete_guid}
use worker_informer.Informers.Library.{doc_values}
use worker_informer.Sql.Sample.{printf, printf-PrintfLaws}
use worker_informer.Sql.Literals.{literals, read_literals, doubled, doubled-Lacks}
use worker_informer.Sql.Format.{text, printed, with_quoted}
use worker_informer.Sql.Statements.{
  buf_size, update_numbers, update_branches, insert_text, delete_text, whole_text, statement_text,
}
use worker_informer.Sql.Query.{query_head, query_whole, query_text}
use worker_informer.Sql.Whole.{texts_of, statement_text-literals}
use worker_informer.Sql.Pasted.{pasted-literals}
use worker_informer.Sql.Cut.{set_text, statement_text-update}

-- A title with quotes, one at the end.
abbrev quoted_row : Row ℕ
quoted_row = record {
  id = pos 7;
  guid = codes "ab-1";
  values = record doc_values { title = codes "it's'" };
}

statement_text-literals_example :
    literals (statement_text printf (insert_or_ignore quoted_row))
    ≡ texts_of (insert_or_ignore quoted_row)
unfolding whole_text insert_text with_quoted printed doubled c_string digits_of
statement_text-literals_example =
    statement_text-literals printf printf-PrintfLaws (insert_or_ignore quoted_row) (omega arith) tt

abbrev hostile : Bytes
hostile = codes "x' OR 'a'='a"

pasted-literals_example :
    ((literals (query_text printf hostile) ≡ c_string hostile ∷ [])
      ↔ Lacks b'\'' (c_string hostile))
    × ((literals (statement_text printf (delete_guid hostile)) ≡ c_string hostile ∷ [])
        ↔ Lacks b'\'' (c_string hostile))
unfolding query_whole query_head whole_text delete_text with_quoted printed c_string
pasted-literals_example =
    pasted-literals printf printf-PrintfLaws hostile (omega arith) (omega arith)

-- A long title.
unfoldable padding : ℕ → Bytes
padding n = replicate n b'a'

c_string-padding : (n : ℕ) → c_string (padding n) ≡ padding n
unfolding padding c_string
c_string-padding zero = refl
c_string-padding (suc n) = ap (◌∷◌ b'a') (c_string-padding n)

padding-Lacks : (n : ℕ) → Lacks b'\'' (padding n)
unfolding padding
padding-Lacks zero = tt
padding-Lacks (suc n) = ((λ e. ground arith), padding-Lacks n)

length-padding : (n : ℕ) → length (padding n) ≡ n
unfolding padding
length-padding n = length-replicate n b'a'

abbrev titled : Bytes → Values ℕ
titled t = record doc_values { title = t }

-- What stands behind the title in its UPDATE.
unfoldable behind_title : Bytes
unfolding with_quoted
behind_title =
    b'\''
    ∷ with_quoted printf printf.percent_q
        ((text (codes ",account=") ∷ [], doc_values.account)
          ∷ (text (codes ",domain=") ∷ [], doc_values.domain)
          ∷ (text (codes ",teasersCss=") ∷ [], doc_values.teasers_css)
          ∷ (text (codes ",headerHtml=") ∷ [], doc_values.header_html)
          ∷ (text (codes ",footerHtml=") ∷ [], doc_values.footer_html)
          ∷ (update_numbers doc_values, doc_values.user_code)
          ∷ [])
        (update_branches doc_values)

length-behind_title : length behind_title ≡ 576
unfolding behind_title with_quoted printed doubled c_string digits_of
length-behind_title = refl

length-set_text : (n : ℕ) → length (set_text printf (titled (padding n))) ≡ 27 + (n + 576)
unfolding set_text with_quoted printed behind_title
length-set_text n =
    let same : doubled (c_string (padding n)) ≡ padding n =
      ap doubled (c_string-padding n) ∙ doubled-Lacks (padding n) (padding-Lacks n) in
    length-append (codes "UPDATE Informer SET title='")
      (doubled (c_string (padding n)) ++ behind_title)
    ∙ ap (λ m. 27 + m)
        (length-append (doubled (c_string (padding n))) behind_title
          ∙ ap₂ (λ k m. k + m) (ap length same ∙ length-padding n) length-behind_title)

-- A title that leaves room for ten bytes behind the columns.
abbrev long_values : Values ℕ
long_values = titled (padding 261530)

length-long_values : length (set_text printf long_values) ≡ 262133
length-long_values = length-set_text 261530

statement_text-update_example :
    statement_text printf (update (pos 7) long_values)
    ≡ set_text printf long_values
      ++ replicate (buf_size - 1 - length (set_text printf long_values)) b' '
statement_text-update_example =
    statement_text-update printf printf-PrintfLaws (pos 7) long_values
      (omega (arith, length-long_values)) (omega (arith, length-long_values))

-- The removal of `x' OR 'a'='a` compares the identifier with `x` only.
removal_hostile :
    literals (statement_text printf (delete_guid hostile)) ≡ codes "x" ∷ codes "a" ∷ codes "a" ∷ []
unfolding statement_text whole_text delete_text with_quoted printed c_string literals read_literals
removal_hostile = refl
