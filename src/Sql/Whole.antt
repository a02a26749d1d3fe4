-- ===== src/Sql/Whole.antt =====
-- A statement that writes the table, if its text fits in the buffer, has the texts of the document as its
-- string literals.
use worker_informer.Base.{
  ℕ, ◌-◌, ◌<◌, true, false, List, [], ◌∷◌, ◌++◌, ◌≡◌, ◌≢◌, refl, sym, ap, ◌∙◌, arith, Bytes, codes,
  Lacks, All-append, contains, contains-Lacks, Bool, not, ◌&&◌, length, take_all, c_string,
}
use worker_informer.Informers.Table.{Values, Statement, update, insert_or_ignore, delete_guid}
use worker_informer.Sql.Literals.{
  literals, doubled, doubled-Lacks, literals-append, literals-Lacks, literals_quote,
}
use worker_informer.Sql.Format.{
  Printf, PrintfLaws, Item, text, int, unsigned, real, printed_item, printed, with_quoted,
}
use worker_informer.Sql.Statements.{
  buf_size, gap, update_branches, update_where, update_parts, update_text, insert_branches,
  insert_parts, insert_text, delete_text, whole_text, statement_text,
}

module _ {Real : Type 0} where
  -- Whether a text of the format has no quote.
  abbrev has_no_quote : Item Real → Bool
  has_no_quote (text t) = not (contains b'\'' t)
  has_no_quote _ = true

  abbrev pub is_plain : List (Item Real) → Bool
  is_plain [] = true
  is_plain (item ∷ items) = has_no_quote item && is_plain items

  -- Whether it begins with something else than a quote, besides.
  abbrev pub is_separator : List (Item Real) → Bool
  is_separator (text (c ∷ t) ∷ items) = is_plain (text (c ∷ t) ∷ items)
  is_separator _ = false

  abbrev pub are_separators : List (List (Item Real) × Bytes) → Bool
  are_separators [] = true
  are_separators ((front, t) ∷ more) = is_separator front && are_separators more

  abbrev pub quoted_texts : List (List (Item Real) × Bytes) → List Bytes
  quoted_texts [] = []
  quoted_texts ((front, t) ∷ more) = c_string t ∷ quoted_texts more

module _ {Real : Type 0} (printf : Printf Real) (laws : PrintfLaws printf) where
  printed_item-Lacks :
      (item : Item Real) → has_no_quote item ≡ true → Lacks b'\'' (printed_item printf item)
  printed_item-Lacks (text t) h = contains-Lacks b'\'' t (ground arith)
  printed_item-Lacks (int n) h = laws.percent_d_law n
  printed_item-Lacks (unsigned n) h = laws.percent_u_law n
  printed_item-Lacks (real x) h = laws.percent_f_law x

  pub printed-Lacks :
      (items : List (Item Real)) → is_plain items ≡ true → Lacks b'\'' (printed printf items)
  unfolding printed
  printed-Lacks [] h = tt
  printed-Lacks (item ∷ items) h =
      All-append _ (printed_item printf item) (printed printf items)
        (printed_item-Lacks item (ground arith)) (printed-Lacks items (ground arith))

  -- What a separator is printed as.
  pub printed-is_separator :
      (items : List (Item Real))
      → is_separator items ≡ true
      → (b : ℕ) × (s : Bytes) × (printed printf items ≡ b ∷ s) × (b ≢ b'\'') × Lacks b'\'' s
  unfolding printed
  printed-is_separator [] h = absurd (ground arith)
  printed-is_separator (text [] ∷ items) h = absurd (ground arith)
  printed-is_separator (int n ∷ items) h = absurd (ground arith)
  printed-is_separator (unsigned n ∷ items) h = absurd (ground arith)
  printed-is_separator (real x ∷ items) h = absurd (ground arith)
  printed-is_separator (text (c ∷ t) ∷ items) h =
      let (first, rest) = printed-Lacks (text (c ∷ t) ∷ items) h in
      (c, t ++ printed printf items, refl, first, rest)

  module _ (quoting : Bytes → Bytes) (law : (t : Bytes) → quoting t ≡ doubled (c_string t)) where
    -- Behind an opening quote.
    literals-opened :
        (t : Bytes) (parts : List (List (Item Real) × Bytes)) (back : List (Item Real))
        → are_separators parts ≡ true
        → is_separator back ≡ true
        → literals (b'\'' ∷ quoting t ++ b'\'' ∷ with_quoted printf quoting parts back)
          ≡ c_string t ∷ quoted_texts parts
    unfolding with_quoted
    literals-opened t [] back h last =
        let (b, s, e, other, lacks) = printed-is_separator back last in
        rw (law t, e)
          (literals_quote (c_string t) b s other ∙ ap (◌∷◌ (c_string t)) (literals-Lacks s lacks))
    literals-opened t ((front, u) ∷ more) back h last =
        let (b, s, e, other, lacks) = printed-is_separator front (ground arith) in
        rw (law t, e)
          (literals_quote (c_string t) b _ other
            ∙ ap (◌∷◌ (c_string t))
                (literals-append s _ lacks ∙ literals-opened u more back (ground arith) last))

    literals-with_quoted :
        (parts : List (List (Item Real) × Bytes)) (back : List (Item Real))
        → are_separators parts ≡ true
        → is_separator back ≡ true
        → literals (with_quoted printf quoting parts back) ≡ quoted_texts parts
    unfolding with_quoted
    literals-with_quoted [] back h last =
        let (b, s, e, other, lacks) = printed-is_separator back last in
        rw e (literals-Lacks (b ∷ s) (other, lacks))
    literals-with_quoted ((front, t) ∷ more) back h last =
        let (b, s, e, other, lacks) = printed-is_separator front (ground arith) in
        rw e (
          literals-append (b ∷ s) _ (other, lacks)
          ∙ literals-opened t more back (ground arith) last)

  -- `'%s'` of a text without quotes is as `'%q'`.
  pub literals-pasted :
      (front back : List (Item Real)) (t : Bytes)
      → is_separator front ≡ true
      → is_separator back ≡ true
      → Lacks b'\'' (c_string t)
      → literals (with_quoted printf printf.percent_s ((front, t) ∷ []) back) ≡ c_string t ∷ []
  unfolding with_quoted
  literals-pasted front back t h last lacks =
      ap
        (λ pasted.
          literals (printed printf front ++ (b'\'' ∷ (pasted ++ b'\'' ∷ printed printf back))))
        (laws.percent_s_law t ∙ sym (doubled-Lacks (c_string t) lacks))
      ∙ literals-with_quoted (λ u. doubled (c_string u)) (λ u. refl) ((front, t) ∷ []) back
          (ground arith) last

abbrev texts_of_values : {Real : Type 0} → Values Real → List Bytes
texts_of_values v =
    c_string v.title
    ∷ c_string v.account
    ∷ c_string v.domain
    ∷ c_string v.teasers_css
    ∷ c_string v.header_html
    ∷ c_string v.footer_html
    ∷ c_string v.user_code
    ∷ []

-- The texts of a statement, each up to its first NUL, in the order of its columns.
abbrev pub texts_of : {Real : Type 0} → Statement Real → List Bytes
texts_of (update id v) = texts_of_values v
texts_of (insert_or_ignore r) = c_string r.guid ∷ texts_of_values r.values
texts_of (delete_guid guid) = c_string guid ∷ []

-- A removal does not double the quotes of its text, and has to have none.
abbrev pub IsQuotable : {Real : Type 0} → Statement Real → Type 0
IsQuotable (update id v) = Unit
IsQuotable (insert_or_ignore r) = Unit
IsQuotable (delete_guid guid) = Lacks b'\'' (c_string guid)

module _ {Real : Type 0} (printf : Printf Real) (laws : PrintfLaws printf) where
  pub fill_all : (size : ℕ) (t : Bytes) → length t < size → printf.fill size t ≡ t
  fill_all size t h = laws.fill_law size t ∙ take_all (size - 1) t (omega arith)

  whole_text-literals :
      (st : Statement Real) → IsQuotable st → literals (whole_text printf st) ≡ texts_of st
  unfolding whole_text update_text insert_text delete_text contains
  whole_text-literals (update id v) _ =
      literals-with_quoted printf laws printf.percent_q laws.percent_q_law (update_parts v)
        (update_branches v ++ text gap ∷ update_where id) refl refl
  whole_text-literals (insert_or_ignore r) _ =
      literals-with_quoted printf laws printf.percent_q laws.percent_q_law (insert_parts r)
        (insert_branches r.values) refl refl
  whole_text-literals (delete_guid guid) h =
      literals-pasted printf laws (text (codes "DELETE FROM Informer WHERE guid=") ∷ [])
        (text (codes ";") ∷ []) guid refl refl h

  -- The statement that is run has the texts of the document, each up to its first NUL, as its string
  -- literals, each once and in the order of its columns; no quote in a text ends a literal early. The
  -- statement fits in the buffer; the text of a removal has no quote up to its first NUL.
  pub statement_text-literals :
      (st : Statement Real)
      → length (whole_text printf st) < buf_size
      → IsQuotable st
      → literals (statement_text printf st) ≡ texts_of st
  unfolding statement_text
  statement_text-literals st fits h =
      ap literals (fill_all buf_size (whole_text printf st) fits) ∙ whole_text-literals st h
