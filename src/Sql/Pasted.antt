-- ===== src/Sql/Pasted.antt =====
-- The identifiers that are pasted into a SQL text by `'%s'`, as they are: the one of a request in
-- `Core_DataBase::getInformer`, the one of a message in `ParentDB::InformerRemove`.
use worker_informer.Base.{
  ℕ, suc, ◌≤◌, ◌<◌, true, false, List, [], ◌∷◌, ◌++◌, ◌≡◌, ◌≢◌, ◌↔◌, refl, ap, subst, sym, ◌∙◌, inl,
  inr, arith, Bool-cases, ◌==◌, Bytes, codes, Lacks, length, contains, c_string,
}
use worker_informer.Informers.Table.{delete_guid}
use worker_informer.Sql.Literals.{
  in_literal, behind_quote, read_literals, grow, literals, literals-append,
}
use worker_informer.Sql.Format.{Printf, PrintfLaws, Item, text, printed, with_quoted}
use worker_informer.Sql.Statements.{buf_size, delete_text, whole_text, statement_text}
use worker_informer.Sql.Query.{cmd_size, query_head, query_text, query_whole}
use worker_informer.Sql.Whole.{is_separator, printed-is_separator, fill_all, literals-pasted}

-- The first literal, if there is one, has at most so many bytes.
abbrev FirstWithin : ℕ → List Bytes → Type 0
FirstWithin n [] = Unit
FirstWithin n (l ∷ ls) = length l ≤ n

grow-FirstWithin : (n c : ℕ) (ls : List Bytes) → FirstWithin n ls → FirstWithin (suc n) (grow c ls)
grow-FirstWithin n c [] h = tt
grow-FirstWithin n c (l ∷ ls) h = omega arith

FirstWithin-suc : (n : ℕ) (ls : List Bytes) → FirstWithin n ls → FirstWithin (suc n) ls
FirstWithin-suc n [] h = tt
FirstWithin-suc n (l ∷ ls) h = omega arith

grow_injective : (c : ℕ) (l : Bytes) (ls : List Bytes) → grow c ls ≡ (c ∷ l) ∷ [] → ls ≡ l ∷ []
grow_injective c l [] e = absurd (ground arith)
grow_injective c l (k ∷ ls) e = ground arith

in_literal-Lacks : (s : Bytes) → Lacks b'\'' s → read_literals in_literal s ≡ []
unfolding read_literals
in_literal-Lacks [] _ = refl
in_literal-Lacks (c ∷ s) (h, hs) =
    let other : (c == b'\'') ≡ false = ground arith in rw (other, in_literal-Lacks s hs) refl

module _ (b : ℕ) (s : Bytes) (other : b ≢ b'\'') (lacks : Lacks b'\'' s) where
  mutual
    unfolding read_literals

    in_literal-FirstWithin :
        (t : Bytes) → FirstWithin (length t) (read_literals in_literal (t ++ b'\'' ∷ b ∷ s))
    in_literal-FirstWithin [] =
        let differs : (b == b'\'') ≡ false = ground arith in rw differs (omega arith)
    in_literal-FirstWithin (c ∷ t) = elim (Bool-cases (c == b'\'')) [
      | inl e ↦ rw e (FirstWithin-suc (length t) _ (behind_quote-FirstWithin t))
      | inr e ↦ rw e (grow-FirstWithin (length t) c _ (in_literal-FirstWithin t))
    ]

    behind_quote-FirstWithin :
        (t : Bytes) → FirstWithin (length t) (read_literals behind_quote (t ++ b'\'' ∷ b ∷ s))
    behind_quote-FirstWithin [] = rw (in_literal-Lacks (b ∷ s) (other, lacks)) tt
    behind_quote-FirstWithin (c ∷ t) = elim (Bool-cases (c == b'\'')) [
      | inl e ↦ rw e (grow-FirstWithin (length t) c _ (in_literal-FirstWithin t))
      | inr e ↦ rw e (omega arith)
    ]

  -- A text that is read back as it is has no quote.
  in_literal_lem :
      (t : Bytes) → read_literals in_literal (t ++ b'\'' ∷ b ∷ s) ≡ t ∷ [] → Lacks b'\'' t
  unfolding read_literals
  in_literal_lem [] e = tt
  in_literal_lem (c ∷ t) e = elim (Bool-cases (c == b'\'')) [
    | inl quote ↦
        let step : read_literals in_literal (c ∷ (t ++ b'\'' ∷ b ∷ s))
            ≡ read_literals behind_quote (t ++ b'\'' ∷ b ∷ s) =
          rw quote refl in
        let within : FirstWithin (length t) ((c ∷ t) ∷ []) =
          subst (FirstWithin (length t)) (sym step ∙ e) (behind_quote-FirstWithin t) in
        absurd (omega arith)
    | inr differs ↦
        let step : read_literals in_literal (c ∷ (t ++ b'\'' ∷ b ∷ s))
            ≡ grow c (read_literals in_literal (t ++ b'\'' ∷ b ∷ s)) =
          rw differs refl in
        ((λ q. ground arith), in_literal_lem t (grow_injective c t _ (sym step ∙ e)))
  ]

module _ {Real : Type 0} (printf : Printf Real) (laws : PrintfLaws printf) where
  -- A text between quotes, pasted as it is, is read back just when it has no quote.
  pub literals-pasted_iff :
      (front back : List (Item Real)) (t : Bytes)
      → is_separator front ≡ true
      → is_separator back ≡ true
      → (literals (with_quoted printf printf.percent_s ((front, t) ∷ []) back) ≡ c_string t ∷ [])
        ↔ Lacks b'\'' (c_string t)
  unfolding with_quoted literals
  literals-pasted_iff front back t h last = (
    (λ e.
        let (b, s, is, other, lacks) = printed-is_separator printf laws front h in
        let (b', s', is', other', lacks') = printed-is_separator printf laws back last in
        in_literal_lem b' s' other' lacks' (c_string t) (
          ap (λ pasted. read_literals in_literal (pasted ++ b'\'' ∷ b' ∷ s'))
            (sym (laws.percent_s_law t))
          ∙ ap (λ tail. read_literals in_literal (printf.percent_s t ++ b'\'' ∷ tail)) (sym is')
          ∙ sym (literals-append (b ∷ s) _ (other, lacks))
          ∙ ap
              (λ head.
                literals (head ++ (b'\'' ∷ (printf.percent_s t ++ b'\'' ∷ printed printf back))))
              (sym is)
          ∙ e)),
    literals-pasted printf laws front back t h last,
  )

  -- An identifier that stands in the query for an informer or in the text of a removal, which paste it as
  -- it is, is the one string literal of that text just when it has no quote up to its first NUL; with a
  -- quote, the database is asked something else. Both texts fit in their buffers.
  pub pasted-literals :
      (guid : Bytes)
      → length (query_whole printf guid) < cmd_size
      → length (whole_text printf (delete_guid guid)) < buf_size
      → ((literals (query_text printf guid) ≡ c_string guid ∷ []) ↔ Lacks b'\'' (c_string guid))
        × ((literals (statement_text printf (delete_guid guid)) ≡ c_string guid ∷ [])
            ↔ Lacks b'\'' (c_string guid))
  unfolding query_text query_whole query_head statement_text whole_text delete_text contains
  pasted-literals guid fits fits' = (
    rw (fill_all printf laws cmd_size _ fits) (
        literals-pasted_iff (text query_head ∷ []) (text (codes "\nLIMIT 1;\n") ∷ []) guid refl
          refl),
    rw (fill_all printf laws buf_size _ fits') (
        literals-pasted_iff (text (codes "DELETE FROM Informer WHERE guid=") ∷ [])
          (text (codes ";") ∷ []) guid refl refl),
  )
