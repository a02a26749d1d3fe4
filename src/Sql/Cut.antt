-- ===== src/Sql/Cut.antt =====
-- An UPDATE that does not fit in the buffer of `ParentDB`.
use worker_informer.Base.{
  ℕ, ◌+◌, ◌-◌, ◌≤◌, ◌<◌, ℤ, List, [], ◌∷◌, ◌++◌, append_assoc, ◌≡◌, refl, ap, sym, ◌∙◌, arith,
  Bytes, length, take, take-append, take-append_front, take-replicate, replicate,
}
use worker_informer.Informers.Table.{Values, update}
use worker_informer.Sql.Format.{Printf, PrintfLaws, Item, text, printed_item, printed, with_quoted}
use worker_informer.Sql.Statements.{
  buf_size, gap, update_parts, update_branches, update_where, update_text, whole_text,
  statement_text,
}

module _ {Real : Type 0} (printf : Printf Real) where
  -- The UPDATE up to its last column, without its WHERE.
  unfoldable pub set_text : Values Real → Bytes
  unfolding with_quoted
  set_text v = with_quoted printf printf.percent_q (update_parts v) (update_branches v)

  printed-append :
      (xs ys : List (Item Real))
      → printed printf (xs ++ ys) ≡ printed printf xs ++ printed printf ys
  unfolding printed
  printed-append [] ys = refl
  printed-append (x ∷ xs) ys =
      rw (printed-append xs ys)
        (sym (append_assoc (printed_item printf x) (printed printf xs) (printed printf ys)))

  with_quoted-append :
      (quoting : Bytes → Bytes) (parts : List (List (Item Real) × Bytes)) (xs ys : List (Item Real))
      → with_quoted printf quoting parts (xs ++ ys)
        ≡ with_quoted printf quoting parts xs ++ printed printf ys
  unfolding with_quoted
  with_quoted-append quoting [] xs ys = printed-append xs ys
  with_quoted-append quoting ((front, t) ∷ more) xs ys =
      rw (with_quoted-append quoting more xs ys) (
        sym (
          append_assoc (printed printf front) _ (printed printf ys)
          ∙ ap (λ z. printed printf front ++ (b'\'' ∷ z))
              (append_assoc (quoting t) _ (printed printf ys))))

  gap_first : (n : ℕ) (s : Bytes) → n ≤ 30 → take n (gap ++ s) ≡ replicate n b' '
  gap_first n s h = take-append_front n gap s h ∙ take-replicate n 30 b' ' h

  module _ (laws : PrintfLaws printf) where
    -- If an UPDATE is so long that the buffer ends in the spaces in front of its WHERE, what is run is the
    -- list of the columns alone, whatever the identifier of the informer was: a statement for every row.
    pub statement_text-update :
        (id : ℤ) (v : Values Real)
        → length (set_text v) < buf_size
        → buf_size ≤ length (set_text v) + 31
        → statement_text printf (update id v)
          ≡ set_text v ++ replicate (buf_size - 1 - length (set_text v)) b' '
    unfolding statement_text whole_text update_text set_text
    statement_text-update id v fits over =
        let room = buf_size - 1 - length (set_text v) in
        let where_text = printed printf (update_where id) in
        laws.fill_law buf_size (update_text printf id v)
        ∙ ap (take (buf_size - 1)) (
            with_quoted-append printf.percent_q (update_parts v) (update_branches v)
              (text gap ∷ update_where id))
        ∙ take-append (buf_size - 1) (set_text v) (printed printf (text gap ∷ update_where id))
            (omega arith)
        ∙ ap (◌++◌ (set_text v)) (gap_first room where_text (omega arith))
