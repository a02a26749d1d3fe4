-- ===== src/Informers/Tests.antt =====
-- Runs of `InformerUpdate` and `InformerRemove` on a table in memory, and the theorems at these inputs.
use worker_informer.Base.{
  ℕ, ap, ℤ, pos, none, some, [], ◌∷◌, ◌≡◌, ◌≢◌, refl, equal, Bytes, codes, arith, c_string,
}
use worker_informer.Informers.Update.{update_item, update_items, informer_remove}
use worker_informer.Informers.Upsert.{update_item-Row}
use worker_informer.Informers.Guids.{
  each, LowerGuids, update_items-LowerGuids, informer_remove_upper,
}
use worker_informer.Informers.Memory.{row, memory, memory_laws, memory_guids}
use worker_informer.Informers.Table.{delete_guid}
use worker_informer.Informers.Laws.{IsSent}
use worker_informer.Sql.Format.{printed, with_quoted}
use worker_informer.Sql.Statements.{whole_text, delete_text}
use worker_informer.Sql.Sample.{printf}
use worker_informer.Informers.Sample.{doc-IsRead, doc-IsSent, nothing, doc_row, one_row}
use worker_informer.Informers.Library.{
  doc_values, library, arithmetic, defaults, to_lower, lower, lower_idem,
}

update_item-Row_example :
    (update_item library arithmetic defaults memory (codes "doc") nothing ≡ some one_row)
    × (row (pos 7) one_row ≡ some doc_row)
    × ((j : ℤ) → j ≢ pos 7 → row j one_row ≡ row j nothing)
update_item-Row_example =
    update_item-Row library arithmetic defaults printf memory row (memory_laws printf) (codes "doc")
      (codes "Ab-1") (pos 7) doc_values nothing one_row doc-IsRead refl (λ j s p q. cc) doc-IsSent
      refl

bad_document : update_item library arithmetic defaults memory (codes "?") one_row ≡ none
unfolding update_item equal
bad_document = refl

to_lower-each : (s : Bytes) → to_lower s ≡ each lower s
to_lower-each [] = refl
to_lower-each (c ∷ s) = ap (λ t. lower c ∷ t) (to_lower-each s)

update_items-LowerGuids_example :
    LowerGuids library row
      (update_items library arithmetic defaults memory (codes "doc" ∷ []) nothing)
update_items-LowerGuids_example =
    update_items-LowerGuids library arithmetic defaults memory row memory_guids lower to_lower-each
      lower_idem (codes "doc" ∷ []) nothing (λ j r p. cc)

abbrev first_byte : Bytes → ℕ
first_byte [] = 0
first_byte (c ∷ s) = c

has_upper : to_lower (codes "Ab-1") ≢ codes "Ab-1"
has_upper e =
    let h : first_byte (to_lower (codes "Ab-1")) ≡ b'A' = ap first_byte e in absurd (omega arith)

after_document :
    update_items library arithmetic defaults memory (codes "doc" ∷ []) nothing ≡ one_row
unfolding update_items
after_document = rw (update_item-Row_example.0, update_items)

removal-IsSent : IsSent printf (delete_guid (codes "Ab-1"))
unfolding whole_text delete_text with_quoted printed c_string
removal-IsSent = record { fits = omega arith; no_nul = (omega arith); quotable = (omega arith) }

-- The guid of the document as the main database spells it: no row goes.
informer_remove_upper_example :
    row (pos 7) (
      informer_remove library arithmetic defaults memory
        (codes "Ab-1")
        (update_items library arithmetic defaults memory (codes "doc" ∷ []) nothing))
    ≡ some doc_row
informer_remove_upper_example =
    informer_remove_upper library arithmetic defaults memory row memory_guids lower to_lower-each
      lower_idem printf (memory_laws printf) (codes "doc" ∷ []) (codes "Ab-1") (pos 7) doc_row
      nothing _ (λ j r p. cc) refl has_upper removal-IsSent refl
      (rw after_document update_item-Row_example.1)
