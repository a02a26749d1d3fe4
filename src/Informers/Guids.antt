-- ===== src/Informers/Guids.antt =====
-- The guids of the rows: always in lower case, so that a removal has to name them so.
use worker_informer.Base.{
  ℕ, ◌++◌, refl, ap, ap₂, ℤ, false, Option, none, some, List, [], ◌∷◌, ◌≡◌, ◌≢◌, sym, ◌∙◌, arith,
  if◌then◌else◌, is_empty, Bytes, codes, Option-cases, Bool-cases, >>=-keeps, inl, inr, equal,
  equal_iff,
}
use worker_informer.Informers.Json.{JsonApi, string_at}
use worker_informer.Informers.Table.{
  Values, Row, Statement, update, insert_or_ignore, delete_guid, Sqlite,
}
use worker_informer.Informers.Laws.{SqliteLaws, GuidLaws, IsSent}
use worker_informer.Sql.Format.{Printf}
use worker_informer.Informers.Values.{Defaults, Outside, read_values}
use worker_informer.Informers.Update.{
  or_log, write_row, update_row, update_item, update_items, informer_remove,
}

-- Each guid of the table is in lower case.
abbrev pub LowerGuids :
    {Json Real Db : Type 0} → JsonApi Json Real → (ℤ → Db → Option (Row Real)) → Db → Type 0
LowerGuids api row db = (j : ℤ) (r : Row _) → row j db ≡ some r → api.to_lower r.guid ≡ r.guid

-- A function on each byte.
abbrev pub each : (ℕ → ℕ) → Bytes → Bytes
each f [] = []
each f (c ∷ s) = f c ∷ each f s

module _ {Json Real Db : Type 0} (api : JsonApi Json Real) (outside : Outside Real)
    (cfg : Defaults Real) (sqlite : Sqlite Real Db) (row : ℤ → Db → Option (Row Real)) where
  -- `to_lower` goes byte by byte, and a second time changes nothing.
  module _ (guids : GuidLaws sqlite row) (lower : ℕ → ℕ)
      (bytewise : (s : Bytes) → api.to_lower s ≡ each lower s)
      (idem : (c : ℕ) → lower (lower c) ≡ lower c) where
    -- A front of a text in lower case is in lower case.
    each-front : (s front rest : Bytes) → each lower s ≡ front ++ rest → each lower front ≡ front
    each-front s [] rest e = refl
    each-front [] (c ∷ front) rest e = absurd (ground arith)
    each-front (x ∷ s) (c ∷ front) rest e =
        let first : lower x ≡ c = ground arith in
        let others : each lower s ≡ front ++ rest = ground arith in
        ap₂ (λ y ys. y ∷ ys) (ap lower (sym first) ∙ idem x ∙ first)
          (each-front s front rest others)

    insert-LowerGuids :
        (n : ℤ) (guid : Bytes) (v : Values Real) (db db' : Db)
        → LowerGuids api row db
        → sqlite.exec
            (insert_or_ignore (record { id = n; guid = api.to_lower guid; values = v }))
            db
          ≡ some db'
        → LowerGuids api row db'
    insert-LowerGuids n guid v db db' low run j r at =
        elim (guids.insert_guid _ j db db' r run at) [
          | inl (old, was, same) ↦ rw same (low j old was)
          | inr (rest, split) ↦
              bytewise r.guid ∙ each-front guid r.guid rest (sym (bytewise guid) ∙ split)
        ]

    update-LowerGuids :
        (n : ℤ) (v : Values Real) (db db' : Db)
        → LowerGuids api row db
        → sqlite.exec (update n v) db ≡ some db'
        → LowerGuids api row db'
    update-LowerGuids n v db db' low run j r at =
        let (old, was, same) = guids.update_guid n j v db db' r run at in rw same (low j old was)

    or_log-LowerGuids :
        (s : Statement Real) (db : Db)
        → LowerGuids api row db
        → ((db' : Db) → sqlite.exec s db ≡ some db' → LowerGuids api row db')
        → LowerGuids api row (or_log (sqlite.exec s db) db)
    or_log-LowerGuids s db low ran = elim (Option-cases (sqlite.exec s db)) [
      | inl e ↦ rw e low
      | inr (db', e) ↦ rw e (ran db' e)
    ]

    write_row-LowerGuids :
        (n : ℤ) (guid : Bytes) (v : Values Real) (db : Db)
        → LowerGuids api row db
        → LowerGuids api row (write_row api outside cfg sqlite n (api.to_lower guid) v db)
    unfolding write_row
    write_row-LowerGuids n guid v db low = elim (Bool-cases (or_log (sqlite.has_id n db) false)) [
      | inl found ↦ rw found (or_log-LowerGuids _ db low (λ db'. update-LowerGuids n v db db' low))
      | inr missing ↦
          rw missing (or_log-LowerGuids _ db low (λ db'. insert-LowerGuids n guid v db db' low))
    ]

    update_row-LowerGuids :
        (x : Json) (guid : Bytes) (db db' : Db)
        → LowerGuids api row db
        → update_row api outside cfg sqlite x (api.to_lower guid) db ≡ some db'
        → LowerGuids api row db'
    unfolding update_row
    update_row-LowerGuids x guid db db' low =
        >>=-keeps (LowerGuids api row) (api.at x (codes "guid_int")) _
          (λ number _. >>=-keeps (LowerGuids api row) (api.get_long_long number) _ (λ n _.
            >>=-keeps (LowerGuids api row) (read_values api outside cfg x) _ (λ v _ b h.
              let same : write_row api outside cfg sqlite n (api.to_lower guid) v db ≡ b = cc in
              rw same at (write_row-LowerGuids n guid v db low))))
          db'

    update_item-LowerGuids :
        (i : Bytes) (db db' : Db)
        → LowerGuids api row db
        → update_item api outside cfg sqlite i db ≡ some db'
        → LowerGuids api row db'
    unfolding update_item
    update_item-LowerGuids i db db' low =
        >>=-keeps (LowerGuids api row) (api.parse i) _
          (λ x _. >>=-keeps (LowerGuids api row) (string_at api x (codes "guid")) _ (λ guid _ b h.
            elim (Bool-cases (is_empty (api.to_lower guid))) [
              | inl e ↦ let same : db ≡ b = ground arith in rw same at low
              | inr e ↦ update_row-LowerGuids x guid db b low (rw e at h)
            ]))
          db'

    -- After any documents, each guid of the table is in lower case, if each was so before and
    -- `to_lower` goes byte by byte, twice being the same as once.
    pub update_items-LowerGuids :
        (items : List Bytes) (db : Db)
        → LowerGuids api row db
        → LowerGuids api row (update_items api outside cfg sqlite items db)
    unfolding update_items
    update_items-LowerGuids [] db low = low
    update_items-LowerGuids (i ∷ items) db low =
        elim (Option-cases (update_item api outside cfg sqlite i db)) [
          | inl e ↦ rw (e, update_items) low
          | inr (next, e) ↦
              rw (e, update_items)
                (update_items-LowerGuids items next (update_item-LowerGuids i db next low e))
        ]

    module _ (printf : Printf Real) (laws : SqliteLaws printf sqlite row) where
      -- A removal with a nonempty text without NUL and quote that fits in the buffer, once its statement has run, takes away exactly the rows whose
      -- guid is this text, letter for letter.
      pub informer_remove-Row :
          (id : Bytes) (j : ℤ) (r : Row Real) (db db' : Db)
          → is_empty id ≡ false
          → IsSent printf (delete_guid id)
          → sqlite.exec (delete_guid id) db ≡ some db'
          → row j db ≡ some r
          → row j (informer_remove api outside cfg sqlite id db)
            ≡ (if equal r.guid id then none else some r)
      unfolding informer_remove
      informer_remove-Row id j r db db' e sent run at = elim (Bool-cases (equal r.guid id)) [
        | inl same ↦
            rw (e, run, same)
              (laws.delete_same id j db db' r sent run at ((equal_iff r.guid id).0 same))
        | inr other ↦
            rw (e, run, other)
              (laws.delete_other id j db db' r sent run at
                (λ p. let q = (equal_iff r.guid id).1 p in cc))
      ]

      -- A table that documents have filled keeps its rows on a removal whose text has a letter in upper
      -- case: where every guid is in lower case, such a removal takes no row away. The text has no NUL and no
      -- quote and fits in the buffer, and the statement runs.
      pub informer_remove_upper :
          (items : List Bytes) (id : Bytes) (j : ℤ) (r : Row Real) (db db' : Db)
          → LowerGuids api row db
          → is_empty id ≡ false
          → api.to_lower id ≢ id
          → IsSent printf (delete_guid id)
          → sqlite.exec (delete_guid id) (update_items api outside cfg sqlite items db) ≡ some db'
          → row j (update_items api outside cfg sqlite items db) ≡ some r
          → row j (
              informer_remove api outside cfg sqlite id
                (update_items api outside cfg sqlite items db))
            ≡ some r
      informer_remove_upper items id j r db db' low e upper sent run at =
          elim (Bool-cases (equal r.guid id)) [
            | inl same ↦
                let text : r.guid ≡ id = (equal_iff r.guid id).0 same in
                absurd (upper (rw text at (update_items-LowerGuids items db low j r at)))
            | inr other ↦ informer_remove-Row id j r _ db' e sent run at ∙ rw other
          ]
