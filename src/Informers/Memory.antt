-- ===== src/Informers/Memory.antt =====
-- A table in memory and a small JSON library: instances of the interfaces, for runs.
use worker_informer.Base.{
  [], ◌++◌, append-nil, sym, ◌∙◌, ap, if_pos, if_neg, ℕ, ℤ, ℤ-discrete, Option, none, some, ◌≡◌,
  ◌≢◌, ◌⊎◌, inl, inr, refl, arith, if◌then◌else◌, equal, equal_iff, Bytes, ite,
}
use worker_informer.Informers.Table.{
  Values, Row, Statement, update, insert_or_ignore, delete_guid, Sqlite, is_some,
}
use worker_informer.Informers.Laws.{SqliteLaws, GuidLaws}
use worker_informer.Sql.Format.{Printf}

-- The row under each number.
abbrev pub Rows : Type 0
Rows = ℤ → Option (Row ℕ)

abbrev pub row : ℤ → Rows → Option (Row ℕ)
row j db = db j

abbrev changed : Values ℕ → Option (Row ℕ) → Option (Row ℕ)
changed v none = none
changed v (some r) = some (record r { values = v })

abbrev filled : Row ℕ → Option (Row ℕ) → Option (Row ℕ)
filled r none = some r
filled r (some s) = some s

abbrev without : Bytes → Option (Row ℕ) → Option (Row ℕ)
without g none = none
without g (some r) = if equal r.guid g then none else some r

unfoldable pub run_statement : Statement ℕ → Rows → Rows
run_statement (update id v) db = λ j. ite (ℤ-discrete j id) (changed v (db j)) (db j)
run_statement (insert_or_ignore r) db = λ j. ite (ℤ-discrete j r.id) (filled r (db j)) (db j)
run_statement (delete_guid g) db = λ j. without g (db j)

-- Rows are kept by number alone; no run here repeats a guid.
abbrev pub memory : Sqlite ℕ Rows
memory = record {
  has_id = λ id db. some (is_some (db id));
  exec = λ s db. some (run_statement s db);
}

at_row : {f g : Rows} → some f ≡ some g → (j : ℤ) → f j ≡ g j
at_row p j = ap (λ (o : Option Rows). from_some o j) p
  where
    from_some : Option Rows → Rows
    from_some none = λ _. none
    from_some (some f) = f

filled_either : (r : Row ℕ) (o : Option (Row ℕ)) → (filled r o ≡ some r) ⊎ (filled r o ≡ o)
filled_either r none = inl refl
filled_either r (some s) = inr refl

keep_other : (g : Bytes) (r : Row ℕ) → r.guid ≢ g → without g (some r) ≡ some r
keep_other g r other = ground (arith, equal_iff r.guid g)

-- The laws hold of this table, so that they can be met.
pub memory_laws : (printf : Printf ℕ) → SqliteLaws printf memory row
unfolding run_statement
memory_laws printf = record {
  has_id_row = λ id db. refl;
  update_same = λ id v db db' r sent run at.
      let e : ite (ℤ-discrete id id) (changed v (db id)) (db id) ≡ db' id = at_row run id in
      sym e ∙ if_pos (ℤ-discrete id id) refl _ _ ∙ ap (changed v) at;
  update_other = λ id j v db db' sent run other.
      let e : ite (ℤ-discrete j id) (changed v (db j)) (db j) ≡ db' j = at_row run j in
      sym e ∙ if_neg (ℤ-discrete j id) other _ _;
  insert_new = λ r db db' sent run absent free.
      let e : ite (ℤ-discrete r.id r.id) (filled r (db r.id)) (db r.id) ≡ db' r.id =
        at_row run r.id in
      sym e ∙ if_pos (ℤ-discrete r.id r.id) refl _ _ ∙ ap (filled r) absent;
  insert_either = λ r db db' sent run.
      let e : ite (ℤ-discrete r.id r.id) (filled r (db r.id)) (db r.id) ≡ db' r.id =
        at_row run r.id in
      let here : filled r (db r.id) ≡ db' r.id = sym (if_pos (ℤ-discrete r.id r.id) refl _ _) ∙ e in
      rw here at (filled_either r (db r.id));
  insert_other = λ r j db db' sent run other.
      let e : ite (ℤ-discrete j r.id) (filled r (db j)) (db j) ≡ db' j = at_row run j in
      sym e ∙ if_neg (ℤ-discrete j r.id) other _ _;
  delete_same = λ g j db db' r sent run at same.
      let e : without g (db j) ≡ db' j = at_row run j in
      sym e ∙ ap (without g) at ∙ rw ((equal_iff r.guid g).1 same);
  delete_other = λ g j db db' r sent run at other.
      let e : without g (db j) ≡ db' j = at_row run j in
      sym e ∙ ap (without g) at ∙ keep_other g r other;
}

changed_guid :
    (v : Values ℕ) (o : Option (Row ℕ)) (r : Row ℕ)
    → changed v o ≡ some r
    → (old : Row ℕ) × (o ≡ some old) × (r.guid ≡ old.guid)
changed_guid v none r e = absurd (ground arith)
changed_guid v (some old) r e =
    let same : record old { values = v } ≡ r = ground arith in
    (old, refl, sym (ap (λ (x : Row ℕ). x.guid) same))

filled_guid :
    (new : Row ℕ) (o : Option (Row ℕ)) (r : Row ℕ)
    → filled new o ≡ some r
    → ((old : Row ℕ) × (o ≡ some old) × (r.guid ≡ old.guid))
      ⊎ ((rest : Bytes) × (new.guid ≡ r.guid ++ rest))
filled_guid new none r e =
    let same : new ≡ r = ground arith in
    inr ([], ap (λ (x : Row ℕ). x.guid) same ∙ sym (append-nil r.guid))
filled_guid new (some old) r e =
    let same : old ≡ r = ground arith in inl (old, refl, sym (ap (λ (x : Row ℕ). x.guid) same))

pub memory_guids : GuidLaws memory row
unfolding run_statement
memory_guids = record {
  update_guid = λ id j v db db' r run at.
      let e : ite (ℤ-discrete j id) (changed v (db j)) (db j) ≡ db' j = at_row run j in
      elim (ℤ-discrete j id) [
        | yes p ↦ changed_guid v (db j) r (sym (if_pos (ℤ-discrete j id) p _ _) ∙ e ∙ at)
        | no p ↦ (r, sym (if_neg (ℤ-discrete j id) p _ _) ∙ e ∙ at, refl)
      ];
  insert_guid = λ new j db db' r run at.
      let e : ite (ℤ-discrete j new.id) (filled new (db j)) (db j) ≡ db' j = at_row run j in
      elim (ℤ-discrete j new.id) [
        | yes p ↦ filled_guid new (db j) r (sym (if_pos (ℤ-discrete j new.id) p _ _) ∙ e ∙ at)
        | no p ↦ inl (r, sym (if_neg (ℤ-discrete j new.id) p _ _) ∙ e ∙ at, refl)
      ];
}
