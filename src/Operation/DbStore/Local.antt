-- ===== src/Operation/DbStore/Local.antt =====
-- A table and an encoding that meet what the Redis and database request state store relies on: rows in
-- a map, and texts in which a mark stands before each character.
use text.Mathlib.Text.{◌==◌ as str_eq}
use cdmp_mini.Base.{
  String, ◌≡◌, refl, ap, ◌∙◌, sym, inl, inr, Bool, true, Option, none, some, Bool-cases,
  if◌then◌else◌, arith, eq_iff,
}
use cdmp_mini.Base.GoMap.{GoMap, lookup, insert, lookup-insert}
use cdmp_mini.Operation.DbStore.Table.{
  OperationStateRecord, Updates, apply_updates, created_row, updated_row, rows_found, Tables,
}

abbrev pub Rows : Type 0
Rows = GoMap OperationStateRecord

unfoldable pub update_found :
    String → (OperationStateRecord → Bool) → Updates → Option OperationStateRecord → Rows → Rows
update_found id test updates none t = t
update_found id test updates (some row) t =
    if test row then insert id (apply_updates updates row) t else t

pub lookup-update_found :
    (id key : String) (test : OperationStateRecord → Bool) (updates : Updates)
    (o : Option OperationStateRecord) (t : Rows)
    → lookup id t ≡ o
    → lookup key (update_found id test updates o t)
      ≡ (if str_eq id key then updated_row test updates (lookup key t) else lookup key t)
unfolding update_found
lookup-update_found id key test updates none t e = elim (Bool-cases (str_eq id key)) [
  | inl hit ↦
      let mine = ap (λ k. lookup k t) (sym ((eq_iff id key).0 hit)) ∙ e in rw (hit, mine) refl
  | inr miss ↦ rw miss refl
]
lookup-update_found id key test updates (some row) t e =
    let stored = lookup-insert id key (apply_updates updates row) t in
    elim (Bool-cases (str_eq id key)) [
      | inl hit ↦
          let mine = ap (λ k. lookup k t) (sym ((eq_iff id key).0 hit)) ∙ e in
          ground (arith, hit, mine, stored)
      | inr miss ↦ ground (arith, miss, stored)
    ]

pub lookup-create :
    (key : String) (row : OperationStateRecord) (t : Rows)
    → lookup key (insert row.operation_id (created_row row (lookup row.operation_id t)) t) ≡ (
        if str_eq row.operation_id key then some (created_row row (lookup key t)) else lookup key t)
lookup-create key row t =
    let stored =
      lookup-insert row.operation_id key (created_row row (lookup row.operation_id t)) t in
    elim (Bool-cases (str_eq row.operation_id key)) [
      | inl hit ↦
          stored
          ∙ rw hit
              (ap (λ k. some (created_row row (lookup k t))) ((eq_iff row.operation_id key).0 hit))
      | inr miss ↦ stored ∙ rw miss refl
    ]

unfoldable pub local_tables : Tables Rows
unfolding update_found
local_tables = record {
  find = lookup;
  count = λ id t. rows_found (λ row. true) (lookup id t);
  update_where = λ id test updates t.
      (update_found id test updates (lookup id t) t, rows_found test (lookup id t));
  create = λ row t. insert row.operation_id (created_row row (lookup row.operation_id t)) t;
  count-find = λ id t. refl;
  find-update_where =
      λ id key test updates t. lookup-update_found id key test updates (lookup id t) t refl;
  update_where_reply = λ id test updates t. refl;
  find-create = lookup-create;
}
