-- ===== src/Operation/DbStore/Statements.antt =====
-- The statements of the Redis and database request state store on its table, where every call is
-- answered: cdmp-mini/internal/common/service/operation/state/redisdb/store.go.
use cdmp_mini.Base.{
  ℕ, String, ◌≡◌, refl, ap, ◌∙◌, inl, inr, true, Option, none, some, Bool-cases, if◌then◌else◌,
  eq_refl, ◌==◌,
}
use cdmp_mini.Base.GoMap.{GoMap}
use cdmp_mini.Operation.Types.{OperationState, same_state, state_conflict, GoError, Result, ok, err}
use cdmp_mini.Operation.Acts.{or_fail}
use cdmp_mini.Operation.Acts.Ends.{Ends, attempt_known, eq-Ends, known-Ends}
use cdmp_mini.Operation.DbStore.Table.{OperationStateRecord, Tables, rows_found, updated_row}
use cdmp_mini.Operation.DbStore.Records.{Config, not_found, advance_updates, failure_updates}
use cdmp_mini.Operation.DbStore.Rows.{advance_reply, failure_reply}
use cdmp_mini.Operation.DbStore.Calm.{IsCalm, moved, call_calm}
use cdmp_mini.Operation.DbStore.{
  System, World, call, ensure_migrated, not_advanced, advanced_rows, advance_row, failed_rows,
  fail_row, migrate_once, persist_record,
}

-- An error of the in-memory store, as a result.
abbrev pub result_of : Option GoError → Result (Unit {0})
result_of none = ok tt
result_of (some e) = err e

-- The store has a database, whose table is migrated.
pub record IsMigrated {T : Type 0} (settings : Config) (s : System T) : Type 0 where
  pub db : settings.has_db ≡ true
  pub done : s.migrated ≡ some (ok tt)

-- What a statement on the table leaves, and its result.
pub record Updated {T : Type 0} (table : T) (cache : GoMap String)
    (migrated : Option (Result (Unit {0}))) (reply : Result (Unit {0})) (s : System T)
    (r : Result (Unit {0})) : Type 0 where
  pub table_eq : s.shared.table ≡ table
  pub cache_eq : s.shared.cache ≡ cache
  pub migrated_eq : s.migrated ≡ migrated
  pub reply_eq : r ≡ reply

-- A state that is what it has to be.
Updated-refl :
    {T : Type 0} (s : System T) (r : Result (Unit {0}))
    → Updated s.shared.table s.shared.cache s.migrated r s r
Updated-refl s r = record { table_eq = refl; cache_eq = refl; migrated_eq = refl; reply_eq = refl }

abbrev pub missing_reply : String → ℕ → GoError
missing_reply id count = if count == 0 then not_found id else state_conflict

pub not_advanced_eq :
    {T : Type 0} (id : String) (count : ℕ) (s : System T)
    → not_advanced id count s ≡ (s, err (missing_reply id count))
unfolding not_advanced
not_advanced_eq id count s = elim (Bool-cases (count == 0)) [
  | inl gone ↦ rw gone refl
  | inr there ↦ rw there refl
]

failed_rows_eq :
    {T : Type 0} (id : String) (o : Option OperationStateRecord) (s : System T)
    → failed_rows id (rows_found (λ row. true) o) s ≡ (s, result_of (failure_reply id o))
unfolding failed_rows
failed_rows_eq id none s = refl
failed_rows_eq id (some row) s = refl

module _ {T : Type 0} (tables : Tables T) {world : World T} (calm : IsCalm world) where
  counted :
      (id : String) (s : System T) (n : ℕ)
      → tables.count id s.shared.table ≡ n
      → advanced_rows tables world id 0 s ≡ (moved s.shared s, err (missing_reply id n))
  unfolding advanced_rows or_fail
  counted id s n count =
      let asked = call_calm calm (λ d. (d, tables.count id d.table)) s in
      attempt_known (call world (λ d. (d, tables.count id d.table))) (or_fail (not_advanced id))
        asked
      ∙ rw count (not_advanced_eq id n (moved s.shared s))

  advanced_rows-Updated :
      (id : String) (from to : OperationState) (now : ℕ) (s : System T)
      (o : Option OperationStateRecord)
      → tables.find id s.shared.table
        ≡ updated_row (λ row. same_state row.state from) (advance_updates now to) o
      → Ends
          (advanced_rows tables world id (rows_found (λ row. same_state row.state from) o))
          (Updated s.shared.table s.shared.cache s.migrated (result_of (advance_reply id from o)))
          s
  unfolding advanced_rows
  advanced_rows-Updated id from to now s none found =
      let count = tables.count-find id s.shared.table ∙ ap (rows_found (λ row. true)) found in
      eq-Ends (counted id s 0 count) (Updated-refl (moved s.shared s) _)
  advanced_rows-Updated id from to now s (some row) found =
      let count = tables.count-find id s.shared.table ∙ ap (rows_found (λ row. true)) found in
      elim (Bool-cases (same_state row.state from)) [
        | inl hit ↦ rw hit (record { ended = Updated-refl s _ })
        | inr miss ↦ rw miss (eq-Ends (counted id s 1 count) (Updated-refl (moved s.shared s) _))
      ]

  pub advance_row-Updated :
      (settings : Config) (now : ℕ) (id : String) (from to : OperationState) (s : System T)
      → settings.has_db ≡ true
      → Ends
          (advance_row tables world settings now id from to)
          (Updated
            (tables.update_where id
              (λ row. same_state row.state from)
              (advance_updates now to)
              s.shared.table).0
            s.shared.cache
            s.migrated
            (result_of (advance_reply id from (tables.find id s.shared.table))))
          s
  unfolding advance_row
  advance_row-Updated settings now id from to s db =
      let table = s.shared.table in
      let test = λ (row : OperationStateRecord). same_state row.state from in
      let updates = advance_updates now to in
      let run =
        call_calm calm
          (λ d.
            let done = tables.update_where id test updates d.table in
            (record d { table = done.0 }, done.1))
          s in
      let after_update = tables.find-update_where id id test updates table in
      let found = rw (eq_refl id) at after_update in
      rw db (
        known-Ends _ (advanced_rows tables world id) run (
          rw (tables.update_where_reply id test updates table)
            (advanced_rows-Updated id from to now _ (tables.find id table) found)))

  pub fail_row-Updated :
      (settings : Config) (now : ℕ) (id : String) (attempt : ℕ) (reason : String) (s : System T)
      → settings.has_db ≡ true
      → Ends
          (fail_row tables world settings now id attempt reason)
          (Updated
            (tables.update_where id
              (λ row. true)
              (failure_updates now attempt reason)
              s.shared.table).0
            s.shared.cache
            s.migrated
            (result_of (failure_reply id (tables.find id s.shared.table))))
          s
  unfolding fail_row
  fail_row-Updated settings now id attempt reason s db =
      let table = s.shared.table in
      let test = λ (row : OperationStateRecord). true in
      let updates = failure_updates now attempt reason in
      let run =
        call_calm calm
          (λ d.
            let done = tables.update_where id test updates d.table in
            (record d { table = done.0 }, done.1))
          s in
      rw db (
        known-Ends _ (failed_rows id) run (
          rw (tables.update_where_reply id test updates table)
            (eq-Ends (failed_rows_eq id (tables.find id table) _) (Updated-refl _ _))))

  pub ensure_migrated_known :
      (settings : Config) (s : System T)
      → IsMigrated settings s
      → ensure_migrated world settings s ≡ (s, ok tt)
  unfolding ensure_migrated migrate_once
  ensure_migrated_known settings s ready = rw (ready.db, ready.done) refl

  pub persist_record-Updated :
      (settings : Config) (row : OperationStateRecord) (s : System T)
      → IsMigrated settings s
      → Ends
          (persist_record tables world settings row)
          (Updated
            (tables.create (record row { created_at = row.updated_at }) s.shared.table)
            s.shared.cache
            s.migrated
            (ok tt))
          s
  unfolding persist_record
  persist_record-Updated settings row s ready =
      let run =
        call_calm calm
          (λ d. (
            record d { table = tables.create (record row { created_at = row.updated_at }) d.table },
            tt,
          ))
          s in
      known-Ends _ _ (ensure_migrated_known settings s ready)
        (rw ready.db (eq-Ends run (Updated-refl _ _)))
