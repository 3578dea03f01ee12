-- ===== src/Operation/DbStore/Rows.antt =====
-- What the updates of the Redis and database request state store do to the rows, beside what the
-- in-memory store does: cdmp-mini/internal/common/service/operation/state/redisdb/store.go and
-- cdmp-mini/internal/common/service/operation/state/memory.go.
use text.Mathlib.Text.{◌==◌ as str_eq}
use cdmp_mini.Base.{
  ℕ, ◌/◌, String, ◌≡◌, refl, sym, ap, ◌∙◌, inl, inr, true, false, Option, none, some, Bool-cases,
  if◌then◌else◌, arith, eq_iff,
}
use cdmp_mini.Base.Signed.{millisecond}
use cdmp_mini.Base.Text.{is_empty}
use cdmp_mini.Base.GoMap.{lookup, lookup-insert}
use cdmp_mini.Operation.Types.{
  OperationState, queued, failed, same_state, OperationEnvelope, state_conflict, GoError,
  RequestState,
}
use cdmp_mini.Operation.Store.{
  Store, advance, record_failure, advance_found, fail_found, upsert, upserted, enter_state,
}
use cdmp_mini.Operation.DbStore.Table.{
  OperationStateRecord, Tables, apply_updates, updated_row, created_row, assign,
}
use cdmp_mini.Operation.DbStore.Records.{
  to_request_state, not_found, advance_updates, failure_updates, upserted_row, truncate_reason,
}

-- What a caller sees of a row.
abbrev pub view : Option OperationStateRecord → Option RequestState
view none = none
view (some row) = some (to_request_state row)

-- The table holds the states of the in-memory store.
pub record Shows {T : Type 0} (tables : Tables T) (t : T) (m : Store) : Type 0 where
  pub shown : (id : String) → lookup id m.states ≡ view (tables.find id t)

-- What `Advance` returns for the row that is there.
abbrev pub advance_reply : String → OperationState → Option OperationStateRecord → Option GoError
advance_reply id from none = some (not_found id)
advance_reply id from (some row) = if same_state row.state from then none else some state_conflict

-- What `RecordFailure` returns.
abbrev pub failure_reply : String → Option OperationStateRecord → Option GoError
failure_reply id none = some (not_found id)
failure_reply id (some row) = none

advance_view :
    (now : ℕ) (id key : String) (from to : OperationState) (m : Store)
    (mine theirs : Option OperationStateRecord)
    → lookup key m.states ≡ view theirs
    → (str_eq id key ≡ true → mine ≡ theirs)
    → lookup key (advance_found now id from to (view mine) m).0.states
      ≡ view (
          if str_eq id key
          then updated_row (λ row. same_state row.state from) (advance_updates now to) theirs
          else theirs)
unfolding advance_found enter_state advance_updates apply_updates to_request_state
advance_view now id key from to m none theirs shown same = elim (Bool-cases (str_eq id key)) [
  | inl hit ↦ rw (hit, ← same hit) (shown ∙ ap view (sym (same hit)))
  | inr miss ↦ rw miss shown
]
advance_view now id key from to m (some row) theirs shown same =
    let stored = lookup-insert id key (enter_state now to (to_request_state row)) m.states in
    elim (Bool-cases (str_eq id key)) [
      | inl hit ↦ ground (arith, hit, stored, same hit, shown)
      | inr miss ↦ ground (arith, miss, stored, shown)
    ]

failure_view :
    (now : ℕ) (id key : String) (attempt : ℕ) (reason : String) (m : Store)
    (mine theirs : Option OperationStateRecord)
    → lookup key m.states ≡ view theirs
    → (str_eq id key ≡ true → mine ≡ theirs)
    → truncate_reason reason ≡ reason
    → lookup key (fail_found now id attempt reason (view mine) m).0.states
      ≡ view (
          if str_eq id key
          then updated_row (λ row. true) (failure_updates now attempt reason) theirs
          else theirs)
unfolding fail_found failure_updates apply_updates to_request_state
failure_view now id key attempt reason m none theirs shown same whole =
    elim (Bool-cases (str_eq id key)) [
      | inl hit ↦ rw (hit, ← same hit) (shown ∙ ap view (sym (same hit)))
      | inr miss ↦ rw miss shown
    ]
failure_view now id key attempt reason m (some row) theirs shown same whole =
    let entered : RequestState = record (to_request_state row) {
      state = failed;
      attempts = attempt;
      last_error = reason;
      updated_at = now / millisecond;
    } in
    let stored = lookup-insert id key entered m.states in
    elim (Bool-cases (str_eq id key)) [
      | inl hit ↦ ground (arith, hit, stored, same hit, shown, whole)
      | inr miss ↦ ground (arith, miss, stored, shown)
    ]

queued_view :
    (now : ℕ) (env : OperationEnvelope) (mine : Option OperationStateRecord)
    → upserted now env queued (view mine)
      ≡ to_request_state
          (created_row (record (upserted_row now env queued) { created_at = now }) mine)
unfolding upserted enter_state to_request_state assign
queued_view now env none = refl
queued_view now env (some row) = refl

advance_found_error :
    (now : ℕ) (id : String) (from to : OperationState) (m : Store) (o : Option OperationStateRecord)
    → (advance_found now id from to (view o) m).1 ≡ advance_reply id from o
unfolding advance_found to_request_state
advance_found_error now id from to m none = refl
advance_found_error now id from to m (some row) = ground arith

fail_found_error :
    (now : ℕ) (id : String) (attempt : ℕ) (reason : String) (m : Store)
    (o : Option OperationStateRecord)
    → (fail_found now id attempt reason (view o) m).1 ≡ failure_reply id o
unfolding fail_found
fail_found_error now id attempt reason m none = refl
fail_found_error now id attempt reason m (some row) = refl

module _ {T : Type 0} (tables : Tables T) (t : T) (m : Store) (shows : Shows tables t m) where
  -- One key stands for all its spellings.
  same_row : (id key : String) → str_eq id key ≡ true → tables.find id t ≡ tables.find key t
  same_row id key hit = ap (λ k. tables.find k t) ((eq_iff id key).0 hit)

  pub advance-Shows :
      (now : ℕ) (id : String) (from to : OperationState)
      → is_empty id ≡ false
      → Shows tables
          (tables.update_where id (λ row. same_state row.state from) (advance_updates now to) t).0
          (advance now id from to m).0
  unfolding advance
  advance-Shows now id from to named = record {
    shown = λ key.
        rw (named, shows.shown id)
          (advance_view now id key from to m (tables.find id t) (tables.find key t)
              (shows.shown key) (same_row id key)
            ∙ ap view (sym (tables.find-update_where id key _ _ t)));
  }

  pub failure-Shows :
      (now : ℕ) (id : String) (attempt : ℕ) (reason : String)
      → is_empty id ≡ false
      → truncate_reason reason ≡ reason
      → Shows tables
          (tables.update_where id (λ row. true) (failure_updates now attempt reason) t).0
          (record_failure now id attempt reason m).0
  unfolding record_failure
  failure-Shows now id attempt reason named whole = record {
    shown = λ key.
        rw (named, shows.shown id)
          (failure_view now id key attempt reason m (tables.find id t) (tables.find key t)
              (shows.shown key) (same_row id key) whole
            ∙ ap view (sym (tables.find-update_where id key _ _ t)));
  }

  pub upsert-Shows :
      (now : ℕ) (env : OperationEnvelope)
      → is_empty env.id ≡ false
      → Shows tables
          (tables.create (record (upserted_row now env queued) { created_at = now }) t)
          (upsert now env queued m).0
  unfolding upsert
  upsert-Shows now env named =
      let row = record (upserted_row now env queued) { created_at = now } in
      record {
        shown = λ key.
            let stored =
              lookup-insert env.id key (upserted now env queued (lookup env.id m.states))
                m.states in
            rw named (
              stored ∙ elim (Bool-cases (str_eq env.id key)) [
                | inl hit ↦
                    rw (hit, tables.find-create key row t)
                      (rw (hit, shows.shown env.id, same_row env.id key hit)
                        (ap some (queued_view now env (tables.find key t))))
                | inr miss ↦ rw (miss, tables.find-create key row t) (rw miss (shows.shown key))
              ]);
      }

  pub advance_error :
      (now : ℕ) (id : String) (from to : OperationState)
      → is_empty id ≡ false
      → (advance now id from to m).1 ≡ advance_reply id from (tables.find id t)
  unfolding advance
  advance_error now id from to named =
      rw (named, shows.shown id) (advance_found_error now id from to m (tables.find id t))

  pub failure_error :
      (now : ℕ) (id : String) (attempt : ℕ) (reason : String)
      → is_empty id ≡ false
      → (record_failure now id attempt reason m).1 ≡ failure_reply id (tables.find id t)
  unfolding record_failure
  failure_error now id attempt reason named =
      rw (named, shows.shown id) (fail_found_error now id attempt reason m (tables.find id t))
