-- ===== src/Operation/DbStore/Exclusion.antt =====
-- `Advance` of the Redis and database request state store as a compare-and-swap between workers,
-- whatever becomes of their calls:
-- cdmp-mini/internal/common/service/operation/state/redisdb/store.go.
use text.Mathlib.TextPositions.{eq_refl}
use cdmp_mini.Base.{
  ℕ, String, ◌≡◌, ◌≢◌, refl, sym, ◌∙◌, inl, inr, true, false, Option, none, some, Bool-cases, arith,
  ◌==◌,
}
use cdmp_mini.Operation.Types.{OperationState, same_state, ok}
use cdmp_mini.Operation.Acts.Ends.{Ends, any-Ends, known-Ends, bind-Ends}
use cdmp_mini.Operation.DbStore.Table.{
  OperationStateRecord, Tables, StateCodec, rows_found, updated_row, apply_updates,
}
use cdmp_mini.Operation.DbStore.Records.{Config, advance_updates, advanced_entry}
use cdmp_mini.Operation.DbStore.Past.{
  IsPast, NoneReturns, answer_ok, call-IsPast, ensure_migrated-IsPast, settle-IsPast, no_rows,
  require-IsPast,
}
use cdmp_mini.Operation.DbStore.{
  System, World, Shared, call, read_clock, advanced_rows, advance_row, advance,
}

-- The row that the update of `Advance` leaves is not in the state `from`.
updated_past :
    (now : ℕ) (from to : OperationState) (o : Option OperationStateRecord)
    (row : OperationStateRecord)
    → same_state to from ≡ false
    → updated_row (λ r. same_state r.state from) (advance_updates now to) o ≡ some row
    → same_state row.state from ≡ false
unfolding apply_updates advance_updates
updated_past now from to none row other e = absurd (cc e)
updated_past now from to (some old) row other e = elim (Bool-cases (same_state old.state from)) [
  | inl hit ↦ ground (arith, hit, other, e)
  | inr miss ↦ ground (arith, miss, e)
]

-- The update finds nothing that is past the state.
unmatched :
    (now : ℕ) (from to : OperationState) (o : Option OperationStateRecord)
    → ((row : OperationStateRecord) → o ≡ some row → same_state row.state from ≡ false)
    → (updated_row (λ r. same_state r.state from) (advance_updates now to) o ≡ o)
      × (rows_found (λ r. same_state r.state from) o ≡ 0)
unmatched now from to none past = (refl, refl)
unmatched now from to (some row) past = rw (past row refl) (refl, refl)

module _ {T : Type 0} (tables : Tables T) (codec : StateCodec) (world : World T) (settings : Config)
    (id : String) (from : OperationState) (stable : NoneReturns tables id from world) where
  -- The command of `Advance` on the table.
  abbrev update : ℕ → OperationState → Shared T → Shared T × ℕ
  update now to d =
      let done =
        tables.update_where id (λ row. same_state row.state from) (advance_updates now to)
          d.table in
      (record d { table = done.0 }, done.1)

  update-IsPast :
      (now : ℕ) (to : OperationState) (d : Shared T)
      → same_state to from ≡ false
      → IsPast tables id from (update now to d).0
  update-IsPast now to d other =
      let after =
        tables.find-update_where id id (λ row. same_state row.state from) (advance_updates now to)
          d.table in
      let left = rw (eq_refl id) at after in
      record {
        past = λ row found.
            updated_past now from to (tables.find id d.table) row other (sym left ∙ found);
      }

  rows-IsPast :
      (n : ℕ) (s : System T)
      → IsPast tables id from s.shared
      → Ends (advanced_rows tables world id n) (λ s' r. IsPast tables id from s'.shared) s
  unfolding advanced_rows
  rows-IsPast n s before = elim (Bool-cases (n == 0)) [
    | inl nothing ↦
        rw nothing
          (record { ended = (no_rows tables codec world settings id from stable s before).ended.0 })
    | inr some_row ↦ rw some_row (record { ended = before })
  ]

  -- Where `Advance` goes on after its statement, the operation is past the state.
  advance_row-IsPast :
      (now : ℕ) (to : OperationState) (s : System T)
      → settings.has_db ≡ true
      → same_state to from ≡ false
      → Ends
          (advance_row tables world settings now id from to)
          (λ s' r. r ≡ ok tt → IsPast tables id from s'.shared)
          s
  unfolding advance_row call
  advance_row-IsPast now to s db other =
      let found = world.others s.looks s.shared in
      let answered_past =
        answer_ok (IsPast tables id from) (world.net s.looks) found (update now to found) in
      rw db (
        bind-Ends {Q = λ s' r. (n : ℕ) → r ≡ ok n → IsPast tables id from s'.shared}
          (record { ended = λ n e. answered_past n (update-IsPast now to found other) e })
          (λ s' n past. record { ended = λ done. (rows-IsPast n s' (past n refl)).ended })
          (λ s' e past. λ done. absurd (cc done)))

  missed-IsPast :
      (now : ℕ) (to : OperationState) (d : Shared T)
      → IsPast tables id from d
      → IsPast tables id from (update now to d).0 × ((update now to d).1 ≡ 0)
  missed-IsPast now to d before =
      let test = λ (row : OperationStateRecord). same_state row.state from in
      let updates = advance_updates now to in
      let after = tables.find-update_where id id test updates d.table in
      let left = rw (eq_refl id) at after in
      let (same, missed) = unmatched now from to (tables.find id d.table) before.past in
      (
        record { past = λ row found. before.past row (sym (left ∙ same) ∙ found) },
        tables.update_where_reply id test updates d.table ∙ missed,
      )

  -- The statement is not done twice.
  advance_row_refused :
      (now : ℕ) (to : OperationState) (s : System T)
      → settings.has_db ≡ true
      → IsPast tables id from s.shared
      → Ends (advance_row tables world settings now id from to) (λ s' r. r ≢ ok tt) s
  unfolding advance_row
  advance_row_refused now to s db before = rw db (
      bind-Ends
        (call-IsPast tables codec world settings id from stable (λ n. n ≡ 0) (update now to)
          (missed-IsPast now to) s before)
        (λ s' n q.
          rw q.1 (record {
            ended = (no_rows tables codec world settings id from stable s' q.0).ended.1;
          }))
        (λ s' e q. λ done. cc done))

  advance-IsPast :
      (to : OperationState) (s : System T)
      → settings.has_db ≡ true
      → same_state to from ≡ false
      → Ends
          (advance tables codec world settings id from to)
          (λ s' r. r ≡ ok tt → IsPast tables id from s'.shared)
          s
  unfolding advance
  advance-IsPast to s db other =
      bind-Ends (any-Ends _ s)
        (λ s₁ a q.
          bind-Ends (any-Ends _ s₁)
            (λ s₂ b q.
              bind-Ends (any-Ends _ s₂)
                (λ s₃ now q.
                  bind-Ends (advance_row-IsPast now to s₃ db other)
                    (λ s₄ c past. record {
                      ended = λ done.
                          (settle-IsPast tables codec world settings id from stable
                            (advanced_entry now id to) id s₄ (past refl)).ended;
                    })
                    (λ s' e q done. absurd (cc done)))
                (λ s' e q done. absurd (cc done)))
            (λ s' e q done. absurd (cc done)))
        (λ s' e q done. absurd (cc done))

  advance_refused :
      (to : OperationState) (s : System T)
      → settings.has_db ≡ true
      → IsPast tables id from s.shared
      → Ends (advance tables codec world settings id from to) (λ s' r. r ≢ ok tt) s
  unfolding advance read_clock
  advance_refused to s db before =
      bind-Ends {Q = λ s' r. IsPast tables id from s'.shared}
        (require-IsPast tables codec world settings id from stable _ _ s before)
        (λ s₁ a past.
          bind-Ends (ensure_migrated-IsPast tables codec world settings id from stable s₁ past)
            (λ s₂ b past. known-Ends _ _ refl (
              bind-Ends (advance_row_refused (world.clock s₂.looks) to _ db past)
                (λ s₄ c q. absurd (q refl)) (λ s' e q done. cc done)))
            (λ s' e q done. cc done))
        (λ s' e q done. cc done)

-- Of two workers, each with its own process, clock and luck with the calls, that advance one operation
-- from the same state by a database that they share, the second is not told that it has succeeded:
-- once Advance from a state to a different one has returned no error, an Advance from the old state
-- that begins with what the first one left returns an error, whatever becomes of each call, if nobody
-- else brings the operation back into the old state.
pub advance-excludes :
    {T : Type 0} (tables : Tables T) (codec codec' : StateCodec) (world world' : World T)
    (settings settings' : Config) (id : String) (from to to' : OperationState) (s s' : System T)
    → NoneReturns tables id from world
    → NoneReturns tables id from world'
    → settings.has_db ≡ true
    → settings'.has_db ≡ true
    → same_state to from ≡ false
    → (advance tables codec world settings id from to s).1 ≡ ok tt
    → s'.shared ≡ (advance tables codec world settings id from to s).0.shared
    → (advance tables codec' world' settings' id from to' s').1 ≢ ok tt
advance-excludes tables codec codec' world world' settings settings' id from to to' s s' stable
      stable' db db' other done same =
    let past =
      (advance-IsPast tables codec world settings id from stable to s db other).ended done in
    (advance_refused tables codec' world' settings' id from stable' to' s' db' (rw same past)).ended
