-- ===== src/Operation/Store/States.antt =====
-- What `Advance` and `RecordFailure` of the in-memory store do to the state of an operation.
use cdmp_mini.Base.{ℕ, String, ◌≡◌, refl, true, false, Option, none, some, arith}
use cdmp_mini.Base.GoMap.{lookup, lookup-insert_self}
use cdmp_mini.Base.Text.{is_empty}
use cdmp_mini.Operation.Types.{OperationState, failed, same_state, state_conflict, RequestState}
use cdmp_mini.Operation.Store.{
  Store, enter_state, advance_found, fail_found, advance, record_failure, unix_milli,
}
use cdmp_mini.Operation.Store.Lifecycle.{state_in, state_of}

same_state_refl : (a : OperationState) → same_state a a ≡ true
same_state_refl a = ground arith

advance_found_done :
    (now : ℕ) (id : String) (from to : OperationState) (s : Store) (o : Option RequestState)
    → state_in o ≡ some from
    → ((advance_found now id from to o s).1 ≡ none)
      × (state_of id (advance_found now id from to o s).0 ≡ some to)
unfolding advance_found enter_state
advance_found_done now id from to s none h = cc
advance_found_done now id from to s (some current) h = (
  ground (arith, same_state_refl from),
  ground (arith, same_state_refl from, lookup-insert_self id (enter_state now to current) s.states),
)

advance_found_refused :
    (now : ℕ) (id : String) (from to a : OperationState) (s : Store) (o : Option RequestState)
    → state_in o ≡ some a
    → same_state a from ≡ false
    → advance_found now id from to o s ≡ (s, some state_conflict)
unfolding advance_found
advance_found_refused now id from to a s none h e = cc
advance_found_refused now id from to a s (some current) h e = ground arith

fail_found_done :
    (now : ℕ) (id : String) (attempt : ℕ) (reason : String) (a : OperationState) (s : Store)
    (o : Option RequestState)
    → state_in o ≡ some a
    → ((fail_found now id attempt reason o s).1 ≡ none)
      × (state_of id (fail_found now id attempt reason o s).0 ≡ some failed)
unfolding fail_found
fail_found_done now id attempt reason a s none h = cc
fail_found_done now id attempt reason a s (some current) h = (
  refl,
  rw
      (lookup-insert_self id
        (record current {
          state = failed;
          attempts = attempt;
          last_error = reason;
          updated_at = unix_milli now;
        })
        s.states)
      refl,
)

module _ (now : ℕ) (id : String) (s : Store) (named : is_empty id ≡ false) where
  pub advance_done :
      (from to : OperationState)
      → state_of id s ≡ some from
      → ((advance now id from to s).1 ≡ none) × (state_of id (advance now id from to s).0 ≡ some to)
  unfolding advance
  advance_done from to h = rw named (advance_found_done now id from to s (lookup id s.states) h)

  pub advance_refused :
      (from to a : OperationState)
      → state_of id s ≡ some a
      → same_state a from ≡ false
      → advance now id from to s ≡ (s, some state_conflict)
  unfolding advance
  advance_refused from to a h e =
      rw named (advance_found_refused now id from to a s (lookup id s.states) h e)

  pub record_failure_done :
      (attempt : ℕ) (reason : String) (a : OperationState)
      → state_of id s ≡ some a
      → ((record_failure now id attempt reason s).1 ≡ none)
        × (state_of id (record_failure now id attempt reason s).0 ≡ some failed)
  unfolding record_failure
  record_failure_done attempt reason a h =
      rw named (fail_found_done now id attempt reason a s (lookup id s.states) h)
