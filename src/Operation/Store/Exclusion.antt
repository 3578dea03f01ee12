-- ===== src/Operation/Store/Exclusion.antt =====
-- `Advance` as a compare-and-swap between workers, and calls that fail:
-- cdmp-mini/internal/common/service/operation/state/memory.go.
use cdmp_mini.Base.{
  ◌⊎◌, ℕ, String, ◌≡◌, refl, inl, inr, false, Option, none, some, Bool-cases, arith,
}
use cdmp_mini.Base.GoMap.{lookup, lookup-insert_self}
use cdmp_mini.Base.Text.{is_empty}
use cdmp_mini.Operation.Types.{
  OperationState, same_state, OperationEnvelope, state_conflict, RequestState,
}
use cdmp_mini.Operation.Store.{Store, enter_state, advance_found, upsert, advance, record_failure}

conflict_found :
    (now later : ℕ) (id : String) (from to to' : OperationState) (s : Store)
    (o : Option RequestState)
    → lookup id s.states ≡ o
    → same_state to from ≡ false
    → (advance_found now id from to o s).1 ≡ none
    → advance_found later id from to'
        (lookup id (advance_found now id from to o s).0.states)
        (advance_found now id from to o s).0
      ≡ ((advance_found now id from to o s).0, some state_conflict)
unfolding advance_found enter_state
conflict_found now later id from to to' s none e other done = cc
conflict_found now later id from to to' s (some current) e other done =
    ground (arith, lookup-insert_self id (enter_state now to current) s.states)

-- Of two workers that try to advance an operation from one state, the second is refused: once
-- Advance from a state to a different one has succeeded, a later Advance from the old state returns
-- the conflict error and changes nothing.
pub advance-advance_conflict :
    (now later : ℕ) (id : String) (from to to' : OperationState) (s : Store)
    → (advance now id from to s).1 ≡ none
    → same_state to from ≡ false
    → advance later id from to' (advance now id from to s).0
      ≡ ((advance now id from to s).0, some state_conflict)
unfolding advance
advance-advance_conflict now later id from to to' s done other = elim (Bool-cases (is_empty id)) [
  | inl e ↦ absurd (ground arith)
  | inr e ↦
      rw e
        (conflict_found now later id from to to' s (lookup id s.states) refl other (rw e at done))
]

-- Each of Upsert, Advance and RecordFailure either returns no error or leaves the store as it was.
pub error_unchanged :
    (now : ℕ) (env : OperationEnvelope) (id : String) (from to : OperationState) (attempt : ℕ)
    (reason : String) (s : Store)
    → (((upsert now env to s).1 ≡ none) ⊎ ((upsert now env to s).0 ≡ s))
      × (((advance now id from to s).1 ≡ none) ⊎ ((advance now id from to s).0 ≡ s))
      × (((record_failure now id attempt reason s).1 ≡ none)
          ⊎ ((record_failure now id attempt reason s).0 ≡ s))
unfolding upsert advance record_failure
error_unchanged now env id from to attempt reason s = (ground arith, ground arith, ground arith)
