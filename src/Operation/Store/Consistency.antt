-- ===== src/Operation/Store/Consistency.antt =====
-- The records of the in-memory state store over a run of its methods:
-- cdmp-mini/internal/common/service/operation/state/memory.go.
use cdmp_mini.Base.{
  ℕ, String, ◌≡◌, refl, ◌≢◌, inl, inr, Option, none, some, Bool-cases, arith, eq_iff,
}
use cdmp_mini.Base.GoMap.{lookup, insert, lookup-insert}
use cdmp_mini.Operation.Types.{
  OperationState, queued, failed, same_state, OperationEnvelope, RequestState,
}
use cdmp_mini.Base.Text.{is_empty}
use cdmp_mini.Operation.Store.{
  Store, new_store, enter_state, upserted, advance_found, fail_found, upsert, advance,
  record_failure,
}

-- The record of one operation.
pub record IsClean (id : String) (current : RequestState) : Type 0 where
  pub named : current.operation_id ≡ id
  pub no_error : current.state ≢ failed → current.last_error ≡ ""
  pub fresh : current.state ≡ queued → current.attempts ≡ 0

pub record IsConsistent (s : Store) : Type 0 where
  pub at_key :
      (id : String) (current : RequestState)
      → lookup id s.states ≡ some current
      → IsClean id current

-- A call of one of the three methods that write, whatever it returns.
pub data StoreStep : Store → Store → Type 0 where
  upserting :
      (now : ℕ) (env : OperationEnvelope) (to : OperationState) (s : Store)
      → StoreStep s (upsert now env to s).0
  advancing :
      (now : ℕ) (id : String) (from to : OperationState) (s : Store)
      → StoreStep s (advance now id from to s).0
  failing :
      (now : ℕ) (id : String) (attempt : ℕ) (reason : String) (s : Store)
      → StoreStep s (record_failure now id attempt reason s).0

pub data StoreReach : Store → Type 0 where
  start : StoreReach new_store
  step : {s t : Store} → StoreReach s → StoreStep s t → StoreReach t

enter_state-IsClean :
    (now : ℕ) (to : OperationState) (id : String) (current : RequestState)
    → IsClean id current
    → IsClean id (enter_state now to current)
unfolding enter_state
enter_state-IsClean now to id current h = ground arith

module _ (s : Store) (h : IsConsistent s) where
  -- A write of a clean record keeps the store consistent.
  insert-IsConsistent :
      (id : String) (current : RequestState)
      → IsClean id current
      → IsConsistent (record { states = insert id current s.states })
  insert-IsConsistent id current c = record {
    at_key = λ j found e.
        ground (arith, lookup-insert id j current s.states, eq_iff id j, h.at_key j found);
  }

  upserted-IsClean :
      (now : ℕ) (env : OperationEnvelope) (to : OperationState) (o : Option RequestState)
      → lookup env.id s.states ≡ o
      → IsClean env.id (upserted now env to o)
  unfolding upserted
  upserted-IsClean now env to none e = ground arith
  upserted-IsClean now env to (some current) e = ground (arith, h.at_key env.id current)

  upsert-IsConsistent :
      (now : ℕ) (env : OperationEnvelope) (to : OperationState)
      → IsConsistent (upsert now env to s).0
  unfolding upsert
  upsert-IsConsistent now env to = elim (Bool-cases (is_empty env.id)) [
    | inl e ↦ rw e h
    | inr e ↦ rw e (
        insert-IsConsistent env.id (upserted now env to (lookup env.id s.states))
          (upserted-IsClean now env to (lookup env.id s.states) refl))
  ]

  advance_found-IsConsistent :
      (now : ℕ) (id : String) (from to : OperationState) (o : Option RequestState)
      → lookup id s.states ≡ o
      → IsConsistent (advance_found now id from to o s).0
  unfolding advance_found
  advance_found-IsConsistent now id from to none e = h
  advance_found-IsConsistent now id from to (some current) e =
      elim (Bool-cases (same_state current.state from)) [
        | inl same ↦ rw same (
            insert-IsConsistent id (enter_state now to current)
              (enter_state-IsClean now to id current (h.at_key id current e)))
        | inr other ↦ rw other h
      ]

  advance-IsConsistent :
      (now : ℕ) (id : String) (from to : OperationState) → IsConsistent (advance now id from to s).0
  unfolding advance
  advance-IsConsistent now id from to = elim (Bool-cases (is_empty id)) [
    | inl e ↦ rw e h
    | inr e ↦ rw e (advance_found-IsConsistent now id from to (lookup id s.states) refl)
  ]

  fail_found-IsConsistent :
      (now : ℕ) (id : String) (attempt : ℕ) (reason : String) (o : Option RequestState)
      → lookup id s.states ≡ o
      → IsConsistent (fail_found now id attempt reason o s).0
  unfolding fail_found
  fail_found-IsConsistent now id attempt reason none e = h
  fail_found-IsConsistent now id attempt reason (some current) e =
      insert-IsConsistent id _ (ground (arith, h.at_key id current))

  record_failure-IsConsistent :
      (now : ℕ) (id : String) (attempt : ℕ) (reason : String)
      → IsConsistent (record_failure now id attempt reason s).0
  unfolding record_failure
  record_failure-IsConsistent now id attempt reason = elim (Bool-cases (is_empty id)) [
    | inl e ↦ rw e h
    | inr e ↦ rw e (fail_found-IsConsistent now id attempt reason (lookup id s.states) refl)
  ]

StoreStep-IsConsistent : {s t : Store} → StoreStep s t → IsConsistent s → IsConsistent t
StoreStep-IsConsistent (upserting now env to s) h = upsert-IsConsistent s h now env to
StoreStep-IsConsistent (advancing now id from to s) h = advance-IsConsistent s h now id from to
StoreStep-IsConsistent (failing now id attempt reason s) h =
    record_failure-IsConsistent s h now id attempt reason

-- After any calls of Upsert, Advance and RecordFailure on a new store, with any arguments and
-- whether they succeed or not, every record carries its own identifier, has no error unless its
-- state is failed, and has no attempts where its state is queued.
pub StoreReach-IsConsistent : {s : Store} → StoreReach s → IsConsistent s
unfolding lookup
StoreReach-IsConsistent start = record { at_key = λ id current e. cc }
StoreReach-IsConsistent (step r st) = StoreStep-IsConsistent st (StoreReach-IsConsistent r)
