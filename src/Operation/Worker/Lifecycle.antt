-- ===== src/Operation/Worker/Lifecycle.antt =====
-- The pipeline over the in-memory state store, and the lifecycle of an operation:
-- cdmp-mini/internal/common/service/operation/pipeline.go.
use text.Mathlib.Text.{◌==◌ as str_eq}
use cdmp_mini.Base.{
  ◌+◌, Bool, true, false, if◌then◌else◌, ℕ, String, ◌≡◌, ◌≢◌, refl, Bool-cases, inl, inr, ◌||◌, leb,
  Option, none, some, arith,
}
use cdmp_mini.Base.Signed.{ℤ}
use cdmp_mini.Operation.Types.{
  queued, executing, completed, failed, compensating, compensated, OperationEnvelope, GoError,
  is_state_conflict, Result, ok, err, OperationResult, QueueItem, QueueCoordinator,
  OperationExecutor, KeepsId,
}
use cdmp_mini.Operation.Store.{Store, memory_store, advance}
use cdmp_mini.Operation.Store.Lifecycle.{
  Claims, claim, reclaim, Settles, finish, fail, Disposes, return_to_queue, begin_compensation,
  Ends, compensate, abandon, state_of, Follows, Follows-refl, Follows-trans, Claims-IsApart,
  Settles-IsApart, advance-Follows, record_failure-Follows, executing-advance,
}
use cdmp_mini.Operation.Pipeline.{
  settle_result, succeeded, operation_phase, phase_compensate, Pipeline, World,
}
use cdmp_mini.Operation.Worker.{
  settle_execution, settle_compensation, failure_reason, advance_state, executing_from_failed,
  advance_to_executing, handle_failure, schedule_if_advanced, start_compensation, give_up, retry,
  handle_execution_result, execute_prepared, prepare_then, prepare_and_execute, execution_after,
  process_execution, process_compensation, process_item, process_dequeued, process_once, complete,
  ack_with, requeue_with, abandon_compensation, retry_compensation,
}

-- What an attempt does to the states: the claim, then the settlement, then what becomes of a failure.
-- Each of them takes an operation along at most one edge.
pub record Attempted (s t : Store) : Type 0 where
  pub claimed : Store
  pub settled : Store
  pub claims : Follows Claims s claimed
  pub settles : Follows Settles claimed settled
  pub disposes : Follows Disposes settled t

-- The settlement and what follows it.
record Settled (s t : Store) : Type 0 where
  middle : Store
  settles : Follows Settles s middle
  disposes : Follows Disposes middle t

-- What one call of `ProcessOnce` does to the states, by what `Dequeue` returns.
pub data Call (r : Result (Option QueueItem)) (s t : Store) : Type 0 where
  idle : t ≡ s → ((item : QueueItem) → r ≢ ok (some item)) → Call r s t
  attempted :
      (item : QueueItem)
      → r ≡ ok (some item)
      → str_eq (operation_phase item.envelope) phase_compensate ≡ false
      → Attempted s t
      → Call r s t
  ended :
      (item : QueueItem)
      → r ≡ ok (some item)
      → str_eq (operation_phase item.envelope) phase_compensate ≡ true
      → Follows Ends s t
      → Call r s t

if-state :
    {Q X : Type 0} (P : Store → Type 0) (b : Bool) (u v : World Q Store X × Option GoError)
    → P u.0.state
    → P v.0.state
    → P (if b then u else v).0.state
if-state P true u v f g = f
if-state P false u v f g = g

only_settles : {s t : Store} → Follows Settles s t → Settled s t
only_settles {t = t} f = record { middle = t; settles = f; disposes = Follows-refl Disposes t }

module _ {Q X : Type 0} (queue : QueueCoordinator Q) (exec : OperationExecutor X) (max_attempts : ℕ)
    (retry_backoff : ℕ → ℤ) (keeps : KeepsId exec) where
  abbrev p : Pipeline Q Store X
  p = record {
    queue = queue;
    state = memory_store;
    exec = exec;
    max_attempts = max_attempts;
    retry_backoff = retry_backoff;
  }

  executing_from_failed-Follows :
      (now : ℕ) (id : String) (e : Option GoError) (w : World Q Store X)
      → Follows Claims w.state (executing_from_failed p now id e w).0.state
  unfolding executing_from_failed
  executing_from_failed-Follows now id none w = Follows-refl Claims w.state
  executing_from_failed-Follows now id (some e) w = elim (Bool-cases (is_state_conflict e)) [
    | inl c ↦ rw c (advance-Follows now id failed executing w.state reclaim)
    | inr c ↦ rw c (Follows-refl Claims w.state)
  ]

  advance_to_executing-Follows :
      (now : ℕ) (id : String) (w : World Q Store X)
      → Follows Claims w.state (advance_to_executing p now id w).0.state
  unfolding advance_to_executing advance_state
  advance_to_executing-Follows now id w =
      Follows-trans Claims-IsApart (advance-Follows now id queued executing w.state claim)
        (executing_from_failed-Follows now id _ _)

  executing-executing_from_failed :
      (now : ℕ) (id : String) (e : Option GoError) (w : World Q Store X)
      → (e ≡ none → state_of id w.state ≡ some executing)
      → (executing_from_failed p now id e w).1 ≡ none
      → state_of id (executing_from_failed p now id e w).0.state ≡ some executing
  unfolding executing_from_failed
  executing-executing_from_failed now id none w h done = h refl
  executing-executing_from_failed now id (some e) w h done =
      elim (Bool-cases (is_state_conflict e)) [
        | inl c ↦ rw c (executing-advance now id failed w.state (rw c at done))
        | inr c ↦ absurd (ground arith)
      ]

  executing-advance_to_executing :
      (now : ℕ) (id : String) (w : World Q Store X)
      → (advance_to_executing p now id w).1 ≡ none
      → state_of id (advance_to_executing p now id w).0.state ≡ some executing
  unfolding advance_to_executing advance_state
  executing-advance_to_executing now id w done =
      executing-executing_from_failed now id _ _ (executing-advance now id queued w.state) done

  state-schedule_if_advanced :
      (later : ℕ) (env : OperationEnvelope) (e : Option GoError) (w : World Q Store X)
      → (schedule_if_advanced p later env e w).state ≡ w.state
  unfolding schedule_if_advanced
  state-schedule_if_advanced later env none w = refl
  state-schedule_if_advanced later env (some e) w = refl

  start_compensation-Follows :
      (later : ℕ) (id : String) (env : OperationEnvelope) (w : World Q Store X)
      → Follows Disposes w.state (start_compensation p later id env w).state
  unfolding start_compensation advance_state
  start_compensation-Follows later id env w =
      rw state-schedule_if_advanced
        (advance-Follows later id failed compensating w.state begin_compensation)

  give_up-Settled :
      (later : ℕ) (item : QueueItem) (res : OperationResult) (w : World Q Store X)
      → Settled w.state (give_up p later item res w).0.state
  unfolding give_up advance_state ack_with
  give_up-Settled later item res w = elim (Bool-cases res.trigger_compensation) [
    | inl asked ↦ rw asked (record {
      middle = (advance later res.operation_id executing failed w.state).0;
      settles = advance-Follows later res.operation_id executing failed w.state fail;
      disposes = start_compensation-Follows later res.operation_id item.envelope _;
    })
    | inr plain ↦
        rw plain
          (only_settles (advance-Follows later res.operation_id executing failed w.state fail))
  ]

  retry-Settled :
      (later : ℕ) (item : QueueItem) (res : OperationResult) (w : World Q Store X)
      → Settled w.state (retry p later item res w).0.state
  unfolding retry advance_state requeue_with
  retry-Settled later item res w = record {
    middle = w.state;
    settles = Follows-refl Settles w.state;
    disposes = advance-Follows later res.operation_id failed queued w.state return_to_queue;
  }

  handle_failure-Follows :
      (later : ℕ) (id : String) (attempt : ℕ) (e : GoError) (w : World Q Store X)
      → state_of id w.state ≡ some executing
      → Follows Settles w.state (handle_failure p later id attempt e w).state
  unfolding handle_failure
  handle_failure-Follows later id attempt e w h =
      record_failure-Follows later id attempt _ w.state h

  after_failure : {s t u : Store} → Follows Settles s t → Settled t u → Settled s u
  after_failure f g = record {
    middle = g.middle;
    settles = Follows-trans Settles-IsApart f g.settles;
    disposes = g.disposes;
  }

  handle_execution_result-Settled :
      (later : ℕ) (item : QueueItem) (res : OperationResult) (w : World Q Store X)
      → state_of item.envelope.id w.state ≡ some executing
      → Settled w.state (handle_execution_result p later item res w).0.state
  unfolding handle_execution_result
  handle_execution_result-Settled later item res w h =
      let w' = handle_failure p later item.envelope.id res.attempt (failure_reason res.error) w in
      after_failure
        (handle_failure-Follows later item.envelope.id res.attempt (failure_reason res.error) w h)
        (if-state (Settled w'.state) (res.fatal || leb max_attempts res.attempt) _ _
          (give_up-Settled later item res w') (retry-Settled later item res w'))

  settle_execution-Settled :
      (later : ℕ) (item : QueueItem) (res : OperationResult) (w : World Q Store X)
      → state_of item.envelope.id w.state ≡ some executing
      → Settled w.state (settle_execution p later item res w).0.state
  unfolding settle_execution complete advance_state ack_with
  settle_execution-Settled later item res w h =
      if-state (Settled w.state) (succeeded res completed) _ _
        (only_settles (advance-Follows later item.envelope.id executing completed w.state finish))
        (handle_execution_result-Settled later item res w h)

  execute_prepared-Settled :
      (later : ℕ) (item : QueueItem) (w : World Q Store X)
      → state_of item.envelope.id w.state ≡ some executing
      → Settled w.state (execute_prepared p later item w).0.state
  unfolding execute_prepared
  execute_prepared-Settled later item w h =
      let (x, env, returned, e) = exec.execute item.envelope w.outside in
      settle_execution-Settled later (record item { envelope = env })
        (settle_result env.id "executor returned nil result" (item.attempts + 1) (returned, e))
        (record w { outside = x }) (rw (keeps.execute_id item.envelope w.outside) h)

  prepare_then-Settled :
      (later : ℕ) (item : QueueItem) (e : Option GoError) (w : World Q Store X)
      → state_of item.envelope.id w.state ≡ some executing
      → Settled w.state (prepare_then p later item e w).0.state
  unfolding prepare_then
  prepare_then-Settled later item none w h = execute_prepared-Settled later item w h
  prepare_then-Settled later item (some e) w h =
      only_settles (handle_failure-Follows later item.envelope.id _ _ w h)

  execution_after-Settled :
      (later : ℕ) (item : QueueItem) (e : Option GoError) (w : World Q Store X)
      → (e ≡ none → state_of item.envelope.id w.state ≡ some executing)
      → Settled w.state (execution_after p later item e w).0.state
  unfolding execution_after prepare_and_execute
  execution_after-Settled later item none w h =
      prepare_then-Settled later _ _ (record w { outside = _ })
        (rw (keeps.prepare_id item.envelope w.outside) (h refl))
  execution_after-Settled later item (some e) w h = only_settles (Follows-refl Settles w.state)

  process_execution-Attempted :
      (now later : ℕ) (item : QueueItem) (w : World Q Store X)
      → Attempted w.state (process_execution p now later item w).0.state
  unfolding process_execution
  process_execution-Attempted now later item w =
      let claimed = advance_to_executing p now item.envelope.id w in
      let rest =
        execution_after-Settled later item claimed.1 claimed.0
          (executing-advance_to_executing now item.envelope.id w) in
      record {
        claimed = claimed.0.state;
        settled = rest.middle;
        claims = advance_to_executing-Follows now item.envelope.id w;
        settles = rest.settles;
        disposes = rest.disposes;
      }

  settle_compensation-Follows :
      (later : ℕ) (item : QueueItem) (res : OperationResult) (w : World Q Store X)
      → Follows Ends w.state (settle_compensation p later item res w).0.state
  unfolding settle_compensation complete abandon_compensation retry_compensation advance_state
      ack_with requeue_with
  settle_compensation-Follows later item res w =
      if-state (Follows Ends w.state) (succeeded res compensated) _ _
        (advance-Follows later item.envelope.id compensating compensated w.state compensate)
        (if-state (Follows Ends w.state) (res.fatal || leb max_attempts res.attempt) _ _
          (advance-Follows later item.envelope.id compensating failed w.state abandon)
          (Follows-refl Ends w.state))

  process_compensation-Follows :
      (later : ℕ) (item : QueueItem) (w : World Q Store X)
      → Follows Ends w.state (process_compensation p later item w).0.state
  unfolding process_compensation
  process_compensation-Follows later item w =
      let (x, env, returned, e) = exec.compensate item.envelope w.outside in
      settle_compensation-Follows later (record item { envelope = env })
        (settle_result env.id "compensator returned nil result" (item.attempts + 1) (returned, e))
        (record w { outside = x })

  process_dequeued-Call :
      (now later : ℕ) (r : Result (Option QueueItem)) (w : World Q Store X)
      → Call r w.state (process_dequeued p now later r w).0.state
  unfolding process_dequeued process_item
  process_dequeued-Call now later (err e) w = idle refl (λ item same. cc same)
  process_dequeued-Call now later (ok none) w = idle refl (λ item same. cc same)
  process_dequeued-Call now later (ok (some item)) w =
      elim (Bool-cases (str_eq (operation_phase item.envelope) phase_compensate)) [
        | inl back ↦ ended item refl back (rw back (process_compensation-Follows later item w))
        | inr plain ↦
            attempted item refl plain (rw plain (process_execution-Attempted now later item w))
      ]

  -- One call of ProcessOnce over the in-memory store, with any queue, attempt limit and backoff and any
  -- executor that leaves identifiers as they are: if Dequeue returns an execution item, each operation
  -- takes at most one edge of the claim (queued or failed to executing), then at most one of the
  -- settlement (executing to completed or failed), then at most one of the disposal (failed to queued
  -- or compensating); if it returns a compensation item, each operation takes at most one edge of the
  -- end (compensating to compensated or failed); otherwise no state changes.
  pub process_once-Follows :
      (now later : ℕ) (w : World Q Store X)
      → Call (queue.dequeue now w.queue).1 w.state (process_once p now later w).0.state
  unfolding process_once
  process_once-Follows now later w = process_dequeued-Call now later _ _
