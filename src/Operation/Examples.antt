-- ===== src/Operation/Examples.antt =====
-- Runs of the asynchronous operation pipeline on small inputs:
-- cdmp-mini/internal/common/service/operation.
use text.Mathlib.Text.{◌==◌ as str_eq}
use cdmp_mini.Base.{ℕ, ◌≤◌, String, ◌≡◌, refl, inl, true, false, Option, none, some, [], ◌∷◌, arith}
use cdmp_mini.Base.GoMap.{lookup, insert}
use cdmp_mini.Base.Signed.{ℤ, pos}
use cdmp_mini.Operation.Types.{
  OperationKind, OperationState, queued, executing, completed, failed, compensating,
  OperationEnvelope, GoError, new_error, state_conflict, ok, err, OperationResult, QueueTicket,
  QueueItem, OperationExecutor, KeepsId, RequestState,
}
use cdmp_mini.Operation.Queue.{
  ticket_for, Coordinator, new_coordinator, memory_queue, enqueue, poll, cancel, dequeue,
  ticket_not_found,
}
use cdmp_mini.Operation.Queue.Order.{Dequeued, dequeue-Dequeued}
use cdmp_mini.Operation.Queue.Tickets.{CancelledBy, poll-enqueue, cancel-CancelledBy}
use cdmp_mini.Operation.Store.{Store, new_store, memory_store, upsert, advance, record_failure}
use cdmp_mini.Operation.Store.Consistency.{
  StoreReach, StoreStep, IsConsistent, StoreReach-IsConsistent,
}
use cdmp_mini.Operation.Store.Exclusion.{advance-advance_conflict}
use cdmp_mini.Operation.Store.Lifecycle.{state_of}
use cdmp_mini.Operation.Pipeline.{
  settle_result, retry_delay, World, phase_compensate, operation_phase,
}
use cdmp_mini.Operation.Worker.{compensation_envelope, process_once}
use cdmp_mini.Operation.Worker.Lifecycle.{Call, process_once-Follows}
use cdmp_mini.Operation.Worker.Budget.{
  Progress, handled_calls, process_once-Progress, handled_calls-le-budget,
}
use cdmp_mini.Operation.Worker.Allowance.{KeepsPhase, budget}
use cdmp_mini.Operation.Worker.Outcomes.{
  memory_pipeline, process_once-prepare_fails, process_once-succeeds, process_once-retries,
  process_once-gives_up, process_once-compensates,
}

abbrev create_user : OperationEnvelope
create_user = record {
  id = "op-1";
  kind = OperationKind.create;
  resource = "user";
  tenant = "";
  trace_id = "";
  idempotency_key = "";
  headers = [];
  submitted_at = 5;
  deadline = 0;
  payload = [];
  compensate_hint = [];
}

abbrev create_item : QueueItem
create_item = record { envelope = create_user; attempts = 0; available_at = 5 }

abbrev print_ticket : ℕ → String
print_ticket now = "ticket-5"

abbrev create_ticket : QueueTicket
create_ticket = record {
  ticket_id = "op-1";
  operation_id = "op-1";
  queue_position = 0;
  issued_at = 5;
}

abbrev submitted : Coordinator
submitted = record {
  queue = create_item ∷ [];
  tickets = ("op-1", create_ticket) ∷ [];
  in_flight = [];
}

submitted-enqueue : (enqueue "ticket-5" 5 create_user new_coordinator).0 ≡ submitted
unfolding enqueue insert
submitted-enqueue = refl

abbrev taken : Coordinator
taken = record submitted { queue = []; in_flight = ("op-1", tt) ∷ [] }

abbrev queued_state : RequestState
queued_state = record {
  operation_id = "op-1";
  kind = OperationKind.create;
  resource = "user";
  state = queued;
  attempts = 0;
  last_error = "";
  updated_at = 0;
}

abbrev queued_store : Store
queued_store = record { states = ("op-1", queued_state) ∷ [] }

queued_store-upsert : (upsert 5 create_user queued new_store).0 ≡ queued_store
unfolding upsert insert lookup
queued_store-upsert = refl

abbrev world : World Coordinator Store Unit
world = record { queue = submitted; state = queued_store; outside = tt }

abbrev outcome_of : OperationState → Option GoError → OperationResult
outcome_of state error = record {
  operation_id = "op-1";
  state = state;
  attempt = 0;
  error = error;
  retry_after = pos 0;
  fatal = false;
  trigger_compensation = true;
}

abbrev plain_of : OperationState → Option GoError → OperationResult
plain_of state error = record (outcome_of state error) { trigger_compensation = false }

abbrev broken : Option GoError
broken = some (new_error "database down")

-- An executor that prepares with one error and executes with one result.
abbrev executor : Option GoError → OperationResult → OperationExecutor Unit
executor prepared result = record {
  prepare = λ env x. (x, env, prepared);
  execute = λ env x. (x, env, some result, none);
  compensate = λ env x. (x, env, some result, none);
}

executor-KeepsId :
    (prepared : Option GoError) (result : OperationResult) → KeepsId (executor prepared result)
executor-KeepsId prepared result = record {
  prepare_id = λ env x. refl;
  execute_id = λ env x. refl;
  compensate_id = λ env x. refl;
}

executor-KeepsPhase :
    (prepared : Option GoError) (result : OperationResult) → KeepsPhase (executor prepared result)
executor-KeepsPhase prepared result = record { kept = λ env x back. back }

abbrev backoff : ℕ → ℤ
backoff attempt = pos 250

abbrev succeeding : OperationExecutor Unit
succeeding = executor none (plain_of completed none)

abbrev failing : OperationExecutor Unit
failing = executor none (outcome_of failed broken)

abbrev failing_plain : OperationExecutor Unit
failing_plain = executor none (plain_of failed broken)

abbrev unprepared : OperationExecutor Unit
unprepared = executor broken (plain_of completed none)

process_once-Follows_example :
    Call
      (ok (some create_item))
      queued_store
      (process_once (memory_pipeline print_ticket failing 3 backoff) 10 11 world).0.state
unfolding dequeue insert
process_once-Follows_example =
    process_once-Follows (memory_queue print_ticket) failing 3 backoff
      (executor-KeepsId none (outcome_of failed broken)) 10 11 world

handled_calls-le-budget_example :
    handled_calls print_ticket memory_store failing 3 backoff
      (executor-KeepsPhase none (outcome_of failed broken))
      ((10, 11) ∷ (300, 301) ∷ [])
      world
    ≤ budget 3 submitted
handled_calls-le-budget_example =
    handled_calls-le-budget print_ticket memory_store failing 3 backoff
      (executor-KeepsPhase none (outcome_of failed broken)) ((10, 11) ∷ (300, 301) ∷ []) world
      (omega arith, tt)

process_once-Progress_example :
    Progress print_ticket memory_store failing 3 backoff
      (executor-KeepsPhase none (outcome_of failed broken))
      10
      world
      (process_once (memory_pipeline print_ticket failing 3 backoff) 10 11 world)
process_once-Progress_example =
    process_once-Progress print_ticket memory_store failing 3 backoff
      (executor-KeepsPhase none (outcome_of failed broken)) 10 11 world (omega arith, tt)

dequeued_item : dequeue 10 submitted ≡ (taken, ok (some create_item))
unfolding dequeue insert
dequeued_item = refl

is_execution : str_eq (operation_phase create_user) phase_compensate ≡ false
unfolding operation_phase lookup
is_execution = refl

is_queued : state_of "op-1" queued_store ≡ some queued
unfolding lookup
is_queued = refl

process_once-prepare_fails_example :
    let (w', outcome) =
      process_once (memory_pipeline print_ticket unprepared 3 backoff) 10 11 world in
    (outcome ≡ broken)
    × (state_of "op-1" w'.state ≡ some failed)
    × (w'.queue.queue ≡ [])
    × (lookup "op-1" w'.queue.in_flight ≡ some tt)
process_once-prepare_fails_example =
    process_once-prepare_fails print_ticket unprepared 3 backoff 10 11 world create_item taken
      dequeued_item is_execution refl (inl is_queued) tt create_user (new_error "database down")
      refl refl

process_once-succeeds_example :
    let (w', outcome) =
      process_once (memory_pipeline print_ticket succeeding 3 backoff) 10 11 world in
    (outcome ≡ none)
    × (state_of "op-1" w'.state ≡ some completed)
    × (w'.queue.queue ≡ [])
    × (lookup "op-1" w'.queue.in_flight ≡ none)
unfolding settle_result
process_once-succeeds_example =
    process_once-succeeds print_ticket succeeding 3 backoff 10 11 world create_item taken
      dequeued_item is_execution refl (inl is_queued) tt tt create_user create_user
      (some (plain_of completed none)) none refl refl refl refl refl

process_once-retries_example :
    let (w', outcome) = process_once (memory_pipeline print_ticket failing 3 backoff) 10 11 world in
    (outcome ≡ broken)
    × (state_of "op-1" w'.state ≡ some queued)
    × (w'.queue.queue ≡ record create_item { attempts = 1; available_at = 261 } ∷ [])
    × (lookup "op-1" w'.queue.in_flight ≡ some tt)
unfolding settle_result retry_delay
process_once-retries_example =
    process_once-retries print_ticket failing 3 backoff 10 11 world create_item taken dequeued_item
      is_execution refl (inl is_queued) tt tt create_user create_user
      (some (outcome_of failed broken)) none refl refl refl refl refl refl (omega arith)

process_once-gives_up_example :
    let (w', outcome) =
      process_once (memory_pipeline print_ticket failing_plain 1 backoff) 10 11 world in
    (outcome ≡ broken)
    × (state_of "op-1" w'.state ≡ some failed)
    × (w'.queue.queue ≡ [])
    × (lookup "op-1" w'.queue.in_flight ≡ none)
unfolding settle_result
process_once-gives_up_example =
    process_once-gives_up print_ticket failing_plain 1 backoff 10 11 world create_item taken
      dequeued_item is_execution refl (inl is_queued) tt tt create_user create_user
      (some (plain_of failed broken)) none refl refl refl refl refl refl refl

process_once-compensates_example :
    let (w', outcome) = process_once (memory_pipeline print_ticket failing 1 backoff) 10 11 world in
    (outcome ≡ broken)
    × (state_of "op-1" w'.state ≡ some compensating)
    × (w'.queue.queue
        ≡ record {
          envelope = compensation_envelope 11 create_user;
          attempts = 0;
          available_at = 11;
        }
          ∷ [])
    × (lookup "op-1" w'.queue.in_flight ≡ none)
unfolding settle_result
process_once-compensates_example =
    process_once-compensates print_ticket failing 1 backoff 10 11 world create_item taken
      dequeued_item is_execution refl (inl is_queued) tt tt create_user create_user
      (some (outcome_of failed broken)) none refl refl refl refl refl refl refl

dequeue-Dequeued_example : Dequeued 10 submitted (dequeue 10 submitted)
dequeue-Dequeued_example = dequeue-Dequeued 10 submitted

poll-enqueue_example :
    let (c, r) = enqueue "ticket-5" 5 create_user new_coordinator in
    (r ≡ ok create_ticket)
    × (poll "op-1" c
        ≡ ok (record { operation_id = "op-1"; state = queued; position = pos 0; remaining = 0 }))
unfolding lookup ticket_for
poll-enqueue_example = poll-enqueue "ticket-5" 5 create_user new_coordinator tt refl

cancel-CancelledBy_example :
    ((cancel "op-1" submitted).1 ≡ none)
    × CancelledBy "op-1" submitted (cancel "op-1" submitted).0
    × (poll "op-1" (cancel "op-1" submitted).0 ≡ err (ticket_not_found "op-1"))
unfolding lookup
cancel-CancelledBy_example = cancel-CancelledBy "op-1" create_ticket submitted refl

StoreReach-IsConsistent_example :
    IsConsistent (record_failure 30 "op-1" 1 "down" (upsert 5 create_user queued new_store).0).0
StoreReach-IsConsistent_example = StoreReach-IsConsistent (
    StoreReach.step
      (StoreReach.step StoreReach.start (StoreStep.upserting 5 create_user queued new_store))
      (StoreStep.failing 30 "op-1" 1 "down" (upsert 5 create_user queued new_store).0))

advance-advance_conflict_example :
    advance 12 "op-1" queued executing (advance 10 "op-1" queued executing queued_store).0
    ≡ ((advance 10 "op-1" queued executing queued_store).0, some state_conflict)
unfolding advance lookup
advance-advance_conflict_example =
    advance-advance_conflict 10 12 "op-1" queued executing executing queued_store refl refl
