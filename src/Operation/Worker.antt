-- ===== src/Operation/Worker.antt =====
-- `Submit` and `ProcessOnce` with all that they call in
-- cdmp-mini/internal/common/service/operation/pipeline.go.
pub mod Lifecycle
pub mod Allowance
pub mod Spending
pub mod Budget
pub mod Outcomes
use text.Mathlib.Text.{◌==◌ as str_eq}
use cdmp_mini.Base.{ℕ, ◌+◌, String, ◌||◌, Option, none, some, leb, ◌==◌, if◌then◌else◌}
use cdmp_mini.Base.GoMap.{insert}
use cdmp_mini.Base.Text.{is_empty, trim_space}
use cdmp_mini.Operation.Types.{
  OperationState, queued, executing, completed, failed, compensating, compensated,
  OperationEnvelope, GoError, new_error, wrap, error_text, is_state_conflict, Result, ok, err,
  OperationResult, QueueTicket, QueueItem,
}
use cdmp_mini.Operation.Pipeline.{
  Pipeline, World, retry_delay, phase_header, phase_compensate, operation_phase, operation_error,
  error_or, settle_result, succeeded,
}

-- What `Submit` fills in: `fresh` is the identifier that `idutil.GetUUID36` makes.
unfoldable pub prepared_envelope : String → ℕ → OperationEnvelope → OperationEnvelope
prepared_envelope fresh now env = record env {
  id = if is_empty (trim_space env.id) then fresh else env.id;
  submitted_at = if env.submitted_at == 0 then now else env.submitted_at;
}

-- The envelope that `scheduleCompensation` puts on the queue.
unfoldable pub compensation_envelope : ℕ → OperationEnvelope → OperationEnvelope
compensation_envelope later env = record env {
  headers = insert phase_header phase_compensate env.headers;
  submitted_at = later;
}

-- `errors.New(reason)` of `handleExecutionResult`
abbrev pub failure_reason : Option GoError → GoError
failure_reason none = new_error "execution failed"
failure_reason (some e) = new_error (error_text e)

abbrev acked : Option GoError → Option GoError → Option GoError
acked outcome none = outcome
acked outcome (some e) = some (wrap "ack queue" e)

abbrev requeued : String → GoError → Option GoError → Option GoError
requeued context failure none = some failure
requeued context failure (some e) = some (wrap context e)

module _ {Q S X : Type 0} (p : Pipeline Q S X) where
  unfoldable pub advance_state :
      ℕ → String → OperationState → OperationState → World Q S X → World Q S X × Option GoError
  advance_state now id from to w =
      let (s, e) = p.state.advance now id from to w.state in (record w { state = s }, e)

  -- `p.queue.Ack`, whose failure replaces the outcome.
  unfoldable pub ack_with : String → Option GoError → World Q S X → World Q S X × Option GoError
  ack_with id outcome w =
      let (q, e) = p.queue.ack id w.queue in (record w { queue = q }, acked outcome e)

  unfoldable pub requeue_with :
      ℕ → QueueItem → ℕ → String → GoError → World Q S X → World Q S X × Option GoError
  requeue_with later item delay context failure w =
      let (q, e) = p.queue.requeue later item delay w.queue in
      (record w { queue = q }, requeued context failure e)

  -- An error of `RecordFailure` is only logged.
  unfoldable pub handle_failure : ℕ → String → ℕ → GoError → World Q S X → World Q S X
  handle_failure later id attempt failure w =
      let reason = error_text failure in
      let (s, e) =
        p.state.record_failure later id attempt
          (if is_empty reason then "unknown error" else reason) w.state in
      record w { state = s }

  executing_from_failed : ℕ → String → Option GoError → World Q S X → World Q S X × Option GoError
  unfolding advance_state
  executing_from_failed now id none w = (w, none)
  executing_from_failed now id (some e) w =
      if is_state_conflict e then advance_state now id failed executing w else (w, some e)

  unfoldable pub advance_to_executing : ℕ → String → World Q S X → World Q S X × Option GoError
  unfolding executing_from_failed
  advance_to_executing now id w =
      let (w', e) = advance_state now id queued executing w in executing_from_failed now id e w'

  -- The settled success of an attempt: an error of `Advance` is only logged.
  unfoldable pub complete :
      ℕ → String → OperationState → OperationState → World Q S X → World Q S X × Option GoError
  unfolding advance_state ack_with
  complete later id from to w =
      let (w', e) = advance_state later id from to w in ack_with id none w'

  unfoldable pub schedule_compensation : ℕ → OperationEnvelope → World Q S X → World Q S X
  unfolding compensation_envelope
  schedule_compensation later env w =
      let item : QueueItem = record {
        envelope = compensation_envelope later env;
        attempts = 0;
        available_at = later;
      } in
      let (q, e) = p.queue.requeue later item 0 w.queue in record w { queue = q }

  schedule_if_advanced : ℕ → OperationEnvelope → Option GoError → World Q S X → World Q S X
  unfolding schedule_compensation
  schedule_if_advanced later env none w = schedule_compensation later env w
  schedule_if_advanced later env (some e) w = w

  unfoldable pub start_compensation : ℕ → String → OperationEnvelope → World Q S X → World Q S X
  unfolding schedule_if_advanced
  start_compensation later id env w =
      let (w', e) = advance_state later id failed compensating w in
      schedule_if_advanced later env e w'

  -- The end of an operation that is not retried.
  unfoldable pub give_up :
      ℕ → QueueItem → OperationResult → World Q S X → World Q S X × Option GoError
  unfolding advance_state start_compensation ack_with
  give_up later item res w =
      let (w', e) = advance_state later res.operation_id executing failed w in
      ack_with res.operation_id
        (some (error_or res.error (operation_error res.operation_id " failed")))
        (if res.trigger_compensation
          then start_compensation later res.operation_id item.envelope w'
          else w')

  unfoldable pub retry :
      ℕ → QueueItem → OperationResult → World Q S X → World Q S X × Option GoError
  unfolding advance_state requeue_with retry_delay
  retry later item res w =
      let delay = retry_delay res.retry_after (p.retry_backoff res.attempt) in
      let (w', e) = advance_state later res.operation_id failed queued w in
      requeue_with later (record item { attempts = res.attempt; available_at = later + delay })
        delay "requeue operation" (error_or res.error (operation_error res.operation_id " failed"))
        w'

  unfoldable pub handle_execution_result :
      ℕ → QueueItem → OperationResult → World Q S X → World Q S X × Option GoError
  unfolding give_up retry
  handle_execution_result later item res w =
      let w' = handle_failure later item.envelope.id res.attempt (failure_reason res.error) w in
      if res.fatal || leb p.max_attempts res.attempt
      then give_up later item res w'
      else retry later item res w'

  unfoldable pub settle_execution :
      ℕ → QueueItem → OperationResult → World Q S X → World Q S X × Option GoError
  unfolding complete handle_execution_result
  settle_execution later item res w =
      if succeeded res completed
      then complete later item.envelope.id executing completed w
      else handle_execution_result later item res w

  unfoldable pub execute_prepared : ℕ → QueueItem → World Q S X → World Q S X × Option GoError
  unfolding settle_result settle_execution
  execute_prepared later item w =
      let (x, env, returned, e) = p.exec.execute item.envelope w.outside in
      settle_execution later (record item { envelope = env })
        (settle_result env.id "executor returned nil result" (item.attempts + 1) (returned, e))
        (record w { outside = x })

  prepare_then : ℕ → QueueItem → Option GoError → World Q S X → World Q S X × Option GoError
  unfolding handle_failure
  prepare_then later item none w = execute_prepared later item w
  prepare_then later item (some e) w =
      (handle_failure later item.envelope.id (item.attempts + 1) (wrap "prepare" e) w, some e)

  unfoldable pub prepare_and_execute : ℕ → QueueItem → World Q S X → World Q S X × Option GoError
  unfolding prepare_then
  prepare_and_execute later item w =
      let (x, env, e) = p.exec.prepare item.envelope w.outside in
      prepare_then later (record item { envelope = env }) e (record w { outside = x })

  execution_after : ℕ → QueueItem → Option GoError → World Q S X → World Q S X × Option GoError
  execution_after later item none w = prepare_and_execute later item w
  execution_after later item (some e) w =
      let (q, ignored) = p.queue.ack item.envelope.id w.queue in
      (record w { queue = q }, some (wrap "advance to executing" e))

  unfoldable pub process_execution : ℕ → ℕ → QueueItem → World Q S X → World Q S X × Option GoError
  unfolding execution_after
  process_execution now later item w =
      let (w', e) = advance_to_executing now item.envelope.id w in execution_after later item e w'

  -- The end of a compensation that is not retried.
  unfoldable pub abandon_compensation :
      ℕ → QueueItem → OperationResult → World Q S X → World Q S X × Option GoError
  unfolding advance_state ack_with
  abandon_compensation later item res w =
      let id = item.envelope.id in
      let (w', e) = advance_state later id compensating failed w in
      ack_with id (some (error_or res.error (operation_error id " compensation failed"))) w'

  unfoldable pub retry_compensation :
      ℕ → QueueItem → OperationResult → World Q S X → World Q S X × Option GoError
  unfolding requeue_with retry_delay
  retry_compensation later item res w =
      let delay = retry_delay res.retry_after (p.retry_backoff res.attempt) in
      requeue_with later (record item { attempts = res.attempt; available_at = later + delay })
        delay "requeue compensation"
        (error_or res.error (operation_error item.envelope.id " compensation pending retry")) w

  unfoldable pub settle_compensation :
      ℕ → QueueItem → OperationResult → World Q S X → World Q S X × Option GoError
  unfolding complete abandon_compensation retry_compensation
  settle_compensation later item res w =
      if succeeded res compensated
      then complete later item.envelope.id compensating compensated w
      else if res.fatal || leb p.max_attempts res.attempt
      then abandon_compensation later item res w
      else retry_compensation later item res w

  unfoldable pub process_compensation : ℕ → QueueItem → World Q S X → World Q S X × Option GoError
  unfolding settle_result settle_compensation
  process_compensation later item w =
      let (x, env, returned, e) = p.exec.compensate item.envelope w.outside in
      settle_compensation later (record item { envelope = env })
        (settle_result env.id "compensator returned nil result" (item.attempts + 1) (returned, e))
        (record w { outside = x })

  unfoldable pub process_item : ℕ → ℕ → QueueItem → World Q S X → World Q S X × Option GoError
  process_item now later item w =
      if str_eq (operation_phase item.envelope) phase_compensate
      then process_compensation later item w
      else process_execution now later item w

  process_dequeued : ℕ → ℕ → Result (Option QueueItem) → World Q S X → World Q S X × Option GoError
  process_dequeued now later (err e) w = (w, some e)
  process_dequeued now later (ok none) w = (w, some (new_error "dequeue returned empty item"))
  process_dequeued now later (ok (some item)) w = process_item now later item w

  unfoldable pub process_once : ℕ → ℕ → World Q S X → World Q S X × Option GoError
  unfolding process_dequeued
  process_once now later w =
      let (q, r) = p.queue.dequeue now w.queue in
      process_dequeued now later r (record w { queue = q })

  submit_stored :
      ℕ → OperationEnvelope → Option GoError → World Q S X → World Q S X × Result QueueTicket
  submit_stored now env (some e) w = (w, err (wrap "persist queued state" e))
  submit_stored now env none w =
      let (q, r) = p.queue.enqueue now env w.queue in
      (
        record w { queue = q },
        elim r [ ok ticket ↦ ok ticket | err e ↦ err (wrap "enqueue operation" e) ],
      )

  -- The envelope is not nil.
  unfoldable pub submit :
      String → ℕ → OperationEnvelope → World Q S X → World Q S X × Result QueueTicket
  unfolding prepared_envelope submit_stored
  submit fresh now env w =
      let env' = prepared_envelope fresh now env in
      let (s, e) = p.state.upsert now env' queued w.state in
      submit_stored now env' e (record w { state = s })
