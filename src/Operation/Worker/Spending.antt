-- ===== src/Operation/Worker/Spending.antt =====
-- The handling of one item by `ProcessOnce` over the in-memory queue, and what it puts back:
-- cdmp-mini/internal/common/service/operation/pipeline.go.
use cdmp_mini.Base.{
  ℕ, ◌+◌, ◌-◌, ◌≤◌, ◌<◌, ◌*◌, String, ◌≡◌, refl, inl, inr, true, ◌||◌, Option, none, some, leb,
  Bool-cases, arith,
}
use cdmp_mini.Base.Signed.{ℤ}
use cdmp_mini.Operation.Types.{
  completed, compensated, OperationEnvelope, GoError, is_state_conflict, OperationResult, QueueItem,
  RequestStateStore, OperationExecutor,
}
use cdmp_mini.Operation.Queue.{Coordinator, memory_queue, ack, requeue}
use cdmp_mini.Operation.Pipeline.{Pipeline, World, retry_delay, settle_result, succeeded}
use cdmp_mini.Operation.Worker.{
  compensation_envelope, failure_reason, settle_execution, settle_compensation, advance_state,
  ack_with, executing_from_failed, advance_to_executing, handle_failure, schedule_compensation,
  schedule_if_advanced, start_compensation, give_up, retry, handle_execution_result,
  execute_prepared, prepare_then, prepare_and_execute, execution_after, process_execution,
  process_compensation, process_item,
}
use cdmp_mini.Operation.Worker.Allowance.{
  is_compensating, KeepsPhase, item_budget, Within, Within-append, Within-mono, Within-if,
  Within-if_pair, is_compensating-compensation_envelope,
}

module _ {S X : Type 0} (print_ticket : ℕ → String) (state : RequestStateStore S)
    (exec : OperationExecutor X) (m : ℕ) (retry_backoff : ℕ → ℤ) (keeps : KeepsPhase exec) where
  abbrev pub p : Pipeline Coordinator S X
  p = record {
    queue = memory_queue print_ticket;
    state = state;
    exec = exec;
    max_attempts = m;
    retry_backoff = retry_backoff;
  }

  -- The handling of an item: from what is left of the queue to a queue within one less than the
  -- item's budget.
  abbrev Settles : QueueItem → World Coordinator S X → World Coordinator S X → Type 0
  Settles item w w' =
      (b : ℕ) → Within m b w.queue.queue → Within m (b + (item_budget m item - 1)) w'.queue.queue

  schedule_if_advanced-Within :
      (later b : ℕ) (env : OperationEnvelope) (e : Option GoError) (w : World Coordinator S X)
      → 0 < m
      → Within m b w.queue.queue
      → Within m (b + m) (schedule_if_advanced p later env e w).queue.queue
  unfolding schedule_if_advanced schedule_compensation requeue
  schedule_if_advanced-Within later b env none w pos h =
      Within-mono (rw (is_compensating-compensation_envelope later env) (omega arith)) (
        Within-append m b w.queue.queue
          (record {
            envelope = compensation_envelope later env;
            attempts = 0;
            available_at = later + 0;
          })
          h pos)
  schedule_if_advanced-Within later b env (some e) w pos h = Within-mono (omega arith) h

  give_up-Within :
      (later b : ℕ) (item : QueueItem) (res : OperationResult) (w : World Coordinator S X)
      → 0 < m
      → Within m b w.queue.queue
      → Within m (b + m) (give_up p later item res w).0.queue.queue
  unfolding give_up advance_state ack_with start_compensation ack
  give_up-Within later b item res w pos h =
      Within-if res.trigger_compensation _ _
        (schedule_if_advanced-Within later b item.envelope _ _ pos h) (Within-mono (omega arith) h)

  -- What an execution may leave behind, whatever the executor makes of the envelope.
  abbrev rest : ℕ → ℕ
  rest attempts = 2 * m - attempts - 1

  item_budget-le : (item : QueueItem) → item_budget m item ≤ 2 * m - item.attempts
  item_budget-le item = elim (Bool-cases (is_compensating item.envelope)) [
    | inl back ↦ rw back (omega arith)
    | inr plain ↦ rw plain (omega arith)
  ]

  retry-Within :
      (later b : ℕ) (item : QueueItem) (res : OperationResult) (w : World Coordinator S X)
      → res.attempt ≡ item.attempts + 1
      → res.attempt < m
      → Within m b w.queue.queue
      → Within m (b + rest item.attempts) (retry p later item res w).0.queue.queue
  unfolding retry requeue
  retry-Within later b item res w e lt h =
      let again = record item {
        attempts = res.attempt;
        available_at = later + retry_delay res.retry_after (retry_backoff res.attempt);
      } in
      let put = record again {
        available_at = later + retry_delay res.retry_after (retry_backoff res.attempt);
      } in
      Within-mono (omega (arith, item_budget-le put)) (Within-append m b w.queue.queue put h lt)

  handle_execution_result-Within :
      (later b : ℕ) (item : QueueItem) (res : OperationResult) (w : World Coordinator S X)
      → item.attempts < m
      → res.attempt ≡ item.attempts + 1
      → Within m b w.queue.queue
      → Within m (b + rest item.attempts) (handle_execution_result p later item res w).0.queue.queue
  unfolding handle_execution_result handle_failure
  handle_execution_result-Within later b item res w lt e h =
      Within-if_pair (res.fatal || leb m res.attempt) _ _
        (λ stop. Within-mono (omega arith) (give_up-Within later b item res _ (omega arith) h))
        (λ again.
          retry-Within later b item res
            (handle_failure p later item.envelope.id res.attempt (failure_reason res.error) w) e
            (ground arith) h)

  settle_execution-Within :
      (later b : ℕ) (item : QueueItem) (res : OperationResult) (w : World Coordinator S X)
      → item.attempts < m
      → res.attempt ≡ item.attempts + 1
      → Within m b w.queue.queue
      → Within m (b + rest item.attempts) (settle_execution p later item res w).0.queue.queue
  unfolding settle_execution ack
  settle_execution-Within later b item res w lt e h =
      Within-if_pair (succeeded res completed) _ _ (λ done. Within-mono (omega arith) h)
        (λ again. handle_execution_result-Within later b item res w lt e h)

  prepare_then-Within :
      (later b : ℕ) (item : QueueItem) (e : Option GoError) (w : World Coordinator S X)
      → item.attempts < m
      → Within m b w.queue.queue
      → Within m (b + rest item.attempts) (prepare_then p later item e w).0.queue.queue
  unfolding prepare_then handle_failure execute_prepared settle_result
  prepare_then-Within later b item none w lt h =
      let (x, env, returned, e) = exec.execute item.envelope w.outside in
      settle_execution-Within later b (record item { envelope = env })
        (settle_result env.id "executor returned nil result" (item.attempts + 1) (returned, e))
        (record w { outside = x }) lt refl h
  prepare_then-Within later b item (some e) w lt h = Within-mono (omega arith) h

  execution_after-Within :
      (later b : ℕ) (item : QueueItem) (e : Option GoError) (w : World Coordinator S X)
      → item.attempts < m
      → Within m b w.queue.queue
      → Within m (b + rest item.attempts) (execution_after p later item e w).0.queue.queue
  unfolding execution_after prepare_and_execute ack
  execution_after-Within later b item none w lt h =
      let (x, env, e) = exec.prepare item.envelope w.outside in
      prepare_then-Within later b (record item { envelope = env }) e (record w { outside = x }) lt h
  execution_after-Within later b item (some e) w lt h = Within-mono (omega arith) h

  queue-executing_from_failed :
      (now : ℕ) (id : String) (e : Option GoError) (w : World Coordinator S X)
      → (executing_from_failed p now id e w).0.queue ≡ w.queue
  unfolding executing_from_failed advance_state
  queue-executing_from_failed now id none w = refl
  queue-executing_from_failed now id (some e) w = elim (Bool-cases (is_state_conflict e)) [
    | inl c ↦ rw c refl
    | inr c ↦ rw c refl
  ]

  queue-advance_to_executing :
      (now : ℕ) (id : String) (w : World Coordinator S X)
      → (advance_to_executing p now id w).0.queue ≡ w.queue
  unfolding advance_to_executing advance_state
  queue-advance_to_executing now id w = queue-executing_from_failed now id _ _

  process_execution-Within :
      (now later b : ℕ) (item : QueueItem) (w : World Coordinator S X)
      → item.attempts < m
      → Within m b w.queue.queue
      → Within m (b + rest item.attempts) (process_execution p now later item w).0.queue.queue
  unfolding process_execution
  process_execution-Within now later b item w lt h =
      execution_after-Within later b item _ _ lt
        (rw (queue-advance_to_executing now item.envelope.id w) h)

  settle_compensation-Within :
      (later b : ℕ) (item : QueueItem) (res : OperationResult) (w : World Coordinator S X)
      → is_compensating item.envelope ≡ true
      → item.attempts < m
      → res.attempt ≡ item.attempts + 1
      → Within m b w.queue.queue
      → Within m
          (b + (m - item.attempts - 1))
          (settle_compensation p later item res w).0.queue.queue
  unfolding settle_compensation ack requeue
  settle_compensation-Within later b item res w back lt e h =
      Within-if_pair (succeeded res compensated) _ _ (λ done. Within-mono (omega arith) h)
        (λ again.
          Within-if_pair (res.fatal || leb m res.attempt) _ _ (λ stop. Within-mono (omega arith) h)
            (λ again'.
              Within-mono (rw back (omega arith))
                (Within-append m b w.queue.queue _ h (ground arith))))

  process_compensation-Within :
      (later b : ℕ) (item : QueueItem) (w : World Coordinator S X)
      → is_compensating item.envelope ≡ true
      → item.attempts < m
      → Within m b w.queue.queue
      → Within m (b + (m - item.attempts - 1)) (process_compensation p later item w).0.queue.queue
  unfolding process_compensation settle_result
  process_compensation-Within later b item w back lt h =
      let (x, env, returned, e) = exec.compensate item.envelope w.outside in
      settle_compensation-Within later b (record item { envelope = env })
        (settle_result env.id "compensator returned nil result" (item.attempts + 1) (returned, e))
        (record w { outside = x }) (keeps.kept item.envelope w.outside back) lt refl h

  pub process_item-Within :
      (now later b : ℕ) (item : QueueItem) (w : World Coordinator S X)
      → item.attempts < m
      → Within m b w.queue.queue
      → Within m (b + (item_budget m item - 1)) (process_item p now later item w).0.queue.queue
  unfolding process_item
  process_item-Within now later b item w lt h =
      Within-if_pair (is_compensating item.envelope) _ _
        (λ back. rw back (process_compensation-Within later b item w back lt h))
        (λ plain. rw plain (process_execution-Within now later b item w lt h))
