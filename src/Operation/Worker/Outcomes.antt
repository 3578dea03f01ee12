-- ===== src/Operation/Worker/Outcomes.antt =====
-- Whole calls of `ProcessOnce` over the in-memory queue and the in-memory store, from the claim of an
-- operation to each of its outcomes: cdmp-mini/internal/common/service/operation/pipeline.go.
use text.Mathlib.Text.{◌==◌ as str_eq}
use cdmp_mini.Base.{
  ℕ, ◌+◌, ◌<◌, String, ◌≡◌, refl, ap, ◌∙◌, ◌⊎◌, inl, inr, true, false, ◌||◌, Option, none, some, [],
  ◌∷◌, ◌++◌, leb, arith,
}
use cdmp_mini.Base.GoMap.{lookup, lookup-delete_self}
use cdmp_mini.Base.Signed.{ℤ}
use cdmp_mini.Base.Text.{is_empty}
use cdmp_mini.Operation.Types.{
  queued, executing, completed, failed, compensating, OperationEnvelope, state_conflict, GoError,
  is_state_conflict, ok, OperationResult, QueueItem, OperationExecutor,
}
use cdmp_mini.Operation.Queue.{Coordinator, memory_queue, dequeue, ack, requeue}
use cdmp_mini.Operation.Queue.Order.{in_flight-dequeue}
use cdmp_mini.Operation.Store.{Store, memory_store, advance}
use cdmp_mini.Operation.Store.Lifecycle.{state_of}
use cdmp_mini.Operation.Store.States.{advance_done, advance_refused, record_failure_done}
use cdmp_mini.Operation.Pipeline.{
  error_or, operation_error, Pipeline, World, settle_result, succeeded, operation_phase,
  phase_compensate, retry_delay,
}
use cdmp_mini.Operation.Worker.{
  failure_reason, compensation_envelope, schedule_if_advanced, schedule_compensation,
  start_compensation, give_up, advance_state, executing_from_failed, advance_to_executing,
  handle_failure, prepare_and_execute, prepare_then, process_execution, process_item,
  settle_execution, process_once, execute_prepared, complete, ack_with, retry,
  handle_execution_result, requeue_with,
}

-- An operation that a worker may take on.
abbrev pub Claimable : String → Store → Type 0
Claimable id s = (state_of id s ≡ some queued) ⊎ (state_of id s ≡ some failed)

module _ {X : Type 0} (print_ticket : ℕ → String) (exec : OperationExecutor X) (m : ℕ)
    (retry_backoff : ℕ → ℤ) where
  abbrev pub memory_pipeline : Pipeline Coordinator Store X
  memory_pipeline = record {
    queue = memory_queue print_ticket;
    state = memory_store;
    exec = exec;
    max_attempts = m;
    retry_backoff = retry_backoff;
  }

  abbrev Memory : Type 0
  Memory = World Coordinator Store X

  -- The store in which the operation has been claimed.
  record Claim (now : ℕ) (id : String) (w : Memory) : Type 0 where
    claimed : Store
    executing_in : state_of id claimed ≡ some executing
    advanced : advance_to_executing memory_pipeline now id w ≡ (record w { state = claimed }, none)

  advance_to_executing-Claim :
      (now : ℕ) (id : String) (w : Memory)
      → is_empty id ≡ false
      → Claimable id w.state
      → Claim now id w
  unfolding advance_to_executing advance_state executing_from_failed is_state_conflict
  advance_to_executing-Claim now id w named (inl q) =
      let (done, now_in) = advance_done now id w.state named queued executing q in
      record {
        claimed = (advance now id queued executing w.state).0;
        executing_in = now_in;
        advanced = rw done;
      }
  advance_to_executing-Claim now id w named (inr f) =
      let refused = advance_refused now id w.state named queued executing failed f refl in
      let (done, now_in) = advance_done now id w.state named failed executing f in
      record {
        claimed = (advance now id failed executing w.state).0;
        executing_in = now_in;
        advanced = rw (refused, done);
      }

  prepared_step :
      (later : ℕ) (item : QueueItem) (w : Memory) (x : X) (env : OperationEnvelope)
      (e : Option GoError)
      → exec.prepare item.envelope w.outside ≡ (x, env, e)
      → prepare_and_execute memory_pipeline later item w
        ≡ prepare_then memory_pipeline later
            (record item { envelope = env })
            e
            (record w { outside = x })
  unfolding prepare_and_execute
  prepared_step later item w x env e h =
      ap
        (λ (r : X × OperationEnvelope × Option GoError).
          prepare_then memory_pipeline later (record item { envelope = r.1 }) r.2
            (record w { outside = r.0 }))
        h

  executed_step :
      (later : ℕ) (item : QueueItem) (w : Memory) (x : X) (env : OperationEnvelope)
      (returned : Option OperationResult) (e : Option GoError)
      → exec.execute item.envelope w.outside ≡ (x, env, returned, e)
      → execute_prepared memory_pipeline later item w
        ≡ settle_execution memory_pipeline later
            (record item { envelope = env })
            (settle_result env.id "executor returned nil result" (item.attempts + 1) (returned, e))
            (record w { outside = x })
  unfolding execute_prepared
  executed_step later item w x env returned e h =
      ap
        (λ (r : X × OperationEnvelope × Option OperationResult × Option GoError).
          settle_execution memory_pipeline later (record item { envelope = r.1 })
            (settle_result r.1.id "executor returned nil result" (item.attempts + 1) (r.2, r.3))
            (record w { outside = r.0 }))
        h

  module _ (now later : ℕ) (w : Memory) (item : QueueItem) (c : Coordinator)
      (dequeued : dequeue now w.queue ≡ (c, ok (some item)))
      (executes : str_eq (operation_phase item.envelope) phase_compensate ≡ false)
      (named : is_empty item.envelope.id ≡ false)
      (claimable : Claimable item.envelope.id w.state) where
    -- The world after the claim.
    record Start : Type 0 where
      world : Memory
      same_queue : world.queue ≡ c
      same_outside : world.outside ≡ w.outside
      executing_in : state_of item.envelope.id world.state ≡ some executing
      step :
          process_once memory_pipeline now later w
          ≡ prepare_and_execute memory_pipeline later item world

    start : Start
    unfolding process_once process_item process_execution
    start =
        let taken : Memory = record w { queue = c } in
        let claim = advance_to_executing-Claim now item.envelope.id taken named claimable in
        record {
          world = record taken { state = claim.claimed };
          same_queue = refl;
          same_outside = refl;
          executing_in = claim.executing_in;
          step = rw (dequeued, executes, claim.advanced);
        }

    in_flight_start : lookup item.envelope.id c.in_flight ≡ some tt
    in_flight_start =
        let found = in_flight-dequeue now w.queue item (rw dequeued) in rw dequeued at found

    -- Where Dequeue returned an execution item with an identifier, whose operation is queued or
    -- failed, and Prepare fails and leaves the identifier in the envelope, ProcessOnce records the failure and returns the error of Prepare,
    -- and it leaves the queue as Dequeue left it: the item is not put back, and the operation stays
    -- among those in flight.
    pub process_once-prepare_fails :
        (x : X) (env : OperationEnvelope) (e : GoError)
        → exec.prepare item.envelope w.outside ≡ (x, env, some e)
        → env.id ≡ item.envelope.id
        → let (w', outcome) = process_once memory_pipeline now later w in
          (outcome ≡ some e)
          × (state_of item.envelope.id w'.state ≡ some failed)
          × (w'.queue.queue ≡ c.queue)
          × (lookup item.envelope.id w'.queue.in_flight ≡ some tt)
    unfolding prepare_then handle_failure
    process_once-prepare_fails x env e prepared kept =
        rw
          (
            start.step,
            prepared_step later item start.world x env (some e) (rw start.same_outside prepared),
            kept,
          )
          (
            refl,
            (record_failure_done later item.envelope.id start.world.state named _ _ executing
                start.executing_in).1,
            ap (λ (q : Coordinator). q.queue) start.same_queue,
            rw start.same_queue in_flight_start,
          )

    module _ (x y : X) (env env' : OperationEnvelope) (returned : Option OperationResult)
        (e : Option GoError) (prepared : exec.prepare item.envelope w.outside ≡ (x, env, none))
        (executed : exec.execute env x ≡ (y, env', returned, e))
        (kept : env'.id ≡ item.envelope.id) where
      -- The result that the worker goes on with.
      abbrev pub settled : OperationResult
      settled =
          settle_result item.envelope.id "executor returned nil result" (item.attempts + 1)
            (returned, e)

      attempt-settled : settled.attempt ≡ item.attempts + 1
      unfolding settle_result
      attempt-settled = refl

      step_settled :
          process_once memory_pipeline now later w
          ≡ settle_execution memory_pipeline later
              (record item { envelope = env' })
              settled
              (record start.world { outside = y })
      unfolding prepare_then settle_result
      step_settled =
          let first =
            start.step
            ∙ prepared_step later item start.world x env none (rw start.same_outside prepared) in
          let second =
            executed_step later (record item { envelope = env })
              (record start.world { outside = x }) y env' returned e executed in
          first
          ∙ second
          ∙ ap
              (λ (id : String).
                settle_execution memory_pipeline later (record item { envelope = env' })
                  (settle_result id "executor returned nil result" (item.attempts + 1)
                    (returned, e))
                  (record start.world { outside = y }))
              kept

      -- Where Dequeue returned an execution item with an identifier, whose operation is queued or
      -- failed, Prepare succeeds, the result of Execute has no error and is completed, and the
      -- identifier in the envelope is the same after both,
      -- ProcessOnce returns no error, the operation is completed, and it is neither in the queue
      -- that Dequeue left nor among the items in flight.
      pub process_once-succeeds :
          settled.error ≡ none
          → settled.state ≡ completed
          → let (w', outcome) = process_once memory_pipeline now later w in
            (outcome ≡ none)
            × (state_of item.envelope.id w'.state ≡ some completed)
            × (w'.queue.queue ≡ c.queue)
            × (lookup item.envelope.id w'.queue.in_flight ≡ none)
      unfolding settle_execution complete ack_with ack
      process_once-succeeds no_error done =
          rw (step_settled, no_error, done, kept)
            (
              refl,
              (advance_done later item.envelope.id start.world.state named executing completed
                  start.executing_in).1,
              ap (λ (q : Coordinator). q.queue) start.same_queue,
              lookup-delete_self item.envelope.id start.world.queue.in_flight,
            )

      module _ (unsettled : succeeded settled completed ≡ false)
          (own : settled.operation_id ≡ item.envelope.id) where
        failed_store : Store
        failed_store =
            (handle_failure memory_pipeline later item.envelope.id (item.attempts + 1)
              (failure_reason settled.error) (record start.world { outside = y })).state

        failed_in : state_of item.envelope.id failed_store ≡ some failed
        unfolding failed_store handle_failure
        failed_in =
            (record_failure_done later item.envelope.id start.world.state named _ _ executing
              start.executing_in).1

        -- Where Dequeue returned an execution item with an identifier, whose operation is queued or
        -- failed, Prepare succeeds, the identifier in the envelope is the same after Execute, the
        -- result of Execute names the operation, is no success and not fatal, and the attempt is
        -- not the last, ProcessOnce puts the item back at the end of the queue with one more
        -- attempt, due after the delay, and with the envelope as Execute left it, sets the
        -- operation to queued and returns the error of the attempt. The operation stays among
        -- those in flight too.
        pub process_once-retries :
            settled.fatal ≡ false
            → item.attempts + 1 < m
            → let (w', outcome) = process_once memory_pipeline now later w in
              (outcome ≡ some (error_or settled.error (operation_error item.envelope.id " failed")))
              × (state_of item.envelope.id w'.state ≡ some queued)
              × (w'.queue.queue
                  ≡ c.queue
                    ++ record {
                      envelope = env';
                      attempts = item.attempts + 1;
                      available_at =
                          later
                          + retry_delay settled.retry_after (retry_backoff (item.attempts + 1));
                    }
                      ∷ [])
              × (lookup item.envelope.id w'.queue.in_flight ≡ some tt)
        unfolding settle_execution handle_execution_result retry advance_state requeue_with requeue
            failed_store handle_failure
        process_once-retries not_fatal more =
            let again : leb m (item.attempts + 1) ≡ false = ground arith in
            let done =
              advance_done later item.envelope.id failed_store named failed queued failed_in in
            rw
              (
                step_settled, unsettled, handle_execution_result, kept, not_fatal, attempt-settled,
                again, own,
              )
              (refl, done.1, rw start.same_queue refl, rw start.same_queue in_flight_start)

        module _ (last : settled.fatal || leb m (item.attempts + 1) ≡ true) where
          -- The store after the attempt to advance from executing, which is refused.
          not_executing :
              advance later item.envelope.id executing failed failed_store
              ≡ (failed_store, some state_conflict)
          not_executing =
              advance_refused later item.envelope.id failed_store named executing failed failed
                failed_in refl

          -- Where Dequeue returned an execution item with an identifier, whose operation is queued
          -- or failed, Prepare succeeds, the identifier in the envelope is the same after Execute,
          -- and the result of Execute names the operation, is no success, is fatal or the last, and
          -- asks for no compensation, ProcessOnce returns the
          -- error of the attempt, leaves the operation failed, and it is neither in the queue that
          -- Dequeue left nor among the items in flight.
          pub process_once-gives_up :
              settled.trigger_compensation ≡ false
              → let (w', outcome) = process_once memory_pipeline now later w in
                (outcome
                  ≡ some (error_or settled.error (operation_error item.envelope.id " failed")))
                × (state_of item.envelope.id w'.state ≡ some failed)
                × (w'.queue.queue ≡ c.queue)
                × (lookup item.envelope.id w'.queue.in_flight ≡ none)
          unfolding settle_execution handle_execution_result give_up advance_state ack_with ack
              failed_store handle_failure
          process_once-gives_up plain =
              rw
                (
                  step_settled, unsettled, handle_execution_result, kept, attempt-settled, last,
                  own, plain,
                )
                (
                  refl,
                  rw not_executing failed_in,
                  ap (λ (q : Coordinator). q.queue) start.same_queue,
                  lookup-delete_self item.envelope.id start.world.queue.in_flight,
                )

          -- Where Dequeue returned an execution item with an identifier, whose operation is queued
          -- or failed, Prepare succeeds, the identifier in the envelope is the same after Execute,
          -- and the result of Execute names the operation, is no success, is fatal or the last, and
          -- asks for compensation, ProcessOnce returns the error of the attempt, sets the operation
          -- to compensating, and puts an item for the compensation, with no attempts made and the
          -- envelope as Execute left it but for the phase and the time of submission, at the end of
          -- the queue that Dequeue left; nothing of the operation stays in flight.
          pub process_once-compensates :
              settled.trigger_compensation ≡ true
              → let (w', outcome) = process_once memory_pipeline now later w in
                (outcome
                  ≡ some (error_or settled.error (operation_error item.envelope.id " failed")))
                × (state_of item.envelope.id w'.state ≡ some compensating)
                × (w'.queue.queue
                    ≡ c.queue
                      ++ record {
                        envelope = compensation_envelope later env';
                        attempts = 0;
                        available_at = later + 0;
                      }
                        ∷ [])
                × (lookup item.envelope.id w'.queue.in_flight ≡ none)
          unfolding settle_execution handle_execution_result give_up advance_state ack_with ack
              failed_store handle_failure start_compensation schedule_if_advanced
              schedule_compensation requeue
          process_once-compensates wanted =
              let done =
                advance_done later item.envelope.id failed_store named failed compensating
                  failed_in in
              rw
                (
                  step_settled, unsettled, handle_execution_result, kept, attempt-settled, last,
                  own, wanted, not_executing, done.0,
                )
                (
                  refl,
                  done.1,
                  rw start.same_queue refl,
                  lookup-delete_self item.envelope.id start.world.queue.in_flight,
                )
