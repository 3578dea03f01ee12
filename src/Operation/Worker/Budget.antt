-- ===== src/Operation/Worker/Budget.antt =====
-- The attempts that a worker over the in-memory queue uses up, call by call of `ProcessOnce`:
-- cdmp-mini/internal/common/service/operation/pipeline.go.
use cdmp_mini.Base.{ℕ, ◌+◌, ◌≤◌, ◌<◌, String, Option, some, List, [], ◌∷◌, All, total, arith}
use cdmp_mini.Base.GoMap.{insert}
use cdmp_mini.Base.Signed.{ℤ}
use cdmp_mini.Operation.Types.{
  GoError, queue_empty, Result, QueueItem, RequestStateStore, OperationExecutor,
}
use cdmp_mini.Operation.Queue.{Coordinator, memory_queue, dequeue}
use cdmp_mini.Operation.Queue.Order.{Taken, Dequeued, nothing_due, took, dequeue-Dequeued}
use cdmp_mini.Operation.Pipeline.{Pipeline, World}
use cdmp_mini.Operation.Worker.{process_item, process_dequeued, process_once}
use cdmp_mini.Operation.Worker.Allowance.{
  KeepsPhase, item_budget, budget, AllFresh, handled, Taken-Within,
}
use cdmp_mini.Operation.Worker.Spending.{process_item-Within}

module _ {S X : Type 0} (print_ticket : ℕ → String) (state : RequestStateStore S)
    (exec : OperationExecutor X) (m : ℕ) (retry_backoff : ℕ → ℤ) (keeps : KeepsPhase exec) where
  abbrev p : Pipeline Coordinator S X
  p = record {
    queue = memory_queue print_ticket;
    state = state;
    exec = exec;
    max_attempts = m;
    retry_backoff = retry_backoff;
  }

  -- The outcome of one call of `ProcessOnce`: nothing was due, and nothing has changed, or an item was
  -- processed.
  pub data Progress (now : ℕ) (w : World Coordinator S X)
      : World Coordinator S X × Option GoError → Type 0 where
    idle :
        All (λ item. now < item.available_at) w.queue.queue → Progress now w (w, some queue_empty)
    processed :
        (r : World Coordinator S X × Option GoError)
        → budget m r.0.queue < budget m w.queue
        → AllFresh m r.0.queue.queue
        → Progress now w r

  item_budget-pos : (item : QueueItem) → item.attempts < m → 0 < item_budget m item
  item_budget-pos item lt = ground arith

  took-Progress :
      (now later : ℕ) (w : World Coordinator S X) (item : QueueItem) (left : List QueueItem)
      → AllFresh m w.queue.queue
      → Taken now w.queue.queue item left
      → let taken = record w {
        queue = record w.queue {
          queue = left;
          in_flight = insert item.envelope.id tt w.queue.in_flight;
        };
      } in
        let w' = (process_item p now later item taken).0 in
        (budget m w'.queue < budget m w.queue) × AllFresh m w'.queue.queue
  took-Progress now later w item left h t =
      let (lt, fresh, sum) = Taken-Within h t in
      let after =
        process_item-Within print_ticket state exec m retry_backoff keeps now later
          (total (item_budget m) left) item
          (record w {
            queue = record w.queue {
              queue = left;
              in_flight = insert item.envelope.id tt w.queue.in_flight;
            };
          })
          lt (record { fresh = fresh; cost = omega arith }) in
      (omega (arith, after.cost, item_budget-pos item lt, sum), after.fresh)

  Dequeued-Progress :
      (now later : ℕ) (w : World Coordinator S X) {d : Coordinator × Result (Option QueueItem)}
      → AllFresh m w.queue.queue
      → Dequeued now w.queue d
      → Progress now w (process_dequeued p now later d.1 (record w { queue = d.0 }))
  unfolding process_dequeued
  Dequeued-Progress now later w h (nothing_due waiting) = Progress.idle waiting
  Dequeued-Progress now later w h (took item left t) =
      let (less, fresh) = took-Progress now later w item left h t in Progress.processed _ less fresh

  -- Whatever the executor and the state store do, except that Compensate leaves the phase of a
  -- compensation in the envelope that it is handed, a call of ProcessOnce over the in-memory queue
  -- either finds nothing due, returns the empty-queue error and changes nothing, or it strictly
  -- lowers the budget of the queue: twice the attempt limit for each queued execution and once for
  -- each queued compensation, less the attempts made. It never queues an item whose attempts are
  -- used up, given a queue without such items.
  pub process_once-Progress :
      (now later : ℕ) (w : World Coordinator S X)
      → AllFresh m w.queue.queue
      → Progress now w (process_once p now later w)
  unfolding process_once
  process_once-Progress now later w h =
      Dequeued-Progress now later w h (dequeue-Dequeued now w.queue)

  Dequeued-handled :
      (now later : ℕ) (w : World Coordinator S X) {d : Coordinator × Result (Option QueueItem)}
      → AllFresh m w.queue.queue
      → Dequeued now w.queue d
      → let w' = (process_dequeued p now later d.1 (record w { queue = d.0 })).0 in
        (handled d.1 + budget m w'.queue ≤ budget m w.queue) × AllFresh m w'.queue.queue
  unfolding process_dequeued
  Dequeued-handled now later w h (nothing_due waiting) = (omega arith, h)
  Dequeued-handled now later w h (took item left t) =
      let (less, fresh) = took-Progress now later w item left h t in (omega arith, fresh)

  -- The calls of `ProcessOnce`, at any times, that find an item to process.
  pub handled_calls : List (ℕ × ℕ) → World Coordinator S X → ℕ
  handled_calls [] w = 0
  handled_calls ((now, later) ∷ times) w =
      handled (dequeue now w.queue).1 + handled_calls times (process_once p now later w).0

  -- However often and at whatever times ProcessOnce is called over the in-memory queue, and whatever
  -- the executor and the state store do, except that Compensate leaves the phase of a compensation
  -- in the envelope that it is handed, the calls
  -- that find an item to process are at most as many as the budget of the queue at the start, given
  -- that no queued item has used up its attempts: a worker runs out of work.
  pub handled_calls-le-budget :
      (times : List (ℕ × ℕ)) (w : World Coordinator S X)
      → AllFresh m w.queue.queue
      → handled_calls times w ≤ budget m w.queue
  unfolding handled_calls process_once
  handled_calls-le-budget [] w h = omega arith
  handled_calls-le-budget ((now, later) ∷ times) w h =
      let (less, fresh) = Dequeued-handled now later w h (dequeue-Dequeued now w.queue) in
      omega (arith, less, handled_calls-le-budget times (process_once p now later w).0 fresh)
