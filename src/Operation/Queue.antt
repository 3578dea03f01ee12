-- ===== src/Operation/Queue.antt =====
-- The in-memory queue coordinator:
-- cdmp-mini/internal/common/service/operation/queue/memory/memory.go.
-- Items are never nil, since `Enqueue` and `Requeue` refuse nil. `in_flight` has the keys of the map:
-- no code reads the items behind them, which the worker goes on changing through its pointer.
pub mod Order
pub mod Tickets
use Prim.Native.String.{◌++◌ as join}
use text.Mathlib.Text.{◌==◌ as str_eq}
use cdmp_mini.Base.{
  ℕ, ◌+◌, String, Option, none, some, List, [], ◌∷◌, ◌++◌, ltb, length, if◌then◌else◌,
}
use cdmp_mini.Base.GoMap.{GoMap, lookup, insert, delete}
use cdmp_mini.Base.Signed.{ℤ, pos, negsuc}
use cdmp_mini.Base.Text.{is_empty}
use cdmp_mini.Operation.Types.{
  queued, executing, OperationEnvelope, GoError, queue_empty, new_error, Result, ok, err,
  QueueTicket, QueueStatus, QueueItem, QueueCoordinator,
}

pub record Coordinator : Type 0 where
  pub queue : List QueueItem
  pub tickets : GoMap QueueTicket
  pub in_flight : GoMap (Unit {0})

abbrev pub new_coordinator : Coordinator
new_coordinator = record { queue = []; tickets = []; in_flight = [] }

-- `fmt.Sprintf("ticket-%d", now)` for an envelope with neither an identifier nor a trace.
unfoldable pub ticket_for : String → OperationEnvelope → String
ticket_for anonymous env =
    if is_empty env.id then (if is_empty env.trace_id then anonymous else env.trace_id) else env.id

-- `anonymous` is the printed `ticket-<unix nanoseconds>`.
unfoldable pub enqueue :
    String → ℕ → OperationEnvelope → Coordinator → Coordinator × Result QueueTicket
unfolding ticket_for
enqueue anonymous now env c =
    let ticket : QueueTicket = record {
      ticket_id = ticket_for anonymous env;
      operation_id = env.id;
      queue_position = length c.queue;
      issued_at = now;
    } in
    (
      record c {
        queue = c.queue ++ record { envelope = env; attempts = 0; available_at = now } ∷ [];
        tickets = insert (ticket_for anonymous env) ticket c.tickets;
      },
      ok ticket,
    )

-- The index of the first item of the operation, from `idx`, or -1.
pub position_of : String → ℕ → List QueueItem → ℤ
position_of id idx [] = negsuc 0
position_of id idx (item ∷ items) =
    if str_eq item.envelope.id id then pos idx else position_of id (idx + 1) items

status_of : String → Option (Unit {0}) → ℤ → QueueStatus
status_of id none position = record {
  operation_id = id;
  state = queued;
  position = position;
  remaining = 0;
}
status_of id (some there) position = record {
  operation_id = id;
  state = executing;
  position = pos 0;
  remaining = 0;
}

abbrev pub ticket_not_found : String → GoError
ticket_not_found ticket_id = new_error (join "ticket " (join ticket_id " not found"))

poll_found : String → Option QueueTicket → Coordinator → Result QueueStatus
unfolding position_of status_of
poll_found ticket_id none c = err (ticket_not_found ticket_id)
poll_found ticket_id (some ticket) c =
    let id = ticket.operation_id in
    ok (status_of id (lookup id c.in_flight) (position_of id 0 c.queue))

unfoldable pub poll : String → Coordinator → Result QueueStatus
unfolding poll_found
poll ticket_id c = poll_found ticket_id (lookup ticket_id c.tickets) c

-- An item of another operation, in front of what the loop leaves behind it.
keep : QueueItem → Option (List QueueItem) → Option (List QueueItem)
keep item none = none
keep item (some left) = some (item ∷ left)

-- The queue without the first item of the operation, or `none` where it holds no such item.
pub remove_first : String → List QueueItem → Option (List QueueItem)
unfolding keep
remove_first id [] = none
remove_first id (item ∷ items) =
    let rest = remove_first id items in
    if str_eq item.envelope.id id then some items else keep item rest

cancel_found : String → String → Option (List QueueItem) → Coordinator → Coordinator
cancel_found ticket_id id (some left) c = record c {
  queue = left;
  tickets = delete ticket_id c.tickets;
}
cancel_found ticket_id id none c = record c {
  in_flight = delete id c.in_flight;
  tickets = delete ticket_id c.tickets;
}

cancel_ticket : String → Option QueueTicket → Coordinator → Coordinator × Option GoError
unfolding remove_first cancel_found
cancel_ticket ticket_id none c = (c, some (ticket_not_found ticket_id))
cancel_ticket ticket_id (some ticket) c =
    (cancel_found ticket_id ticket.operation_id (remove_first ticket.operation_id c.queue) c, none)

unfoldable pub cancel : String → Coordinator → Coordinator × Option GoError
unfolding cancel_ticket
cancel ticket_id c = cancel_ticket ticket_id (lookup ticket_id c.tickets) c

-- An item that is not due yet, in front of what the loop finds behind it.
pass_over : QueueItem → Option (QueueItem × List QueueItem) → Option (QueueItem × List QueueItem)
pass_over item none = none
pass_over item (some (found, left)) = some (found, item ∷ left)

-- The first item that is available by `now`, and the queue without it.
unfoldable pub take_ready : ℕ → List QueueItem → Option (QueueItem × List QueueItem)
unfolding pass_over
take_ready now [] = none
take_ready now (item ∷ items) =
    let rest = take_ready now items in
    if ltb now item.available_at then pass_over item rest else some (item, items)

dequeue_ready :
    Option (QueueItem × List QueueItem) → Coordinator → Coordinator × Result (Option QueueItem)
dequeue_ready none c = (c, err queue_empty)
dequeue_ready (some (item, left)) c =
    (record c { queue = left; in_flight = insert item.envelope.id tt c.in_flight }, ok (some item))

unfoldable pub dequeue : ℕ → Coordinator → Coordinator × Result (Option QueueItem)
unfolding take_ready dequeue_ready
dequeue now c = dequeue_ready (take_ready now c.queue) c

unfoldable pub ack : String → Coordinator → Coordinator × Option GoError
ack id c = (record c { in_flight = delete id c.in_flight }, none)

unfoldable pub requeue : ℕ → QueueItem → ℕ → Coordinator → Coordinator × Option GoError
requeue now item delay c =
    (record c { queue = c.queue ++ record item { available_at = now + delay } ∷ [] }, none)

-- `var _ operation.QueueCoordinator = (*Coordinator)(nil)`
abbrev pub memory_queue : (ℕ → String) → QueueCoordinator Coordinator
memory_queue print_ticket = record {
  enqueue = λ now. enqueue (print_ticket now) now;
  poll = poll;
  cancel = cancel;
  dequeue = dequeue;
  ack = ack;
  requeue = requeue;
}
