-- ===== src/Operation/Queue/Tickets.antt =====
-- What a client sees of an operation through its ticket, by `Poll` and `Cancel` of the in-memory queue:
-- cdmp-mini/internal/common/service/operation/queue/memory/memory.go.
use text.Mathlib.Text.{◌==◌ as str_eq}
use cdmp_mini.Base.{
  ℕ, ◌+◌, String, ◌≡◌, refl, ap, inl, inr, true, false, Option, none, some, List, [], ◌∷◌, ◌++◌,
  length, Bool-cases, All, arith, eq_iff, eq_refl,
}
use cdmp_mini.Base.GoMap.{lookup, lookup-insert_self, lookup-delete_self}
use cdmp_mini.Base.Signed.{pos}
use cdmp_mini.Operation.Types.{
  queued, executing, OperationEnvelope, ok, err, QueueTicket, QueueItem,
}
use cdmp_mini.Operation.Queue.{
  Coordinator, ticket_for, ticket_not_found, enqueue, position_of, status_of, poll_found, poll,
  remove_first, keep, cancel_found, cancel_ticket, cancel, dequeue, requeue,
}
use cdmp_mini.Operation.Queue.Order.{in_flight-dequeue}

-- No item of the operation is in the queue.
abbrev Absent : String → List QueueItem → Type 0
Absent id = All (λ item. str_eq item.envelope.id id ≡ false)

position_of-append :
    (id : String) (idx : ℕ) (items : List QueueItem) (item : QueueItem)
    → Absent id items
    → str_eq item.envelope.id id ≡ true
    → position_of id idx (items ++ item ∷ []) ≡ pos (idx + length items)
unfolding position_of
position_of-append id idx [] item h e = rw e (ground arith)
position_of-append id idx (x ∷ items) item h e =
    rw (h.0, position_of-append id (idx + 1) items item h.1 e) (ground arith)

-- A new operation is reported as queued, at the position that its ticket names, behind all that was
-- in the queue: given that none of its items is queued or in flight.
pub poll-enqueue :
    (anonymous : String) (now : ℕ) (env : OperationEnvelope) (c : Coordinator)
    → Absent env.id c.queue
    → lookup env.id c.in_flight ≡ none
    → let (c', r) = enqueue anonymous now env c in
      let id = ticket_for anonymous env in
      (r
        ≡ ok (record {
          ticket_id = id;
          operation_id = env.id;
          queue_position = length c.queue;
          issued_at = now;
        }))
      × (poll id c'
          ≡ ok (record {
            operation_id = env.id;
            state = queued;
            position = pos (length c.queue);
            remaining = 0;
          }))
unfolding enqueue poll poll_found status_of
poll-enqueue anonymous now env c absent idle = (
  refl,
  rw
      (
        lookup-insert_self,
        idle,
        position_of-append env.id 0 c.queue
            (record { envelope = env; attempts = 0; available_at = now }) absent (eq_refl env.id),
      )
      (ground arith),
)

-- `left` is the queue without its first item of the operation.
pub record Removed (id : String) (items left : List QueueItem) : Type 0 where
  pub before : List QueueItem
  pub after : List QueueItem
  pub item : QueueItem
  pub split : items ≡ before ++ item ∷ after
  pub rest : left ≡ before ++ after
  pub own : item.envelope.id ≡ id
  pub others : Absent id before

Removed-skip :
    {id : String} {items left : List QueueItem} (other : QueueItem)
    → str_eq other.envelope.id id ≡ false
    → Removed id items left
    → Removed id (other ∷ items) (other ∷ left)
Removed-skip other ne r = record {
  before = other ∷ r.before;
  after = r.after;
  item = r.item;
  split = ap (λ items. other ∷ items) r.split;
  rest = ap (λ items. other ∷ items) r.rest;
  own = r.own;
  others = (ne, r.others);
}

-- What `Cancel` does to the queue: the first item of the operation goes, or there is none.
abbrev Cancelled : String → List QueueItem → Option (List QueueItem) → Type 0
Cancelled id items none = Absent id items
Cancelled id items (some left) = Removed id items left

Cancelled-rest :
    (id : String) (item : QueueItem) (items : List QueueItem) (o : Option (List QueueItem))
    → str_eq item.envelope.id id ≡ false
    → Cancelled id items o
    → Cancelled id (item ∷ items) (keep item o)
unfolding keep
Cancelled-rest id item items none ne h = (ne, h)
Cancelled-rest id item items (some left) ne h = Removed-skip item ne h

remove_first-Cancelled :
    (id : String) (items : List QueueItem) → Cancelled id items (remove_first id items)
unfolding remove_first
remove_first-Cancelled id [] = tt
remove_first-Cancelled id (item ∷ items) = elim (Bool-cases (str_eq item.envelope.id id)) [
  | inl same ↦ rw same (record {
    before = [];
    after = items;
    item = item;
    split = refl;
    rest = refl;
    own = (eq_iff item.envelope.id id).0 same;
    others = tt;
  })
  | inr ne ↦
      rw ne
        (Cancelled-rest id item items (remove_first id items) ne (remove_first-Cancelled id items))
]

-- The state of the coordinator after a cancellation by a known ticket.
pub data CancelledBy (id : String) (c c' : Coordinator) : Type 0 where
  from_queue : Removed id c.queue c'.queue → c'.in_flight ≡ c.in_flight → CancelledBy id c c'
  from_flight :
      Absent id c.queue → c'.queue ≡ c.queue → lookup id c'.in_flight ≡ none → CancelledBy id c c'

cancel_found-CancelledBy :
    (ticket_id id : String) (c : Coordinator) (o : Option (List QueueItem))
    → Cancelled id c.queue o
    → CancelledBy id c (cancel_found ticket_id id o c)
unfolding cancel_found
cancel_found-CancelledBy ticket_id id c none h =
    from_flight h refl (lookup-delete_self id c.in_flight)
cancel_found-CancelledBy ticket_id id c (some left) h = from_queue h refl

lookup-cancel_found :
    (ticket_id id : String) (c : Coordinator) (o : Option (List QueueItem))
    → lookup ticket_id (cancel_found ticket_id id o c).tickets ≡ none
unfolding cancel_found
lookup-cancel_found ticket_id id c none = lookup-delete_self ticket_id c.tickets
lookup-cancel_found ticket_id id c (some left) = lookup-delete_self ticket_id c.tickets

-- Cancel by a known ticket succeeds: it takes the first queued item of the operation out of the
-- queue and keeps the others in their order, or, where none is queued, drops the operation from the
-- items in flight; and the ticket is unknown to Poll from then on.
pub cancel-CancelledBy :
    (ticket_id : String) (ticket : QueueTicket) (c : Coordinator)
    → lookup ticket_id c.tickets ≡ some ticket
    → ((cancel ticket_id c).1 ≡ none)
      × CancelledBy ticket.operation_id c (cancel ticket_id c).0
      × (poll ticket_id (cancel ticket_id c).0 ≡ err (ticket_not_found ticket_id))
unfolding cancel cancel_ticket poll poll_found
cancel-CancelledBy ticket_id ticket c known = rw known (
  refl,
  cancel_found-CancelledBy ticket_id ticket.operation_id c _
      (remove_first-Cancelled ticket.operation_id c.queue),
  rw (lookup-cancel_found ticket_id ticket.operation_id c) refl,
)

-- For a ticket of the operation of an item that Dequeue returned, Poll after Requeue of the item
-- reports it as executing, at position 0, although it waits in the queue: Requeue leaves it among
-- the items in flight, which Poll reads first.
pub poll-requeue :
    (now later delay : ℕ) (item : QueueItem) (ticket_id : String) (ticket : QueueTicket)
    (c : Coordinator)
    → (dequeue now c).1 ≡ ok (some item)
    → lookup ticket_id (dequeue now c).0.tickets ≡ some ticket
    → ticket.operation_id ≡ item.envelope.id
    → poll ticket_id (requeue later item delay (dequeue now c).0).0
      ≡ ok (record {
        operation_id = item.envelope.id;
        state = executing;
        position = pos 0;
        remaining = 0;
      })
unfolding poll poll_found requeue status_of
poll-requeue now later delay item ticket_id ticket c taken known own =
    rw (known, own, in_flight-dequeue now c item taken) refl
