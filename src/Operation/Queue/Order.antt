-- ===== src/Operation/Queue/Order.antt =====
-- The order in which `Dequeue` of the in-memory queue returns the items:
-- cdmp-mini/internal/common/service/operation/queue/memory/memory.go.
use cdmp_mini.Base.{
  ℕ, ◌≤◌, ◌<◌, ◌≡◌, refl, ap, ◌⊎◌, inl, inr, Option, none, some, List, [], ◌∷◌, ◌++◌, ltb,
  if◌then◌else◌, Bool-cases, All, arith,
}
use cdmp_mini.Base.GoMap.{lookup, insert, lookup-insert_self}
use cdmp_mini.Operation.Types.{QueueItem, Result, ok, err, queue_empty}
use cdmp_mini.Operation.Queue.{Coordinator, pass_over, take_ready, dequeue_ready, dequeue}

-- `item` is the first of `items` that is due by `now`, and `left` are the others in their order.
pub record Taken (now : ℕ) (items : List QueueItem) (item : QueueItem) (left : List QueueItem)
    : Type 0 where
  pub before : List QueueItem
  pub after : List QueueItem
  pub split : items ≡ before ++ item ∷ after
  pub rest : left ≡ before ++ after
  pub waiting : All (λ other. now < other.available_at) before
  pub due : item.available_at ≤ now

Taken-skip :
    {now : ℕ} {items left : List QueueItem} {item : QueueItem} (other : QueueItem)
    → now < other.available_at
    → Taken now items item left
    → Taken now (other ∷ items) item (other ∷ left)
Taken-skip other lt t = record {
  before = other ∷ t.before;
  after = t.after;
  split = ap (λ items. other ∷ items) t.split;
  rest = ap (λ items. other ∷ items) t.rest;
  waiting = (lt, t.waiting);
  due = t.due;
}

-- What `take_ready` found, by whether the first item was due.
abbrev TakenFrom : ℕ → QueueItem → List QueueItem → QueueItem → List QueueItem → Type 0
TakenFrom now other items item left =
    ((other ≡ item) × (items ≡ left) × (other.available_at ≤ now))
    ⊎ ((left' : List QueueItem) × (take_ready now items ≡ some (item, left'))
        × (left ≡ other ∷ left')
        × (now < other.available_at))

taken_from :
    (now : ℕ) (other : QueueItem) (items : List QueueItem) (item : QueueItem)
    (left : List QueueItem) (rest : Option (QueueItem × List QueueItem))
    → take_ready now items ≡ rest
    → (if ltb now other.available_at then pass_over other rest else some (other, items))
      ≡ some (item, left)
    → TakenFrom now other items item left
unfolding pass_over
taken_from now other items item left none found e = inl (ground arith, ground arith, ground arith)
taken_from now other items item left (some (next, left')) found e =
    elim (Bool-cases (ltb now other.available_at)) [
      | inl wait ↦ inr (left', ground arith, ground arith, ground arith)
      | inr due ↦ inl (ground arith, ground arith, ground arith)
    ]

Taken-head :
    {now : ℕ} {items left : List QueueItem} {other item : QueueItem}
    → other ≡ item
    → items ≡ left
    → other.available_at ≤ now
    → Taken now (other ∷ items) item left
Taken-head {items = items} {other = other} e f due = record {
  before = [];
  after = items;
  split = cc;
  rest = cc;
  waiting = tt;
  due = rw (← e) due;
}

pub take_ready-Taken :
    (now : ℕ) (items : List QueueItem) (item : QueueItem) (left : List QueueItem)
    → take_ready now items ≡ some (item, left)
    → Taken now items item left
unfolding take_ready
take_ready-Taken now [] item left e = cc
take_ready-Taken now (other ∷ items) item left e =
    elim (taken_from now other items item left (take_ready now items) refl e) [
      | inl (same, same_left, due) ↦ Taken-head same same_left due
      | inr (left', found, cons, wait) ↦
          rw cons (Taken-skip other wait (take_ready-Taken now items item left' found))
    ]

pub take_ready-none :
    (now : ℕ) (items : List QueueItem)
    → take_ready now items ≡ none
    → All (λ other. now < other.available_at) items
unfolding take_ready
take_ready-none now [] e = tt
take_ready-none now (other ∷ items) e = (ground arith, take_ready-none now items (ground arith))

-- What `Dequeue` does: either nothing is due and nothing changes, or the first item that is due
-- leaves the queue for the in-flight items, and the others keep their order.
pub data Dequeued (now : ℕ) (c : Coordinator)
    : Coordinator × Result (Option QueueItem) → Type 0 where
  nothing_due :
      All (λ other. now < other.available_at) c.queue → Dequeued now c (c, err queue_empty)
  took :
      (item : QueueItem) (left : List QueueItem)
      → Taken now c.queue item left
      → Dequeued now c (
        record c { queue = left; in_flight = insert item.envelope.id tt c.in_flight },
        ok (some item),
      )

dequeue_ready-Dequeued :
    (now : ℕ) (c : Coordinator) (found : Option (QueueItem × List QueueItem))
    → take_ready now c.queue ≡ found
    → Dequeued now c (dequeue_ready found c)
unfolding dequeue_ready
dequeue_ready-Dequeued now c none e = nothing_due (take_ready-none now c.queue e)
dequeue_ready-Dequeued now c (some (item, left)) e =
    took item left (take_ready-Taken now c.queue item left e)

-- Dequeue is first in, first out among the items that are due: it returns the first item of the
-- queue that is available by now, moves it to the in-flight items and keeps the order of the
-- others; it returns the empty-queue error, and changes nothing, only where no item is available.
pub dequeue-Dequeued : (now : ℕ) (c : Coordinator) → Dequeued now c (dequeue now c)
unfolding dequeue
dequeue-Dequeued now c = dequeue_ready-Dequeued now c (take_ready now c.queue) refl

in_flight_taken :
    (now : ℕ) (q : Coordinator) (item : QueueItem) {d : Coordinator × Result (Option QueueItem)}
    → Dequeued now q d
    → d.1 ≡ ok (some item)
    → lookup item.envelope.id d.0.in_flight ≡ some tt
in_flight_taken now q item (nothing_due idle) e = cc
in_flight_taken now q item (took other left t) e =
    let same : other ≡ item = cc in
    rw (← same) (lookup-insert_self other.envelope.id tt q.in_flight)

-- An item that `Dequeue` returned is in flight.
pub in_flight-dequeue :
    (now : ℕ) (q : Coordinator) (item : QueueItem)
    → (dequeue now q).1 ≡ ok (some item)
    → lookup item.envelope.id (dequeue now q).0.in_flight ≡ some tt
in_flight-dequeue now q item e = in_flight_taken now q item (dequeue-Dequeued now q) e
