-- ===== src/Operation/Worker/Allowance.antt =====
-- The attempts that the items of the in-memory queue may still use up, under the operations of
-- cdmp-mini/internal/common/service/operation/pipeline.go.
use text.Mathlib.Text.{◌==◌ as str_eq}
use cdmp_mini.Base.{
  ℕ, ◌+◌, ◌-◌, ◌*◌, ◌≤◌, ◌<◌, ◌≡◌, refl, Bool, true, false, Option, List, [], ◌∷◌, ◌++◌,
  if◌then◌else◌, All, total, All-append, All-split, total-append, arith,
}
use cdmp_mini.Base.GoMap.{lookup-insert_self}
use cdmp_mini.Operation.Types.{
  OperationEnvelope, GoError, Result, ok, err, QueueItem, OperationExecutor,
}
use cdmp_mini.Operation.Queue.{Coordinator}
use cdmp_mini.Operation.Queue.Order.{Taken}
use cdmp_mini.Operation.Pipeline.{World, operation_phase, phase_header, phase_compensate}
use cdmp_mini.Operation.Worker.{compensation_envelope}

abbrev pub is_compensating : OperationEnvelope → Bool
is_compensating env = str_eq (operation_phase env) phase_compensate

-- A compensator that leaves the phase in the envelope, so that a retry of it is a compensation too.
pub record KeepsPhase {X : Type 0} (exec : OperationExecutor X) : Type 0 where
  pub kept :
      (env : OperationEnvelope) (x : X)
      → is_compensating env ≡ true
      → is_compensating (exec.compensate env x).1 ≡ true

-- The attempts that an item may still use up: those of its own phase, and those of a compensation
-- that an execution may start.
abbrev pub item_budget : ℕ → QueueItem → ℕ
item_budget max_attempts item =
    (if is_compensating item.envelope then max_attempts else 2 * max_attempts) - item.attempts

abbrev pub budget : ℕ → Coordinator → ℕ
budget max_attempts c = total (item_budget max_attempts) c.queue

-- No item waits with its attempts used up.
abbrev pub AllFresh : ℕ → List QueueItem → Type 0
AllFresh max_attempts = All (λ item. item.attempts < max_attempts)

-- 1 for a call of `Dequeue` that returned an item.
abbrev pub handled : Result (Option QueueItem) → ℕ
handled (ok item) = 1
handled (err e) = 0

pub record Within (max_attempts b : ℕ) (items : List QueueItem) : Type 0 where
  pub fresh : AllFresh max_attempts items
  pub cost : total (item_budget max_attempts) items ≤ b

pub Within-append :
    (max_attempts b : ℕ) (items : List QueueItem) (item : QueueItem)
    → Within max_attempts b items
    → item.attempts < max_attempts
    → Within max_attempts (b + item_budget max_attempts item) (items ++ item ∷ [])
Within-append m b items item h lt = record {
  fresh = All-append _ items (item ∷ []) h.fresh (lt, tt);
  cost = omega (arith, h.cost, total-append (item_budget m) items (item ∷ []));
}

pub Within-mono :
    {max_attempts b c : ℕ} {items : List QueueItem}
    → b ≤ c
    → Within max_attempts b items
    → Within max_attempts c items
Within-mono le h = record { fresh = h.fresh; cost = omega (arith, h.cost) }

pub Within-if :
    {S X : Type 0} {m b : ℕ} (test : Bool) (u v : World Coordinator S X)
    → Within m b u.queue.queue
    → Within m b v.queue.queue
    → Within m b (if test then u else v).queue.queue
Within-if true u v f g = f
Within-if false u v f g = g

pub Within-if_pair :
    {S X : Type 0} {m b : ℕ} (test : Bool) (u v : World Coordinator S X × Option GoError)
    → (test ≡ true → Within m b u.0.queue.queue)
    → (test ≡ false → Within m b v.0.queue.queue)
    → Within m b (if test then u else v).0.queue.queue
Within-if_pair true u v f g = f refl
Within-if_pair false u v f g = g refl

pub is_compensating-compensation_envelope :
    (later : ℕ) (env : OperationEnvelope) → is_compensating (compensation_envelope later env) ≡ true
unfolding compensation_envelope operation_phase
is_compensating-compensation_envelope later env =
    rw (lookup-insert_self phase_header phase_compensate env.headers) refl

-- What is left of the queue after an item has been taken, with its budget and that of the item.
pub Taken-Within :
    {m now : ℕ} {items : List QueueItem} {item : QueueItem} {left : List QueueItem}
    → AllFresh m items
    → Taken now items item left
    → (item.attempts < m)
      × AllFresh m left
      × (total (item_budget m) left + item_budget m item ≡ total (item_budget m) items)
Taken-Within {m} {item = item} h t =
    let (l, r) = All-split _ t.before (item ∷ t.after) (rw t.split at h) in
    (
      r.0,
      rw t.rest (All-append _ t.before t.after l r.1),
      rw (t.rest, t.split)
          (omega (
            arith,
            total-append (item_budget m) t.before t.after,
            total-append (item_budget m) t.before (item ∷ t.after),
          )),
    )
