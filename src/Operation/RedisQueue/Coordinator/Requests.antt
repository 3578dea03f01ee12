-- ===== src/Operation/RedisQueue/Coordinator/Requests.antt =====
-- Any sequence of calls of the Redis queue coordinator, with what becomes of its calls of Redis and what
-- other processes do in between: cdmp-mini/internal/common/service/operation/queue/redisqueue/coordinator.go.
use text.Mathlib.Text.{◌==◌ as str_eq}
use cdmp_mini.Base.{
  ℕ, String, ◌≡◌, ◌∙◌, Bool, true, false, not, List, [], ◌∷◌, All, All-every, All-mono, arith,
}
use cdmp_mini.Operation.Types.{OperationEnvelope, QueueItem}
use cdmp_mini.Operation.RedisQueue.Commands.{Redis}
use cdmp_mini.Operation.RedisQueue.Scripts.{Keys, ack_operation}
use cdmp_mini.Operation.RedisQueue.Scripts.Consistent.{
  IsConsistent, push_ready-IsConsistent, ack_operation-IsConsistent, requeue_ready-IsConsistent,
  requeue_scheduled-IsConsistent,
}
use cdmp_mini.Operation.RedisQueue.Scripts.Loops.{
  release_due-IsConsistent, pop_ready-IsConsistent, reclaim_stale-IsConsistent,
}
use cdmp_mini.Operation.RedisQueue.Scripts.Held.{
  held, held-push_ready, held-ack_operation, held-requeue_ready, held-requeue_scheduled,
  held-release_due, held-pop_ready, held-reclaim_stale,
}
use cdmp_mini.Operation.RedisQueue.Config.{Settings}
use cdmp_mini.Operation.RedisQueue.Calls.{Store, World, System}
use cdmp_mini.Operation.RedisQueue.Reclaim.Keeps.{IsStable}
use cdmp_mini.Operation.RedisQueue.Coordinator.{Codec, enqueue, poll, cancel, dequeue, ack, requeue}
use cdmp_mini.Operation.RedisQueue.Coordinator.Keeps.{
  enqueue-Keeps, poll-Keeps, cancel-Keeps, dequeue-Keeps, ack-Keeps, requeue-Keeps,
}

-- A call of the coordinator.
pub data Request : Type 0 where
  enqueue_of : OperationEnvelope → Request
  poll_of cancel_of ack_of : String → Request
  dequeue_one : Request
  requeue_of : QueueItem → ℕ → Request

-- Whether a call is neither an `Ack` of the operation nor a `Cancel`.
abbrev pub spares : String → Request → Bool
spares id (ack_of other) = not (str_eq other id)
spares id (cancel_of ticket_id) = false
spares id _ = true

-- An operation is in the queue: ready, scheduled or in flight.
abbrev pub IsHeld : {S Z L : Type 0} → Redis S Z L → String → Keys S Z L → Type 0
IsHeld redis id k = held redis id k ≡ true

module _ {S Z L : Type 0} (redis : Redis S Z L) (world : World S Z L) (settings : Settings)
    (codec : Codec) where
  abbrev pub serve : Request → System S Z L → System S Z L
  serve (enqueue_of env) s = (enqueue redis world settings codec env s).0
  serve (poll_of ticket_id) s = (poll redis world settings ticket_id s).0
  serve (cancel_of ticket_id) s = (cancel redis world settings ticket_id s).0
  serve (ack_of id) s = (ack redis world settings id s).0
  serve dequeue_one s = (dequeue redis world settings codec s).0
  serve (requeue_of item delay) s = (requeue redis world settings codec item delay s).0

  abbrev pub serve_all : List Request → System S Z L → System S Z L
  serve_all [] s = s
  serve_all (request ∷ requests) s = serve_all requests (serve request s)

  -- What a predicate must stand of the script that takes an operation out.
  abbrev Allows : (Keys S Z L → Type 0) → Request → Type 0
  Allows P (cancel_of ticket_id) =
      (id : String) (k : Keys S Z L) → P k → P (ack_operation redis id k)
  Allows P (ack_of id) = (k : Keys S Z L) → P k → P (ack_operation redis id k)
  Allows P _ = Unit

  module _ (P : Keys S Z L → Type 0) (stable : IsStable redis world P) where
    serve-Keeps :
        (request : Request)
        → Allows P request
        → (s : System S Z L) → P s.store.keys
        → P (serve request s).store.keys
    serve-Keeps (enqueue_of env) allowed =
        (enqueue-Keeps redis world settings P stable codec env).kept
    serve-Keeps (poll_of ticket_id) allowed =
        (poll-Keeps redis world settings P stable ticket_id).kept
    serve-Keeps (cancel_of ticket_id) allowed =
        (cancel-Keeps redis world settings P stable ticket_id allowed).kept
    serve-Keeps (ack_of id) allowed = (ack-Keeps redis world settings P stable id allowed).kept
    serve-Keeps dequeue_one allowed = (dequeue-Keeps redis world settings P stable codec).kept
    serve-Keeps (requeue_of item delay) allowed =
        (requeue-Keeps redis world settings P stable codec item delay).kept

    -- The same of a sequence of calls.
    serve_all-Keeps :
        (requests : List Request) (s : System S Z L)
        → All (Allows P) requests
        → P s.store.keys
        → P (serve_all requests s).store.keys
    serve_all-Keeps [] s allowed h = h
    serve_all-Keeps (request ∷ requests) s allowed h =
        serve_all-Keeps requests (serve request s) allowed.1 (serve-Keeps request allowed.0 s h)

  IsConsistent-stable :
      ((n : ℕ) (st : Store S Z L)
        → IsConsistent redis st.keys
        → IsConsistent redis (world.others n st).keys)
      → IsStable redis world (IsConsistent redis)
  IsConsistent-stable others = record {
    push = push_ready-IsConsistent redis;
    release = release_due-IsConsistent redis;
    pop = pop_ready-IsConsistent redis;
    requeue = requeue_ready-IsConsistent redis;
    schedule = requeue_scheduled-IsConsistent redis;
    reclaim = reclaim_stale-IsConsistent redis;
    others = others;
  }

  IsConsistent-Allows : (request : Request) → Allows (IsConsistent redis) request
  IsConsistent-Allows (enqueue_of env) = tt
  IsConsistent-Allows (poll_of ticket_id) = tt
  IsConsistent-Allows (cancel_of ticket_id) = ack_operation-IsConsistent redis
  IsConsistent-Allows (ack_of id) = ack_operation-IsConsistent redis id
  IsConsistent-Allows dequeue_one = tt
  IsConsistent-Allows (requeue_of item delay) = tt

  -- After any calls of the coordinator, whatever becomes of their calls of Redis, each member of the
  -- ready set is in the ready list, and an identifier is in flight just where it has a lease, where the
  -- keys were so before and the other processes keep them so.
  pub serve_all-IsConsistent :
      (others : (n : ℕ) (st : Store S Z L)
        → IsConsistent redis st.keys
        → IsConsistent redis (world.others n st).keys)
      (requests : List Request) (s : System S Z L)
      → IsConsistent redis s.store.keys
      → IsConsistent redis (serve_all requests s).store.keys
  serve_all-IsConsistent others requests s =
      serve_all-Keeps (IsConsistent redis) (IsConsistent-stable others) requests s
        (All-every IsConsistent-Allows requests)

  IsHeld-stable :
      (id : String)
      → ((n : ℕ) (st : Store S Z L)
          → IsHeld redis id st.keys
          → IsHeld redis id (world.others n st).keys)
      → IsStable redis world (IsHeld redis id)
  IsHeld-stable id others = record {
    push = λ other k h. let same = held-push_ready redis id other k in ground (arith, same, h);
    release = λ now k h. held-release_due redis id now k ∙ h;
    pop = λ now k h. held-pop_ready redis id now k ∙ h;
    requeue =
        λ other k h. let same = held-requeue_ready redis id other k in ground (arith, same, h);
    schedule = λ other score k h.
        let same = held-requeue_scheduled redis id other score k in ground (arith, same, h);
    reclaim = λ now max_age limit samples k h.
        held-reclaim_stale redis id now max_age limit samples k ∙ h;
    others = others;
  }

  IsHeld-Allows :
      (id : String) (request : Request)
      → spares id request ≡ true
      → Allows (IsHeld redis id) request
  IsHeld-Allows id (enqueue_of env) spared = tt
  IsHeld-Allows id (poll_of ticket_id) spared = tt
  IsHeld-Allows id (cancel_of ticket_id) spared = ground (arith, spared)
  IsHeld-Allows id (ack_of other) spared =
      λ k h. let same = held-ack_operation redis id other k in ground (arith, same, h, spared)
  IsHeld-Allows id dequeue_one spared = tt
  IsHeld-Allows id (requeue_of item delay) spared = tt

  -- No calls of the coordinator but an `Ack` of the operation or a `Cancel` take an operation out of the
  -- queue, whatever becomes of their calls of Redis: it stays ready, scheduled or in flight, where the
  -- other processes leave it in the queue.
  pub serve_all-IsHeld :
      (id : String)
      (others : (n : ℕ) (st : Store S Z L)
        → IsHeld redis id st.keys
        → IsHeld redis id (world.others n st).keys)
      (requests : List Request) (s : System S Z L)
      → All (λ request. spares id request ≡ true) requests
      → IsHeld redis id s.store.keys
      → IsHeld redis id (serve_all requests s).store.keys
  serve_all-IsHeld id others requests s spared =
      serve_all-Keeps (IsHeld redis id) (IsHeld-stable id others) requests s
        (All-mono (IsHeld-Allows id) requests spared)
