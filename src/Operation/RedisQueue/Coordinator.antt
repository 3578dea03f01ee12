-- ===== src/Operation/RedisQueue/Coordinator.antt =====
-- The operations of the queue coordinator over Redis:
-- cdmp-mini/internal/common/service/operation/queue/redisqueue/coordinator.go.
-- `codec` stands for `json.Marshal` and `json.Unmarshal` of an envelope.
pub mod Keeps
pub mod Requests
use Prim.Native.String.{◌++◌ as join}
use cdmp_mini.Base.{
  ℕ, zero, suc, ◌+◌, ◌-◌, ◌*◌, ◌/◌, String, Bool, true, false, not, ◌&&◌, ◌||◌, Option, none, some,
  ltb, leb, ◌==◌, if◌then◌else◌,
}
use cdmp_mini.Base.Signed.{ℤ, pos, negsuc, millisecond}
use cdmp_mini.Base.Text.{is_empty}
use cdmp_mini.Base.GoMap.{lookup, insert, delete}
use cdmp_mini.Operation.Types.{
  queued, executing, completed, OperationState, OperationEnvelope, GoError, queue_empty, new_error,
  Result, ok, err, QueueTicket, QueueStatus, QueueItem,
}
use cdmp_mini.Operation.RedisQueue.Commands.{Redis}
use cdmp_mini.Operation.RedisQueue.Scripts.{
  Keys, push_ready, pop_ready, release_due, requeue_ready, requeue_scheduled, ack_operation,
}
use cdmp_mini.Operation.RedisQueue.Config.{Settings}
use cdmp_mini.Operation.Acts.{
  Act, return, fail, attempt, or_fail, ◌>>=◌, ◌>>◌, require, given, change,
}
use cdmp_mini.Operation.RedisQueue.Calls.{
  Store, World, System, read_clock, new_ticket_id, look, write, run_keys,
}
use cdmp_mini.Operation.RedisQueue.Reclaim.{reclaim_stale_inflight, record_queue_metrics}

pub record Codec : Type 0 where
  pub marshal : OperationEnvelope → Result String
  pub unmarshal : String → Result OperationEnvelope

-- `redis.Nil`, for a key that is not there
abbrev pub redis_nil : GoError
redis_nil = new_error "redis: nil"

abbrev pub ticket_missing : String → GoError
ticket_missing ticket_id = new_error (join "ticket " (join ticket_id " not found"))

found_or : {A : Type 0} → GoError → Option A → Result A
found_or e none = err e
found_or e (some a) = ok a

attempts_or_none : Option ℕ → ℕ
attempts_or_none none = 0
attempts_or_none (some attempts) = attempts

popped_id : Option String → String
popped_id none = ""
popped_id (some id) = id

-- A position of `LPOS`, or -1.
position_or_none : Option ℕ → ℤ
position_or_none none = negsuc 0
position_or_none (some idx) = pos idx

module _ {S Z L : Type 0} (redis : Redis S Z L) (world : World S Z L) (settings : Settings) where
  -- A script of which the code reads no reply.
  on_keys : (Keys S Z L → Keys S Z L) → Act (System S Z L) Unit
  on_keys script = run_keys world (λ k. (script k, tt))

  metrics : Act (System S Z L) Unit
  metrics = record_queue_metrics redis world settings

  -- `setAttempts`
  set_attempts : String → ℕ → Act (System S Z L) Unit
  set_attempts id attempts =
      write world (λ store. record store { attempts = insert id attempts store.attempts })

  -- `persistEnvelope`
  persist_envelope : Codec → OperationEnvelope → Act (System S Z L) Unit
  persist_envelope codec env = do
    payload ← given (codec.marshal env)
    write world (λ store. record store { payloads = insert env.id payload store.payloads })

  -- `GetKey` of the ticket, with the error of `Poll` and `Cancel` for a missing one
  get_ticket : String → Act (System S Z L) String
  unfolding found_or
  get_ticket ticket_id = do
    require (not (is_empty ticket_id)) "ticket id is required"
    found ← look world (λ store. lookup ticket_id store.tickets)
    given (found_or (ticket_missing ticket_id) found)

  -- `Enqueue`
  unfoldable pub enqueue : Codec → OperationEnvelope → Act (System S Z L) QueueTicket
  unfolding metrics set_attempts persist_envelope
  enqueue codec env = do
    require (not (is_empty env.id)) "operation id is required"
    persist_envelope codec env
    set_attempts env.id 0
    len ← run_keys world (push_ready redis env.id)
    ticket_id ← new_ticket_id world
    write world (λ store. record store { tickets = insert ticket_id env.id store.tickets })
    issued_at ← read_clock world
    metrics
    return (record {
      ticket_id = ticket_id;
      operation_id = env.id;
      queue_position = len - 1;
      issued_at = issued_at;
    })

  -- What `Poll` reports of an operation that is neither in flight nor in the list.
  poll_scheduled : String → Option ℕ → Act (System S Z L) QueueStatus
  poll_scheduled id none =
      return (record { operation_id = id; state = completed; position = negsuc 0; remaining = 0 })
  poll_scheduled id (some score) = do
    now ← read_clock world
    return (record {
      operation_id = id;
      state = queued;
      position = negsuc 0;
      remaining = (score - now / millisecond) * millisecond;
    })

  poll_position : String → Bool → Option ℕ → Act (System S Z L) QueueStatus
  unfolding poll_scheduled position_or_none
  poll_position id true position = return (record {
    operation_id = id;
    state = executing;
    position = position_or_none position;
    remaining = 0;
  })
  poll_position id false (some idx) =
      return (record { operation_id = id; state = queued; position = pos idx; remaining = 0 })
  poll_position id false none = do
    score ← look world (λ store. redis.sorted.zscore id store.keys.scheduled)
    poll_scheduled id score

  -- `Poll`
  unfoldable pub poll : String → Act (System S Z L) QueueStatus
  unfolding get_ticket poll_position
  poll ticket_id = do
    id ← get_ticket ticket_id
    position ← look world (λ store. redis.lists.lpos id store.keys.ready)
    inflight ← look world (λ store. redis.sets.sismember id store.keys.inflight)
    poll_position id inflight position

  -- `BatchDelete` of the keys of a ticket
  delete_keys : String → String → Act (System S Z L) Unit
  delete_keys ticket_id id = write world (λ store. record store {
    tickets = delete ticket_id store.tickets;
    payloads = delete id store.payloads;
    attempts = delete id store.attempts;
  })

  -- `Cancel`
  unfoldable pub cancel : String → Act (System S Z L) Unit
  unfolding get_ticket on_keys delete_keys metrics
  cancel ticket_id = do
    id ← get_ticket ticket_id
    on_keys (ack_operation redis id)
    attempt (delete_keys ticket_id id) (λ ignored. metrics)

  -- `Dequeue` from the reply of `popReady`
  dequeue_popped : Codec → String → Act (System S Z L) QueueItem
  unfolding metrics found_or attempts_or_none
  dequeue_popped codec id s =
      let nothing = (metrics >> fail queue_empty) s in
      let found = (do
        stored ← look world (λ store. lookup id store.payloads)
        payload ← given (found_or redis_nil stored)
        env ← given (codec.unmarshal payload)
        attempts ← look world (λ store. lookup id store.attempts)
        now ← read_clock world
        metrics
        return (record {
          envelope = env;
          attempts = attempts_or_none attempts;
          available_at = now;
        })) in
      if is_empty id then nothing else found s

  -- `releaseDue`
  release_due_items : Act (System S Z L) Unit
  unfolding metrics
  release_due_items = do
    now ← read_clock world
    run_keys world (release_due redis (now / millisecond))
    metrics

  -- `Dequeue`
  unfoldable pub dequeue : Codec → Act (System S Z L) QueueItem
  unfolding release_due_items dequeue_popped popped_id
  dequeue codec = do
    reclaim_stale_inflight redis world settings
    release_due_items
    now ← read_clock world
    popped ← run_keys world (pop_ready redis (now / millisecond))
    dequeue_popped codec (popped_id popped)

  -- `Ack`
  unfoldable pub ack : String → Act (System S Z L) Unit
  unfolding on_keys metrics
  ack id = do
    require (not (is_empty id)) "operation id is required"
    on_keys (ack_operation redis id)
    metrics

  -- The time for which `Requeue` schedules the item.
  target_time : ℕ → ℕ → ℕ → ℕ
  target_time now available_at delay =
      if ltb 0 delay then now + delay else if ltb available_at now then now else available_at

  requeue_at : String → ℕ → ℕ → Act (System S Z L) Unit
  unfolding on_keys metrics
  requeue_at id now target s =
      let later = (on_keys (requeue_scheduled redis id (target / millisecond)) >> metrics) s in
      let at_once = (on_keys (requeue_ready redis id) >> metrics) s in
      if ltb now target then later else at_once

  -- `Requeue`
  unfoldable pub requeue : Codec → QueueItem → ℕ → Act (System S Z L) Unit
  unfolding persist_envelope set_attempts target_time requeue_at
  requeue codec item delay = do
    let id = item.envelope.id
    require (not (is_empty id)) "operation id is required"
    persist_envelope codec item.envelope
    set_attempts id item.attempts
    now ← read_clock world
    requeue_at id now (target_time now item.available_at delay)
