-- ===== src/Operation/RedisQueue/Examples.antt =====
-- Runs of the Redis queue coordinator over a small Redis:
-- cdmp-mini/internal/common/service/operation/queue/redisqueue/coordinator.go.
use cdmp_mini.Operation.RedisQueue.Reclaim.{
  metrics_backoff, record_queue_metrics, reclaim_stale_inflight,
}
use cdmp_mini.Base.{
  ℕ, ◌*◌, ◌==◌, ◌≡◌, refl, String, true, none, List, [], ◌∷◌, arith, if◌then◌else◌,
}
use cdmp_mini.Base.Signed.{second}
use cdmp_mini.Base.GoMap.{GoMap, delete, insert, lookup, insert}
use cdmp_mini.Operation.Types.{
  OperationKind, OperationEnvelope, new_error, Result, ok, err, QueueTicket,
}
use cdmp_mini.Operation.RedisQueue.Commands.{is_some, holds}
use cdmp_mini.Operation.RedisQueue.Local.{local_redis, map_sets, map_sorted, memory_lists}
use cdmp_mini.Operation.RedisQueue.Scripts.{
  push_ready, add_ready, release_due, put_back, Keys, pop_ready, reclaim_stale,
}
use cdmp_mini.Operation.RedisQueue.Scripts.Consistent.{IsConsistent}
use cdmp_mini.Operation.RedisQueue.Scripts.Held.{held}
use cdmp_mini.Operation.RedisQueue.Scripts.Steps.{
  lua_push_ready, lua_pop_ready, lua_ack_operation, held_after_all, run_scripts, held-run_scripts,
}
use cdmp_mini.Operation.RedisQueue.Scripts.Progress.{IsBack, reclaim_stale-IsBack}
use cdmp_mini.Operation.RedisQueue.Scripts.Pop.{IsPopped, pop_ready-IsPopped}
use cdmp_mini.Operation.RedisQueue.Config.{queue_key, compose, Settings, new_settings}
use cdmp_mini.Operation.Acts.{attempt, or_fail, answered, unanswered}
use cdmp_mini.Operation.RedisQueue.Calls.{call, look, write, run_keys, World, System}
use cdmp_mini.Operation.RedisQueue.Coordinator.{enqueue, dequeue, Codec}
use cdmp_mini.Operation.RedisQueue.Coordinator.Requests.{
  enqueue_of, ack_of, dequeue_one, serve_all, serve_all-IsConsistent, serve_all-IsHeld, IsHeld,
}

abbrev LocalKeys : Type 0
LocalKeys = Keys (GoMap (Unit {0})) (GoMap ℕ) (List String)

abbrev LocalSystem : Type 0
LocalSystem = System (GoMap (Unit {0})) (GoMap ℕ) (List String)

abbrev no_keys : LocalKeys
no_keys = record {
  ready = [];
  ready_members = [];
  inflight = [];
  inflight_lease = [];
  scheduled = [];
}

-- One operation in flight since 10, and one ready behind an entry that is ready no more.
abbrev some_keys : LocalKeys
some_keys = record {
  ready = "op-0" ∷ "op-2" ∷ [];
  ready_members = ("op-2", tt) ∷ [];
  inflight = ("op-1", tt) ∷ [];
  inflight_lease = ("op-1", 10) ∷ [];
  scheduled = ("op-3", 70) ∷ [];
}

no_keys-IsConsistent : IsConsistent local_redis no_keys
unfolding map_sets map_sorted memory_lists is_some lookup holds
no_keys-IsConsistent = record { listed = λ key h. ground (arith, h); leased = λ key. refl }

some_keys-IsConsistent : IsConsistent local_redis some_keys
unfolding map_sets map_sorted memory_lists is_some lookup holds
some_keys-IsConsistent = record {
  listed = λ key h. ground (arith, h);
  leased = λ key. ground arith;
}

-- The third answer of Redis gets lost; a second passes from one look at the clock to the next.
abbrev world : World (GoMap (Unit {0})) (GoMap ℕ) (List String)
world = record {
  net = λ n. if n == 2 then unanswered (new_error "i/o timeout") else answered;
  clock = λ n. n * second;
  samples = λ n needed. [];
  others = λ n st. st;
  uuid = λ n. "ticket-1";
}

abbrev settings : Settings
settings = new_settings true (record {
  key_prefix = ":users:";
  ticket_ttl = 0;
  payload_ttl = 0;
  resource = "";
  max_inflight_duration = 0;
  reclaim_batch_size = 0;
})

abbrev envelope : OperationEnvelope
envelope = record {
  id = "op-4";
  kind = OperationKind.create;
  resource = "users";
  tenant = "";
  trace_id = "";
  idempotency_key = "";
  headers = [];
  submitted_at = 0;
  deadline = 0;
  payload = [];
  compensate_hint = [];
}

abbrev codec : Codec
codec = record {
  marshal = λ env. ok env.id;
  unmarshal = λ text. ok (record envelope { id = text });
}

abbrev with_keys : LocalKeys → LocalSystem
with_keys k = record {
  store = record { keys = k; tickets = []; payloads = []; attempts = [] };
  metrics_last = none;
  metrics_fail = 0;
  metrics_hold = none;
  reclaim_last = none;
  looks = 0;
}

serve_all-IsConsistent_example :
    IsConsistent local_redis
      (serve_all local_redis world settings codec
        (enqueue_of envelope ∷ dequeue_one ∷ ack_of "op-4" ∷ [])
        (with_keys some_keys)).store.keys
serve_all-IsConsistent_example =
    serve_all-IsConsistent local_redis world settings codec (λ n st h. h)
      (enqueue_of envelope ∷ dequeue_one ∷ ack_of "op-4" ∷ []) (with_keys some_keys)
      some_keys-IsConsistent

serve_all-IsHeld_example :
    IsHeld local_redis "op-1"
      (serve_all local_redis world settings codec
        (enqueue_of envelope ∷ dequeue_one ∷ ack_of "op-4" ∷ [])
        (with_keys some_keys)).store.keys
unfolding map_sets map_sorted is_some lookup
serve_all-IsHeld_example =
    serve_all-IsHeld local_redis world settings codec "op-1" (λ n st h. h)
      (enqueue_of envelope ∷ dequeue_one ∷ ack_of "op-4" ∷ []) (with_keys some_keys)
      (refl, (refl, (refl, tt))) refl

held-run_scripts_example :
    held local_redis "op-1" (
      run_scripts local_redis
        (lua_push_ready "op-4" ∷ lua_pop_ready 20 ∷ lua_ack_operation "op-1" ∷ [])
        some_keys)
    ≡ held_after_all
        (lua_push_ready "op-4" ∷ lua_pop_ready 20 ∷ lua_ack_operation "op-1" ∷ [])
        (λ name. held local_redis name some_keys)
        "op-1"
held-run_scripts_example =
    held-run_scripts local_redis
      (lua_push_ready "op-4" ∷ lua_pop_ready 20 ∷ lua_ack_operation "op-1" ∷ []) some_keys "op-1"

reclaim_stale-IsBack_example :
    IsBack local_redis "op-1" (reclaim_stale local_redis 100 50 32 (λ needed. []) some_keys).0
unfolding map_sorted lookup
reclaim_stale-IsBack_example =
    reclaim_stale-IsBack local_redis 100 50 32 10 (λ needed. []) some_keys "op-1"
      some_keys-IsConsistent refl (omega arith) (omega arith) (omega arith)

pop_ready-IsPopped_example : IsPopped local_redis 20 some_keys (pop_ready local_redis 20 some_keys)
unfolding map_sets is_some lookup
pop_ready-IsPopped_example =
    pop_ready-IsPopped local_redis 20 some_keys "op-2" some_keys-IsConsistent refl

key_names :
    (queue_key "users" "ready" ≡ "users:{users:queue}:ready")
    × (compose "users" "ticket" "t" ≡ "users:ticket:t")
    × (settings.key_prefix ≡ "users")
unfolding queue_key compose new_settings
key_names = (refl, refl, refl)

backoffs :
    (metrics_backoff 1 ≡ 2 * second)
    × (metrics_backoff 4 ≡ 16 * second)
    × (metrics_backoff 16 ≡ 30 * second)
unfolding metrics_backoff
backoffs = (refl, refl, refl)

-- The answer of the third call of Redis, the push, gets lost, so that Enqueue fails; the operation is
-- ready all the same.
lost_answer :
    ((enqueue local_redis world settings codec envelope (with_keys no_keys)).1
      ≡ err (new_error "i/o timeout"))
    × (held local_redis "op-4"
          (enqueue local_redis world settings codec envelope (with_keys no_keys)).0.store.keys
        ≡ true)
unfolding enqueue attempt or_fail call write run_keys push_ready map_sets map_sorted memory_lists
    insert lookup is_some
lost_answer = (refl, refl)

abbrev calm : World (GoMap (Unit {0})) (GoMap ℕ) (List String)
calm = record world { net = λ n. answered }

abbrev enqueued : LocalSystem × Result QueueTicket
enqueued = enqueue local_redis calm settings codec envelope (with_keys no_keys)

-- With all answers the operation comes back from Dequeue.
enqueue_then_dequeue :
    (dequeue local_redis calm settings codec (enqueued.0)).1
    ≡ ok (record { envelope = envelope; attempts = 0; available_at = 22 * second })
unfolding enqueue dequeue attempt or_fail call look write run_keys push_ready pop_ready release_due
    add_ready put_back map_sets map_sorted memory_lists insert lookup delete is_some new_settings
    record_queue_metrics reclaim_stale_inflight reclaim_stale
enqueue_then_dequeue = refl
