-- ===== src/Operation/RedisQueue/Coordinator/Keeps.antt =====
-- Predicates of the keys that the operations of the Redis queue coordinator keep:
-- cdmp-mini/internal/common/service/operation/queue/redisqueue/coordinator.go.
use cdmp_mini.Base.Signed.{millisecond}
use cdmp_mini.Base.{
  ℕ, ◌/◌, String, Bool, true, false, Option, none, some, ltb, Bool-cases, inl, inr,
}
use cdmp_mini.Base.Text.{is_empty}
use cdmp_mini.Base.GoMap.{lookup}
use cdmp_mini.Operation.Types.{queue_empty, OperationEnvelope, QueueItem}
use cdmp_mini.Operation.RedisQueue.Commands.{Redis}
use cdmp_mini.Operation.RedisQueue.Scripts.{Keys, requeue_ready, requeue_scheduled, ack_operation}
use cdmp_mini.Operation.RedisQueue.Config.{Settings}
use cdmp_mini.Operation.RedisQueue.Calls.{World}
use cdmp_mini.Operation.RedisQueue.Calls.Keeps.{
  Keeps, attempt-Keeps, bind-Keeps, require-Keeps, given-Keeps, return-Keeps, fail-Keeps,
  read_clock-Keeps, new_ticket_id-Keeps, look-Keeps, write-Keeps, run_keys-Keeps,
}
use cdmp_mini.Operation.RedisQueue.Reclaim.Keeps.{
  IsStable, reclaim_stale_inflight-Keeps, record_queue_metrics-Keeps,
}
use cdmp_mini.Operation.RedisQueue.Coordinator.{
  Codec, redis_nil, ticket_missing, found_or, attempts_or_none, popped_id, on_keys, metrics,
  set_attempts, persist_envelope, get_ticket, enqueue, poll_scheduled, poll_position, poll,
  delete_keys, cancel, dequeue_popped, release_due_items, dequeue, ack, requeue_at, requeue,
}

module _ {S Z L : Type 0} (redis : Redis S Z L) (world : World S Z L) (settings : Settings)
    (P : Keys S Z L → Type 0) (stable : IsStable redis world P) where
  metrics-Keeps : Keeps P (metrics redis world settings)
  unfolding metrics
  metrics-Keeps = record_queue_metrics-Keeps redis world settings P stable

  on_keys-Keeps :
      (script : Keys S Z L → Keys S Z L)
      → ((k : Keys S Z L) → P k → P (script k))
      → Keeps P (on_keys redis world settings script)
  unfolding on_keys
  on_keys-Keeps script step = run_keys-Keeps world stable.others (λ k. (script k, tt)) step

  set_attempts-Keeps :
      (id : String) (attempts : ℕ) → Keeps P (set_attempts redis world settings id attempts)
  unfolding set_attempts
  set_attempts-Keeps id attempts = write-Keeps world stable.others _ (λ st h. h)

  persist_envelope-Keeps :
      (codec : Codec) (env : OperationEnvelope)
      → Keeps P (persist_envelope redis world settings codec env)
  unfolding persist_envelope
  persist_envelope-Keeps codec env =
      bind-Keeps (given-Keeps (codec.marshal env))
        (λ payload. write-Keeps world stable.others _ (λ st h. h))

  get_ticket-Keeps : (ticket_id : String) → Keeps P (get_ticket redis world settings ticket_id)
  unfolding get_ticket
  get_ticket-Keeps ticket_id = bind-Keeps (require-Keeps _ _) (λ valid.
      bind-Keeps (look-Keeps world stable.others _)
        (λ found. given-Keeps (found_or (ticket_missing ticket_id) found)))

  pub enqueue-Keeps :
      (codec : Codec) (env : OperationEnvelope) → Keeps P (enqueue redis world settings codec env)
  unfolding enqueue
  enqueue-Keeps codec env = bind-Keeps (require-Keeps _ _) (λ valid.
      bind-Keeps (persist_envelope-Keeps codec env) (λ stored.
        bind-Keeps (set_attempts-Keeps env.id 0) (λ reset.
          bind-Keeps (run_keys-Keeps world stable.others _ (stable.push env.id)) (λ len.
            bind-Keeps (new_ticket_id-Keeps world) (λ ticket_id.
              bind-Keeps (write-Keeps world stable.others _ (λ st h. h)) (λ issued.
                bind-Keeps (read_clock-Keeps world)
                  (λ issued_at. bind-Keeps metrics-Keeps (λ done. return-Keeps _))))))))

  poll_scheduled-Keeps :
      (id : String) (score : Option ℕ) → Keeps P (poll_scheduled redis world settings id score)
  unfolding poll_scheduled
  poll_scheduled-Keeps id none = return-Keeps _
  poll_scheduled-Keeps id (some score) = bind-Keeps (read_clock-Keeps world) (λ now. return-Keeps _)

  poll_position-Keeps :
      (id : String) (inflight : Bool) (position : Option ℕ)
      → Keeps P (poll_position redis world settings id inflight position)
  unfolding poll_position
  poll_position-Keeps id true position = return-Keeps _
  poll_position-Keeps id false (some idx) = return-Keeps _
  poll_position-Keeps id false none =
      bind-Keeps (look-Keeps world stable.others _) (poll_scheduled-Keeps id)

  pub poll-Keeps : (ticket_id : String) → Keeps P (poll redis world settings ticket_id)
  unfolding poll
  poll-Keeps ticket_id = bind-Keeps (get_ticket-Keeps ticket_id) (λ id.
      bind-Keeps (look-Keeps world stable.others _) (λ position.
        bind-Keeps (look-Keeps world stable.others _)
          (λ inflight. poll_position-Keeps id inflight position)))

  delete_keys-Keeps :
      (ticket_id id : String) → Keeps P (delete_keys redis world settings ticket_id id)
  unfolding delete_keys
  delete_keys-Keeps ticket_id id = write-Keeps world stable.others _ (λ st h. h)

  pub cancel-Keeps :
      (ticket_id : String)
      → ((id : String) (k : Keys S Z L) → P k → P (ack_operation redis id k))
      → Keeps P (cancel redis world settings ticket_id)
  unfolding cancel
  cancel-Keeps ticket_id removed = bind-Keeps (get_ticket-Keeps ticket_id) (λ id.
      bind-Keeps (on_keys-Keeps (ack_operation redis id) (removed id))
        (λ cleared. attempt-Keeps (delete_keys-Keeps ticket_id id) (λ ignored. metrics-Keeps)))

  dequeue_popped-Keeps :
      (codec : Codec) (id : String) → Keeps P (dequeue_popped redis world settings codec id)
  unfolding dequeue_popped
  dequeue_popped-Keeps codec id =
      let nothing = bind-Keeps metrics-Keeps (λ done. fail-Keeps {A = QueueItem} queue_empty) in
      let found =
        bind-Keeps (look-Keeps world stable.others (λ store. lookup id store.payloads)) (λ stored.
          bind-Keeps (given-Keeps (found_or redis_nil stored)) (λ payload.
            bind-Keeps (given-Keeps (codec.unmarshal payload)) (λ env.
              bind-Keeps (look-Keeps world stable.others (λ store. lookup id store.attempts))
                (λ attempts. bind-Keeps (read_clock-Keeps world) (λ now.
                  bind-Keeps metrics-Keeps (λ done. return-Keeps {A = QueueItem} (record {
                    envelope = env;
                    attempts = attempts_or_none attempts;
                    available_at = now;
                  }))))))) in
      record {
        kept = λ s h. elim (Bool-cases (is_empty id)) [
          | inl blank ↦ rw blank (nothing.kept s h)
          | inr named ↦ rw named (found.kept s h)
        ];
      }

  release_due_items-Keeps : Keeps P (release_due_items redis world settings)
  unfolding release_due_items
  release_due_items-Keeps = bind-Keeps (read_clock-Keeps world) (λ now.
      bind-Keeps (run_keys-Keeps world stable.others _ (stable.release (now / millisecond)))
        (λ moved. metrics-Keeps))

  pub dequeue-Keeps : (codec : Codec) → Keeps P (dequeue redis world settings codec)
  unfolding dequeue
  dequeue-Keeps codec =
      bind-Keeps (reclaim_stale_inflight-Keeps redis world settings P stable) (λ reclaimed.
        bind-Keeps release_due_items-Keeps (λ released. bind-Keeps (read_clock-Keeps world) (λ now.
          bind-Keeps (run_keys-Keeps world stable.others _ (stable.pop (now / millisecond)))
            (λ popped. dequeue_popped-Keeps codec (popped_id popped)))))

  pub ack-Keeps :
      (id : String)
      → ((k : Keys S Z L) → P k → P (ack_operation redis id k))
      → Keeps P (ack redis world settings id)
  unfolding ack
  ack-Keeps id removed = bind-Keeps (require-Keeps _ _) (λ valid.
      bind-Keeps (on_keys-Keeps (ack_operation redis id) removed) (λ cleared. metrics-Keeps))

  requeue_at-Keeps :
      (id : String) (now target : ℕ) → Keeps P (requeue_at redis world settings id now target)
  unfolding requeue_at
  requeue_at-Keeps id now target =
      let later =
        bind-Keeps
          (on_keys-Keeps (requeue_scheduled redis id (target / millisecond))
            (stable.schedule id (target / millisecond)))
          (λ put. metrics-Keeps) in
      let at_once =
        bind-Keeps (on_keys-Keeps (requeue_ready redis id) (stable.requeue id))
          (λ put. metrics-Keeps) in
      record {
        kept = λ s h. elim (Bool-cases (ltb now target)) [
          | inl wait ↦ rw wait (later.kept s h)
          | inr due ↦ rw due (at_once.kept s h)
        ];
      }

  pub requeue-Keeps :
      (codec : Codec) (item : QueueItem) (delay : ℕ)
      → Keeps P (requeue redis world settings codec item delay)
  unfolding requeue
  requeue-Keeps codec item delay = bind-Keeps (require-Keeps _ _) (λ valid.
      bind-Keeps (persist_envelope-Keeps codec item.envelope) (λ stored.
        bind-Keeps (set_attempts-Keeps item.envelope.id item.attempts) (λ set.
          bind-Keeps (read_clock-Keeps world) (λ now. requeue_at-Keeps item.envelope.id now _))))
