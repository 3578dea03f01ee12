-- ===== src/Operation/RedisQueue/Reclaim/Keeps.antt =====
-- Predicates of the keys that the reclaim and the metrics of the Redis queue keep:
-- cdmp-mini/internal/common/service/operation/queue/redisqueue/coordinator.go.
use cdmp_mini.Base.{
  ℕ, String, Bool, true, false, not, ◌&&◌, ◌||◌, some, List, ◌==◌, Bool-cases, inl, inr,
}
use cdmp_mini.Operation.Types.{Result, ok, err}
use cdmp_mini.Operation.RedisQueue.Commands.{Redis}
use cdmp_mini.Operation.RedisQueue.Scripts.{
  Keys, release_due, pop_ready, push_ready, requeue_ready, requeue_scheduled, reclaim_stale,
}
use cdmp_mini.Operation.RedisQueue.Config.{Settings}
use cdmp_mini.Operation.Acts.{◌>>=◌}
use cdmp_mini.Operation.RedisQueue.Calls.{Store, World, System, read_clock}
use cdmp_mini.Operation.RedisQueue.Calls.Keeps.{
  Keeps, attempt-Keeps, bind-Keeps, look-Keeps, run_keys-Keeps,
}
use cdmp_mini.Operation.RedisQueue.Reclaim.{
  too_soon, is_held, eval_reclaim, settle_reclaim, reclaim_reserved, reclaim_stale_inflight,
  note_failure, settle_counts, snapshot_counts, settle_attempt, should_attempt_reclaim,
  record_counts, record_at, record_queue_metrics, reserve_reclaim_slot, queue_metrics_min_interval,
  note_metrics_failure, release_reclaim_slot,
}

-- What a predicate of the keys must stand: the scripts that take no operation from the queue, and what
-- other processes do.
pub record IsStable {S Z L : Type 0} (redis : Redis S Z L) (world : World S Z L)
    (P : Keys S Z L → Type 0) : Type 0 where
  pub push : (id : String) (k : Keys S Z L) → P k → P (push_ready redis id k).0
  pub release : (now : ℕ) (k : Keys S Z L) → P k → P (release_due redis now k).0
  pub pop : (now : ℕ) (k : Keys S Z L) → P k → P (pop_ready redis now k).0
  pub requeue : (id : String) (k : Keys S Z L) → P k → P (requeue_ready redis id k)
  pub schedule :
      (id : String) (score : ℕ) (k : Keys S Z L) → P k → P (requeue_scheduled redis id score k)
  pub reclaim :
      (now max_age limit : ℕ) (samples : ℕ → List String) (k : Keys S Z L)
      → P k
      → P (reclaim_stale redis now max_age limit samples k).0
  pub others : (n : ℕ) (st : Store S Z L) → P st.keys → P (world.others n st).keys

module _ {S Z L : Type 0} (redis : Redis S Z L) (world : World S Z L) (settings : Settings)
    (P : Keys S Z L → Type 0) (stable : IsStable redis world P) where
  eval_reclaim-Keeps : (now : ℕ) → Keeps P (eval_reclaim redis world settings now)
  unfolding eval_reclaim
  eval_reclaim-Keeps now = record {
    kept = λ s h.
        (run_keys-Keeps world stable.others _ (stable.reclaim _ _ _ (world.samples s.looks))).kept s
          h;
  }

  settle_reclaim-Keeps :
      (now : ℕ) (r : Result ℕ) → Keeps P (settle_reclaim redis world settings now r)
  unfolding settle_reclaim release_reclaim_slot
  settle_reclaim-Keeps now (ok reclaimed) = record { kept = λ s h. h }
  settle_reclaim-Keeps now (err e) =
      bind-Keeps (record { kept = λ s h. h }) (λ done. record { kept = λ s h. h })

  reclaim_reserved-Keeps :
      (now : ℕ) (r : System S Z L × Bool)
      → P r.0.store.keys
      → P (reclaim_reserved redis world settings now r).0.store.keys
  unfolding reclaim_reserved
  reclaim_reserved-Keeps now (s, true) h =
      (attempt-Keeps (eval_reclaim-Keeps now) (settle_reclaim-Keeps now)).kept s h
  reclaim_reserved-Keeps now (s, false) h = h

  reserve_reclaim_slot-Keeps :
      (now : ℕ) (s : System S Z L)
      → P s.store.keys
      → P (reserve_reclaim_slot settings now s).0.store.keys
  unfolding reserve_reclaim_slot
  reserve_reclaim_slot-Keeps now s h =
      elim (Bool-cases (
        not (settings.reclaim_min_gap == 0)
        && too_soon settings.reclaim_min_gap now s.reclaim_last)) [
          | inl soon ↦ rw soon h
          | inr free ↦ rw free h
        ]

  pub reclaim_stale_inflight-Keeps : Keeps P (reclaim_stale_inflight redis world settings)
  unfolding reclaim_stale_inflight
  reclaim_stale_inflight-Keeps =
      let run : Keeps P (
          read_clock world >>= λ now s.
          reclaim_reserved redis world settings now (reserve_reclaim_slot settings now s)) =
        bind-Keeps (record { kept = λ s h. h })
          (λ now. record {
            kept = λ s h.
                reclaim_reserved-Keeps now (reserve_reclaim_slot settings now s)
                  (reserve_reclaim_slot-Keeps now s h);
          }) in
      record {
        kept = λ s h.
            elim (Bool-cases (settings.max_inflight_age == 0 || settings.reclaim_batch == 0)) [
              | inl off ↦ rw off h
              | inr on ↦ rw on (run.kept s h)
            ];
      }

  note_failure-Keeps : Keeps P (note_failure redis world settings)
  unfolding note_failure note_metrics_failure
  note_failure-Keeps = bind-Keeps (record { kept = λ s h. h }) (λ now. record { kept = λ s h. h })

  settle_counts-Keeps : (r : Result (Unit {0})) → Keeps P (settle_counts redis world settings r)
  unfolding settle_counts
  settle_counts-Keeps (ok done) = record { kept = λ s h. h }
  settle_counts-Keeps (err e) = note_failure-Keeps

  snapshot_counts-Keeps : Keeps P (snapshot_counts redis world settings)
  unfolding snapshot_counts
  snapshot_counts-Keeps = attempt-Keeps (look-Keeps world stable.others _) settle_counts-Keeps

  settle_attempt-Keeps : (r : Result ℕ) → Keeps P (settle_attempt redis world settings r)
  unfolding settle_attempt
  settle_attempt-Keeps (ok reclaimed) = snapshot_counts-Keeps
  settle_attempt-Keeps (err e) = note_failure-Keeps

  record_counts-Keeps : (now : ℕ) → Keeps P (record_counts redis world settings now)
  unfolding record_counts
  record_counts-Keeps now =
      let reclaimed = attempt-Keeps reclaim_stale_inflight-Keeps settle_attempt-Keeps in
      record {
        kept = λ s h. elim (Bool-cases (should_attempt_reclaim settings now s)) [
          | inl due ↦ rw due (reclaimed.kept s h)
          | inr early ↦ rw early (snapshot_counts-Keeps.kept s h)
        ];
      }

  record_at-Keeps : (now : ℕ) → Keeps P (record_at redis world settings now)
  unfolding record_at
  record_at-Keeps now = record {
    kept = λ s h.
        elim (Bool-cases
          (is_held now s.metrics_hold || too_soon queue_metrics_min_interval now s.metrics_last)) [
            | inl held ↦ rw held h
            | inr free ↦
                rw free ((record_counts-Keeps now).kept (record s { metrics_last = some now }) h)
          ];
  }

  pub record_queue_metrics-Keeps : Keeps P (record_queue_metrics redis world settings)
  unfolding record_queue_metrics
  record_queue_metrics-Keeps =
      let recorded : Keeps P (read_clock world >>= record_at redis world settings) =
        bind-Keeps (record { kept = λ s h. h }) record_at-Keeps in
      record {
        kept = λ s h. elim (Bool-cases settings.gauges) [
          | inl there ↦ rw there (recorded.kept s h)
          | inr missing ↦ rw missing h
        ];
      }
