-- ===== src/Operation/RedisQueue/Reclaim.antt =====
-- The slot for the next reclaim, the reclaim of identifiers that are in flight for too long, and the
-- metrics of the queue, which reclaim too:
-- cdmp-mini/internal/common/service/operation/queue/redisqueue/coordinator.go.
use cdmp_mini.Base.Signed.{millisecond, second}
pub mod Keeps
use cdmp_mini.Base.{
  ℕ, zero, suc, ◌+◌, ◌-◌, ◌*◌, ◌/◌, String, Bool, true, false, not, ◌&&◌, ◌||◌, Option, none, some,
  ltb, leb, ◌==◌, if◌then◌else◌,
}
use cdmp_mini.Operation.Types.{Result, ok, err}
use cdmp_mini.Operation.RedisQueue.Commands.{Redis}
use cdmp_mini.Operation.RedisQueue.Scripts.{Keys, reclaim_stale}
use cdmp_mini.Operation.RedisQueue.Config.{Settings}
use cdmp_mini.Operation.Acts.{Act, return, fail, attempt, ◌>>=◌, ◌>>◌, change}
use cdmp_mini.Operation.RedisQueue.Calls.{Store, World, System, read_clock, look, run_keys}

abbrev pub queue_metrics_min_interval : ℕ
queue_metrics_min_interval = 250 * millisecond

abbrev pub queue_metrics_backoff_base : ℕ
queue_metrics_backoff_base = 2 * second

abbrev pub queue_metrics_backoff_max : ℕ
queue_metrics_backoff_max = 30 * second

-- `now.Sub(last) < interval` for a time that is not zero
too_soon : ℕ → ℕ → Option ℕ → Bool
too_soon interval now none = false
too_soon interval now (some last) = ltb now (last + interval)

-- `now.Before(hold)` for a time that is not zero
is_held : ℕ → Option ℕ → Bool
is_held now none = false
is_held now (some hold) = ltb now hold

-- `reclaimLast.Equal(start)`
same_time : ℕ → Option ℕ → Bool
same_time start none = false
same_time start (some last) = last == start

-- The loop of `noteMetricsFailure`, for the turns that are left.
backoff_from : ℕ → ℕ → ℕ
backoff_from zero backoff = backoff
backoff_from (suc turns) backoff =
    let doubled = backoff * 2 in
    let later = backoff_from turns doubled in
    if leb queue_metrics_backoff_max doubled then queue_metrics_backoff_max else later

unfoldable pub metrics_backoff : ℕ → ℕ
unfolding backoff_from
metrics_backoff failures =
    let backoff = backoff_from (failures - 1) queue_metrics_backoff_base in
    if ltb queue_metrics_backoff_max backoff then queue_metrics_backoff_max else backoff

module _ {S Z L : Type 0} where
  -- `noteMetricsFailure`
  unfoldable pub note_metrics_failure : ℕ → System S Z L → System S Z L
  unfolding metrics_backoff
  note_metrics_failure now s =
      let failures = if ltb s.metrics_fail 16 then s.metrics_fail + 1 else s.metrics_fail in
      record s { metrics_fail = failures; metrics_hold = some (now + metrics_backoff failures) }

  -- `reserveReclaimSlot`
  unfoldable pub reserve_reclaim_slot : Settings → ℕ → System S Z L → System S Z L × Bool
  unfolding too_soon
  reserve_reclaim_slot settings now s =
      if not (settings.reclaim_min_gap == 0) && too_soon settings.reclaim_min_gap now s.reclaim_last
      then (s, false)
      else (record s { reclaim_last = some now }, true)

  -- `releaseReclaimSlot`
  unfoldable pub release_reclaim_slot : ℕ → System S Z L → System S Z L
  unfolding same_time
  release_reclaim_slot start s = record s {
    reclaim_last = if same_time start s.reclaim_last then none else s.reclaim_last;
  }

  -- `shouldAttemptReclaim`
  should_attempt_reclaim : Settings → ℕ → System S Z L → Bool
  unfolding too_soon
  should_attempt_reclaim settings now s =
      settings.reclaim_min_gap == 0 || not (too_soon settings.reclaim_min_gap now s.reclaim_last)

module _ {S Z L : Type 0} (redis : Redis S Z L) (world : World S Z L) (settings : Settings) where
  -- `reclaimed, err := c.redis.Eval(ctx, luaReclaimStaleInflight, ...)`, with an age of a millisecond
  -- at least
  eval_reclaim : ℕ → Act (System S Z L) ℕ
  eval_reclaim now s =
      let age = settings.max_inflight_age / millisecond in
      run_keys world
        (reclaim_stale redis (now / millisecond) (if age == 0 then 1 else age)
          settings.reclaim_batch (world.samples s.looks))
        s

  -- The deferred call, and the results.
  settle_reclaim : ℕ → Result ℕ → Act (System S Z L) ℕ
  unfolding release_reclaim_slot
  settle_reclaim now (ok reclaimed) = return reclaimed
  settle_reclaim now (err e) = change (release_reclaim_slot now) >> fail e

  reclaim_reserved : ℕ → System S Z L × Bool → System S Z L × Result ℕ
  unfolding eval_reclaim settle_reclaim
  reclaim_reserved now (s, true) = attempt (eval_reclaim now) (settle_reclaim now) s
  reclaim_reserved now (s, false) = (s, ok 0)

  -- `reclaimStaleInflight`
  unfoldable pub reclaim_stale_inflight : Act (System S Z L) ℕ
  unfolding reclaim_reserved reserve_reclaim_slot
  reclaim_stale_inflight s =
      let run = (do
        now ← read_clock world
        λ s'. reclaim_reserved now (reserve_reclaim_slot settings now s')) in
      if settings.max_inflight_age == 0 || settings.reclaim_batch == 0 then (s, ok 0) else run s

  -- A failure that the metrics take, at the time that the clock shows then.
  note_failure : Act (System S Z L) Unit
  unfolding note_metrics_failure
  note_failure = do now ← read_clock world; change (note_metrics_failure now)

  -- `QueueSnapshotCounts`, which reads only, and what follows it.
  settle_counts : Result (Unit {0}) → Act (System S Z L) Unit
  unfolding note_failure
  settle_counts (ok done) = change (λ s. record s { metrics_fail = 0; metrics_hold = none })
  settle_counts (err e) = note_failure

  snapshot_counts : Act (System S Z L) Unit
  unfolding settle_counts
  snapshot_counts = attempt (look world (λ store. tt)) settle_counts

  settle_attempt : Result ℕ → Act (System S Z L) Unit
  unfolding note_failure snapshot_counts
  settle_attempt (ok reclaimed) = snapshot_counts
  settle_attempt (err e) = note_failure

  -- `recordQueueMetrics` from where it has set `metricsLast`
  record_counts : ℕ → Act (System S Z L) Unit
  unfolding reclaim_stale_inflight settle_attempt snapshot_counts should_attempt_reclaim
  record_counts now s =
      let reclaimed = attempt reclaim_stale_inflight settle_attempt s in
      let counted = snapshot_counts s in
      if should_attempt_reclaim settings now s then reclaimed else counted

  record_at : ℕ → Act (System S Z L) Unit
  unfolding record_counts too_soon is_held
  record_at now s =
      let recorded = record_counts now (record s { metrics_last = some now }) in
      if is_held now s.metrics_hold || too_soon queue_metrics_min_interval now s.metrics_last
      then (s, ok tt)
      else recorded

  -- `recordQueueMetrics`
  unfoldable pub record_queue_metrics : Act (System S Z L) Unit
  unfolding record_at
  record_queue_metrics s =
      let recorded = (do now ← read_clock world; record_at now) in
      if settings.gauges then recorded s else (s, ok tt)
