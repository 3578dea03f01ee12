-- ===== src/Operation/RedisQueue/Scripts/Progress.antt =====
-- What the loops of the scripts get done: cdmp-mini/internal/common/service/operation/queue/redisqueue/coordinator.go.
use text.Mathlib.Text.{◌==◌ as str_eq}
use cdmp_mini.Base.{
  ℕ, ◌+◌, ◌-◌, ◌≤◌, ◌<◌, String, ◌≡◌, ap, ◌∙◌, inl, inr, true, false, ◌||◌, some, List, [], ◌∷◌,
  ◌++◌, length, ltb, leb, ◌==◌, arith, Bool-cases, eq_iff, length-append,
}
use cdmp_mini.Operation.RedisQueue.Commands.{alike, is_some, holds, Redis}
use cdmp_mini.Operation.RedisQueue.Scripts.{
  Keys, add_ready, put_back, collect_aged, collect_samples, stale_ids, reclaim_stale,
}
use cdmp_mini.Operation.RedisQueue.Scripts.Consistent.{IsConsistent, holds-append}
use cdmp_mini.Operation.RedisQueue.Scripts.Loops.{reclaim_stale-IsConsistent}

module _ {S Z L : Type 0} (redis : Redis S Z L) where
  -- The identifier is a member of the ready set and is in flight no more.
  record IsWaiting (id : String) (k : Keys S Z L) : Type 0 where
    pub ready : redis.sets.sismember id k.ready_members ≡ true
    pub landed : redis.sets.sismember id k.inflight ≡ false

  add_ready-IsWaiting :
      (id other : String) (k : Keys S Z L)
      → IsWaiting id k
      → IsWaiting id (add_ready redis other k).0
  unfolding add_ready
  add_ready-IsWaiting id other k h =
      let reply = redis.sets.sadd_reply other k.ready_members in
      let added = redis.sets.sismember-sadd other id k.ready_members in
      let ready = h.ready in
      let landed = h.landed in
      record { ready = ground (arith, reply, added, ready); landed = ground (arith, reply, landed) }

  add_ready-inflight :
      (other : String) (k : Keys S Z L) → (add_ready redis other k).0.inflight ≡ k.inflight
  unfolding add_ready
  add_ready-inflight other k = ground arith

  add_ready-new :
      (id other : String) (k : Keys S Z L)
      → str_eq other id ≡ true
      → redis.sets.sismember id k.inflight ≡ false
      → IsWaiting id (add_ready redis other k).0
  unfolding add_ready
  add_ready-new id other k same landed =
      let added = redis.sets.sismember-sadd other id k.ready_members in
      record { ready = ground (arith, added, same); landed = ground (arith, landed) }

  put_back_stays :
      (id : String) (ids : List String) (k : Keys S Z L)
      → IsWaiting id k
      → IsWaiting id (put_back redis ids k).0
  unfolding put_back
  put_back_stays id [] k h = h
  put_back_stays id (other ∷ ids) k h =
      let removed = redis.sets.sismember-srem other id k.inflight in
      let landed = h.landed in
      let taken : Keys S Z L = record k {
        inflight = (redis.sets.srem other k.inflight).0;
        inflight_lease = redis.sorted.zrem other k.inflight_lease;
      } in
      let stays : IsWaiting id taken = record {
        ready = h.ready;
        landed = ground (arith, removed, landed);
      } in
      elim (Bool-cases (ltb 0 (redis.sets.srem other k.inflight).1)) [
        | inl found ↦ rw found (
            put_back_stays id ids (add_ready redis other taken).0
              (add_ready-IsWaiting id other taken stays))
        | inr missing ↦ rw missing (put_back_stays id ids taken stays)
      ]

  -- An identifier in flight that the loop meets is put back.
  put_back-IsWaiting :
      (id : String) (ids : List String) (k : Keys S Z L)
      → holds id ids ≡ true
      → redis.sets.sismember id k.inflight ≡ true
      → IsWaiting id (put_back redis ids k).0
  unfolding put_back holds
  put_back-IsWaiting id [] k met flying = ground (arith, met)
  put_back-IsWaiting id (other ∷ ids) k met flying =
      let reply = redis.sets.srem_reply other k.inflight in
      let removed = redis.sets.sismember-srem other id k.inflight in
      let taken : Keys S Z L = record k {
        inflight = (redis.sets.srem other k.inflight).0;
        inflight_lease = redis.sorted.zrem other k.inflight_lease;
      } in
      let added = redis.sets.sismember-sadd other id k.ready_members in
      let kept = add_ready-inflight other taken in
      elim (Bool-cases (str_eq other id)) [
        | inl same ↦
            let there =
              ap (λ name. redis.sets.sismember name k.inflight) ((eq_iff other id).0 same)
              ∙ flying in
            rw (reply, there)
              (put_back_stays id ids (add_ready redis other taken).0
                (add_ready-new id other taken same (ground (arith, removed, same))))
        | inr apart ↦
            let still : redis.sets.sismember id taken.inflight ≡ true =
              ground (arith, removed, flying, apart) in
            let later : holds id ids ≡ true = ground (arith, met, apart) in
            elim (Bool-cases (ltb 0 (redis.sets.srem other k.inflight).1)) [
              | inl found ↦ rw found (
                  put_back-IsWaiting id ids (add_ready redis other taken).0 later
                    (ap (redis.sets.sismember id) kept ∙ still))
              | inr missing ↦ rw missing (put_back-IsWaiting id ids taken later still)
            ]
      ]

  -- The first loop of the reclaim keeps what it has, and misses nothing below its limit.
  collect_aged-holds :
      (limit : ℕ) (id : String) (ids aged : List String)
      → length ids + length aged < limit
      → (holds id ids || holds id aged) ≡ true
      → holds id (collect_aged redis limit ids aged) ≡ true
  unfolding collect_aged holds
  collect_aged-holds limit id ids [] few met = ground (arith, met)
  collect_aged-holds limit id ids (other ∷ aged) few met =
      let more = ids ++ other ∷ [] in
      let longer = length-append ids (other ∷ []) in
      let both = holds-append id other ids in
      let same_held = alike (λ name. holds name ids) id other in
      let skipped = collect_aged-holds limit id ids aged in
      let taken = collect_aged-holds limit id more aged in
      elim (Bool-cases (holds other ids)) [
        | inl known ↦
            rw known (skipped (omega (arith, few)) (ground (arith, met, known, same_held)))
        | inr fresh ↦
            let open_still : leb limit (length more) ≡ false = ground (arith, few, longer) in
            rw (fresh, open_still) (taken (omega (arith, few, longer)) (ground (arith, met, both)))
      ]

  collect_samples-holds :
      (limit : ℕ) (leases : Z) (id : String) (ids samples : List String)
      → holds id ids ≡ true
      → holds id (collect_samples redis limit leases ids samples) ≡ true
  unfolding collect_samples
  collect_samples-holds limit leases id ids [] met = met
  collect_samples-holds limit leases id ids (other ∷ samples) met =
      let more = ids ++ other ∷ [] in
      let both = holds-append id other ids in
      let kept : holds id more ≡ true = ground (arith, both, met) in
      let skipped = collect_samples-holds limit leases id ids samples met in
      let taken = collect_samples-holds limit leases id more samples kept in
      ground (arith, kept, skipped, taken)

  stale_ids-holds :
      (now max_age limit score : ℕ) (samples : ℕ → List String) (k : Keys S Z L) (id : String)
      → redis.sorted.zscore id k.inflight_lease ≡ some score
      → score + max_age ≤ now
      → length (redis.sorted.zup_to (now - max_age) limit k.inflight_lease) < limit
      → holds id (stale_ids redis now max_age limit samples k) ≡ true
  unfolding stale_ids holds
  stale_ids-holds now max_age limit score samples k id leased old few =
      let started : ltb now max_age ≡ false = ground (arith, old) in
      let up_to = redis.sorted.zup_to (now - max_age) limit k.inflight_lease in
      let met =
        redis.sorted.zup_to_all id score (now - max_age) limit k.inflight_lease leased
          (omega (arith, old)) few in
      let aged = collect_aged-holds limit id [] up_to (omega (arith, few)) met in
      rw started (elim (Bool-cases (ltb (length (collect_aged redis limit [] up_to)) limit)) [
        | inl room ↦ rw room (
            collect_samples-holds limit k.inflight_lease id (collect_aged redis limit [] up_to)
              (samples (limit - length (collect_aged redis limit [] up_to))) aged)
        | inr full ↦ rw full aged
      ])

  -- The identifier waits in the list, is a member of the ready set, and is in flight no more.
  pub record IsBack (id : String) (k : Keys S Z L) : Type 0 where
    pub waiting : holds id (redis.lists.lrange k.ready) ≡ true
    pub member : redis.sets.sismember id k.ready_members ≡ true
    pub landed : redis.sets.sismember id k.inflight ≡ false

  reclaim_stale-IsWaiting :
      (now max_age limit score : ℕ) (samples : ℕ → List String) (k : Keys S Z L) (id : String)
      → IsConsistent redis k
      → redis.sorted.zscore id k.inflight_lease ≡ some score
      → 0 < max_age
      → score + max_age ≤ now
      → length (redis.sorted.zup_to (now - max_age) limit k.inflight_lease) < limit
      → IsWaiting id (reclaim_stale redis now max_age limit samples k).0
  unfolding reclaim_stale is_some
  reclaim_stale-IsWaiting now max_age limit score samples k id h leased positive old few =
      let flying = h.leased id ∙ ap is_some leased in
      let on : (max_age == 0 || limit == 0) ≡ false = ground (arith, positive, few) in
      rw on (
        put_back-IsWaiting id (stale_ids redis now max_age limit samples k) k
          (stale_ids-holds now max_age limit score samples k id leased old few) flying)

  -- In consistent keys, `luaReclaimStaleInflight` puts every operation back whose lease is as old as
  -- the largest age, which is positive, where there are fewer such leases than its limit: the
  -- identifier is in the ready list and in the ready set, and is in flight no more.
  pub reclaim_stale-IsBack :
      (now max_age limit score : ℕ) (samples : ℕ → List String) (k : Keys S Z L) (id : String)
      → IsConsistent redis k
      → redis.sorted.zscore id k.inflight_lease ≡ some score
      → 0 < max_age
      → score + max_age ≤ now
      → length (redis.sorted.zup_to (now - max_age) limit k.inflight_lease) < limit
      → IsBack id (reclaim_stale redis now max_age limit samples k).0
  reclaim_stale-IsBack now max_age limit score samples k id h leased positive old few =
      let back =
        reclaim_stale-IsWaiting now max_age limit score samples k id h leased positive old few in
      record {
        waiting =
            (reclaim_stale-IsConsistent redis now max_age limit samples k h).listed id back.ready;
        member = back.ready;
        landed = back.landed;
      }
