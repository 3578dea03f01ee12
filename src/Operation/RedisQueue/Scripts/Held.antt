-- ===== src/Operation/RedisQueue/Scripts/Held.antt =====
-- The operations that the Redis queue holds, ready, scheduled or in flight, and what each script makes
-- of them: cdmp-mini/internal/common/service/operation/queue/redisqueue/coordinator.go.
use text.Mathlib.Text.{◌==◌ as str_eq}
use cdmp_mini.Base.{
  ℕ, zero, suc, String, ◌≡◌, refl, sym, ap, ◌∙◌, inl, inr, Bool, not, ◌&&◌, ◌||◌, Option, none,
  some, List, [], ◌∷◌, ltb, ◌==◌, arith, Bool-cases, eq_iff,
}
use cdmp_mini.Operation.RedisQueue.Commands.{alike, is_some, Redis}
use cdmp_mini.Operation.RedisQueue.Scripts.{
  Keys, add_ready, release_entry, release_due_from, release_due, pop_entry, pop_ready_from,
  pop_ready, push_ready, clear, requeue_ready, requeue_scheduled, ack_operation, put_back,
  stale_ids, reclaim_stale,
}

module _ {S Z L : Type 0} (redis : Redis S Z L) where
  abbrev pub held : String → Keys S Z L → Bool
  held id k =
      redis.sets.sismember id k.ready_members
      || redis.sets.sismember id k.inflight
      || is_some (redis.sorted.zscore id k.scheduled)

  held-add_ready :
      (id other : String) (k : Keys S Z L)
      → held id (add_ready redis other k).0 ≡ (str_eq other id || held id k)
  unfolding add_ready
  held-add_ready id other k =
      let reply = redis.sets.sadd_reply other k.ready_members in
      let added = redis.sets.sismember-sadd other id k.ready_members in ground (arith, reply, added)

  pub held-push_ready :
      (id other : String) (k : Keys S Z L)
      → held id (push_ready redis other k).0 ≡ (str_eq other id || held id k)
  unfolding push_ready
  held-push_ready id other k =
      let reply = redis.sets.sadd_reply other k.ready_members in
      let added = redis.sets.sismember-sadd other id k.ready_members in ground (arith, reply, added)

  -- After `clear` only a place in the schedule holds the identifier.
  held-clear :
      (id other : String) (k : Keys S Z L)
      → held id (clear redis other k)
        ≡ (not (str_eq other id) && held id k || is_some (redis.sorted.zscore id k.scheduled))
  unfolding clear
  held-clear id other k =
      let unlisted = redis.sets.sismember-srem other id k.ready_members in
      let landed = redis.sets.sismember-srem other id k.inflight in ground (arith, unlisted, landed)

  pub held-ack_operation :
      (id other : String) (k : Keys S Z L)
      → held id (ack_operation redis other k) ≡ (not (str_eq other id) && held id k)
  unfolding ack_operation is_some
  held-ack_operation id other k =
      let cut = record k { scheduled = redis.sorted.zrem other k.scheduled } in
      let cleared = held-clear id other cut in
      let unscored = redis.sorted.zscore-zrem other id k.scheduled in
      ground (arith, cleared, unscored)

  pub held-requeue_ready :
      (id other : String) (k : Keys S Z L)
      → held id (requeue_ready redis other k) ≡ (str_eq other id || held id k)
  unfolding requeue_ready ack_operation
  held-requeue_ready id other k =
      let removed = held-ack_operation id other k in
      let added = held-add_ready id other (ack_operation redis other k) in
      ground (arith, removed, added)

  pub held-requeue_scheduled :
      (id other : String) (score : ℕ) (k : Keys S Z L)
      → held id (requeue_scheduled redis other score k) ≡ (str_eq other id || held id k)
  unfolding requeue_scheduled is_some
  held-requeue_scheduled id other score k =
      let put = record k { scheduled = redis.sorted.zadd score other k.scheduled } in
      let cleared = held-clear id other put in
      let scored = redis.sorted.zscore-zadd score other id k.scheduled in
      ground (arith, cleared, scored)

  -- An entry that the loop moves from the schedule to the list stays held.
  held-moved :
      (id other : String) (score : ℕ) (k : Keys S Z L)
      → redis.sorted.zscore other k.scheduled ≡ some score
      → held id
          (add_ready redis other (record k { scheduled = redis.sorted.zrem other k.scheduled })).0
        ≡ held id k
  unfolding is_some
  held-moved id other score k there =
      let cut = record k { scheduled = redis.sorted.zrem other k.scheduled } in
      let added = held-add_ready id other cut in
      let unscored = redis.sorted.zscore-zrem other id k.scheduled in
      elim (Bool-cases (str_eq other id)) [
        | inl same ↦
            let scored =
              ap (λ name. redis.sorted.zscore name k.scheduled) (sym ((eq_iff other id).0 same))
              ∙ there in
            ground (arith, added, scored, same)
        | inr apart ↦ ground (arith, added, unscored, apart)
      ]

  held-release_entry :
      (id : String) (rest : Keys S Z L → Keys S Z L × ℕ) (now : ℕ) (k : Keys S Z L)
      (first : Option (String × ℕ))
      → redis.sorted.zfirst k.scheduled ≡ first
      → ((k' : Keys S Z L) → held id (rest k').0 ≡ held id k')
      → held id (release_entry redis rest now k first).0 ≡ held id k
  unfolding release_entry
  held-release_entry id rest now k none found later = refl
  held-release_entry id rest now k (some (other, score)) found later =
      let cut = record k { scheduled = redis.sorted.zrem other k.scheduled } in
      let moved =
        held-moved id other score k (redis.sorted.zfirst_some other score k.scheduled found) in
      elim (Bool-cases (ltb now score)) [
        | inl early ↦ rw early refl
        | inr due ↦ rw due (later (add_ready redis other cut).0 ∙ moved)
      ]

  held-release_due_from :
      (id : String) (fuel now : ℕ) (k : Keys S Z L)
      → held id (release_due_from redis fuel now k).0 ≡ held id k
  unfolding release_due_from
  held-release_due_from id zero now k = refl
  held-release_due_from id (suc fuel) now k =
      held-release_entry id (release_due_from redis fuel now) now k
        (redis.sorted.zfirst k.scheduled) refl (held-release_due_from id fuel now)

  held-pop_entry :
      (id : String) (rest : Keys S Z L → Keys S Z L × Option String) (now : ℕ) (k : Keys S Z L)
      (popped : Option (String × L))
      → ((k' : Keys S Z L) → held id (rest k').0 ≡ held id k')
      → held id (pop_entry redis rest now k popped).0 ≡ held id k
  unfolding pop_entry
  held-pop_entry id rest now k none later = refl
  held-pop_entry id rest now k (some (other, left)) later =
      let reply = redis.sets.srem_reply other k.ready_members in
      let removed = redis.sets.sismember-srem other id k.ready_members in
      let added = redis.sets.sismember-sadd other id k.inflight in
      let same_member = alike (λ name. redis.sets.sismember name k.ready_members) id other in
      let cut : Keys S Z L = record k {
        ready = left;
        ready_members = (redis.sets.srem other k.ready_members).0;
      } in
      elim (Bool-cases (redis.sets.sismember other k.ready_members)) [
        | inl member ↦ rw (reply, member) (ground (arith, removed, added, member, same_member))
        | inr stale ↦ rw (reply, stale) (later cut ∙ ground (arith, removed, stale, same_member))
      ]

  held-put_back :
      (id : String) (ids : List String) (k : Keys S Z L)
      → held id (put_back redis ids k).0 ≡ held id k
  unfolding put_back
  held-put_back id [] k = refl
  held-put_back id (other ∷ ids) k =
      let reply = redis.sets.srem_reply other k.inflight in
      let removed = redis.sets.sismember-srem other id k.inflight in
      let same_flight = alike (λ name. redis.sets.sismember name k.inflight) id other in
      let taken : Keys S Z L = record k {
        inflight = (redis.sets.srem other k.inflight).0;
        inflight_lease = redis.sorted.zrem other k.inflight_lease;
      } in
      let added = held-add_ready id other taken in
      elim (Bool-cases (redis.sets.sismember other k.inflight)) [
        | inl found ↦
            rw (reply, found)
              (held-put_back id ids (add_ready redis other taken).0
                ∙ ground (arith, added, removed, found, same_flight))
        | inr missing ↦
            rw (reply, missing)
              (held-put_back id ids taken ∙ ground (arith, removed, missing, same_flight))
      ]

  pub held-release_due :
      (id : String) (now : ℕ) (k : Keys S Z L) → held id (release_due redis now k).0 ≡ held id k
  unfolding release_due
  held-release_due id now k = held-release_due_from id (redis.sorted.zcard k.scheduled) now k

  held-pop_ready_from :
      (id : String) (fuel now : ℕ) (k : Keys S Z L)
      → held id (pop_ready_from redis fuel now k).0 ≡ held id k
  unfolding pop_ready_from
  held-pop_ready_from id zero now k = refl
  held-pop_ready_from id (suc fuel) now k =
      held-pop_entry id (pop_ready_from redis fuel now) now k (redis.lists.lpop k.ready)
        (held-pop_ready_from id fuel now)

  pub held-pop_ready :
      (id : String) (now : ℕ) (k : Keys S Z L) → held id (pop_ready redis now k).0 ≡ held id k
  unfolding pop_ready
  held-pop_ready id now k = held-pop_ready_from id (redis.lists.llen k.ready) now k

  pub held-reclaim_stale :
      (id : String) (now max_age limit : ℕ) (samples : ℕ → List String) (k : Keys S Z L)
      → held id (reclaim_stale redis now max_age limit samples k).0 ≡ held id k
  unfolding reclaim_stale
  held-reclaim_stale id now max_age limit samples k =
      elim (Bool-cases (max_age == 0 || limit == 0)) [
        | inl off ↦ rw off refl
        | inr on ↦ rw on (held-put_back id (stale_ids redis now max_age limit samples k) k)
      ]
