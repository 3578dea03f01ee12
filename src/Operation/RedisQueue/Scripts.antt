-- ===== src/Operation/RedisQueue/Scripts.antt =====
-- The Lua scripts of the Redis queue coordinator, each of which Redis runs as one step:
-- cdmp-mini/internal/common/service/operation/queue/redisqueue/coordinator.go.
-- `while true` is recursion on a bound for the number of turns, which the caller of the loop gives.
pub mod Consistent
pub mod Loops
pub mod Held
pub mod Steps
pub mod Progress
pub mod Pop
use text.Mathlib.Text.{◌==◌ as str_eq}
use cdmp_mini.Base.{
  ℕ, zero, suc, ◌+◌, ◌-◌, String, Bool, true, false, not, ◌&&◌, ◌||◌, Option, none, some, List, [],
  ◌∷◌, ◌++◌, length, ltb, leb, ◌==◌, if◌then◌else◌,
}
use cdmp_mini.Operation.RedisQueue.Commands.{is_some, holds, Sets, SortedSets, Lists, Redis}

-- The keys of one queue: `readyKey`, `readyMembersKey`, `inflightKey`, `inflightLeaseKey` and
-- `scheduledKey`.
pub record Keys (S Z L : Type 0) : Type 0 where
  pub ready : L
  pub ready_members : S
  pub inflight : S
  pub inflight_lease : Z
  pub scheduled : Z

module _ {S Z L : Type 0} (redis : Redis S Z L) where
  -- `SADD` to the members, and `RPUSH` where the identifier is a new one.
  unfoldable pub add_ready : String → Keys S Z L → Keys S Z L × ℕ
  add_ready id k =
      let added = redis.sets.sadd id k.ready_members in
      if added.1 == 1
      then (record k { ready_members = added.0; ready = (redis.lists.rpush id k.ready).0 }, 1)
      else (record k { ready_members = added.0 }, 0)

  -- One turn of `luaReleaseDue` on the entry with the lowest score, with the later turns as `rest`.
  release_entry :
      (Keys S Z L → Keys S Z L × ℕ) → ℕ → Keys S Z L → Option (String × ℕ) → Keys S Z L × ℕ
  unfolding add_ready
  release_entry rest now k none = (k, 0)
  release_entry rest now k (some (id, score)) =
      let moved = add_ready id (record k { scheduled = redis.sorted.zrem id k.scheduled }) in
      let later = rest moved.0 in if ltb now score then (k, 0) else (later.0, moved.1 + later.1)

  release_due_from : ℕ → ℕ → Keys S Z L → Keys S Z L × ℕ
  unfolding release_entry
  release_due_from zero now k = (k, 0)
  release_due_from (suc fuel) now k =
      release_entry (release_due_from fuel now) now k (redis.sorted.zfirst k.scheduled)

  -- `luaReleaseDue`, each turn of which takes an entry from the sorted set
  unfoldable pub release_due : ℕ → Keys S Z L → Keys S Z L × ℕ
  unfolding release_due_from
  release_due now k = release_due_from (redis.sorted.zcard k.scheduled) now k

  -- One turn of `luaPopReady` on the head of the list.
  pop_entry :
      (Keys S Z L → Keys S Z L × Option String)
      → ℕ
      → Keys S Z L
      → Option (String × L)
      → Keys S Z L × Option String
  pop_entry rest now k none = (k, none)
  pop_entry rest now k (some (id, left)) =
      let removed = redis.sets.srem id k.ready_members in
      let later = rest (record k { ready = left; ready_members = removed.0 }) in
      if removed.1 == 1
      then (
        record k {
          ready = left;
          ready_members = removed.0;
          inflight = (redis.sets.sadd id k.inflight).0;
          inflight_lease = redis.sorted.zadd now id k.inflight_lease;
        },
        some id,
      )
      else later

  pop_ready_from : ℕ → ℕ → Keys S Z L → Keys S Z L × Option String
  unfolding pop_entry
  pop_ready_from zero now k = (k, none)
  pop_ready_from (suc fuel) now k =
      pop_entry (pop_ready_from fuel now) now k (redis.lists.lpop k.ready)

  -- `luaPopReady`, each turn of which takes an entry from the list
  unfoldable pub pop_ready : ℕ → Keys S Z L → Keys S Z L × Option String
  unfolding pop_ready_from
  pop_ready now k = pop_ready_from (redis.lists.llen k.ready) now k

  -- `luaPushReady`, which returns the length of the list
  unfoldable pub push_ready : String → Keys S Z L → Keys S Z L × ℕ
  push_ready id k =
      let added = redis.sets.sadd id k.ready_members in
      let pushed = redis.lists.rpush id k.ready in
      if added.1 == 0
      then (record k { ready_members = added.0 }, redis.lists.llen k.ready)
      else (record k { ready_members = added.0; ready = pushed.0 }, pushed.1)

  -- What both scripts of `Requeue` and that of `Ack` remove in turn.
  unfoldable pub clear : String → Keys S Z L → Keys S Z L
  clear id k = record k {
    ready_members = (redis.sets.srem id k.ready_members).0;
    inflight = (redis.sets.srem id k.inflight).0;
    inflight_lease = redis.sorted.zrem id k.inflight_lease;
  }

  -- `luaRequeueReady`
  unfoldable pub requeue_ready : String → Keys S Z L → Keys S Z L
  unfolding clear add_ready
  requeue_ready id k =
      (add_ready id (clear id (record k { scheduled = redis.sorted.zrem id k.scheduled }))).0

  -- `luaRequeueScheduled`
  unfoldable pub requeue_scheduled : String → ℕ → Keys S Z L → Keys S Z L
  unfolding clear
  requeue_scheduled id score k =
      clear id (record k { scheduled = redis.sorted.zadd score id k.scheduled })

  -- `luaAckOperation`, which is `luaCancelOperation` too
  unfoldable pub ack_operation : String → Keys S Z L → Keys S Z L
  unfolding clear
  ack_operation id k = clear id (record k { scheduled = redis.sorted.zrem id k.scheduled })

  -- The first loop of `luaReclaimStaleInflight`
  collect_aged : ℕ → List String → List String → List String
  collect_aged limit ids [] = ids
  collect_aged limit ids (id ∷ aged) =
      let skipped = collect_aged limit ids aged in
      let more = ids ++ id ∷ [] in
      let taken = collect_aged limit more aged in
      if holds id ids then skipped else if leb limit (length more) then more else taken

  -- The second loop: of the sampled identifiers those without a lease.
  collect_samples : ℕ → Z → List String → List String → List String
  collect_samples limit leases ids [] = ids
  collect_samples limit leases ids (id ∷ samples) =
      let skipped = collect_samples limit leases ids samples in
      let more = ids ++ id ∷ [] in
      let taken = collect_samples limit leases more samples in
      if not (holds id ids) && not (is_some (redis.sorted.zscore id leases))
      then (if leb limit (length more) then more else taken)
      else skipped

  -- The third loop, which puts the identifiers back.
  unfoldable pub put_back : List String → Keys S Z L → Keys S Z L × ℕ
  unfolding add_ready
  put_back [] k = (k, 0)
  put_back (id ∷ ids) k =
      let removed = redis.sets.srem id k.inflight in
      let leases = redis.sorted.zrem id k.inflight_lease in
      let taken = record k { inflight = removed.0; inflight_lease = leases } in
      let skipped = put_back ids taken in
      let put = put_back ids (add_ready id taken).0 in
      if ltb 0 removed.1 then (put.0, put.1 + 1) else skipped

  -- The identifiers that `luaReclaimStaleInflight` chooses. `samples` is what `SRANDMEMBER` returns for
  -- the number that is needed.
  unfoldable pub stale_ids : ℕ → ℕ → ℕ → (ℕ → List String) → Keys S Z L → List String
  unfolding collect_aged collect_samples
  stale_ids now max_age limit samples k =
      let aged =
        if ltb now max_age
        then []
        else redis.sorted.zup_to (now - max_age) limit k.inflight_lease in
      let ids = collect_aged limit [] aged in
      if ltb (length ids) limit
      then collect_samples limit k.inflight_lease ids (samples (limit - length ids))
      else ids

  -- `luaReclaimStaleInflight`
  unfoldable pub reclaim_stale : ℕ → ℕ → ℕ → (ℕ → List String) → Keys S Z L → Keys S Z L × ℕ
  unfolding stale_ids put_back
  reclaim_stale now max_age limit samples k =
      if max_age == 0 || limit == 0
      then (k, 0)
      else put_back (stale_ids now max_age limit samples k) k
