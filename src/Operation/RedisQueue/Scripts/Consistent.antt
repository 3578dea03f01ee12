-- ===== src/Operation/RedisQueue/Scripts/Consistent.antt =====
-- What every script of the Redis queue keeps of the keys:
-- cdmp-mini/internal/common/service/operation/queue/redisqueue/coordinator.go.
use text.Mathlib.Text.{◌==◌ as str_eq}
use cdmp_mini.Base.{
  ℕ, String, ◌≡◌, refl, sym, ap, ◌∙◌, inl, inr, true, ◌||◌, some, List, [], ◌∷◌, ◌++◌, arith,
  Bool-cases, eq_iff,
}
use cdmp_mini.Operation.RedisQueue.Commands.{is_some, holds, Redis}
use cdmp_mini.Operation.RedisQueue.Scripts.{
  Keys, add_ready, push_ready, clear, requeue_ready, requeue_scheduled, ack_operation,
}

pub holds-append :
    (id other : String) (ids : List String)
    → holds id (ids ++ other ∷ []) ≡ (holds id ids || str_eq other id)
unfolding holds
holds-append id other [] = ground arith
holds-append id other (first ∷ ids) = let rest = holds-append id other ids in ground (arith, rest)

module _ {S Z L : Type 0} (redis : Redis S Z L) where
  -- Every member of the set is in the list.
  abbrev pub Listed : S → L → Type 0
  Listed members l =
      (key : String)
      → redis.sets.sismember key members ≡ true
      → holds key (redis.lists.lrange l) ≡ true

  -- An identifier is in flight just where it has a lease.
  abbrev Leased : S → Z → Type 0
  Leased inflight leases =
      (key : String) → redis.sets.sismember key inflight ≡ is_some (redis.sorted.zscore key leases)

  pub record IsConsistent (k : Keys S Z L) : Type 0 where
    pub listed : Listed k.ready_members k.ready
    pub leased : Leased k.inflight k.inflight_lease

  pub Leased-remove :
      (id : String) (inflight : S) (leases : Z)
      → Leased inflight leases
      → Leased (redis.sets.srem id inflight).0 (redis.sorted.zrem id leases)
  unfolding is_some
  Leased-remove id inflight leases h key =
      let removed = redis.sets.sismember-srem id key inflight in
      let unscored = redis.sorted.zscore-zrem id key leases in
      let same = h key in ground (arith, removed, unscored, same)

  pub Leased-take :
      (now : ℕ) (id : String) (inflight : S) (leases : Z)
      → Leased inflight leases
      → Leased (redis.sets.sadd id inflight).0 (redis.sorted.zadd now id leases)
  unfolding is_some
  Leased-take now id inflight leases h key =
      let added = redis.sets.sismember-sadd id key inflight in
      let scored = redis.sorted.zscore-zadd now id key leases in
      let same = h key in ground (arith, added, scored, same)

  Listed-remove :
      (id : String) (members : S) (l : L)
      → Listed members l
      → Listed (redis.sets.srem id members).0 l
  Listed-remove id members l h key in_set =
      let removed = redis.sets.sismember-srem id key members in
      h key (ground (arith, removed, in_set))

  pub Listed-pop :
      (id : String) (members : S) (l left : L)
      → redis.lists.lpop l ≡ some (id, left)
      → Listed members l
      → Listed (redis.sets.srem id members).0 left
  unfolding holds
  Listed-pop id members l left popped h key in_set =
      let removed = redis.sets.sismember-srem id key members in
      let seen : holds key (redis.lists.lrange l) ≡ true =
        h key (ground (arith, removed, in_set)) in
      let shown : holds key (redis.lists.lrange l) ≡ holds key (id ∷ redis.lists.lrange left) =
        ap (holds key) (redis.lists.lpop_some id l left popped) in
      ground (arith, removed, in_set, seen, shown)

  Listed-push :
      (id : String) (members : S) (l : L)
      → Listed members l
      → Listed (redis.sets.sadd id members).0 (redis.lists.rpush id l).0
  Listed-push id members l h key in_set =
      let added = redis.sets.sismember-sadd id key members in
      let shown =
        ap (holds key) (redis.lists.lrange-rpush id l)
        ∙ holds-append key id (redis.lists.lrange l) in
      let known = h key in grind (arith, added, in_set, shown, known)

  Listed-known :
      (id : String) (members : S) (l : L)
      → redis.sets.sismember id members ≡ true
      → Listed members l
      → Listed (redis.sets.sadd id members).0 l
  Listed-known id members l known h key in_set =
      let added = redis.sets.sismember-sadd id key members in
      elim (Bool-cases (str_eq id key)) [
        | inl same ↦
            ap (λ name. holds name (redis.lists.lrange l)) (sym ((eq_iff id key).0 same))
            ∙ h id known
        | inr other ↦ h key (ground (arith, added, in_set, other))
      ]

  pub add_ready-IsConsistent :
      (id : String) (k : Keys S Z L) → IsConsistent k → IsConsistent (add_ready redis id k).0
  unfolding add_ready
  add_ready-IsConsistent id k h =
      let reply = redis.sets.sadd_reply id k.ready_members in
      elim (Bool-cases (redis.sets.sismember id k.ready_members)) [
        | inl known ↦
            rw (reply, known)
              (record {
                listed = Listed-known id k.ready_members k.ready known h.listed;
                leased = h.leased;
              })
        | inr fresh ↦
            rw (reply, fresh)
              (record {
                listed = Listed-push id k.ready_members k.ready h.listed;
                leased = h.leased;
              })
      ]

  -- The script leaves the keys as `add_ready` does.
  push_ready-add_ready :
      (id : String) (k : Keys S Z L) → (push_ready redis id k).0 ≡ (add_ready redis id k).0
  unfolding push_ready add_ready
  push_ready-add_ready id k =
      let reply = redis.sets.sadd_reply id k.ready_members in
      elim (Bool-cases (redis.sets.sismember id k.ready_members)) [
        | inl known ↦ rw (reply, known) refl
        | inr fresh ↦ rw (reply, fresh) refl
      ]

  pub push_ready-IsConsistent :
      (id : String) (k : Keys S Z L) → IsConsistent k → IsConsistent (push_ready redis id k).0
  push_ready-IsConsistent id k h = rw (push_ready-add_ready id k) (add_ready-IsConsistent id k h)

  clear-IsConsistent :
      (id : String) (k : Keys S Z L) → IsConsistent k → IsConsistent (clear redis id k)
  unfolding clear
  clear-IsConsistent id k h = record {
    listed = Listed-remove id k.ready_members k.ready h.listed;
    leased = Leased-remove id k.inflight k.inflight_lease h.leased;
  }

  -- The scheduled identifiers are free.
  pub with_scheduled :
      (scheduled : Z) (k : Keys S Z L)
      → IsConsistent k
      → IsConsistent (record k { scheduled = scheduled })
  with_scheduled scheduled k h = record { listed = h.listed; leased = h.leased }

  pub ack_operation-IsConsistent :
      (id : String) (k : Keys S Z L) → IsConsistent k → IsConsistent (ack_operation redis id k)
  unfolding ack_operation
  ack_operation-IsConsistent id k h =
      clear-IsConsistent id (record k { scheduled = redis.sorted.zrem id k.scheduled })
        (with_scheduled _ k h)

  pub requeue_ready-IsConsistent :
      (id : String) (k : Keys S Z L) → IsConsistent k → IsConsistent (requeue_ready redis id k)
  unfolding requeue_ready ack_operation
  requeue_ready-IsConsistent id k h =
      add_ready-IsConsistent id (ack_operation redis id k) (ack_operation-IsConsistent id k h)

  pub requeue_scheduled-IsConsistent :
      (id : String) (score : ℕ) (k : Keys S Z L)
      → IsConsistent k
      → IsConsistent (requeue_scheduled redis id score k)
  unfolding requeue_scheduled
  requeue_scheduled-IsConsistent id score k h =
      clear-IsConsistent id (record k { scheduled = redis.sorted.zadd score id k.scheduled })
        (with_scheduled _ k h)
