-- ===== src/Operation/RedisQueue/Scripts/Loops.antt =====
-- What the scripts with loops of the Redis queue keep of the keys:
-- cdmp-mini/internal/common/service/operation/queue/redisqueue/coordinator.go.
use cdmp_mini.Base.{
  ℕ, zero, suc, String, ◌≡◌, refl, inl, inr, ◌||◌, Option, none, some, List, [], ◌∷◌, ltb, ◌==◌,
  Bool-cases,
}
use cdmp_mini.Operation.RedisQueue.Commands.{Redis}
use cdmp_mini.Operation.RedisQueue.Scripts.{
  Keys, add_ready, release_entry, release_due_from, release_due, pop_entry, pop_ready_from,
  pop_ready, put_back, stale_ids, reclaim_stale,
}
use cdmp_mini.Operation.RedisQueue.Scripts.Consistent.{
  IsConsistent, Leased-remove, Leased-take, Listed-pop, add_ready-IsConsistent, with_scheduled,
}

module _ {S Z L : Type 0} (redis : Redis S Z L) where
  release_entry-IsConsistent :
      (rest : Keys S Z L → Keys S Z L × ℕ) (now : ℕ) (k : Keys S Z L) (first : Option (String × ℕ))
      → ((k' : Keys S Z L) → IsConsistent redis k' → IsConsistent redis (rest k').0)
      → IsConsistent redis k
      → IsConsistent redis (release_entry redis rest now k first).0
  unfolding release_entry
  release_entry-IsConsistent rest now k none later h = h
  release_entry-IsConsistent rest now k (some (id, score)) later h =
      let cut = record k { scheduled = redis.sorted.zrem id k.scheduled } in
      let moved = add_ready-IsConsistent redis id cut (with_scheduled redis _ k h) in
      elim (Bool-cases (ltb now score)) [
        | inl early ↦ rw early h
        | inr due ↦ rw due (later (add_ready redis id cut).0 moved)
      ]

  release_due_from-IsConsistent :
      (fuel now : ℕ) (k : Keys S Z L)
      → IsConsistent redis k
      → IsConsistent redis (release_due_from redis fuel now k).0
  unfolding release_due_from
  release_due_from-IsConsistent zero now k h = h
  release_due_from-IsConsistent (suc fuel) now k h =
      release_entry-IsConsistent (release_due_from redis fuel now) now k
        (redis.sorted.zfirst k.scheduled) (release_due_from-IsConsistent fuel now) h

  pop_entry-IsConsistent :
      (rest : Keys S Z L → Keys S Z L × Option String) (now : ℕ) (k : Keys S Z L)
      (popped : Option (String × L))
      → redis.lists.lpop k.ready ≡ popped
      → ((k' : Keys S Z L) → IsConsistent redis k' → IsConsistent redis (rest k').0)
      → IsConsistent redis k
      → IsConsistent redis (pop_entry redis rest now k popped).0
  unfolding pop_entry
  pop_entry-IsConsistent rest now k none named later h = h
  pop_entry-IsConsistent rest now k (some (id, left)) named later h =
      let listed = Listed-pop redis id k.ready_members k.ready left named h.listed in
      let leased = Leased-take redis now id k.inflight k.inflight_lease h.leased in
      elim (Bool-cases ((redis.sets.srem id k.ready_members).1 == 1)) [
        | inl member ↦ rw member (record { listed = listed; leased = leased })
        | inr stale ↦ rw stale (later _ (record { listed = listed; leased = h.leased }))
      ]

  pop_ready_from-IsConsistent :
      (fuel now : ℕ) (k : Keys S Z L)
      → IsConsistent redis k
      → IsConsistent redis (pop_ready_from redis fuel now k).0
  unfolding pop_ready_from
  pop_ready_from-IsConsistent zero now k h = h
  pop_ready_from-IsConsistent (suc fuel) now k h =
      pop_entry-IsConsistent (pop_ready_from redis fuel now) now k (redis.lists.lpop k.ready) refl
        (pop_ready_from-IsConsistent fuel now) h

  put_back-IsConsistent :
      (ids : List String) (k : Keys S Z L)
      → IsConsistent redis k
      → IsConsistent redis (put_back redis ids k).0
  unfolding put_back
  put_back-IsConsistent [] k h = h
  put_back-IsConsistent (id ∷ ids) k h =
      let taken : Keys S Z L = record k {
        inflight = (redis.sets.srem id k.inflight).0;
        inflight_lease = redis.sorted.zrem id k.inflight_lease;
      } in
      let kept : IsConsistent redis taken = record {
        listed = h.listed;
        leased = Leased-remove redis id k.inflight k.inflight_lease h.leased;
      } in
      elim (Bool-cases (ltb 0 (redis.sets.srem id k.inflight).1)) [
        | inl found ↦ rw found (
            put_back-IsConsistent ids (add_ready redis id taken).0
              (add_ready-IsConsistent redis id taken kept))
        | inr missing ↦ rw missing (put_back-IsConsistent ids taken kept)
      ]

  pub release_due-IsConsistent :
      (now : ℕ) (k : Keys S Z L)
      → IsConsistent redis k
      → IsConsistent redis (release_due redis now k).0
  unfolding release_due
  release_due-IsConsistent now k h =
      release_due_from-IsConsistent (redis.sorted.zcard k.scheduled) now k h

  pub pop_ready-IsConsistent :
      (now : ℕ) (k : Keys S Z L)
      → IsConsistent redis k
      → IsConsistent redis (pop_ready redis now k).0
  unfolding pop_ready
  pop_ready-IsConsistent now k h = pop_ready_from-IsConsistent (redis.lists.llen k.ready) now k h

  pub reclaim_stale-IsConsistent :
      (now max_age limit : ℕ) (samples : ℕ → List String) (k : Keys S Z L)
      → IsConsistent redis k
      → IsConsistent redis (reclaim_stale redis now max_age limit samples k).0
  unfolding reclaim_stale
  reclaim_stale-IsConsistent now max_age limit samples k h =
      elim (Bool-cases (max_age == 0 || limit == 0)) [
        | inl off ↦ rw off h
        | inr on ↦ rw on (put_back-IsConsistent (stale_ids redis now max_age limit samples k) k h)
      ]
