-- ===== src/Operation/RedisQueue/Scripts/Pop.antt =====
-- What a pop from the ready list takes:
-- cdmp-mini/internal/common/service/operation/queue/redisqueue/coordinator.go.
use text.Mathlib.Text.{◌==◌ as str_eq}
use cdmp_mini.Base.{
  ℕ, zero, suc, ◌≤◌, String, ◌≡◌, refl, sym, ap, ◌∙◌, inl, inr, true, false, Option, none, some,
  List, [], ◌∷◌, ◌++◌, length, arith, Bool-cases, eq_iff,
}
use cdmp_mini.Operation.RedisQueue.Commands.{alike, holds-length, holds, Redis}
use cdmp_mini.Operation.RedisQueue.Scripts.{Keys, pop_entry, pop_ready_from, pop_ready}
use cdmp_mini.Operation.RedisQueue.Scripts.Consistent.{IsConsistent, Listed, Listed-pop}

module _ {S Z L : Type 0} (redis : Redis S Z L) where
  -- The first entry of the list that is ready has been taken, and the entries before it, which were
  -- ready no more, are dropped. The other members of the ready set stay.
  pub record IsPopped (now : ℕ) (k : Keys S Z L) (r : Keys S Z L × Option String) : Type 0 where
    pub id : String
    pub popped : r.1 ≡ some id
    pub skipped : List String
    pub split : redis.lists.lrange k.ready ≡ skipped ++ id ∷ redis.lists.lrange r.0.ready
    pub stale :
        (key : String) → holds key skipped ≡ true → redis.sets.sismember key k.ready_members ≡ false
    pub was_ready : redis.sets.sismember id k.ready_members ≡ true
    pub gone : redis.sets.sismember id r.0.ready_members ≡ false
    pub others :
        (key : String)
        → str_eq id key ≡ false
        → redis.sets.sismember key r.0.ready_members ≡ redis.sets.sismember key k.ready_members
    pub flying : redis.sets.sismember id r.0.inflight ≡ true
    pub leased : redis.sorted.zscore id r.0.inflight_lease ≡ some now

  -- What is asked of the turns that are left.
  abbrev Pops : ℕ → ℕ → String → Type 0
  Pops fuel now id =
      (k : Keys S Z L)
      → Listed redis k.ready_members k.ready
      → redis.sets.sismember id k.ready_members ≡ true
      → length (redis.lists.lrange k.ready) ≤ fuel
      → IsPopped now k (pop_ready_from redis fuel now k)

  -- A turn that drops an entry that is ready no more.
  IsPopped-drop :
      (now : ℕ) (other : String) (k : Keys S Z L) (left : L) (r : Keys S Z L × Option String)
      → redis.lists.lpop k.ready ≡ some (other, left)
      → redis.sets.sismember other k.ready_members ≡ false
      → IsPopped now
          (record k { ready = left; ready_members = (redis.sets.srem other k.ready_members).0 })
          r
      → IsPopped now k r
  unfolding holds
  IsPopped-drop now other k left r named old h =
      let kept : (key : String)
          → redis.sets.sismember key (redis.sets.srem other k.ready_members).0
            ≡ redis.sets.sismember key k.ready_members =
        λ key.
          let same = alike (λ name. redis.sets.sismember name k.ready_members) key other in
          let removed = redis.sets.sismember-srem other key k.ready_members in
          ground (arith, same, removed, old) in
      record {
        id = h.id;
        popped = h.popped;
        skipped = other ∷ h.skipped;
        split = redis.lists.lpop_some other k.ready left named ∙ ap (λ ids. other ∷ ids) h.split;
        stale = λ key met.
            let a = alike (λ name. redis.sets.sismember name k.ready_members) key other in
            let b = kept key in let c = h.stale key in grind (arith, met, a, b, c, old);
        was_ready = sym (kept h.id) ∙ h.was_ready;
        gone = h.gone;
        others = λ key apart. h.others key apart ∙ kept key;
        flying = h.flying;
        leased = h.leased;
      }

  IsPopped-take :
      (now : ℕ) (other : String) (k : Keys S Z L) (left : L)
      → redis.lists.lpop k.ready ≡ some (other, left)
      → redis.sets.sismember other k.ready_members ≡ true
      → IsPopped now k (
        record k {
          ready = left;
          ready_members = (redis.sets.srem other k.ready_members).0;
          inflight = (redis.sets.sadd other k.inflight).0;
          inflight_lease = redis.sorted.zadd now other k.inflight_lease;
        },
        some other,
      )
  unfolding holds
  IsPopped-take now other k left named there =
      let self : str_eq other other ≡ true = (eq_iff other other).1 refl in
      record {
        id = other;
        popped = refl;
        skipped = [];
        split = redis.lists.lpop_some other k.ready left named;
        stale = λ key met. absurd (ground (arith, met));
        was_ready = there;
        gone =
            let removed = redis.sets.sismember-srem other other k.ready_members in
            ground (arith, removed, self);
        others = λ key apart.
            let removed = redis.sets.sismember-srem other key k.ready_members in
            ground (arith, removed, apart);
        flying =
            let added = redis.sets.sismember-sadd other other k.inflight in
            ground (arith, added, self);
        leased =
            let scored = redis.sorted.zscore-zadd now other other k.inflight_lease in
            ground (arith, scored, self);
      }

  pop_entry-IsPopped :
      (fuel now : ℕ) (id : String) (k : Keys S Z L) (popped : Option (String × L))
      → redis.lists.lpop k.ready ≡ popped
      → Pops fuel now id
      → Listed redis k.ready_members k.ready
      → redis.sets.sismember id k.ready_members ≡ true
      → length (redis.lists.lrange k.ready) ≤ suc fuel
      → IsPopped now k (pop_entry redis (pop_ready_from redis fuel now) now k popped)
  unfolding pop_entry holds
  pop_entry-IsPopped fuel now id k none named later h member few =
      let seen = h id member in
      let nothing = ap (holds id) (redis.lists.lpop_none k.ready named) in
      absurd (ground (arith, seen, nothing))
  pop_entry-IsPopped fuel now id k (some (other, left)) named later h member few =
      let reply = redis.sets.srem_reply other k.ready_members in
      let removed = redis.sets.sismember-srem other id k.ready_members in
      let cut : Keys S Z L = record k {
        ready = left;
        ready_members = (redis.sets.srem other k.ready_members).0;
      } in
      let same_member = alike (λ name. redis.sets.sismember name k.ready_members) id other in
      let shorter = ap length (redis.lists.lpop_some other k.ready left named) in
      elim (Bool-cases (redis.sets.sismember other k.ready_members)) [
        | inl there ↦ rw (reply, there) (IsPopped-take now other k left named there)
        | inr stale ↦
            rw (reply, stale)
              (IsPopped-drop now other k left _ named stale (
                later cut (Listed-pop redis other k.ready_members k.ready left named h)
                  (ground (arith, removed, member, stale, same_member))
                  (omega (arith, shorter, few))))
      ]

  pop_ready_from-IsPopped : (fuel now : ℕ) (id : String) → Pops fuel now id
  unfolding pop_ready_from holds
  pop_ready_from-IsPopped zero now id k h member few =
      let some_there = holds-length id (redis.lists.lrange k.ready) (h id member) in
      absurd (ground (arith, some_there, few))
  pop_ready_from-IsPopped (suc fuel) now id k h member few =
      pop_entry-IsPopped fuel now id k (redis.lists.lpop k.ready) refl
        (pop_ready_from-IsPopped fuel now id) h member few

  -- In consistent keys with a ready operation, `luaPopReady` pops the first entry of the ready list that
  -- is in the ready set: the entries before it, which are not, are dropped from the list, the popped
  -- one leaves the ready set, to which nothing else happens, and is in flight with a lease from now.
  pub pop_ready-IsPopped :
      (now : ℕ) (k : Keys S Z L) (id : String)
      → IsConsistent redis k
      → redis.sets.sismember id k.ready_members ≡ true
      → IsPopped now k (pop_ready redis now k)
  unfolding pop_ready
  pop_ready-IsPopped now k id h member =
      let len = redis.lists.llen_lem k.ready in
      pop_ready_from-IsPopped (redis.lists.llen k.ready) now id k h.listed member
        (omega (arith, len))
