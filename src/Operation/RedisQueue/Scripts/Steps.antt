-- ===== src/Operation/RedisQueue/Scripts/Steps.antt =====
-- The scripts of the Redis queue coordinator as steps on the keys, and as steps on the set of operations
-- that the queue holds: cdmp-mini/internal/common/service/operation/queue/redisqueue/coordinator.go.
use mathlib.Core.Path.{fun_ext}
use text.Mathlib.Text.{◌==◌ as str_eq}
use cdmp_mini.Base.{ℕ, String, ◌≡◌, refl, ap, ◌∙◌, Bool, not, ◌&&◌, ◌||◌, List, [], ◌∷◌}
use cdmp_mini.Operation.RedisQueue.Commands.{Redis}
use cdmp_mini.Operation.RedisQueue.Scripts.{
  Keys, release_due, pop_ready, push_ready, requeue_ready, requeue_scheduled, ack_operation,
  reclaim_stale,
}
use cdmp_mini.Operation.RedisQueue.Scripts.Held.{
  held, held-push_ready, held-ack_operation, held-requeue_ready, held-requeue_scheduled,
  held-release_due, held-pop_ready, held-reclaim_stale,
}

-- A script with its arguments.
pub data Script : Type 0 where
  lua_push_ready lua_requeue_ready lua_ack_operation : String → Script
  lua_requeue_scheduled : String → ℕ → Script
  lua_release_due lua_pop_ready : ℕ → Script
  lua_reclaim_stale_inflight : ℕ → ℕ → ℕ → (ℕ → List String) → Script

-- What a script does to a set of operations: it adds one, takes one out, or leaves the set as it is.
abbrev pub held_after : Script → (String → Bool) → String → Bool
held_after (lua_push_ready other) set id = str_eq other id || set id
held_after (lua_requeue_ready other) set id = str_eq other id || set id
held_after (lua_requeue_scheduled other score) set id = str_eq other id || set id
held_after (lua_ack_operation other) set id = not (str_eq other id) && set id
held_after (lua_release_due now) set id = set id
held_after (lua_pop_ready now) set id = set id
held_after (lua_reclaim_stale_inflight now max_age limit samples) set id = set id

-- The same for any sequence of scripts, from whatever processes.
abbrev pub held_after_all : List Script → (String → Bool) → String → Bool
held_after_all [] set = set
held_after_all (script ∷ scripts) set = held_after_all scripts (held_after script set)

module _ {S Z L : Type 0} (redis : Redis S Z L) where
  abbrev pub run_script : Script → Keys S Z L → Keys S Z L
  run_script (lua_push_ready id) k = (push_ready redis id k).0
  run_script (lua_requeue_ready id) k = requeue_ready redis id k
  run_script (lua_requeue_scheduled id score) k = requeue_scheduled redis id score k
  run_script (lua_ack_operation id) k = ack_operation redis id k
  run_script (lua_release_due now) k = (release_due redis now k).0
  run_script (lua_pop_ready now) k = (pop_ready redis now k).0
  run_script (lua_reclaim_stale_inflight now max_age limit samples) k =
      (reclaim_stale redis now max_age limit samples k).0

  abbrev pub run_scripts : List Script → Keys S Z L → Keys S Z L
  run_scripts [] k = k
  run_scripts (script ∷ scripts) k = run_scripts scripts (run_script script k)

  held-run_script :
      (script : Script) (k : Keys S Z L) (id : String)
      → held redis id (run_script script k) ≡ held_after script (λ name. held redis name k) id
  held-run_script (lua_push_ready other) k id = held-push_ready redis id other k
  held-run_script (lua_requeue_ready other) k id = held-requeue_ready redis id other k
  held-run_script (lua_requeue_scheduled other score) k id =
      held-requeue_scheduled redis id other score k
  held-run_script (lua_ack_operation other) k id = held-ack_operation redis id other k
  held-run_script (lua_release_due now) k id = held-release_due redis id now k
  held-run_script (lua_pop_ready now) k id = held-pop_ready redis id now k
  held-run_script (lua_reclaim_stale_inflight now max_age limit samples) k id =
      held-reclaim_stale redis id now max_age limit samples k

  -- Over any sequence of the scripts the operations that the queue holds, ready, scheduled or in
  -- flight, are those of a set to which `Enqueue` and `Requeue` add the operation, from which `Ack` and
  -- `Cancel` take it, and which releases, pops and reclaims leave as it is.
  pub held-run_scripts :
      (scripts : List Script) (k : Keys S Z L) (id : String)
      → held redis id (run_scripts scripts k)
        ≡ held_after_all scripts (λ name. held redis name k) id
  held-run_scripts [] k id = refl
  held-run_scripts (script ∷ scripts) k id =
      held-run_scripts scripts (run_script script k) id
      ∙ ap (λ set. held_after_all scripts set id) (fun_ext (held-run_script script k))
