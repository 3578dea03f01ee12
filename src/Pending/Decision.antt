-- ===== src/Pending/Decision.antt =====
-- The aggregate level of a sample: `decideAggregateLevel` of
-- cdmp-mini/internal/pkg/usercache/pending_state_machine.go, with its isolation of one scope and its
-- guard against switching to and fro. The coordinator is not nil.
pub mod Steady
pub mod Isolation
use cdmp_mini.Base.{ℕ, ◌-◌, Bool, true, false, not, ◌&&◌, List, [], ◌∷◌, leb, ◌==◌, if◌then◌else◌}
use cdmp_mini.Pending.Level.{Level, is_severe, merge}

abbrev pub same_level : Level → Level → Bool
same_level Level.unset Level.unset = true
same_level Level.none Level.none = true
same_level Level.elevated Level.elevated = true
same_level Level.severe Level.severe = true
same_level _ _ = false

-- The fields of `PendingCoordinator` and of its configuration that the decision uses.
pub record Decider : Type 0 where
  pub isolate_instance_severe : Bool
  pub isolate_user_severe : Bool
  pub anti_shake_interval : ℕ
  pub last_level : Level
  pub last_at : ℕ
  pub pending_level : Level
  pub pending_since : ℕ

-- The level before the guard.
unfoldable pub isolated_level : Decider → Level → Level → Level → Level
isolated_level c global user instance_level =
    let merged = merge (global ∷ user ∷ instance_level ∷ []) in
    if is_severe merged
    then (if c.isolate_instance_severe && not (is_severe global) && not (is_severe user)
        then Level.elevated
        else if c.isolate_user_severe && not (is_severe global) && not (is_severe instance_level)
        then Level.elevated
        else merged)
    else merged

-- A level that is taken over.
abbrev settled : Decider → Level → ℕ → Decider
settled c level now = record c {
  last_level = level;
  last_at = now;
  pending_level = Level.unset;
  pending_since = 0;
}

-- The guard: the level that is returned, and the state after it.
unfoldable pub steady_level : Decider → Level → ℕ → Level × Decider
steady_level c level now =
    if c.anti_shake_interval == 0
    then (level, c)
    else if same_level c.last_level Level.unset
    then (level, settled c level now)
    else if same_level level c.last_level
    then (level, settled c level now)
    else if not (same_level c.pending_level level)
    then (c.last_level, record c { pending_level = level; pending_since = now })
    else if not (c.pending_since == 0) && leb c.anti_shake_interval (now - c.pending_since)
    then (level, settled c level now)
    else (c.last_level, c)

unfoldable pub decide_level : Decider → Level → Level → Level → ℕ → Level × Decider
unfolding isolated_level steady_level
decide_level c global user instance_level now =
    steady_level c (isolated_level c global user instance_level) now
