-- ===== src/Pending/Decision/Isolation.antt =====
-- The isolation of a single scope in `decideAggregateLevel`:
-- cdmp-mini/internal/pkg/usercache/pending_state_machine.go.
use cdmp_mini.Base.{◌≡◌, ◌&&◌, ◌||◌, not, arith}
use cdmp_mini.Pending.Level.{Level, is_severe, merge}
use cdmp_mini.Pending.Decision.{Decider, isolated_level}

-- The isolated level is severe exactly where the global level is, or those of both the user and the
-- instance are, or the user's alone is and the user is not isolated, or the instance's alone is and
-- the instance is not isolated.
pub is_severe-isolated_level :
    (c : Decider) (global user instance_level : Level)
    → is_severe (isolated_level c global user instance_level) ≡ (
        is_severe global
        || (is_severe user && is_severe instance_level)
        || (is_severe user && not c.isolate_user_severe)
        || (is_severe instance_level && not c.isolate_instance_severe))
unfolding isolated_level merge
is_severe-isolated_level c global user instance_level = ground arith
