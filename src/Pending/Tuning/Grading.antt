-- ===== src/Pending/Tuning/Grading.antt =====
-- How a coordinator grades its depth after its profile has been set:
-- cdmp-mini/internal/pkg/usercache/pending_state_memory.go.
use cdmp_mini.Base.{ℕ, ◌≡◌, refl}
use cdmp_mini.Pending.Level.{DelayProfile}
use cdmp_mini.Pending.Level.Threshold.{threshold}
use cdmp_mini.Pending.Profile.{
  Ensured, profile_ok, panics_elevated, panics_severe, soft_of, hard_of,
}
use cdmp_mini.Pending.Profile.Accepted.{ensure_defaults-classify}
use cdmp_mini.Pending.Lease.{LeaseConfig, MemoryCoordinator}
use cdmp_mini.Pending.State.{classify_global}
use cdmp_mini.Pending.Tuning.{ensure_for, installed, update_profile}

-- The level of a depth by the soft and the hard limit of a configuration alone.
abbrev pub GradesByLimits : LeaseConfig → MemoryCoordinator → ℕ → Type 0
GradesByLimits cfg m depth =
    classify_global m depth
    ≡ threshold depth (soft_of cfg.soft_limit) (hard_of cfg.soft_limit cfg.hard_limit)

ensure_for-classify :
    (scaled : ℕ → ℕ → ℕ → ℕ) (m : MemoryCoordinator) (profile q : DelayProfile) (depth : ℕ)
    → ensure_for scaled m.cfg profile ≡ profile_ok q
    → GradesByLimits m.cfg (record m { profile = q }) depth
unfolding ensure_for
ensure_for-classify scaled m profile q depth h =
    ensure_defaults-classify scaled profile q m.cfg.soft_limit m.cfg.hard_limit
      m.cfg.elevated_delay_base m.cfg.elevated_delay_max m.cfg.severe_delay_base
      m.cfg.severe_delay_max depth h

installed-classify :
    (scaled : ℕ → ℕ → ℕ → ℕ) (m : MemoryCoordinator) (profile q : DelayProfile) (depth : ℕ)
    (e : Ensured)
    → ensure_for scaled m.cfg profile ≡ e
    → (installed m e).1 ≡ profile_ok q
    → GradesByLimits m.cfg (installed m e).0 depth
unfolding installed
installed-classify scaled m profile q depth (profile_ok r) h ok =
    ensure_for-classify scaled m profile r depth h
installed-classify scaled m profile q depth (panics_elevated e) h ok = cc
installed-classify scaled m profile q depth (panics_severe e) h ok = cc

-- After an UpdateBackpressureProfile that does not panic, the coordinator grades every depth by its
-- soft and its hard limit alone, whatever buckets the new profile has: severe from the hard limit
-- on, elevated from the soft limit on, none below, with limits that are not positive read as
-- ensureDefaults reads them.
pub update_profile-GradesByLimits :
    (scaled : ℕ → ℕ → ℕ → ℕ) (m : MemoryCoordinator) (profile q : DelayProfile) (depth : ℕ)
    → (update_profile scaled m profile).1 ≡ profile_ok q
    → GradesByLimits m.cfg (update_profile scaled m profile).0 depth
unfolding update_profile
update_profile-GradesByLimits scaled m profile q depth ok =
    installed-classify scaled m profile q depth (ensure_for scaled m.cfg profile) refl ok
