-- ===== src/Pending/Tuning.antt =====
-- The delay profile of the in-memory pending coordinator: what `newMemoryPendingCoordinator` makes of
-- its configuration, and `UpdateBackpressureProfile`, in
-- cdmp-mini/internal/pkg/usercache/pending_state_memory.go. A panic leaves the coordinator as it was.
pub mod Grading
use cdmp_mini.Base.{ℕ}
use cdmp_mini.Pending.Level.{DelayProfile}
use cdmp_mini.Pending.Profile.{Ensured, profile_ok, panics_elevated, panics_severe, ensure_defaults}
use cdmp_mini.Pending.Lease.{LeaseConfig, MemoryCoordinator}
use cdmp_mini.Pending.State.{new_coordinator}

-- The call of `ensureDefaults` with the limits and delays of a configuration.
pub ensure_for : (ℕ → ℕ → ℕ → ℕ) → LeaseConfig → DelayProfile → Ensured
unfolding ensure_defaults
ensure_for scaled cfg profile =
    ensure_defaults scaled profile cfg.soft_limit cfg.hard_limit cfg.elevated_delay_base
      cfg.elevated_delay_max cfg.severe_delay_base cfg.severe_delay_max

-- A coordinator, or the panic.
pub data Opened : Type 0 where
  opened : MemoryCoordinator → Opened
  failed_by : Ensured → Opened

opened_with : LeaseConfig → Ensured → Opened
unfolding new_coordinator
opened_with cfg (profile_ok profile) = opened (new_coordinator cfg profile)
opened_with cfg panic = failed_by panic

-- `newMemoryPendingCoordinator` with the profile that is configured.
unfoldable pub open_coordinator : (ℕ → ℕ → ℕ → ℕ) → LeaseConfig → DelayProfile → Opened
unfolding opened_with ensure_for
open_coordinator scaled cfg profile = opened_with cfg (ensure_for scaled cfg profile)

unfoldable pub installed : MemoryCoordinator → Ensured → MemoryCoordinator × Ensured
installed m (profile_ok profile) = (record m { profile = profile }, profile_ok profile)
installed m panic = (m, panic)

-- `UpdateBackpressureProfile`
unfoldable pub update_profile :
    (ℕ → ℕ → ℕ → ℕ) → MemoryCoordinator → DelayProfile → MemoryCoordinator × Ensured
unfolding installed ensure_for
update_profile scaled m profile = installed m (ensure_for scaled m.cfg profile)
