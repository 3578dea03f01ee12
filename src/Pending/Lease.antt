-- ===== src/Pending/Lease.antt =====
-- The types of the in-memory pending coordinator:
-- cdmp-mini/internal/pkg/usercache/pending_state_memory.go and pending_state_machine.go.
-- Durations and limits that are not positive stand as 0, since the code tests them by `> 0` and
-- `<= 0` only; the zero `time.Time` is 0. A difference of times is compared with positive durations
-- only, so that it stops at 0 changes no test.
use cdmp_mini.Base.{Bool, ℕ, String, List}
use cdmp_mini.Base.GoMap.{GoMap}
use cdmp_mini.Pending.Level.{Level, DelayProfile}

pub data LeaseState : Type 0 where
  unknown lease released expired : LeaseState

pub record LeaseMetadata : Type 0 where
  pub username : String
  pub request_id : String
  pub operator : String
  pub client_ip : String
  pub legacy_request_id : String
  pub backend : String

pub record PendingLease : Type 0 where
  pub username : String
  pub owner_id : String
  pub acquire_at : ℕ
  pub lease_expires_at : ℕ
  pub heartbeat_at : ℕ
  pub queue_depth : ℕ
  pub backpressure : Level
  pub metadata : LeaseMetadata

-- `memoryLeaseEntry`. Its lease is never nil, since `Acquire` alone makes entries.
pub record LeaseEntry : Type 0 where
  pub lease : PendingLease
  pub metadata : LeaseMetadata
  pub state : LeaseState
  pub released_at : ℕ
  pub expired_at : ℕ
  pub expired_reason : String
  pub last_heartbeat : ℕ

-- The fields of `PendingCoordinatorConfig` that the in-memory coordinator reads.
pub record LeaseConfig : Type 0 where
  pub lease_ttl : ℕ
  pub release_retention : ℕ
  pub expired_retention : ℕ
  pub expired_grace_period : ℕ
  pub heartbeat_timeout : ℕ
  pub soft_limit : ℕ
  pub hard_limit : ℕ
  pub user_soft_limit : ℕ
  pub user_hard_limit : ℕ
  pub elevated_delay_base : ℕ
  pub elevated_delay_max : ℕ
  pub severe_delay_base : ℕ
  pub severe_delay_max : ℕ

abbrev pub Shard : Type 0
Shard = GoMap LeaseEntry

-- `memoryPendingCoordinator`
pub record MemoryCoordinator : Type 0 where
  pub cfg : LeaseConfig
  pub shards : List Shard
  pub shard_mask : ℕ
  pub profile : DelayProfile
  pub active_count : ℕ

pub record PendingState : Type 0 where
  pub is_known : Bool
  pub state : LeaseState
  pub lease_owner : String
  pub ttl : ℕ
  pub lease_expires_at : ℕ
  pub heartbeat_at : ℕ
  pub released_at : ℕ
  pub username : String
  pub expired_at : ℕ
  pub expired_reason : String
  pub backpressure : Level
  pub queue_depth : ℕ
  pub user_queue_depth : ℕ
  pub instance_queue_depth : ℕ
  pub user_backpressure : Level
  pub instance_backpressure : Level

-- `errors.New("username required")`, the two reasons of an `AcquireError`, and the owner's mismatch.
pub data LeaseError : Type 0 where
  username_required : LeaseError
  conflict : PendingState → ℕ → LeaseError
  backpressure_reject : PendingState → ℕ → LeaseError
  lease_conflict : LeaseError
  owner_mismatch : LeaseError

pub data LeaseResult {ℓ} (A : Type ℓ) : Type ℓ where
  granted : A → LeaseResult A
  refused : LeaseError → LeaseResult A
