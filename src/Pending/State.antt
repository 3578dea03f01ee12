-- ===== src/Pending/State.antt =====
-- What the methods of the in-memory pending coordinator share: its construction, the shard of a name
-- and its entries, and the state that is reported:
-- cdmp-mini/internal/pkg/usercache/pending_state_memory.go.
use cdmp_mini.Base.{
  ℕ, ◌-◌, String, Bool, true, false, ◌&&◌, Option, [], ltb, ◌==◌, if◌then◌else◌, get_or, set,
  replicate,
}
use cdmp_mini.Base.GoMap.{lookup, insert, delete}
use cdmp_mini.Base.Text.{is_empty}
use cdmp_mini.Pending.Level.{Level, DelayProfile, classify}
use cdmp_mini.Pending.Hash.{next_power_of_two, shard_index}
use cdmp_mini.Pending.Lease.{
  LeaseState, LeaseEntry, LeaseConfig, Shard, MemoryCoordinator, PendingState,
}
use cdmp_mini.Pending.Expiry.{is_lease, prune_shard}

abbrev default_shard_count : ℕ
default_shard_count = 32

-- `newMemoryPendingCoordinator`, with the profile that `ensureDefaults` leaves.
unfoldable pub new_coordinator : LeaseConfig → DelayProfile → MemoryCoordinator
unfolding next_power_of_two
new_coordinator cfg profile = record {
  cfg = cfg;
  shards = replicate (next_power_of_two default_shard_count) [];
  shard_mask = next_power_of_two default_shard_count - 1;
  profile = profile;
  active_count = 0;
}

abbrev pub classify_global : MemoryCoordinator → ℕ → Level
classify_global m depth = classify depth m.profile m.cfg.soft_limit m.cfg.hard_limit

abbrev pub classify_user : MemoryCoordinator → ℕ → Level
classify_user m depth = classify depth m.profile m.cfg.user_soft_limit m.cfg.user_hard_limit

-- `&PendingState{State: PendingStateUnknown}`
abbrev pub unknown_state : PendingState
unknown_state = record {
  is_known = false;
  state = LeaseState.unknown;
  lease_owner = "";
  ttl = 0;
  lease_expires_at = 0;
  heartbeat_at = 0;
  released_at = 0;
  username = "";
  expired_at = 0;
  expired_reason = "";
  backpressure = Level.unset;
  queue_depth = 0;
  user_queue_depth = 0;
  instance_queue_depth = 0;
  user_backpressure = Level.unset;
  instance_backpressure = Level.unset;
}

abbrev is_released : LeaseState → Bool
is_released LeaseState.released = true
is_released _ = false

abbrev pub is_expired : LeaseState → Bool
is_expired LeaseState.expired = true
is_expired _ = false

-- `buildStateLocked`
unfoldable pub build_state : MemoryCoordinator → String → LeaseEntry → ℕ → PendingState
build_state m username e now =
    let depth = m.active_count in
    let lent = ltb 0 e.lease.queue_depth && depth == 0 in
    record {
      is_known = true;
      state = e.state;
      lease_owner = e.lease.owner_id;
      ttl = e.lease.lease_expires_at - now;
      lease_expires_at = e.lease.lease_expires_at;
      heartbeat_at = if e.lease.heartbeat_at == 0 then e.last_heartbeat else e.lease.heartbeat_at;
      released_at = if is_released e.state then e.released_at else 0;
      username = username;
      expired_at = if is_expired e.state then e.expired_at else 0;
      expired_reason =
          if is_expired e.state
          then (if is_empty e.expired_reason then "timeout" else e.expired_reason)
          else "";
      backpressure = if lent then e.lease.backpressure else classify_global m depth;
      queue_depth = if lent then e.lease.queue_depth else depth;
      user_queue_depth = if is_lease e.state then 1 else 0;
      instance_queue_depth = depth;
      user_backpressure = if is_lease e.state then classify_user m 1 else Level.unset;
      instance_backpressure = classify_global m depth;
    }

abbrev pub index_of : MemoryCoordinator → String → ℕ
index_of m username = shard_index m.shard_mask username

abbrev pub shard_at : MemoryCoordinator → ℕ → Shard
shard_at m idx = get_or m.shards idx []

abbrev pub entry_of : MemoryCoordinator → String → Option LeaseEntry
entry_of m username = lookup username (shard_at m (index_of m username))

abbrev pub set_shard : MemoryCoordinator → ℕ → Shard → ℕ → MemoryCoordinator
set_shard m idx shard active = record m { shards = set m.shards idx shard; active_count = active }

-- `m.pruneShardLocked(shard, now)`
unfoldable pub prune_at : MemoryCoordinator → ℕ → ℕ → MemoryCoordinator
unfolding prune_shard
prune_at m idx now =
    let (shard, active) = prune_shard m.cfg now (shard_at m idx) m.active_count in
    set_shard m idx shard active

unfoldable pub store_entry : MemoryCoordinator → String → LeaseEntry → ℕ → MemoryCoordinator
store_entry m username e active =
    let idx = index_of m username in set_shard m idx (insert username e (shard_at m idx)) active

unfoldable pub delete_entry : MemoryCoordinator → String → MemoryCoordinator
delete_entry m username =
    let idx = index_of m username in
    set_shard m idx (delete username (shard_at m idx)) m.active_count
