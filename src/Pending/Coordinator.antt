-- ===== src/Pending/Coordinator.antt =====
-- The operations of the in-memory pending coordinator:
-- cdmp-mini/internal/pkg/usercache/pending_state_memory.go. Each holds the lock of the shard that it
-- works on, so it is one step on the entries of the shard; it reads the clock once, as `now`. The count
-- of active leases is one atomic number for all the shards: `Acquire` reads it before it adds to it, and
-- calls on other shards may change it in between, so what it read is the argument `loaded`. Tracing and
-- metrics are left out.
pub mod Held
pub mod Grant
pub mod Exclusion
pub mod Invariant
pub mod Steps
pub mod Reach
use text.Mathlib.Text.{◌==◌ as str_eq}
use cdmp_mini.Base.{
  ℕ, suc, ◌+◌, ◌-◌, String, Bool, true, false, not, ◌&&◌, Option, none, some, List, [], ◌∷◌, ◌++◌,
  ltb, leb, ◌==◌, if◌then◌else◌, length, get_or, set, replicate,
}
use cdmp_mini.Base.GoMap.{lookup, insert, delete}
use cdmp_mini.Base.Text.{is_empty, trim_space}
use cdmp_mini.Pending.Level.{Level, DelayProfile, classify}
use cdmp_mini.Pending.Hash.{next_power_of_two, shard_index}
use cdmp_mini.Pending.Lease.{
  LeaseState, LeaseMetadata, PendingLease, LeaseEntry, LeaseConfig, Shard, MemoryCoordinator,
  PendingState, LeaseError, username_required, conflict, backpressure_reject, lease_conflict,
  owner_mismatch, LeaseResult, granted, refused,
}
use cdmp_mini.Pending.State.{
  new_coordinator, classify_global, classify_user, unknown_state, is_expired, build_state, index_of,
  shard_at, entry_of, set_shard, prune_at, store_entry, delete_entry,
}
use cdmp_mini.Pending.Expiry.{is_lease, maybe_expire, blocks, prune_shard, prune_all}

-- The lease and the entry that `Acquire` makes; `owner` is what `uuid.NewString` returns.
unfoldable pub new_entry : MemoryCoordinator → ℕ → ℕ → String → String → LeaseMetadata → LeaseEntry
new_entry m active now owner username meta =
    let made : PendingLease = record {
      username = username;
      owner_id = owner;
      acquire_at = now;
      lease_expires_at = now + m.cfg.lease_ttl;
      heartbeat_at = now;
      queue_depth = active + 1;
      backpressure = classify_global m (active + 1);
      metadata = meta;
    } in
    record {
      lease = made;
      metadata = meta;
      state = LeaseState.lease;
      released_at = 0;
      expired_at = 0;
      expired_reason = "";
      last_heartbeat = now;
    }

-- The rest of `Acquire`, once no entry stands against it.
unfoldable pub admit :
    MemoryCoordinator
    → ℕ
    → ℕ
    → String
    → String
    → LeaseMetadata
    → MemoryCoordinator × LeaseResult PendingLease
unfolding new_entry store_entry
admit m active now owner username meta =
    if ltb 0 m.cfg.hard_limit && leb m.cfg.hard_limit active
    then (
      m,
      refused (
          backpressure_reject
            (record unknown_state { queue_depth = active; backpressure = Level.severe }) active),
    )
    else (
      store_entry m username (new_entry m active now owner username meta) (m.active_count + 1),
      granted (new_entry m active now owner username meta).lease,
    )

-- `Acquire` with the entry that it finds after pruning.
pub acquire_found :
    MemoryCoordinator
    → ℕ
    → ℕ
    → String
    → String
    → LeaseMetadata
    → Option LeaseEntry
    → MemoryCoordinator × LeaseResult PendingLease
unfolding maybe_expire blocks admit store_entry delete_entry build_state
acquire_found m loaded now owner username meta none = admit m loaded now owner username meta
acquire_found m loaded now owner username meta (some e) =
    let (e', active) = maybe_expire m.cfg now e m.active_count in
    let m' = store_entry m username e' active in
    if blocks m.cfg e' now
    then (m', refused (conflict (build_state m' username e' now) active))
    else admit (delete_entry m' username) loaded now owner username meta

unfoldable pub acquire :
    MemoryCoordinator
    → ℕ
    → ℕ
    → String
    → String
    → LeaseMetadata
    → MemoryCoordinator × LeaseResult PendingLease
unfolding prune_at acquire_found
acquire m loaded now owner username meta =
    let trimmed = trim_space username in
    let m' = prune_at m (index_of m trimmed) now in
    if is_empty trimmed
    then (m, refused username_required)
    else acquire_found m' loaded now owner trimmed meta (entry_of m' trimmed)

-- Whether a caller is not the owner of a lease; an empty name on either side passes.
abbrev pub mismatches : LeaseEntry → String → Bool
mismatches e owner =
    not (is_empty owner) && not (is_empty e.lease.owner_id) && not (str_eq e.lease.owner_id owner)

unfoldable pub released_entry : ℕ → LeaseEntry → LeaseEntry
released_entry now e = record e {
  lease = if e.lease.acquire_at == 0 then e.lease else record e.lease { lease_expires_at = now };
  state = LeaseState.released;
  released_at = now;
}

pub release_found :
    MemoryCoordinator → ℕ → String → String → Option LeaseEntry → MemoryCoordinator × LeaseResult ℕ
unfolding released_entry store_entry
release_found m now username owner none = (m, granted 0)
release_found m now username owner (some e) =
    if mismatches e owner then (m, refused owner_mismatch) else (
      store_entry m username (released_entry now e)
          (if is_lease e.state then m.active_count - 1 else m.active_count),
      granted (if e.lease.acquire_at == 0 then 0 else now - e.lease.acquire_at),
    )

-- `Release`, which compares the owner as it is given.
unfoldable pub release : MemoryCoordinator → ℕ → String → String → MemoryCoordinator × LeaseResult ℕ
unfolding release_found
release m now username owner =
    let trimmed = trim_space username in
    if is_empty trimmed
    then (m, granted 0)
    else release_found m now trimmed owner (entry_of m trimmed)

unfoldable pub beaten_entry : LeaseConfig → ℕ → LeaseEntry → LeaseEntry
beaten_entry cfg now e = record e {
  lease = record e.lease {
    heartbeat_at = now;
    lease_expires_at = if cfg.lease_ttl == 0 then e.lease.lease_expires_at else now + cfg.lease_ttl;
  };
  last_heartbeat = now;
  expired_reason = "";
}

pub heartbeat_found :
    MemoryCoordinator
    → ℕ
    → String
    → String
    → Option LeaseEntry
    → MemoryCoordinator × Option LeaseError
unfolding beaten_entry store_entry
heartbeat_found m now username owner none = (m, some lease_conflict)
heartbeat_found m now username owner (some e) =
    if not (is_lease e.state)
    then (m, some lease_conflict)
    else if not (is_empty e.lease.owner_id) && not (str_eq e.lease.owner_id owner)
    then (m, some owner_mismatch)
    else (store_entry m username (beaten_entry m.cfg now e) m.active_count, none)

unfoldable pub heartbeat :
    MemoryCoordinator → ℕ → String → String → MemoryCoordinator × Option LeaseError
unfolding heartbeat_found
heartbeat m now username owner =
    let trimmed = trim_space username in
    let trimmed_owner = trim_space owner in
    if is_empty trimmed
    then (m, none)
    else if is_empty trimmed_owner
    then (m, none)
    else heartbeat_found m now trimmed trimmed_owner (entry_of m trimmed)
