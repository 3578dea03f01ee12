-- ===== src/Pending/Expiry.antt =====
-- When a lease ends and when its entry goes: `maybeExpireLocked` and `pruneShardLocked` of
-- cdmp-mini/internal/pkg/usercache/pending_state_memory.go. The gauge that they feed is left out.
pub mod Count
use cdmp_mini.Base.{
  ℕ, ◌+◌, ◌-◌, Bool, true, false, not, ◌&&◌, ◌||◌, List, [], ◌∷◌, ltb, leb, ◌==◌, if◌then◌else◌,
}
use cdmp_mini.Pending.Lease.{LeaseState, LeaseEntry, LeaseConfig, Shard}

abbrev pub is_lease : LeaseState → Bool
is_lease LeaseState.lease = true
is_lease _ = false

-- The time of the last sign of life.
abbrev last_seen : LeaseEntry → ℕ
last_seen e = if e.last_heartbeat == 0 then e.lease.acquire_at else e.last_heartbeat

unfoldable pub heartbeat_lost : LeaseConfig → LeaseEntry → ℕ → Bool
heartbeat_lost cfg e now =
    ltb 0 cfg.heartbeat_timeout
    && not (last_seen e == 0)
    && leb cfg.heartbeat_timeout (now - last_seen e)

-- `now.After(LeaseExpiresAt.Add(ExpiredGracePeriod))`
unfoldable pub lease_over : LeaseConfig → LeaseEntry → ℕ → Bool
lease_over cfg e now = ltb (e.lease.lease_expires_at + cfg.expired_grace_period) now

-- `maybeExpireLocked`, with the count of active leases.
unfoldable pub maybe_expire : LeaseConfig → ℕ → LeaseEntry → ℕ → LeaseEntry × ℕ
unfolding heartbeat_lost lease_over
maybe_expire cfg now e active =
    if not (is_lease e.state)
    then (e, active)
    else if heartbeat_lost cfg e now
    then (
      record e {
        state = LeaseState.expired;
        expired_at = now;
        expired_reason = "heartbeat_timeout";
      },
      active - 1,
    )
    else if lease_over cfg e now
    then (
      record e {
        state = LeaseState.expired;
        expired_at = e.lease.lease_expires_at;
        expired_reason = "lease_timeout";
      },
      active - 1,
    )
    else (e, active)

abbrev pub expiry_of : LeaseEntry → ℕ
expiry_of e = if e.expired_at == 0 then e.lease.lease_expires_at else e.expired_at

retained : ℕ → ℕ → Bool
retained retention age = retention == 0 || ltb age retention

stale_in : LeaseState → LeaseConfig → LeaseEntry → ℕ → Bool
stale_in LeaseState.released cfg e now =
    ltb 0 cfg.release_retention && leb cfg.release_retention (now - e.released_at)
stale_in LeaseState.expired cfg e now =
    ltb 0 cfg.expired_retention && leb cfg.expired_retention (now - expiry_of e)
stale_in LeaseState.lease cfg e now = false
stale_in LeaseState.unknown cfg e now = false

-- Whether the loop of `pruneShardLocked` deletes an entry.
unfoldable pub is_stale : LeaseConfig → LeaseEntry → ℕ → Bool
unfolding stale_in
is_stale cfg e now = stale_in e.state cfg e now

blocks_in : LeaseState → LeaseConfig → LeaseEntry → ℕ → Bool
unfolding retained
blocks_in LeaseState.lease cfg e now = true
blocks_in LeaseState.released cfg e now = retained cfg.release_retention (now - e.released_at)
blocks_in LeaseState.expired cfg e now = retained cfg.expired_retention (now - expiry_of e)
blocks_in LeaseState.unknown cfg e now = false

-- Whether the `switch` of `Acquire` refuses the name for the sake of an entry.
unfoldable pub blocks : LeaseConfig → LeaseEntry → ℕ → Bool
unfolding blocks_in
blocks cfg e now = blocks_in e.state cfg e now

-- `pruneShardLocked`
unfoldable pub prune_shard : LeaseConfig → ℕ → Shard → ℕ → Shard × ℕ
unfolding maybe_expire is_stale
prune_shard cfg now [] active = ([], active)
prune_shard cfg now ((username, e) ∷ shard) active =
    let (e', active') = maybe_expire cfg now e active in
    let (rest, active'') = prune_shard cfg now shard active' in
    (if is_stale cfg e' now then rest else (username, e') ∷ rest, active'')

-- `pruneAllShards`
unfoldable pub prune_all : LeaseConfig → ℕ → List Shard → ℕ → List Shard × ℕ
unfolding prune_shard
prune_all cfg now [] active = ([], active)
prune_all cfg now (shard ∷ shards) active =
    let (shard', active') = prune_shard cfg now shard active in
    let (rest, active'') = prune_all cfg now shards active' in (shard' ∷ rest, active'')
