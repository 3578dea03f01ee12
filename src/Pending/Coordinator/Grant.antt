-- ===== src/Pending/Coordinator/Grant.antt =====
-- What a granted `Acquire` leaves:
-- cdmp-mini/internal/pkg/usercache/pending_state_memory.go.
use cdmp_mini.Pending.Coordinator.Steps.{freed-IsValid}
use cdmp_mini.Base.{
  ℕ, ◌+◌, String, ◌≡◌, refl, false, ◌&&◌, Bool-cases, inl, inr, Option, none, some, sym, ltb, leb,
}
use cdmp_mini.Base.Text.{is_empty, trim_space}
use cdmp_mini.Pending.Hash.{shard_index-lt}
use cdmp_mini.Pending.Lease.{
  LeaseState, LeaseMetadata, PendingLease, LeaseEntry, MemoryCoordinator, granted,
}
use cdmp_mini.Pending.Expiry.{maybe_expire, blocks}
use cdmp_mini.Pending.Coordinator.{new_entry, admit, acquire_found, acquire}
use cdmp_mini.Pending.State.{classify_global, index_of, entry_of, prune_at, store_entry}
use cdmp_mini.Pending.Coordinator.Invariant.{IsValid, prune_at-IsValid, entry_of-store_entry}

-- The entry of a lease that was granted at a time.
abbrev pub granted_entry : ℕ → LeaseMetadata → PendingLease → LeaseEntry
granted_entry now meta lease = record {
  lease = lease;
  metadata = meta;
  state = LeaseState.lease;
  released_at = 0;
  expired_at = 0;
  expired_reason = "";
  last_heartbeat = now;
}

-- What a granted `Acquire` at a time leaves, and the lease that it returns, where it read `loaded` as
-- the count of active leases.
pub record IsGranted (m : MemoryCoordinator) (loaded now : ℕ) (owner username : String)
    (meta : LeaseMetadata) (lease : PendingLease) : Type 0 where
  pub stored : entry_of m username ≡ some (granted_entry now meta lease)
  pub owned : lease.owner_id ≡ owner
  pub until : lease.lease_expires_at ≡ now + m.cfg.lease_ttl
  pub beat : lease.heartbeat_at ≡ now
  pub taken : lease.acquire_at ≡ now
  pub depth : lease.queue_depth ≡ loaded + 1
  pub level : lease.backpressure ≡ classify_global m (loaded + 1)

admit-granted :
    (m : MemoryCoordinator) (loaded now : ℕ) (owner username : String) (meta : LeaseMetadata)
    (lease : PendingLease)
    → IsValid m
    → (admit m loaded now owner username meta).1 ≡ granted lease
    → IsGranted (admit m loaded now owner username meta).0 loaded now owner username meta lease
unfolding admit new_entry store_entry
admit-granted m loaded now owner username meta lease v =
    let made = new_entry m loaded now owner username meta in
    elim (Bool-cases (ltb 0 m.cfg.hard_limit && leb m.cfg.hard_limit loaded)) [
      | inl full ↦ rw full (λ h. cc)
      | inr room ↦ rw room (λ h.
          let same : made.lease ≡ lease = cc in
          rw (sym same) (record {
            stored = entry_of-store_entry m v username made (m.active_count + 1);
            owned = refl;
            until = refl;
            beat = refl;
            taken = refl;
            depth = refl;
            level = refl;
          }))
    ]

acquire_found-granted :
    (m : MemoryCoordinator) (loaded now : ℕ) (owner username : String) (meta : LeaseMetadata)
    (lease : PendingLease) (found : Option LeaseEntry)
    → IsValid m
    → entry_of m username ≡ found
    → (acquire_found m loaded now owner username meta found).1 ≡ granted lease
    → IsGranted
        (acquire_found m loaded now owner username meta found).0
        loaded
        now
        owner
        username
        meta
        lease
unfolding acquire_found
acquire_found-granted m loaded now owner username meta lease none v h =
    admit-granted m loaded now owner username meta lease v
acquire_found-granted m loaded now owner username meta lease (some e) v h =
    let e' = (maybe_expire m.cfg now e m.active_count).0 in
    elim (Bool-cases (blocks m.cfg e' now)) [
      | inl stands ↦ rw stands (λ granted. cc)
      | inr free ↦ rw free (
          admit-granted _ loaded now owner username meta lease
            (freed-IsValid m now username e v h free))
    ]

-- In a valid coordinator, a granted Acquire leaves an entry in the lease state under the trimmed
-- name, with the lease that it returns: it belongs to the new owner and runs from now for the
-- configured time, and its depth and level are those of one more than the count of active leases that the call read.
pub acquire-IsGranted :
    (m : MemoryCoordinator) (loaded now : ℕ) (owner username : String) (meta : LeaseMetadata)
    (lease : PendingLease)
    → IsValid m
    → (acquire m loaded now owner username meta).1 ≡ granted lease
    → IsGranted
        (acquire m loaded now owner username meta).0
        loaded
        now
        owner
        (trim_space username)
        meta
        lease
unfolding acquire
acquire-IsGranted m loaded now owner username meta lease v =
    let k = trim_space username in
    let m' = prune_at m (index_of m k) now in
    elim (Bool-cases (is_empty k)) [
      | inl empty ↦ rw empty (λ h. cc)
      | inr named ↦ rw named (
          acquire_found-granted m' loaded now owner k meta lease (entry_of m' k)
            (prune_at-IsValid m v (index_of m k) now (shard_index-lt m.shard_mask k)) refl)
    ]

pub acquire-granted_named :
    (m : MemoryCoordinator) (loaded now : ℕ) (owner username : String) (meta : LeaseMetadata)
    (lease : PendingLease)
    → (acquire m loaded now owner username meta).1 ≡ granted lease
    → is_empty (trim_space username) ≡ false
unfolding acquire
acquire-granted_named m loaded now owner username meta lease =
    elim (Bool-cases (is_empty (trim_space username))) [
      | inl empty ↦ rw empty (λ h. cc)
      | inr named ↦ λ h. named
    ]
