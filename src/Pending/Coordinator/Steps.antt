-- ===== src/Pending/Coordinator/Steps.antt =====
-- The steps of the operations of the in-memory pending coordinator, and its invariant:
-- cdmp-mini/internal/pkg/usercache/pending_state_memory.go.
use cdmp_mini.Base.{
  ℕ, ◌+◌, ◌-◌, ◌≤◌, String, ◌≡◌, false, Bool-cases, inl, inr, Option, none, some, List, length,
  arith, suc, zero, leb, ◌++◌, not, ltb, ◌&&◌, ap, ◌∙◌,
}
use text.Mathlib.Text.{◌==◌ as str_eq}
use cdmp_mini.Base.Text.{is_empty}
use cdmp_mini.Base.GoMap.{weigh_found}
use cdmp_mini.Pending.Lease.{
  LeaseMetadata, LeaseEntry, LeaseConfig, MemoryCoordinator, PendingState,
}
use cdmp_mini.Pending.Expiry.{is_lease, maybe_expire, blocks}
use cdmp_mini.Pending.Expiry.Count.{
  live, maybe_expire_count, prune_all_count, prune_all-Distinct, length-prune_all,
}
use cdmp_mini.Pending.Coordinator.{
  new_entry, admit, acquire_found, mismatches, released_entry, release_found, beaten_entry,
  heartbeat_found,
}
use cdmp_mini.Pending.State.{shard_at, entry_of, prune_at, store_entry, delete_entry}
use cdmp_mini.Pending.Coordinator.Invariant.{
  entry_of-le, entry_of-store_entry, entry_of-delete_entry, IsValid, prune_at-IsValid,
  store_entry-IsValid, delete_entry-IsValid,
}
use cdmp_mini.Pending.Queries.{sample_queue_depth, list_shards, expired_states}

blocks-live : (cfg : LeaseConfig) (e : LeaseEntry) (now : ℕ) → blocks cfg e now ≡ false → live e ≡ 0
unfolding blocks
blocks-live cfg e now h = ground arith

admit-IsValid :
    (m : MemoryCoordinator) (loaded now : ℕ) (owner username : String) (meta : LeaseMetadata)
    → IsValid m
    → weigh_found live (entry_of m username) ≡ 0
    → IsValid (admit m loaded now owner username meta).0
unfolding admit new_entry
admit-IsValid m loaded now owner username meta v h =
    elim (Bool-cases (ltb 0 m.cfg.hard_limit && leb m.cfg.hard_limit loaded)) [
      | inl full ↦ rw full v
      | inr room ↦ rw room (
          store_entry-IsValid m v username (new_entry m loaded now owner username meta)
            (m.active_count + 1) (omega (arith, h)))
    ]

-- The entry that `Acquire` finds, expired where it is due and written back.
pub expired_found-IsValid :
    (m : MemoryCoordinator) (now : ℕ) (username : String) (e : LeaseEntry)
    → IsValid m
    → entry_of m username ≡ some e
    → let (e', active) = maybe_expire m.cfg now e m.active_count in
      IsValid (store_entry m username e' active)
expired_found-IsValid m now username e v h =
    let (e', active) = maybe_expire m.cfg now e m.active_count in
    let held = ap (weigh_found live) h in
    let (same, less) =
      maybe_expire_count m.cfg now e m.active_count
        (omega (arith, held, entry_of-le m v username)) in
    store_entry-IsValid m v username e' active (omega (arith, held))

-- The same, once an entry that does not stand in the way is gone.
pub freed-IsValid :
    (m : MemoryCoordinator) (now : ℕ) (username : String) (e : LeaseEntry)
    → IsValid m
    → entry_of m username ≡ some e
    → let (e', active) = maybe_expire m.cfg now e m.active_count in
      blocks m.cfg e' now ≡ false
      → IsValid (delete_entry (store_entry m username e' active) username)
freed-IsValid m now username e v h free =
    let (e', active) = maybe_expire m.cfg now e m.active_count in
    delete_entry-IsValid (store_entry m username e' active)
      (expired_found-IsValid m now username e v h) username
      (ap (weigh_found live) (entry_of-store_entry m v username e' active)
        ∙ blocks-live m.cfg e' now free)

pub acquire_found-IsValid :
    (m : MemoryCoordinator) (loaded now : ℕ) (owner username : String) (meta : LeaseMetadata)
    (found : Option LeaseEntry)
    → IsValid m
    → entry_of m username ≡ found
    → IsValid (acquire_found m loaded now owner username meta found).0
unfolding acquire_found
acquire_found-IsValid m loaded now owner username meta none v h =
    admit-IsValid m loaded now owner username meta v (ap (weigh_found live) h)
acquire_found-IsValid m loaded now owner username meta (some e) v h =
    let (e', active) = maybe_expire m.cfg now e m.active_count in
    let m' = store_entry m username e' active in
    let v' = expired_found-IsValid m now username e v h in
    elim (Bool-cases (blocks m.cfg e' now)) [
      | inl stands ↦ rw stands v'
      | inr free ↦ rw free (
          admit-IsValid (delete_entry m' username) loaded now owner username meta
            (freed-IsValid m now username e v h free)
            (ap (weigh_found live) (entry_of-delete_entry m' v' username)))
    ]

pub release_found-IsValid :
    (m : MemoryCoordinator) (now : ℕ) (username owner : String) (found : Option LeaseEntry)
    → IsValid m
    → entry_of m username ≡ found
    → IsValid (release_found m now username owner found).0
unfolding release_found released_entry
release_found-IsValid m now username owner none v h = v
release_found-IsValid m now username owner (some e) v h =
    let held = ap (weigh_found live) h in
    let le = entry_of-le m v username in
    elim (Bool-cases (mismatches e owner)) [
      | inl other ↦ rw other v
      | inr own ↦
          rw own
            (store_entry-IsValid m v username (released_entry now e) _ (ground (arith, held, le)))
    ]

pub heartbeat_found-IsValid :
    (m : MemoryCoordinator) (now : ℕ) (username owner : String) (found : Option LeaseEntry)
    → IsValid m
    → entry_of m username ≡ found
    → IsValid (heartbeat_found m now username owner found).0
unfolding heartbeat_found beaten_entry
heartbeat_found-IsValid m now username owner none v h = v
heartbeat_found-IsValid m now username owner (some e) v h =
    let held = ap (weigh_found live) h in
    elim (Bool-cases (is_lease e.state)) [
      | inl leased ↦
          rw leased
            (elim (Bool-cases
              (not (is_empty e.lease.owner_id) && not (str_eq e.lease.owner_id owner))) [
                | inl other ↦ rw other v
                | inr own ↦ rw own (
                    store_entry-IsValid m v username (beaten_entry m.cfg now e) m.active_count
                      (omega (arith, held)))
              ])
      | inr ended ↦ rw ended v
    ]

pub sample_queue_depth-IsValid :
    (m : MemoryCoordinator) (now : ℕ) → IsValid m → IsValid (sample_queue_depth m now).0
unfolding sample_queue_depth
sample_queue_depth-IsValid m now v =
    let (same, less) =
      prune_all_count m.cfg now m.shards m.active_count (omega (arith, v.counted)) in
    record {
      sized = omega (arith, length-prune_all m.cfg now m.shards m.active_count, v.sized);
      distinct = prune_all-Distinct m.cfg now m.shards m.active_count v.distinct;
      counted = omega (arith, v.counted);
    }

pub list_shards-IsValid :
    (rounds : ℕ) (m : MemoryCoordinator) (now limit i : ℕ) (found : List PendingState)
    → IsValid m
    → i + rounds ≤ m.shard_mask + 1
    → IsValid (list_shards rounds m now limit i found).0
unfolding list_shards prune_at
list_shards-IsValid zero m now limit i found v h = v
list_shards-IsValid (suc rounds) m now limit i found v h =
    let m' = prune_at m i now in
    let v' = prune_at-IsValid m v i now (omega arith) in
    let found' = found ++ expired_states m' now (limit - length found) (shard_at m' i) in
    elim (Bool-cases (leb limit (length found'))) [
      | inl enough ↦ rw enough v'
      | inr short ↦
          rw short (list_shards-IsValid rounds m' now limit (suc i) found' v' (omega arith))
    ]
