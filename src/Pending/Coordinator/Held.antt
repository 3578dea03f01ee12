-- ===== src/Pending/Coordinator/Held.antt =====
-- Names that are held, and what `Acquire` of one does:
-- cdmp-mini/internal/pkg/usercache/pending_state_memory.go.
use text.Mathlib.Text.{◌==◌ as str_eq}
use cdmp_mini.Base.{
  ℕ, String, ◌≡◌, refl, true, false, Bool-cases, inl, inr, some, [], ◌∷◌, arith, ap, get_or-set,
}
use cdmp_mini.Base.Text.{is_empty, trim_space}
use cdmp_mini.Base.GoMap.{lookup}
use cdmp_mini.Pending.Hash.{shard_index-lt}
use cdmp_mini.Pending.Lease.{
  LeaseState, LeaseMetadata, LeaseEntry, LeaseConfig, Shard, MemoryCoordinator, conflict, refused,
}
use cdmp_mini.Pending.Expiry.{
  is_lease, heartbeat_lost, lease_over, maybe_expire, is_stale, blocks, prune_shard,
}
use cdmp_mini.Pending.Coordinator.{acquire_found, acquire}
use cdmp_mini.Pending.State.{build_state, index_of, shard_at, entry_of, prune_at}
use cdmp_mini.Pending.Coordinator.Invariant.{IsValid, prune_at-IsValid, entry_of-store_entry}

-- An entry in the lease state whose lease has not run out at a time.
pub record IsHeld (cfg : LeaseConfig) (e : LeaseEntry) (now : ℕ) : Type 0 where
  pub leased : e.state ≡ LeaseState.lease
  pub beating : heartbeat_lost cfg e now ≡ false
  pub running : lease_over cfg e now ≡ false

held_is_lease :
    (cfg : LeaseConfig) (e : LeaseEntry) (now : ℕ) → IsHeld cfg e now → is_lease e.state ≡ true
held_is_lease cfg e now h = ap is_lease h.leased

maybe_expire-held :
    (cfg : LeaseConfig) (e : LeaseEntry) (now active : ℕ)
    → IsHeld cfg e now
    → maybe_expire cfg now e active ≡ (e, active)
unfolding maybe_expire
maybe_expire-held cfg e now active h =
    rw (held_is_lease cfg e now h) (rw h.beating (rw h.running refl))

is_stale-held :
    (cfg : LeaseConfig) (e : LeaseEntry) (now : ℕ) → IsHeld cfg e now → is_stale cfg e now ≡ false
unfolding is_stale
is_stale-held cfg e now h = ground (arith, h.leased)

blocks-held :
    (cfg : LeaseConfig) (e : LeaseEntry) (now : ℕ) → IsHeld cfg e now → blocks cfg e now ≡ true
unfolding blocks
blocks-held cfg e now h = ground (arith, h.leased)

-- Pruning leaves a held entry as it is.
lookup-prune_shard-held :
    (cfg : LeaseConfig) (now : ℕ) (k : String) (e : LeaseEntry) (shard : Shard) (active : ℕ)
    → IsHeld cfg e now
    → lookup k shard ≡ some e
    → lookup k (prune_shard cfg now shard active).0 ≡ some e
unfolding prune_shard lookup
lookup-prune_shard-held cfg now k e [] active h found = ground (arith, found)
lookup-prune_shard-held cfg now k e ((j, w) ∷ shard) active h found =
    let rest = lookup-prune_shard-held cfg now k e shard (maybe_expire cfg now w active).1 h in
    elim (Bool-cases (str_eq j k)) [
      | inl same ↦
          let w_e : w ≡ e = ground (arith, found, same) in
          rw w_e (
            rw (maybe_expire-held cfg e now active h)
              (rw (is_stale-held cfg e now h) (rw same refl)))
      | inr differ ↦ ground (arith, found, differ, rest)
    ]

entry_of-prune_at-held :
    (m : MemoryCoordinator) (now : ℕ) (k : String) (e : LeaseEntry)
    → IsValid m
    → IsHeld m.cfg e now
    → entry_of m k ≡ some e
    → entry_of (prune_at m (index_of m k) now) k ≡ some e
unfolding prune_at
entry_of-prune_at-held m now k e v h found =
    let i = index_of m k in
    rw
      (get_or-set m.shards i (prune_shard m.cfg now (shard_at m i) m.active_count).0 []
        (omega (arith, v.sized, shard_index-lt m.shard_mask k)))
      (lookup-prune_shard-held m.cfg now k e (shard_at m i) m.active_count h found)

-- In a valid coordinator, while a name that is not blank is held, Acquire of it is refused with a
-- conflict, which reports the state of the entry that stands, and the entry stays as it is.
pub acquire_held :
    (m : MemoryCoordinator) (loaded now : ℕ) (owner username : String) (meta : LeaseMetadata)
    (e : LeaseEntry)
    → IsValid m
    → is_empty (trim_space username) ≡ false
    → entry_of m (trim_space username) ≡ some e
    → IsHeld m.cfg e now
    → let (m', result) = acquire m loaded now owner username meta in
      (result ≡ refused (conflict (build_state m' (trim_space username) e now) m'.active_count))
      × (entry_of m' (trim_space username) ≡ some e)
unfolding acquire acquire_found
acquire_held m loaded now owner username meta e v named found h =
    let k = trim_space username in
    let m' = prune_at m (index_of m k) now in
    let v' = prune_at-IsValid m v (index_of m k) now (shard_index-lt m.shard_mask k) in
    let stands = entry_of-prune_at-held m now k e v h found in
    rw named (
      rw stands (
        rw (maybe_expire-held m.cfg e now m'.active_count h)
          (rw (blocks-held m.cfg e now h) (refl, entry_of-store_entry m' v' k e m'.active_count))))
