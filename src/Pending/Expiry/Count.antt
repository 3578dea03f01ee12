-- ===== src/Pending/Expiry/Count.antt =====
-- The count of active leases while entries expire and are pruned:
-- cdmp-mini/internal/pkg/usercache/pending_state_memory.go.
use cdmp_mini.Base.{
  length, ℕ, ◌+◌, ◌≤◌, String, ◌≡◌, refl, true, none, [], ◌∷◌, if◌then◌else◌, Bool-cases, inl, inr,
  List, total, All, arith,
}
use cdmp_mini.Base.GoMap.{lookup, weigh, Distinct}
use cdmp_mini.Pending.Lease.{LeaseEntry, LeaseConfig, Shard}
use cdmp_mini.Pending.Expiry.{is_lease, maybe_expire, is_stale, prune_shard, prune_all}

-- 1 for an entry that holds its name.
abbrev pub live : LeaseEntry → ℕ
live e = if is_lease e.state then 1 else 0

pub maybe_expire_count :
    (cfg : LeaseConfig) (now : ℕ) (e : LeaseEntry) (active : ℕ)
    → live e ≤ active
    → let (e', active') = maybe_expire cfg now e active in
      (active' + live e ≡ active + live e') × (active' ≤ active)
unfolding maybe_expire
maybe_expire_count cfg now e active h = ground arith

stale_not_live :
    (cfg : LeaseConfig) (e : LeaseEntry) (now : ℕ) → is_stale cfg e now ≡ true → live e ≡ 0
unfolding is_stale
stale_not_live cfg e now h = ground arith

pub prune_shard_count :
    (cfg : LeaseConfig) (now : ℕ) (shard : Shard) (active : ℕ)
    → weigh live shard ≤ active
    → let (shard', active') = prune_shard cfg now shard active in
      (active' + weigh live shard ≡ active + weigh live shard') × (active' ≤ active)
unfolding prune_shard
prune_shard_count cfg now [] active h = (omega arith, omega arith)
prune_shard_count cfg now ((username, e) ∷ shard) active h =
    let (e', active') = maybe_expire cfg now e active in
    let (same, less) = maybe_expire_count cfg now e active (omega arith) in
    let (same', less') = prune_shard_count cfg now shard active' (omega arith) in
    elim (Bool-cases (is_stale cfg e' now)) [
      | inl stale ↦ rw stale (omega (arith, stale_not_live cfg e' now stale), omega arith)
      | inr kept ↦ rw kept (omega arith, omega arith)
    ]

lookup-prune_shard :
    (cfg : LeaseConfig) (now : ℕ) (k : String) (shard : Shard) (active : ℕ)
    → lookup k shard ≡ none
    → lookup k (prune_shard cfg now shard active).0 ≡ none
unfolding prune_shard lookup
lookup-prune_shard cfg now k [] active h = refl
lookup-prune_shard cfg now k ((username, e) ∷ shard) active h =
    ground (arith, lookup-prune_shard cfg now k shard (maybe_expire cfg now e active).1)

pub prune_shard-Distinct :
    (cfg : LeaseConfig) (now : ℕ) (shard : Shard) (active : ℕ)
    → Distinct shard
    → Distinct (prune_shard cfg now shard active).0
unfolding prune_shard
prune_shard-Distinct cfg now [] active d = tt
prune_shard-Distinct cfg now ((username, e) ∷ shard) active d =
    let (e', active') = maybe_expire cfg now e active in
    let rest = prune_shard-Distinct cfg now shard active' d.1 in
    elim (Bool-cases (is_stale cfg e' now)) [
      | inl stale ↦ rw stale rest
      | inr kept ↦ rw kept (lookup-prune_shard cfg now username shard active' d.0, rest)
    ]

pub prune_all_count :
    (cfg : LeaseConfig) (now : ℕ) (shards : List Shard) (active : ℕ)
    → total (weigh live) shards ≤ active
    → let (shards', active') = prune_all cfg now shards active in
      (active' + total (weigh live) shards ≡ active + total (weigh live) shards')
      × (active' ≤ active)
unfolding prune_all
prune_all_count cfg now [] active h = (omega arith, omega arith)
prune_all_count cfg now (shard ∷ shards) active h =
    let active' = (prune_shard cfg now shard active).1 in
    let (same, less) = prune_shard_count cfg now shard active (omega arith) in
    let (same', less') = prune_all_count cfg now shards active' (omega arith) in
    (omega arith, omega arith)

pub prune_all-Distinct :
    (cfg : LeaseConfig) (now : ℕ) (shards : List Shard) (active : ℕ)
    → All Distinct shards
    → All Distinct (prune_all cfg now shards active).0
unfolding prune_all
prune_all-Distinct cfg now [] active d = tt
prune_all-Distinct cfg now (shard ∷ shards) active d = (
  prune_shard-Distinct cfg now shard active d.0,
  prune_all-Distinct cfg now shards (prune_shard cfg now shard active).1 d.1,
)

pub length-prune_all :
    (cfg : LeaseConfig) (now : ℕ) (shards : List Shard) (active : ℕ)
    → length (prune_all cfg now shards active).0 ≡ length shards
unfolding prune_all
length-prune_all cfg now [] active = refl
length-prune_all cfg now (shard ∷ shards) active =
    omega (arith, length-prune_all cfg now shards (prune_shard cfg now shard active).1)
