-- ===== src/Pending/Coordinator/Reach.antt =====
-- The runs of the in-memory pending coordinator from its construction:
-- cdmp-mini/internal/pkg/usercache/pending_state_memory.go.
use cdmp_mini.Base.{ℕ, String, refl, Bool-cases, inl, inr, [], length, arith}
use cdmp_mini.Base.Text.{is_empty, trim_space}
use cdmp_mini.Pending.Profile.{Ensured, profile_ok, panics_elevated, panics_severe}
use cdmp_mini.Pending.Tuning.{ensure_for, installed, update_profile}
use cdmp_mini.Pending.Coordinator.Steps.{
  acquire_found-IsValid, release_found-IsValid, heartbeat_found-IsValid, sample_queue_depth-IsValid,
  list_shards-IsValid,
}
use cdmp_mini.Pending.Level.{DelayProfile}
use cdmp_mini.Pending.Hash.{shard_index-lt}
use cdmp_mini.Pending.Lease.{LeaseMetadata, LeaseConfig, MemoryCoordinator}
use cdmp_mini.Pending.Coordinator.{acquire, release, heartbeat}
use cdmp_mini.Pending.State.{new_coordinator, index_of, entry_of, prune_at}
use cdmp_mini.Pending.Coordinator.Invariant.{IsValid, new_coordinator-IsValid, prune_at-IsValid}
use cdmp_mini.Pending.Queries.{observe, sample_queue_depth, sample_user_queue_depth, list_expired}

installed-IsValid : (m : MemoryCoordinator) (e : Ensured) → IsValid m → IsValid (installed m e).0
unfolding installed
installed-IsValid m (profile_ok profile) v = record {
  sized = v.sized;
  distinct = v.distinct;
  counted = v.counted;
}
installed-IsValid m (panics_elevated e) v = v
installed-IsValid m (panics_severe e) v = v

update_profile-IsValid :
    (scaled : ℕ → ℕ → ℕ → ℕ) (m : MemoryCoordinator) (profile : DelayProfile)
    → IsValid m
    → IsValid (update_profile scaled m profile).0
unfolding update_profile
update_profile-IsValid scaled m profile v = installed-IsValid m (ensure_for scaled m.cfg profile) v

-- A call of one operation, whatever it returns. The clock is what the call reads, and `loaded` what an
-- `Acquire` read of the count, which calls on other shards may have changed since.
pub data LeaseStep : MemoryCoordinator → MemoryCoordinator → Type 0 where
  acquiring :
      (m : MemoryCoordinator) (loaded now : ℕ) (owner username : String) (meta : LeaseMetadata)
      → LeaseStep m (acquire m loaded now owner username meta).0
  releasing :
      (m : MemoryCoordinator) (now : ℕ) (username owner : String)
      → LeaseStep m (release m now username owner).0
  beating :
      (m : MemoryCoordinator) (now : ℕ) (username owner : String)
      → LeaseStep m (heartbeat m now username owner).0
  observing :
      (m : MemoryCoordinator) (now : ℕ) (username : String) → LeaseStep m (observe m now username).0
  sampling : (m : MemoryCoordinator) (now : ℕ) → LeaseStep m (sample_queue_depth m now).0
  sampling_user :
      (m : MemoryCoordinator) (now : ℕ) (username : String)
      → LeaseStep m (sample_user_queue_depth m now username).0
  tuning :
      (scaled : ℕ → ℕ → ℕ → ℕ) (m : MemoryCoordinator) (profile : DelayProfile)
      → LeaseStep m (update_profile scaled m profile).0
  listing : (m : MemoryCoordinator) (now limit : ℕ) → LeaseStep m (list_expired m now limit).0

pub data LeaseReach (cfg : LeaseConfig) (profile : DelayProfile) : MemoryCoordinator → Type 0 where
  start : LeaseReach cfg profile (new_coordinator cfg profile)
  step :
      {m n : MemoryCoordinator}
      → LeaseReach cfg profile m
      → LeaseStep m n
      → LeaseReach cfg profile n

prune_for-IsValid :
    (m : MemoryCoordinator) (now : ℕ) (username : String)
    → IsValid m
    → IsValid (prune_at m (index_of m username) now)
prune_for-IsValid m now username v =
    prune_at-IsValid m v (index_of m username) now (shard_index-lt m.shard_mask username)

pub step-IsValid : (m n : MemoryCoordinator) → LeaseStep m n → IsValid m → IsValid n
unfolding acquire release heartbeat observe sample_user_queue_depth list_expired prune_at
step-IsValid m _ (acquiring _ loaded now owner username meta) v =
    let trimmed = trim_space username in
    let m' = prune_at m (index_of m trimmed) now in
    elim (Bool-cases (is_empty trimmed)) [
      | inl empty ↦ rw empty v
      | inr named ↦ rw named (
          acquire_found-IsValid m' loaded now owner trimmed meta (entry_of m' trimmed)
            (prune_for-IsValid m now trimmed v) refl)
    ]
step-IsValid m _ (releasing _ now username owner) v =
    let trimmed = trim_space username in
    elim (Bool-cases (is_empty trimmed)) [
      | inl empty ↦ rw empty v
      | inr named ↦ rw named (release_found-IsValid m now trimmed owner (entry_of m trimmed) v refl)
    ]
step-IsValid m _ (beating _ now username owner) v =
    let trimmed = trim_space username in
    let trimmed_owner = trim_space owner in
    elim (Bool-cases (is_empty trimmed)) [
      | inl empty ↦ rw empty v
      | inr named ↦ rw named (elim (Bool-cases (is_empty trimmed_owner)) [
        | inl nobody ↦ rw nobody v
        | inr owned ↦
            rw owned
              (heartbeat_found-IsValid m now trimmed trimmed_owner (entry_of m trimmed) v refl)
      ])
    ]
step-IsValid m _ (observing _ now username) v = elim (Bool-cases (is_empty (trim_space username))) [
  | inl empty ↦ rw empty v
  | inr named ↦ rw named (prune_for-IsValid m now (trim_space username) v)
]
step-IsValid m _ (sampling _ now) v = sample_queue_depth-IsValid m now v
step-IsValid m _ (sampling_user _ now username) v =
    elim (Bool-cases (is_empty (trim_space username))) [
      | inl empty ↦ rw empty v
      | inr named ↦ rw named (prune_for-IsValid m now (trim_space username) v)
    ]
step-IsValid m _ (tuning scaled _ profile) v = update_profile-IsValid scaled m profile v
step-IsValid m _ (listing _ now limit) v =
    list_shards-IsValid (length m.shards) m now _ 0 [] v (omega (arith, v.sized))

-- Whatever calls are made, whatever times they read, and whatever an Acquire read of the count of
-- active leases before it added to it, in the states that a new coordinator comes to that count is the
-- number of entries in the lease state over all shards, no shard has a name twice, and there are as
-- many shards as the mask says.
pub LeaseReach-IsValid :
    (cfg : LeaseConfig) (profile : DelayProfile) (m : MemoryCoordinator)
    → LeaseReach cfg profile m
    → IsValid m
LeaseReach-IsValid cfg profile _ start = new_coordinator-IsValid cfg profile
LeaseReach-IsValid cfg profile n (step {m} r s) =
    step-IsValid m n s (LeaseReach-IsValid cfg profile m r)
