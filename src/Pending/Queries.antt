-- ===== src/Pending/Queries.antt =====
-- The reads of the in-memory pending coordinator, which prune first and so write too:
-- cdmp-mini/internal/pkg/usercache/pending_state_memory.go. Tracing and metrics are left out.
pub mod Expired
use cdmp_mini.Base.{
  ℕ, String, Option, none, some, List, [], ◌∷◌, leb, ◌==◌, if◌then◌else◌, length, ◌-◌, ◌++◌, zero,
  suc,
}
use cdmp_mini.Base.Text.{is_empty, trim_space}
use cdmp_mini.Pending.Level.{Level}
use cdmp_mini.Pending.Lease.{LeaseEntry, Shard, MemoryCoordinator, PendingState}
use cdmp_mini.Pending.Expiry.{is_lease, prune_all}
use cdmp_mini.Pending.State.{
  unknown_state, build_state, index_of, shard_at, entry_of, prune_at, classify_global,
  classify_user, is_expired,
}

observed : MemoryCoordinator → ℕ → String → Option LeaseEntry → PendingState
unfolding build_state
observed m now username none = unknown_state
observed m now username (some e) = build_state m username e now

unfoldable pub observe : MemoryCoordinator → ℕ → String → MemoryCoordinator × PendingState
unfolding prune_at observed
observe m now username =
    let trimmed = trim_space username in
    let m' = prune_at m (index_of m trimmed) now in
    if is_empty trimmed
    then (m, unknown_state)
    else (m', observed m' now trimmed (entry_of m' trimmed))

unfoldable pub sample_queue_depth : MemoryCoordinator → ℕ → MemoryCoordinator × (ℕ × Level)
unfolding prune_all
sample_queue_depth m now =
    let (shards, active) = prune_all m.cfg now m.shards m.active_count in
    let m' = record m { shards = shards; active_count = active } in
    (m', (active, classify_global m' active))

user_depth : MemoryCoordinator → Option LeaseEntry → ℕ × Level
user_depth m none = (0, Level.none)
user_depth m (some e) = if is_lease e.state then (1, classify_user m 1) else (0, Level.none)

unfoldable pub sample_user_queue_depth :
    MemoryCoordinator → ℕ → String → MemoryCoordinator × (ℕ × Level)
unfolding prune_at user_depth
sample_user_queue_depth m now username =
    let trimmed = trim_space username in
    let m' = prune_at m (index_of m trimmed) now in
    if is_empty trimmed then (m, (0, Level.none)) else (m', user_depth m' (entry_of m' trimmed))

-- The inner loop of `ListExpired`, which has room for `room` more states.
unfoldable pub expired_states : MemoryCoordinator → ℕ → ℕ → Shard → List PendingState
unfolding build_state
expired_states m now room [] = []
expired_states m now zero ((username, e) ∷ shard) = []
expired_states m now (suc room) ((username, e) ∷ shard) =
    let built = build_state m username e now in
    let rest = expired_states m now room shard in
    let skipped = expired_states m now (suc room) shard in
    if is_expired e.state then built ∷ rest else skipped

-- The outer loop, over the `rounds` shards from `i` on.
unfoldable pub list_shards :
    ℕ → MemoryCoordinator → ℕ → ℕ → ℕ → List PendingState → MemoryCoordinator × List PendingState
unfolding prune_at expired_states
list_shards zero m now limit i found = (m, found)
list_shards (suc rounds) m now limit i found =
    let m' = prune_at m i now in
    let found' = found ++ expired_states m' now (limit - length found) (shard_at m' i) in
    let rest = list_shards rounds m' now limit (suc i) found' in
    if leb limit (length found') then (m', found') else rest

-- `ListExpired`; a limit that is not positive stands as 0.
unfoldable pub list_expired : MemoryCoordinator → ℕ → ℕ → MemoryCoordinator × List PendingState
unfolding list_shards
list_expired m now limit =
    list_shards (length m.shards) m now (if limit == 0 then 64 else limit) 0 []
