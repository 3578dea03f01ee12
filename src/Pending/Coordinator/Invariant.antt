-- ===== src/Pending/Coordinator/Invariant.antt =====
-- The invariant of the in-memory pending coordinator, and writes of its entries:
-- cdmp-mini/internal/pkg/usercache/pending_state_memory.go.
use cdmp_mini.Base.{
  ℕ, ◌+◌, ◌≤◌, ◌<◌, String, ◌≡◌, refl, none, some, [], length, All, total, total-set, length-set,
  All-get_or, All-set, All-replicate, get_or-le-total, get_or-set, arith,
}
use cdmp_mini.Base.GoMap.{
  insert, delete, Distinct, weigh, weigh_found, weigh-insert, weigh-delete, lookup-insert_self,
  lookup-delete_self, insert-Distinct, delete-Distinct,
}
use cdmp_mini.Pending.Level.{DelayProfile}
use cdmp_mini.Pending.Hash.{shard_index-lt}
use cdmp_mini.Pending.Lease.{LeaseEntry, LeaseConfig, Shard, MemoryCoordinator}
use cdmp_mini.Pending.Expiry.Count.{live, prune_shard_count, prune_shard-Distinct}
use cdmp_mini.Pending.State.{
  new_coordinator, index_of, shard_at, entry_of, set_shard, prune_at, store_entry, delete_entry,
}

-- The count of active leases is the number of entries that hold their name.
pub record IsValid (m : MemoryCoordinator) : Type 0 where
  pub sized : length m.shards ≡ m.shard_mask + 1
  pub distinct : All Distinct m.shards
  pub counted : m.active_count ≡ total (weigh live) m.shards

pub new_coordinator-IsValid :
    (cfg : LeaseConfig) (profile : DelayProfile) → IsValid (new_coordinator cfg profile)
unfolding new_coordinator
new_coordinator-IsValid cfg profile = record {
  sized = refl;
  distinct = All-replicate {V = Shard} Distinct 32 [] tt;
  counted = refl;
}

module _ (m : MemoryCoordinator) (v : IsValid m) where
  pub shard_at-Distinct : (i : ℕ) → Distinct (shard_at m i)
  shard_at-Distinct i = All-get_or Distinct m.shards i [] tt v.distinct

  pub shard_at-le : (i : ℕ) → weigh live (shard_at m i) ≤ m.active_count
  shard_at-le i = omega (arith, get_or-le-total (weigh live) m.shards i [] refl, v.counted)

  -- A new shard in the place of an old one, and a count that moves with the entries.
  pub set_shard-IsValid :
      (i : ℕ) (shard : Shard) (active : ℕ)
      → i < m.shard_mask + 1
      → Distinct shard
      → active + weigh live (shard_at m i) ≡ m.active_count + weigh live shard
      → IsValid (set_shard m i shard active)
  set_shard-IsValid i shard active h d e = record {
    sized = omega (arith, length-set m.shards i shard, v.sized);
    distinct = All-set Distinct m.shards i shard d v.distinct;
    counted =
        omega
          (arith, total-set (weigh live) m.shards i shard [] (omega (arith, v.sized)), v.counted);
  }

  pub prune_at-IsValid : (i now : ℕ) → i < m.shard_mask + 1 → IsValid (prune_at m i now)
  unfolding prune_at
  prune_at-IsValid i now h =
      let (same, less) =
        prune_shard_count m.cfg now (shard_at m i) m.active_count (shard_at-le i) in
      set_shard-IsValid i _ _ h
        (prune_shard-Distinct m.cfg now (shard_at m i) m.active_count (shard_at-Distinct i)) same

  pub store_entry-IsValid :
      (username : String) (e : LeaseEntry) (active : ℕ)
      → active + weigh_found live (entry_of m username) ≡ m.active_count + live e
      → IsValid (store_entry m username e active)
  unfolding store_entry
  store_entry-IsValid username e active h =
      let i = index_of m username in
      set_shard-IsValid i _ _ (shard_index-lt m.shard_mask username)
        (insert-Distinct username e (shard_at m i) (shard_at-Distinct i))
        (omega (arith, weigh-insert live username e (shard_at m i)))

  pub delete_entry-IsValid :
      (username : String)
      → weigh_found live (entry_of m username) ≡ 0
      → IsValid (delete_entry m username)
  unfolding delete_entry
  delete_entry-IsValid username h =
      let i = index_of m username in
      set_shard-IsValid i _ _ (shard_index-lt m.shard_mask username)
        (delete-Distinct username (shard_at m i) (shard_at-Distinct i))
        (omega (arith, weigh-delete live username (shard_at m i) (shard_at-Distinct i)))

  pub entry_of-le : (username : String) → weigh_found live (entry_of m username) ≤ m.active_count
  entry_of-le username =
      let i = index_of m username in
      omega (arith, weigh-delete live username (shard_at m i) (shard_at-Distinct i), shard_at-le i)

  pub entry_of-store_entry :
      (username : String) (e : LeaseEntry) (active : ℕ)
      → entry_of (store_entry m username e active) username ≡ some e
  unfolding store_entry
  entry_of-store_entry username e active =
      let i = index_of m username in
      rw
        (get_or-set m.shards i (insert username e (shard_at m i)) []
          (omega (arith, v.sized, shard_index-lt m.shard_mask username)))
        (lookup-insert_self username e (shard_at m i))

  pub entry_of-delete_entry :
      (username : String) → entry_of (delete_entry m username) username ≡ none
  unfolding delete_entry
  entry_of-delete_entry username =
      let i = index_of m username in
      rw
        (get_or-set m.shards i (delete username (shard_at m i)) []
          (omega (arith, v.sized, shard_index-lt m.shard_mask username)))
        (lookup-delete_self username (shard_at m i))
