-- ===== src/Pending/Queries/Expired.antt =====
-- The states that `ListExpired` returns: cdmp-mini/internal/pkg/usercache/pending_state_memory.go.
use cdmp_mini.Base.{
  ℕ, ◌-◌, ◌≤◌, ◌≡◌, zero, suc, List, [], ◌∷◌, ◌++◌, length, length-append, leb, ◌==◌, if◌then◌else◌,
  All, All-append, Bool-cases, inl, inr, arith, true,
}
use cdmp_mini.Pending.Lease.{LeaseState, Shard, MemoryCoordinator, PendingState}
use cdmp_mini.Pending.State.{prune_at, shard_at, is_expired, build_state}
use cdmp_mini.Pending.Queries.{expired_states, list_shards, list_expired}

abbrev pub IsExpired : PendingState → Type 0
IsExpired state = state.state ≡ LeaseState.expired

-- The states found so far, at most `limit` of them and all expired.
pub record IsListing (limit : ℕ) (states : List PendingState) : Type 0 where
  pub few : length states ≤ limit
  pub expired : All IsExpired states

is_expired-true : (s : LeaseState) → is_expired s ≡ true → s ≡ LeaseState.expired
is_expired-true s h = ground arith

expired_states-IsListing :
    (m : MemoryCoordinator) (now room : ℕ) (shard : Shard)
    → IsListing room (expired_states m now room shard)
unfolding expired_states build_state
expired_states-IsListing m now room [] = record { few = omega arith; expired = tt }
expired_states-IsListing m now zero (entry ∷ shard) = record { few = omega arith; expired = tt }
expired_states-IsListing m now (suc room) ((username, e) ∷ shard) =
    elim (Bool-cases (is_expired e.state)) [
      | inl yes' ↦
          let rest = expired_states-IsListing m now room shard in
          rw yes' (record {
            few = omega (arith, rest.few);
            expired = (is_expired-true e.state yes', rest.expired);
          })
      | inr no' ↦ rw no' (expired_states-IsListing m now (suc room) shard)
    ]

list_shards-IsListing :
    (rounds : ℕ) (m : MemoryCoordinator) (now limit i : ℕ) (found : List PendingState)
    → IsListing limit found
    → IsListing limit (list_shards rounds m now limit i found).1
unfolding list_shards
list_shards-IsListing zero m now limit i found h = h
list_shards-IsListing (suc rounds) m now limit i found h =
    let m' = prune_at m i now in
    let new = expired_states m' now (limit - length found) (shard_at m' i) in
    let here = expired_states-IsListing m' now (limit - length found) (shard_at m' i) in
    let both : IsListing limit (found ++ new) = record {
      few = omega (arith, length-append found new, here.few, h.few);
      expired = All-append IsExpired found new h.expired here.expired;
    } in
    elim (Bool-cases (leb limit (length (found ++ new)))) [
      | inl enough ↦ rw enough both
      | inr short ↦ rw short (list_shards-IsListing rounds m' now limit (suc i) (found ++ new) both)
    ]

-- ListExpired returns no more states than the limit, 64 of them where no positive limit is given,
-- and each of them is expired.
pub list_expired-IsListing :
    (m : MemoryCoordinator) (now limit : ℕ)
    → IsListing (if limit == 0 then 64 else limit) (list_expired m now limit).1
unfolding list_expired
list_expired-IsListing m now limit =
    list_shards-IsListing (length m.shards) m now _ 0 []
      (record { few = omega arith; expired = tt })
