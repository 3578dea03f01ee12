-- ===== src/Pending/Coordinator/Exclusion.antt =====
-- A second caller for a name that is held:
-- cdmp-mini/internal/pkg/usercache/pending_state_memory.go.
use cdmp_mini.Pending.Coordinator.Reach.{LeaseStep, step-IsValid}
use text.Mathlib.Text.{◌==◌ as str_eq}
use cdmp_mini.Base.{
  ℕ, ◌+◌, ◌≤◌, ◌<◌, String, ◌≡◌, ◌≢◌, refl, true, false, not, ◌&&◌, Bool-cases, inl, inr, none,
  some, arith, sym, eq_iff,
}
use cdmp_mini.Base.Text.{is_empty, trim_space, is_empty-trim_space}
use cdmp_mini.Pending.Lease.{
  LeaseState, LeaseMetadata, PendingLease, LeaseEntry, LeaseConfig, MemoryCoordinator, conflict,
  owner_mismatch, granted, refused,
}
use cdmp_mini.Pending.Expiry.{is_lease, heartbeat_lost, lease_over}
use cdmp_mini.Pending.Coordinator.{
  acquire, release_found, release, beaten_entry, heartbeat_found, heartbeat,
}
use cdmp_mini.Pending.State.{build_state, entry_of, store_entry}
use cdmp_mini.Pending.Coordinator.Invariant.{IsValid, entry_of-store_entry}
use cdmp_mini.Pending.Coordinator.Held.{IsHeld, acquire_held}
use cdmp_mini.Pending.Coordinator.Grant.{granted_entry, acquire-IsGranted, acquire-granted_named}

str_eq-false : (a b : String) → a ≢ b → str_eq a b ≡ false
str_eq-false a b apart = elim (Bool-cases (str_eq a b)) [
  | inl same ↦ absurd (apart ((eq_iff a b).0 same))
  | inr differ ↦ differ
]

pub str_eq-apart : (a b : String) → str_eq a b ≡ false → a ≢ b
str_eq-apart a b differ same = let told = (eq_iff a b).1 same in ground (arith, differ, told)

-- A caller whose name is not blank and is not that of the owner of the lease, neither as it is given
-- nor trimmed, gets ErrPendingLeaseOwnerMismatch from Release and from Heartbeat of a name that is not
-- blank and has an entry in the lease state with an owner, and neither changes the coordinator.
pub other_owner_refused :
    (m : MemoryCoordinator) (now : ℕ) (username owner : String) (e : LeaseEntry)
    → is_empty (trim_space username) ≡ false
    → entry_of m (trim_space username) ≡ some e
    → e.state ≡ LeaseState.lease
    → is_empty e.lease.owner_id ≡ false
    → is_empty (trim_space owner) ≡ false
    → e.lease.owner_id ≢ owner
    → e.lease.owner_id ≢ trim_space owner
    → (release m now username owner ≡ (m, refused owner_mismatch))
      × (heartbeat m now username owner ≡ (m, some owner_mismatch))
unfolding release heartbeat release_found heartbeat_found
other_owner_refused m now username owner e named found leased owned given other other_trimmed =
    let differs = str_eq-false e.lease.owner_id owner other in
    let differs_trimmed = str_eq-false e.lease.owner_id (trim_space owner) other_trimmed in
    let given_full = is_empty-trim_space owner given in
    rw named (
      rw found (
        ground (arith, leased, owned, differs, given_full),
        ground (arith, leased, owned, differs_trimmed, given),
      ))

-- A lease that was granted or kept up at a time is still held later, up to its grace period and
-- within the time that a heartbeat may take.
abbrev pub IsWithin : LeaseConfig → ℕ → ℕ → Type 0
IsWithin cfg now later =
    (later ≤ now + cfg.lease_ttl + cfg.expired_grace_period)
    × (0 < cfg.heartbeat_timeout → later < now + cfg.heartbeat_timeout)

granted_entry-IsHeld :
    (cfg : LeaseConfig) (now later : ℕ) (meta : LeaseMetadata) (lease : PendingLease)
    → lease.acquire_at ≡ now
    → lease.lease_expires_at ≡ now + cfg.lease_ttl
    → IsWithin cfg now later
    → IsHeld cfg (granted_entry now meta lease) later
unfolding heartbeat_lost lease_over
granted_entry-IsHeld cfg now later meta lease taken until w = record {
  leased = refl;
  beating = ground (arith, taken, w.1);
  running = ground (arith, until, w.0);
}

-- In a valid coordinator, a granted Acquire of a name shuts out every other: an Acquire of the same
-- name by any caller, made no later than the lease and its grace period run and, where a heartbeat
-- timeout is set, within it, is refused with a conflict that reports the entry of the first, and
-- that entry stays.
pub acquire-acquire_conflict :
    (m : MemoryCoordinator) (loaded now : ℕ) (owner username : String) (meta : LeaseMetadata)
    (lease : PendingLease) (loaded' later : ℕ) (other : String) (other_meta : LeaseMetadata)
    → IsValid m
    → (acquire m loaded now owner username meta).1 ≡ granted lease
    → IsWithin (acquire m loaded now owner username meta).0.cfg now later
    → let k = trim_space username in
      let m' = (acquire m loaded now owner username meta).0 in
      let (m'', result) = acquire m' loaded' later other username other_meta in
      (result
        ≡ refused
            (conflict (build_state m'' k (granted_entry now meta lease) later) m''.active_count))
      × (entry_of m'' k ≡ some (granted_entry now meta lease))
acquire-acquire_conflict m loaded now owner username meta lease loaded' later other other_meta v h
      w =
    let g = acquire-IsGranted m loaded now owner username meta lease v h in
    acquire_held _ loaded' later other username other_meta (granted_entry now meta lease)
      (step-IsValid m _ (LeaseStep.acquiring m loaded now owner username meta) v)
      (acquire-granted_named m loaded now owner username meta lease h) g.stored
      (granted_entry-IsHeld _ now later meta lease g.taken g.until w)

beaten_entry-IsHeld :
    (cfg : LeaseConfig) (now later : ℕ) (e : LeaseEntry)
    → e.state ≡ LeaseState.lease
    → 0 < cfg.lease_ttl
    → IsWithin cfg now later
    → IsHeld cfg (beaten_entry cfg now e) later
unfolding heartbeat_lost lease_over beaten_entry
beaten_entry-IsHeld cfg now later e leased ttl w = record {
  leased = leased;
  beating = ground (arith, w.1);
  running = ground (arith, ttl, w.0);
}

is_lease-true : (s : LeaseState) → is_lease s ≡ true → s ≡ LeaseState.lease
is_lease-true s h = ground arith

-- A heartbeat that reports no error, of a name that has an entry and by a caller that names itself.
heartbeat-taken :
    (m : MemoryCoordinator) (now : ℕ) (username owner : String) (e : LeaseEntry)
    → is_empty (trim_space username) ≡ false
    → is_empty (trim_space owner) ≡ false
    → entry_of m (trim_space username) ≡ some e
    → (heartbeat m now username owner).1 ≡ none
    → ((heartbeat m now username owner).0
        ≡ store_entry m (trim_space username) (beaten_entry m.cfg now e) m.active_count)
      × (e.state ≡ LeaseState.lease)
unfolding heartbeat heartbeat_found
heartbeat-taken m now username owner e named owned found =
    let foreign =
      not (is_empty e.lease.owner_id) && not (str_eq e.lease.owner_id (trim_space owner)) in
    rw named (
      rw owned (
        rw found (elim (Bool-cases (is_lease e.state)) [
          | inl leased ↦ rw leased (elim (Bool-cases foreign) [
            | inl other ↦ rw other (λ h. cc)
            | inr own ↦ rw own (λ h. (refl, is_lease-true e.state leased))
          ])
          | inr ended ↦ rw ended (λ h. cc)
        ])))

-- In a valid coordinator with a lease time set, a heartbeat that is accepted, for a name and an
-- owner that are not blank and a name with an entry, keeps every other caller out for the next
-- term: an Acquire of the name made within the lease time and its grace period after it and, where
-- a heartbeat timeout is set, within it, is refused with a conflict that reports the entry as the
-- heartbeat left it, and that entry stays.
pub heartbeat-acquire_conflict :
    (m : MemoryCoordinator) (now : ℕ) (username owner : String) (e : LeaseEntry) (loaded later : ℕ)
    (other : String) (other_meta : LeaseMetadata)
    → IsValid m
    → is_empty (trim_space username) ≡ false
    → is_empty (trim_space owner) ≡ false
    → entry_of m (trim_space username) ≡ some e
    → (heartbeat m now username owner).1 ≡ none
    → 0 < m.cfg.lease_ttl
    → IsWithin m.cfg now later
    → let k = trim_space username in
      let (m', result) =
        acquire (heartbeat m now username owner).0 loaded later other username other_meta in
      (result
        ≡ refused (conflict (build_state m' k (beaten_entry m.cfg now e) later) m'.active_count))
      × (entry_of m' k ≡ some (beaten_entry m.cfg now e))
unfolding store_entry
heartbeat-acquire_conflict m now username owner e loaded later other other_meta v named owned found
      h ttl w =
    let k = trim_space username in
    let (same, leased) = heartbeat-taken m now username owner e named owned found h in
    rw same (
      acquire_held _ loaded later other username other_meta (beaten_entry m.cfg now e)
        (rw (sym same) (step-IsValid m _ (LeaseStep.beating m now username owner) v)) named
        (entry_of-store_entry m v k (beaten_entry m.cfg now e) m.active_count)
        (beaten_entry-IsHeld m.cfg now later e leased ttl w))
