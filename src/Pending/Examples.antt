-- ===== src/Pending/Examples.antt =====
-- Runs of the pending coordinator on small inputs: cdmp-mini/internal/pkg/usercache.
use cdmp_mini.Base.Signed.{millisecond}
use cdmp_mini.Pending.Tuning.Grading.{GradesByLimits, update_profile-GradesByLimits}
use cdmp_mini.Pending.Tuning.{update_profile}
use cdmp_mini.Pending.Buckets.Staircase.{IsStaircase, normalize-IsStaircase}
use cdmp_mini.Pending.Buckets.{clamp_depth, normalize}
use cdmp_mini.Pending.Queries.{list_expired}
use cdmp_mini.Pending.Queries.Expired.{IsListing, list_expired-IsListing}
use cdmp_mini.Base.{◌*◌, ◌/◌, ℕ, ◌≤◌, ◌≡◌, refl, true, false, none, some, List, [], ◌∷◌, All, arith}
use cdmp_mini.Base.Text.{trim_space}
use cdmp_mini.Base.GoMap.{lookup, insert}
use cdmp_mini.Pending.Level.{Level, DelayProfile, classify, pick_delay, meets_bucket}
use cdmp_mini.Pending.Level.Threshold.{threshold, classify-eq-threshold}
use cdmp_mini.Pending.Level.Delays.{met_delay, Found, pick_delay_longest}
use cdmp_mini.Pending.Decision.{Decider, steady_level}
use cdmp_mini.Pending.Decision.Steady.{Streak, IsTracking, Switch, steady_level-Switch}
use cdmp_mini.Pending.Hash.{next_power_of_two, fnv32a, shard_index}
use cdmp_mini.Pending.Lease.{
  LeaseMetadata, PendingLease, LeaseConfig, MemoryCoordinator, conflict, owner_mismatch, granted,
  refused,
}
use cdmp_mini.Pending.Expiry.{prune_shard, heartbeat_lost, lease_over}
use cdmp_mini.Pending.Coordinator.{new_entry, acquire, release, beaten_entry, heartbeat}
use cdmp_mini.Pending.State.{new_coordinator, build_state, entry_of, prune_at, store_entry}
use cdmp_mini.Pending.Coordinator.Invariant.{new_coordinator-IsValid, IsValid}
use cdmp_mini.Pending.Coordinator.Reach.{step-IsValid, LeaseStep, LeaseReach, LeaseReach-IsValid}
use cdmp_mini.Pending.Coordinator.Held.{IsHeld, acquire_held}
use cdmp_mini.Pending.Coordinator.Grant.{granted_entry, IsGranted, acquire-IsGranted}
use cdmp_mini.Pending.Coordinator.Exclusion.{
  str_eq-apart, other_owner_refused, acquire-acquire_conflict, heartbeat-acquire_conflict,
}

fnv_values : (next_power_of_two 32 ≡ 32) × (next_power_of_two 33 ≡ 64) × (fnv32a "a" ≡ 3826002220)
unfolding next_power_of_two fnv32a
fnv_values = (refl, refl, refl)

abbrev profile : DelayProfile
profile = record {
  elevated = record { depth = 10; delay = 5 } ∷ record { depth = 15; delay = 9 } ∷ [];
  severe = record { depth = 20; delay = 30 } ∷ [];
  elevated_bucket_count = 0;
  severe_bucket_count = 0;
  elevated_max_depth = 0;
  severe_max_depth = 0;
}

abbrev config : LeaseConfig
config = record {
  lease_ttl = 60;
  release_retention = 5;
  expired_retention = 5;
  expired_grace_period = 10;
  heartbeat_timeout = 0;
  soft_limit = 10;
  hard_limit = 20;
  user_soft_limit = 1;
  user_hard_limit = 5;
  elevated_delay_base = 0;
  elevated_delay_max = 0;
  severe_delay_base = 0;
  severe_delay_max = 0;
}

abbrev meta : LeaseMetadata
meta = record {
  username = "alice";
  request_id = "r-1";
  operator = "";
  client_ip = "";
  legacy_request_id = "";
  backend = "memory";
}

abbrev alice_lease : PendingLease
alice_lease = record {
  username = "alice";
  owner_id = "owner-1";
  acquire_at = 100;
  lease_expires_at = 160;
  heartbeat_at = 100;
  queue_depth = 1;
  backpressure = Level.none;
  metadata = meta;
}

abbrev empty : MemoryCoordinator
empty = new_coordinator config profile

abbrev held : MemoryCoordinator
held = (acquire empty 0 100 "owner-1" " alice" meta).0

empty-IsValid : IsValid empty
empty-IsValid = new_coordinator-IsValid config profile

held_reach : LeaseReach config profile held
held_reach =
    LeaseReach.step LeaseReach.start (LeaseStep.acquiring empty 0 100 "owner-1" " alice" meta)

LeaseReach-IsValid_example : IsValid held
LeaseReach-IsValid_example = LeaseReach-IsValid config profile held held_reach

held-IsValid : IsValid held
held-IsValid =
    step-IsValid empty held (LeaseStep.acquiring empty 0 100 "owner-1" " alice" meta) empty-IsValid

alice_granted : (acquire empty 0 100 "owner-1" " alice" meta).1 ≡ granted alice_lease
unfolding acquire new_coordinator trim_space prune_at prune_shard lookup new_entry classify
    shard_index fnv32a meets_bucket
alice_granted = refl

alice_held : entry_of held "alice" ≡ some (granted_entry 100 meta alice_lease)
unfolding trim_space
alice_held =
    (acquire-IsGranted empty 0 100 "owner-1" " alice" meta alice_lease empty-IsValid
      alice_granted).stored

held_cfg : held.cfg ≡ config
unfolding acquire new_coordinator trim_space prune_at prune_shard lookup new_entry classify
    shard_index fnv32a meets_bucket
held_cfg = refl

alice_beats : (heartbeat held 155 "alice" "owner-1").1 ≡ none
unfolding acquire new_coordinator trim_space prune_at prune_shard lookup new_entry classify
    shard_index fnv32a meets_bucket store_entry insert heartbeat
alice_beats = refl

alice-IsHeld : IsHeld config (granted_entry 100 meta alice_lease) 150
unfolding heartbeat_lost lease_over
alice-IsHeld = record { leased = refl; beating = refl; running = refl }

acquire-IsGranted_example :
    IsGranted
      (acquire empty 0 100 "owner-1" " alice" meta).0
      0
      100
      "owner-1"
      "alice"
      meta
      alice_lease
unfolding trim_space
acquire-IsGranted_example =
    acquire-IsGranted empty 0 100 "owner-1" " alice" meta alice_lease empty-IsValid alice_granted

acquire_held_example :
    let (m', result) = acquire held 1 150 "owner-2" "alice" meta in
    (result
      ≡ refused (
          conflict
            (build_state m' "alice" (granted_entry 100 meta alice_lease) 150)
            m'.active_count))
    × (entry_of m' "alice" ≡ some (granted_entry 100 meta alice_lease))
unfolding trim_space
acquire_held_example =
    acquire_held held 1 150 "owner-2" "alice" meta (granted_entry 100 meta alice_lease) held-IsValid
      refl alice_held (rw held_cfg alice-IsHeld)

acquire-acquire_conflict_example :
    let (m', result) = acquire held 1 150 "owner-2" " alice" meta in
    (result
      ≡ refused (
          conflict
            (build_state m' "alice" (granted_entry 100 meta alice_lease) 150)
            m'.active_count))
    × (entry_of m' "alice" ≡ some (granted_entry 100 meta alice_lease))
unfolding trim_space
acquire-acquire_conflict_example =
    acquire-acquire_conflict empty 0 100 "owner-1" " alice" meta alice_lease 1 150 "owner-2" meta
      empty-IsValid alice_granted (rw held_cfg (omega arith, λ pos. ground arith))

other_owner_refused_example :
    (release held 150 "alice" "owner-2" ≡ (held, refused owner_mismatch))
    × (heartbeat held 150 "alice" "owner-2" ≡ (held, some owner_mismatch))
unfolding trim_space
other_owner_refused_example =
    other_owner_refused held 150 "alice" "owner-2" (granted_entry 100 meta alice_lease) refl
      alice_held refl refl refl (str_eq-apart "owner-1" "owner-2" refl)
      (str_eq-apart "owner-1" "owner-2" refl)

heartbeat-acquire_conflict_example :
    let e = beaten_entry held.cfg 155 (granted_entry 100 meta alice_lease) in
    let (m', result) =
      acquire (heartbeat held 155 "alice" "owner-1").0 1 200 "owner-2" "alice" meta in
    (result ≡ refused (conflict (build_state m' "alice" e 200) m'.active_count))
    × (entry_of m' "alice" ≡ some e)
unfolding trim_space
heartbeat-acquire_conflict_example =
    heartbeat-acquire_conflict held 155 "alice" "owner-1" (granted_entry 100 meta alice_lease) 1 200
      "owner-2" meta held-IsValid refl refl alice_held alice_beats (rw held_cfg (omega arith))
      (rw held_cfg (omega arith, λ pos. ground arith))

classify-eq-threshold_example : classify 12 profile 10 20 ≡ threshold 12 10 20
classify-eq-threshold_example =
    classify-eq-threshold 12 10 20 profile (omega arith) (omega arith) (refl, (omega arith, tt))
      (refl, tt)

abbrev sampled : List Level
sampled = Level.none ∷ Level.severe ∷ Level.elevated ∷ []

pick_delay_longest_example :
    (pick_delay profile.elevated 12 ≤ pick_delay profile.elevated 15)
    × All (λ bucket. met_delay 12 bucket ≤ pick_delay profile.elevated 12) profile.elevated
    × Found 12 0 (pick_delay profile.elevated 12) profile.elevated
pick_delay_longest_example = pick_delay_longest 12 3 profile.elevated

abbrev decider : Decider
decider = record {
  isolate_instance_severe = true;
  isolate_user_severe = false;
  anti_shake_interval = 10;
  last_level = Level.none;
  last_at = 100;
  pending_level = Level.severe;
  pending_since = 105;
}

decider-IsTracking : IsTracking decider ((Level.severe, 105) ∷ [])
decider-IsTracking = record { streak = λ h. Streak.begins [] }

steady_level-Switch_example :
    let (returned, c) = steady_level decider Level.severe 120 in
    (returned ≡ c.last_level)
    × IsTracking c ((Level.severe, 120) ∷ (Level.severe, 105) ∷ [])
    × Switch decider Level.severe 120 ((Level.severe, 105) ∷ []) returned
steady_level-Switch_example =
    steady_level-Switch decider Level.severe 120 ((Level.severe, 105) ∷ []) (omega arith)
      (λ h. ground arith) decider-IsTracking

list_expired-IsListing_example : IsListing 64 (list_expired held 180 0).1
list_expired-IsListing_example = list_expired-IsListing held 180 0

-- Steps of the same size between the base and the largest delay.
abbrev even : ℕ → ℕ → ℕ → ℕ
even i n spread = i * spread / n

normalize-IsStaircase_example : IsStaircase (clamp_depth 30) (
    normalize
      (record { depth = 20; delay = 9 }
        ∷ record { depth = 5; delay = 70 }
        ∷ record { depth = 20; delay = 3 }
        ∷ [])
      30)
normalize-IsStaircase_example =
    normalize-IsStaircase
      (record { depth = 20; delay = 9 }
        ∷ record { depth = 5; delay = 70 }
        ∷ record { depth = 20; delay = 3 }
        ∷ [])
      30

abbrev steps : DelayProfile
steps = record {
  elevated = record { depth = 10; delay = 5 * millisecond } ∷ [];
  severe = record { depth = 20; delay = 30 * millisecond } ∷ [];
  elevated_bucket_count = 1;
  severe_bucket_count = 1;
  elevated_max_depth = 10;
  severe_max_depth = 20;
}

update_profile-GradesByLimits_example :
    GradesByLimits config (update_profile even (new_coordinator config profile) steps).0 12
unfolding update_profile normalize new_coordinator
update_profile-GradesByLimits_example =
    update_profile-GradesByLimits even (new_coordinator config profile) steps steps 12 refl
