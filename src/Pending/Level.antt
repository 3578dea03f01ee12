-- ===== src/Pending/Level.antt =====
-- Backpressure levels and their classification:
-- cdmp-mini/internal/pkg/usercache/pending_state_machine.go and backpressure_profile.go.
-- Depths, limits and delays that are not positive stand as 0: every test in this code tells positive
-- values from the others only.
pub mod Threshold
pub mod Merge
pub mod Delays
use cdmp_mini.Base.{
  ℕ, ◌≤◌, Bool, true, false, ◌&&◌, ◌||◌, List, [], ◌∷◌, ltb, leb, ◌==◌, if◌then◌else◌,
}

-- `BackpressureLevel`, with the empty string for `unset`.
pub data Level : Type 0 where
  unset none elevated severe : Level

pub record DelayBucket : Type 0 where
  pub depth : ℕ
  pub delay : ℕ

pub record DelayProfile : Type 0 where
  pub elevated : List DelayBucket
  pub severe : List DelayBucket
  pub elevated_bucket_count : ℕ
  pub severe_bucket_count : ℕ
  pub elevated_max_depth : ℕ
  pub severe_max_depth : ℕ

-- `backpressureRank`
abbrev pub rank : Level → ℕ
rank Level.severe = 2
rank Level.elevated = 1
rank Level.none = 0
rank Level.unset = 0

-- `meetsBackpressureBucket`
unfoldable pub meets_bucket : ℕ → List DelayBucket → Bool
meets_bucket depth [] = false
meets_bucket depth (bucket ∷ buckets) =
    let rest = meets_bucket depth buckets in
    if depth == 0
    then false
    else if bucket.depth == 0
    then rest
    else if leb bucket.depth depth
    then true
    else rest

-- `classifyDepthWithProfile`
unfoldable pub classify : ℕ → DelayProfile → ℕ → ℕ → Level
classify depth profile soft_limit hard_limit =
    if depth == 0
    then Level.none
    else if meets_bucket depth profile.severe
    then Level.severe
    else if meets_bucket depth profile.elevated
    then Level.elevated
    else if ltb 0 hard_limit && leb hard_limit depth
    then Level.severe
    else if ltb 0 soft_limit && leb soft_limit depth
    then Level.elevated
    else Level.none

-- `pickDelay`: the loop keeps the longest delay met so far.
pub pick_from : ℕ → ℕ → List DelayBucket → ℕ
pick_from depth result [] = result
pick_from depth result (bucket ∷ buckets) =
    pick_from depth
      (if bucket.depth == 0 || bucket.delay == 0
        then result
        else if leb bucket.depth depth && ltb result bucket.delay
        then bucket.delay
        else result)
      buckets

unfoldable pub pick_delay : List DelayBucket → ℕ → ℕ
unfolding pick_from
pick_delay buckets depth = pick_from depth 0 buckets

-- `BackpressureDelayProfile.delay`
unfoldable pub delay : DelayProfile → Level → ℕ → ℕ
unfolding pick_delay
delay profile Level.elevated depth = pick_delay profile.elevated depth
delay profile Level.severe depth = pick_delay profile.severe depth
delay profile Level.none depth = 0
delay profile Level.unset depth = 0

abbrev pub is_severe : Level → Bool
is_severe Level.severe = true
is_severe _ = false

abbrev is_none : Level → Bool
is_none Level.none = true
is_none _ = false

-- `mergeBackpressureLevels`: the loop with its `result` so far.
merge_from : Level → List Level → Level
merge_from result [] = result
merge_from result (Level.severe ∷ levels) = Level.severe
merge_from result (Level.elevated ∷ levels) =
    merge_from (if is_none result then Level.elevated else result) levels
merge_from result (Level.none ∷ levels) = merge_from result levels
merge_from result (Level.unset ∷ levels) = merge_from result levels

unfoldable pub merge : List Level → Level
unfolding merge_from
merge levels = merge_from Level.none levels
