-- ===== src/Pending/Profile.antt =====
-- How a delay profile is completed and checked: `validateDelayBuckets` and `ensureDefaults` of
-- cdmp-mini/internal/pkg/usercache/pending_state_machine.go. A panic is a result.
pub mod Accepted
pub mod Fresh
use cdmp_mini.Base.{
  ℕ, ◌+◌, ◌*◌, Bool, true, false, ◌&&◌, not, Option, none, some, List, [], ◌∷◌, ltb, leb, ◌==◌,
  if◌then◌else◌, length,
}
use cdmp_mini.Base.Signed.{millisecond}
use cdmp_mini.Pending.Level.{DelayBucket, DelayProfile}
use cdmp_mini.Pending.Buckets.{clamp_depth, or_else, at_least, normalize, build_buckets}

abbrev default_bucket_count : ℕ
default_bucket_count = 3

abbrev default_depth_multiplier : ℕ
default_depth_multiplier = 8

-- The errors of `validateDelayBuckets`, with the index of the bucket that they name.
pub data BucketError : Type 0 where
  no_buckets : BucketError
  count_mismatch : ℕ → ℕ → BucketError
  delay_missing : ℕ → BucketError
  base_mismatch : ℕ → BucketError
  not_increasing : ℕ → BucketError
  depth_missing : ℕ → BucketError
  max_mismatch : ℕ → ℕ → BucketError

-- The loop of `validateDelayBuckets` from the index `idx` on; the last boundary is the result.
pub data Checked : Type 0 where
  valid_up_to : ℕ → Checked
  invalid : BucketError → Checked

pub check_from : ℕ → ℕ → ℕ → List DelayBucket → Checked
check_from base_depth idx boundary [] = valid_up_to boundary
check_from base_depth idx boundary (bucket ∷ buckets) =
    let rest = check_from base_depth (idx + 1) bucket.depth buckets in
    if bucket.delay == 0
    then invalid (delay_missing idx)
    else if idx == 0 && ltb 0 base_depth && not (bucket.depth == base_depth)
    then invalid (base_mismatch idx)
    else if not (idx == 0) && leb bucket.depth boundary
    then invalid (not_increasing idx)
    else if bucket.depth == 0
    then invalid (depth_missing idx)
    else rest

checked_max : ℕ → Checked → Option BucketError
checked_max configured_max (invalid e) = some e
checked_max configured_max (valid_up_to boundary) =
    if ltb 0 configured_max && not (boundary == configured_max)
    then some (max_mismatch configured_max boundary)
    else none

is_nil : List DelayBucket → Bool
is_nil [] = true
is_nil (bucket ∷ buckets) = false

-- `validateDelayBuckets`
unfoldable pub validate : List DelayBucket → ℕ → ℕ → ℕ → Option BucketError
unfolding check_from checked_max is_nil
validate buckets base_depth expected_count configured_max =
    if is_nil buckets
    then some no_buckets
    else if ltb 0 expected_count && not (length buckets == expected_count)
    then some (count_mismatch expected_count (length buckets))
    else checked_max configured_max (check_from base_depth 0 base_depth buckets)

-- The depth of the last bucket.
last_depth : List DelayBucket → ℕ
last_depth [] = 0
last_depth (bucket ∷ []) = bucket.depth
last_depth (bucket ∷ other ∷ buckets) = last_depth (other ∷ buckets)

-- The buckets that `ensureDefaults` makes of those given.
abbrev completed : (ℕ → ℕ → ℕ → ℕ) → List DelayBucket → ℕ → ℕ → ℕ → ℕ → ℕ → List DelayBucket
completed scaled [] base count base_delay max_delay max_depth =
    build_buckets scaled base count base_delay max_delay max_depth
completed scaled (bucket ∷ buckets) base count base_delay max_delay max_depth =
    normalize (bucket ∷ buckets) max_depth

-- The largest depth that is allowed for buckets from `base` on, where one is configured or not.
abbrev pub allowed_depth : ℕ → ℕ → ℕ
allowed_depth configured base =
    at_least base (or_else (clamp_depth configured) (clamp_depth (base * default_depth_multiplier)))

-- The base delay and the largest delay that `ensureDefaults` leaves.
abbrev pub largest_delay : ℕ → ℕ → ℕ
largest_delay base max_delay = at_least base (or_else max_delay base)

-- `ensureDefaults` ends with the completed profile, or panics with the error of a list of buckets.
pub data Ensured : Type 0 where
  profile_ok : DelayProfile → Ensured
  panics_elevated : BucketError → Ensured
  panics_severe : BucketError → Ensured

-- The limits that `ensureDefaults` reads into the configured ones.
abbrev pub soft_of : ℕ → ℕ
soft_of soft = or_else soft 1

abbrev pub hard_of : ℕ → ℕ → ℕ
hard_of soft hard = or_else hard (soft_of soft)

ensure_checked : DelayProfile → Option BucketError → Option BucketError → Ensured
ensure_checked p (some e) other = panics_elevated e
ensure_checked p none (some e) = panics_severe e
ensure_checked p none none = profile_ok (record p {
  elevated_bucket_count = or_else p.elevated_bucket_count (length p.elevated);
  severe_bucket_count = or_else p.severe_bucket_count (length p.severe);
  elevated_max_depth = or_else p.elevated_max_depth (last_depth p.elevated);
  severe_max_depth = or_else p.severe_max_depth (last_depth p.severe);
})

-- The checks of both lists and the fields that are set after them.
pub check_profile : ℕ → ℕ → DelayProfile → Ensured
unfolding ensure_checked validate last_depth
check_profile soft hard p =
    ensure_checked p (validate p.elevated soft p.elevated_bucket_count p.elevated_max_depth)
      (validate p.severe hard p.severe_bucket_count p.severe_max_depth)

-- The profile with both lists completed, for positive limits.
pub fill : (ℕ → ℕ → ℕ → ℕ) → DelayProfile → ℕ → ℕ → ℕ → ℕ → ℕ → ℕ → DelayProfile
fill scaled p soft hard elevated_base elevated_max severe_base severe_max =
    let eb = or_else elevated_base (20 * millisecond) in
    let sb = or_else severe_base (80 * millisecond) in
    record p {
      elevated =
          completed scaled p.elevated soft (or_else p.elevated_bucket_count default_bucket_count) eb
            (largest_delay eb elevated_max) (allowed_depth p.elevated_max_depth soft);
      severe =
          completed scaled p.severe hard (or_else p.severe_bucket_count default_bucket_count) sb
            (largest_delay sb severe_max) (allowed_depth p.severe_max_depth hard);
    }

-- `ensureDefaults`
unfoldable pub ensure_defaults : (ℕ → ℕ → ℕ → ℕ) → DelayProfile → ℕ → ℕ → ℕ → ℕ → ℕ → ℕ → Ensured
unfolding fill check_profile
ensure_defaults scaled p soft hard elevated_base elevated_max severe_base severe_max =
    let s = soft_of soft in
    let h = hard_of soft hard in
    check_profile s h (fill scaled p s h elevated_base elevated_max severe_base severe_max)
