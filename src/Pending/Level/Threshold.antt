-- ===== src/Pending/Level/Threshold.antt =====
-- The classification against plain thresholds:
-- cdmp-mini/internal/pkg/usercache/backpressure_profile.go.
use cdmp_mini.Base.{
  ◌⊎◌, inr, ℕ, ◌≤◌, ◌<◌, ◌≡◌, refl, false, List, [], ◌∷◌, All, arith, leb, if◌then◌else◌,
}
use cdmp_mini.Pending.Level.{Level, DelayBucket, DelayProfile, meets_bucket, classify}

-- A list of buckets whose first, and no other at a lower depth, starts at `base`.
abbrev pub StartsAt : ℕ → List DelayBucket → Type 0
StartsAt base [] = ⊥
StartsAt base (bucket ∷ buckets) = (bucket.depth ≡ base) × All (λ other. base < other.depth) buckets

meets_none :
    (base depth : ℕ) (buckets : List DelayBucket)
    → depth < base
    → All (λ other. base < other.depth) buckets
    → meets_bucket depth buckets ≡ false
unfolding meets_bucket
meets_none base depth [] lt h = refl
meets_none base depth (bucket ∷ buckets) lt h = ground (arith, meets_none base depth buckets lt h.1)

meets_bucket-StartsAt :
    (base depth : ℕ) (buckets : List DelayBucket)
    → 0 < base
    → StartsAt base buckets
    → meets_bucket depth buckets ≡ leb base depth
unfolding meets_bucket
meets_bucket-StartsAt base depth [] pos h = absurd h
meets_bucket-StartsAt base depth (bucket ∷ buckets) pos h =
    ground (arith, meets_none base depth buckets)

-- `threshold depth soft hard`: severe from the hard limit on, elevated from the soft limit on.
pub threshold : ℕ → ℕ → ℕ → Level
threshold depth soft hard =
    if leb hard depth then Level.severe else if leb soft depth then Level.elevated else Level.none

-- Buckets that start at two limits grade by these, also where the limits given beside them are unset.
pub classify-StartsAt :
    (depth s h soft hard : ℕ) (profile : DelayProfile)
    → 0 < s
    → 0 < h
    → StartsAt s profile.elevated
    → StartsAt h profile.severe
    → (soft ≡ 0) ⊎ (soft ≡ s)
    → (hard ≡ 0) ⊎ (hard ≡ h)
    → classify depth profile soft hard ≡ threshold depth s h
unfolding classify threshold
classify-StartsAt depth s h soft hard profile pos pos' el sv same same' = ground (
  arith,
  meets_bucket-StartsAt s depth profile.elevated pos el,
  meets_bucket-StartsAt h depth profile.severe pos' sv,
)

-- With positive limits and a profile whose elevated buckets start at the soft limit and whose
-- severe buckets start at the hard limit, as ensureDefaults demands, the classification is by the
-- two limits alone: severe from the hard limit on, elevated from the soft limit on, none below.
pub classify-eq-threshold :
    (depth soft hard : ℕ) (profile : DelayProfile)
    → 0 < soft
    → 0 < hard
    → StartsAt soft profile.elevated
    → StartsAt hard profile.severe
    → classify depth profile soft hard ≡ threshold depth soft hard
classify-eq-threshold depth soft hard profile s h el sv =
    classify-StartsAt depth soft hard soft hard profile s h el sv (inr refl) (inr refl)

-- For one user or one instance the global profile stands beside other limits, and a greater depth
-- may be graded lower: where the profile's elevated and severe buckets start at its own limits and
-- a positive hard limit of the user lies below the soft limit of the profile, every depth from the
-- former up to the latter is severe, and every depth from the latter up to the hard limit of the
-- profile is elevated.
pub classify_falls :
    (d e soft hard user_soft user_hard : ℕ) (profile : DelayProfile)
    → 0 < user_hard
    → user_hard ≤ d
    → d < soft
    → soft ≤ e
    → e < hard
    → StartsAt soft profile.elevated
    → StartsAt hard profile.severe
    → (classify d profile user_soft user_hard ≡ Level.severe)
      × (classify e profile user_soft user_hard ≡ Level.elevated)
unfolding classify
classify_falls d e soft hard user_soft user_hard profile pos le lt le' lt' el sv = (
  ground (
    arith,
    meets_bucket-StartsAt soft d profile.elevated (omega arith) el,
    meets_bucket-StartsAt hard d profile.severe (omega arith) sv,
  ),
  ground (
    arith,
    meets_bucket-StartsAt soft e profile.elevated (omega arith) el,
    meets_bucket-StartsAt hard e profile.severe (omega arith) sv,
  ),
)
