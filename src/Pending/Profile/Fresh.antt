-- ===== src/Pending/Profile/Fresh.antt =====
-- A profile that sets nothing, which `ensureDefaults` fills by `buildDelayBuckets`:
-- cdmp-mini/internal/pkg/usercache/pending_state_machine.go.
use cdmp_mini.Base.{ℕ, ◌+◌, ◌*◌, ◌≤◌, ◌<◌, ◌≡◌, refl, Option, none, some, List, [], ◌∷◌, All, arith}
use cdmp_mini.Base.Signed.{millisecond}
use cdmp_mini.Pending.Level.{DelayBucket, DelayProfile}
use cdmp_mini.Pending.Buckets.{max_depth_cap, or_else, build_buckets}
use cdmp_mini.Pending.Buckets.Staircase.{Climbs, IsClean, IsStaircase}
use cdmp_mini.Pending.Buckets.Built.{
  StartsWith, build_buckets-StartsWith, build_buckets-IsStaircase,
}
use cdmp_mini.Pending.Profile.{
  BucketError, check_from, checked_max, validate, is_nil, profile_ok, soft_of, hard_of,
  ensure_checked, check_profile, fill, ensure_defaults, allowed_depth, largest_delay,
}

-- The profile that configures nothing.
abbrev pub unset_profile : DelayProfile
unset_profile = record {
  elevated = [];
  severe = [];
  elevated_bucket_count = 0;
  severe_bucket_count = 0;
  elevated_max_depth = 0;
  severe_max_depth = 0;
}

checked_max-check_from :
    (base idx m : ℕ) (last : DelayBucket) (buckets : List DelayBucket)
    → 0 < idx
    → Climbs last buckets
    → All (IsClean m) buckets
    → checked_max 0 (check_from base idx last.depth buckets) ≡ none
unfolding checked_max check_from
checked_max-check_from base idx m last [] pos h k = ground arith
checked_max-check_from base idx m last (bucket ∷ buckets) pos h k =
    ground (
      arith,
      k.0,
      h.0,
      checked_max-check_from base (idx + 1) m bucket buckets (omega arith) h.2 k.1,
    )

validate-none :
    (base m : ℕ) (buckets : List DelayBucket)
    → 0 < base
    → StartsWith base buckets
    → IsStaircase m buckets
    → validate buckets base 0 0 ≡ none
unfolding validate is_nil
validate-none base m [] pos s h = absurd s
validate-none base m (bucket ∷ buckets) pos s h = ground (
  arith,
  h.clean_all.0,
  checked_max-check_from base 1 m bucket buckets (omega arith) h.rises h.clean_all.1,
)

ensure_checked-none :
    (p : DelayProfile) (e f : Option BucketError)
    → e ≡ none
    → f ≡ none
    → (q : DelayProfile) × (ensure_checked p e f ≡ profile_ok q)
unfolding ensure_checked
ensure_checked-none p none none he hf = (_, refl)
ensure_checked-none p (some e) f he hf = cc
ensure_checked-none p none (some e) he hf = cc

-- The buckets that are filled in for limits within the cap pass their check.
filled-valid :
    (scaled : ℕ → ℕ → ℕ → ℕ) (base base_delay max_delay : ℕ)
    → 0 < base
    → base ≤ max_depth_cap
    → validate (build_buckets scaled base 3 base_delay max_delay (allowed_depth 0 base)) base 0 0
      ≡ none
filled-valid scaled base bd md pos le =
    validate-none base _ _ pos
      (build_buckets-StartsWith scaled base 1 bd md (allowed_depth 0 base) pos le (ground arith))
      (build_buckets-IsStaircase scaled base 1 bd md (allowed_depth 0 base) pos)

-- ensureDefaults does not panic for a profile that sets nothing, however delays are interpolated and
-- whatever delays are configured, given that neither limit, as it is read, is above a million.
pub ensure_defaults_total :
    (scaled : ℕ → ℕ → ℕ → ℕ) (soft hard elevated_base elevated_max severe_base severe_max : ℕ)
    → soft_of soft ≤ max_depth_cap
    → hard_of soft hard ≤ max_depth_cap
    → (q : DelayProfile) × (ensure_defaults scaled unset_profile soft hard elevated_base
          elevated_max severe_base severe_max
        ≡ profile_ok q)
unfolding ensure_defaults check_profile fill
ensure_defaults_total scaled soft hard eb em sb sm s v =
    let e = or_else eb (20 * millisecond) in
    let b = or_else sb (80 * millisecond) in
    ensure_checked-none (fill scaled unset_profile (soft_of soft) (hard_of soft hard) eb em sb sm) _
      _ (filled-valid scaled (soft_of soft) e (largest_delay e em) (ground arith) s)
      (filled-valid scaled (hard_of soft hard) b (largest_delay b sm) (ground arith) v)
