-- ===== src/Pending/Profile/Accepted.antt =====
-- Profiles that `ensureDefaults` accepts, and the classification by them:
-- cdmp-mini/internal/pkg/usercache/pending_state_machine.go and backpressure_profile.go.
use mathlib.Core.Path.{subst}
use cdmp_mini.Base.{ℕ, ◌+◌, ◌≤◌, ◌<◌, ◌≡◌, refl, Option, none, some, List, [], ◌∷◌, All, arith}
use cdmp_mini.Pending.Level.{DelayBucket, DelayProfile, classify}
use cdmp_mini.Pending.Level.Threshold.{StartsAt, threshold, classify-StartsAt}
use cdmp_mini.Pending.Profile.{
  BucketError, Checked, valid_up_to, invalid, check_from, checked_max, validate, profile_ok,
  soft_of, hard_of, ensure_checked, is_nil, check_profile, fill, ensure_defaults,
}

check_from-All :
    (base idx low boundary last : ℕ) (buckets : List DelayBucket)
    → 0 < idx
    → low ≤ boundary
    → check_from base idx boundary buckets ≡ valid_up_to last
    → All (λ bucket. low < bucket.depth) buckets
unfolding check_from
check_from-All base idx low boundary last [] pos le h = tt
check_from-All base idx low boundary last (bucket ∷ buckets) pos le h =
    let deeper : boundary < bucket.depth = ground (arith, h) in
    let rest : check_from base (idx + 1) bucket.depth buckets ≡ valid_up_to last =
      ground (arith, h) in
    (
      omega arith,
      check_from-All base (idx + 1) low bucket.depth last buckets (omega arith) (omega arith) rest,
    )

check_from-StartsAt :
    (base boundary last : ℕ) (bucket : DelayBucket) (buckets : List DelayBucket)
    → 0 < base
    → check_from base 0 boundary (bucket ∷ buckets) ≡ valid_up_to last
    → StartsAt base (bucket ∷ buckets)
unfolding check_from
check_from-StartsAt base boundary last bucket buckets pos h =
    let first : bucket.depth ≡ base = ground (arith, h) in
    let rest : check_from base 1 bucket.depth buckets ≡ valid_up_to last = ground (arith, h) in
    (first, check_from-All base 1 base bucket.depth last buckets (omega arith) (omega arith) rest)

checked_max-none :
    (max : ℕ) (c : Checked) → checked_max max c ≡ none → (last : ℕ) × (c ≡ valid_up_to last)
unfolding checked_max
checked_max-none max (valid_up_to last) h = (last, refl)
checked_max-none max (invalid e) h = cc

validate-StartsAt :
    (buckets : List DelayBucket) (base count max : ℕ)
    → 0 < base
    → validate buckets base count max ≡ none
    → StartsAt base buckets
unfolding validate is_nil
validate-StartsAt [] base count max pos h = cc
validate-StartsAt (bucket ∷ buckets) base count max pos h =
    let checked : checked_max max (check_from base 0 base (bucket ∷ buckets)) ≡ none =
      ground (arith, h) in
    let (last, e) = checked_max-none max (check_from base 0 base (bucket ∷ buckets)) checked in
    check_from-StartsAt base base last bucket buckets pos e

ensure_checked-ok :
    (p q : DelayProfile) (e f : Option BucketError)
    → ensure_checked p e f ≡ profile_ok q
    → (e ≡ none) × (f ≡ none) × (p.elevated ≡ q.elevated) × (p.severe ≡ q.severe)
unfolding ensure_checked
ensure_checked-ok p q (some e) f h = cc
ensure_checked-ok p q none (some e) h = cc
ensure_checked-ok p q none none h = (refl, refl, cc, cc)

check_profile-StartsAt :
    (soft hard : ℕ) (p q : DelayProfile)
    → 0 < soft
    → 0 < hard
    → check_profile soft hard p ≡ profile_ok q
    → StartsAt soft q.elevated × StartsAt hard q.severe
unfolding check_profile
check_profile-StartsAt soft hard p q s v h =
    let (el, sv, same_el, same_sv) =
      ensure_checked-ok p q (validate p.elevated soft p.elevated_bucket_count p.elevated_max_depth)
        (validate p.severe hard p.severe_bucket_count p.severe_max_depth) h in
    (
      subst (StartsAt soft) same_el
          (validate-StartsAt p.elevated soft p.elevated_bucket_count p.elevated_max_depth s el),
      subst (StartsAt hard) same_sv
          (validate-StartsAt p.severe hard p.severe_bucket_count p.severe_max_depth v sv),
    )

-- Where ensureDefaults does not panic, the profile that it leaves classifies by the soft and the
-- hard limit alone, whatever buckets were configured and however delays are interpolated: severe
-- from the hard limit on, elevated from the soft limit on, none below; a limit that is not positive
-- is read as ensureDefaults reads it, the soft one as 1 and the hard one as the soft one.
pub ensure_defaults-classify :
    (scaled : ℕ → ℕ → ℕ → ℕ) (p q : DelayProfile)
    (soft hard elevated_base elevated_max severe_base severe_max depth : ℕ)
    → ensure_defaults scaled p soft hard elevated_base elevated_max severe_base severe_max
      ≡ profile_ok q
    → classify depth q soft hard ≡ threshold depth (soft_of soft) (hard_of soft hard)
unfolding ensure_defaults
ensure_defaults-classify scaled p q soft hard eb em sb sm depth h =
    let s : 0 < soft_of soft = ground arith in
    let v : 0 < hard_of soft hard = ground arith in
    let (el, sv) =
      check_profile-StartsAt (soft_of soft) (hard_of soft hard)
        (fill scaled p (soft_of soft) (hard_of soft hard) eb em sb sm) q s v h in
    classify-StartsAt depth (soft_of soft) (hard_of soft hard) soft hard q s v el sv (ground arith)
      (ground arith)
