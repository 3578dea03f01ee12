-- ===== src/Pending/Buckets/Built.antt =====
-- The buckets that are built for a profile without any: `buildDelayBuckets` of
-- cdmp-mini/internal/pkg/usercache/pending_state_machine.go.
use cdmp_mini.Base.{
  ℕ, ◌+◌, ◌-◌, ◌≤◌, ◌<◌, ◌≡◌, false, some, List, [], ◌∷◌, zero, suc, ltb, ◌==◌, if◌then◌else◌, All,
  Bool-cases, inl, inr, arith, ◌∙◌,
}
use cdmp_mini.Pending.Level.{DelayBucket}
use cdmp_mini.Pending.Buckets.{
  max_depth_cap, min_delay_quantum, clamp_depth, or_else, at_least, cleaned_bucket, clean_bucket,
  keep_some, clean, before, insert_sorted, sort_buckets, climb, climb_from, normalize, next_depth,
  bucket_delay, build_from, build_buckets,
}
use cdmp_mini.Pending.Buckets.Staircase.{
  Ascends, ClimbsFrom, climb-ClimbsFrom, sort_buckets-All, sort_buckets-Ascends, IsStaircase,
  normalize-IsStaircase,
}

-- A bucket that `clean` keeps at a depth from `base` on.
record IsBuilt (base : ℕ) (bucket : DelayBucket) : Type 0 where
  deep : base ≤ bucket.depth
  delayed : 0 < bucket.delay

abbrev pub StartsWith : ℕ → List DelayBucket → Type 0
StartsWith base [] = ⊥
StartsWith base (bucket ∷ buckets) = bucket.depth ≡ base

bucket_delay-pos :
    (scaled : ℕ → ℕ → ℕ → ℕ) (count base_delay max_delay i : ℕ)
    → 0 < bucket_delay scaled count base_delay max_delay i
unfolding bucket_delay
bucket_delay-pos scaled count base_delay max_delay i = ground arith

lt-next_depth : (capped_max remaining depth : ℕ) → depth < next_depth capped_max remaining depth
unfolding next_depth
lt-next_depth capped_max remaining depth = ground arith

build_from-IsBuilt :
    (scaled : ℕ → ℕ → ℕ → ℕ) (count room base_delay max_delay base rounds i depth : ℕ)
    → base ≤ room
    → base ≤ depth
    → All (IsBuilt base) (build_from scaled count room base_delay max_delay rounds i depth)
unfolding build_from
build_from-IsBuilt scaled count room bd md base zero i depth le le' = tt
build_from-IsBuilt scaled count room bd md base (suc rounds) i depth le le' = (
  record { deep = ground arith; delayed = bucket_delay-pos scaled count bd md i },
  build_from-IsBuilt scaled count room bd md base rounds (i + 1)
      (next_depth room (rounds - 1) depth) le
      (omega (arith, lt-next_depth room (rounds - 1) depth)),
)

cleaned_bucket-deep :
    (base room : ℕ) (bucket : DelayBucket)
    → base ≤ room
    → base ≤ max_depth_cap
    → base ≤ bucket.depth
    → base ≤ (cleaned_bucket room bucket).depth
unfolding cleaned_bucket
cleaned_bucket-deep base room bucket le le' h = ground arith

clean_bucket-IsBuilt :
    (base room : ℕ) (bucket : DelayBucket)
    → 0 < base
    → base ≤ room
    → base ≤ max_depth_cap
    → IsBuilt base bucket
    → clean_bucket room bucket ≡ some (cleaned_bucket room bucket)
unfolding clean_bucket
clean_bucket-IsBuilt base room bucket pos le le' h =
    ground (arith, cleaned_bucket-deep base room bucket)

clean-IsBuilt :
    (base room : ℕ) (buckets : List DelayBucket)
    → 0 < base
    → base ≤ room
    → base ≤ max_depth_cap
    → All (IsBuilt base) buckets
    → All (λ bucket. base ≤ bucket.depth) (clean room buckets)
unfolding clean keep_some
clean-IsBuilt base room [] pos le le' h = tt
clean-IsBuilt base room (bucket ∷ buckets) pos le le' h =
    rw (clean_bucket-IsBuilt base room bucket pos le le' h.0) (
      cleaned_bucket-deep base room bucket le le' h.0.deep,
      clean-IsBuilt base room buckets pos le le' h.1,
    )

insert_sorted-StartsWith :
    (base : ℕ) (bucket : DelayBucket) (buckets : List DelayBucket)
    → bucket.depth ≡ base
    → All (λ other. base ≤ other.depth) buckets
    → StartsWith base (insert_sorted bucket buckets)
unfolding insert_sorted
insert_sorted-StartsWith base bucket [] e h = e
insert_sorted-StartsWith base bucket (other ∷ buckets) e h =
    elim (Bool-cases (before other bucket)) [
      | inl first ↦ rw first (ground arith)
      | inr later ↦ rw later e
    ]

ClimbsFrom-StartsWith :
    (base : ℕ) (last : DelayBucket) (out : List DelayBucket)
    → last.depth ≡ base
    → ClimbsFrom last out
    → StartsWith base out
ClimbsFrom-StartsWith base last [] e h = h
ClimbsFrom-StartsWith base last (bucket ∷ buckets) e h = h.0 ∙ e

climb_from-StartsWith :
    (base : ℕ) (buckets : List DelayBucket)
    → Ascends 0 buckets
    → StartsWith base buckets
    → StartsWith base (climb_from buckets)
unfolding climb_from
climb_from-StartsWith base [] h s = s
climb_from-StartsWith base (bucket ∷ buckets) h s =
    ClimbsFrom-StartsWith base bucket (climb bucket buckets) s (climb-ClimbsFrom bucket buckets h.1)

cleaned_bucket-base :
    (base room : ℕ) (bucket : DelayBucket)
    → base ≤ room
    → base ≤ max_depth_cap
    → bucket.depth ≡ base
    → (cleaned_bucket room bucket).depth ≡ base
unfolding cleaned_bucket
cleaned_bucket-base base room bucket le le' h = ground arith

sort_buckets-clean :
    (base room : ℕ) (bucket : DelayBucket) (buckets : List DelayBucket)
    → 0 < base
    → base ≤ room
    → base ≤ max_depth_cap
    → bucket.depth ≡ base
    → All (IsBuilt base) (bucket ∷ buckets)
    → StartsWith base (sort_buckets (clean room (bucket ∷ buckets)))
unfolding clean keep_some sort_buckets
sort_buckets-clean base room bucket buckets pos le le' e h =
    rw (clean_bucket-IsBuilt base room bucket pos le le' h.0) (
      insert_sorted-StartsWith base (cleaned_bucket room bucket) (sort_buckets (clean room buckets))
        (cleaned_bucket-base base room bucket le le' e)
        (sort_buckets-All (λ other. base ≤ other.depth) (clean room buckets)
          (clean-IsBuilt base room buckets pos le le' h.1)))

-- Normalised, buckets that are built from `base` on start there, if the first does.
normalize-StartsWith :
    (base room : ℕ) (bucket : DelayBucket) (buckets : List DelayBucket)
    → 0 < base
    → base ≤ clamp_depth room
    → base ≤ max_depth_cap
    → bucket.depth ≡ base
    → All (IsBuilt base) (bucket ∷ buckets)
    → StartsWith base (normalize (bucket ∷ buckets) room)
unfolding normalize
normalize-StartsWith base room bucket buckets pos le le' e h =
    let kept = clean (clamp_depth room) (bucket ∷ buckets) in
    climb_from-StartsWith base (sort_buckets kept) (sort_buckets-Ascends kept)
      (sort_buckets-clean base (clamp_depth room) bucket buckets pos le le' e h)

normalize-build_from :
    (scaled : ℕ → ℕ → ℕ → ℕ) (count room base_delay max_delay base rounds : ℕ)
    → 0 < base
    → base ≤ room
    → base ≤ clamp_depth room
    → base ≤ max_depth_cap
    → StartsWith base (
        normalize
          (build_from scaled count room base_delay max_delay (suc (suc rounds)) 0 base)
          room)
unfolding build_from
normalize-build_from scaled count room bd md base rounds pos le le' cap =
    normalize-StartsWith base room _ _ pos le' cap (ground arith)
      (build_from-IsBuilt scaled count room bd md base (suc (suc rounds)) 0 base le (omega arith))

-- The largest depth that `buildDelayBuckets` goes by.
abbrev pub room_of : ℕ → ℕ → ℕ
room_of base max_depth =
    let capped_max = clamp_depth max_depth in
    if ltb 0 capped_max then at_least base capped_max else capped_max

room_of_bounds :
    (base max_depth : ℕ)
    → base ≤ max_depth_cap
    → 0 < max_depth
    → (base ≤ room_of base max_depth) × (base ≤ clamp_depth (room_of base max_depth))
unfolding clamp_depth
room_of_bounds base max_depth le pos = (ground arith, ground arith)

-- Two or more buckets that are built from a positive base start at it.
pub build_buckets-StartsWith :
    (scaled : ℕ → ℕ → ℕ → ℕ) (base count base_delay max_delay max_depth : ℕ)
    → 0 < base
    → base ≤ max_depth_cap
    → 0 < max_depth
    → StartsWith base (build_buckets scaled base (suc (suc count)) base_delay max_delay max_depth)
unfolding build_buckets
build_buckets-StartsWith scaled base count bd md max pos le pos' =
    let same : or_else base 1 ≡ base = ground arith in
    let some_count : (suc (suc count) == 0) ≡ false = ground arith in
    let (room, room') = room_of_bounds base max le pos' in
    rw (same, some_count)
      (normalize-build_from scaled (suc (suc count)) (room_of base max)
        (or_else bd min_delay_quantum)
        (at_least (or_else bd min_delay_quantum) (or_else md (or_else bd min_delay_quantum))) base
        count pos room room' le)

pub build_buckets-IsStaircase :
    (scaled : ℕ → ℕ → ℕ → ℕ) (base count base_delay max_delay max_depth : ℕ)
    → 0 < base
    → IsStaircase
        (clamp_depth (room_of base max_depth))
        (build_buckets scaled base (suc (suc count)) base_delay max_delay max_depth)
unfolding build_buckets
build_buckets-IsStaircase scaled base count bd md max pos =
    let same : or_else base 1 ≡ base = ground arith in
    let some_count : (suc (suc count) == 0) ≡ false = ground arith in
    rw (same, some_count) (normalize-IsStaircase _ (room_of base max))
