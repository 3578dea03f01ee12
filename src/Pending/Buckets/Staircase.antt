-- ===== src/Pending/Buckets/Staircase.antt =====
-- The shape of normalised buckets: `normalizeDelayBuckets` of
-- cdmp-mini/internal/pkg/usercache/pending_state_machine.go.
use cdmp_mini.Base.{
  ℕ, ◌%◌, ◌≤◌, ◌<◌, ◌≡◌, refl, some, List, [], ◌∷◌, ◌==◌, All, Bool-cases, Option-cases, inl, inr,
  arith,
}
use cdmp_mini.Pending.Level.{DelayBucket}
use cdmp_mini.Pending.Buckets.{
  max_depth_cap, min_delay_quantum, clamp_depth, or_else, at_least, clean_bucket, clean, before,
  insert_sorted, sort_buckets, climb, climb_from, normalize,
}

-- The depths grow from bucket to bucket, and the delays never fall.
abbrev pub Climbs : DelayBucket → List DelayBucket → Type 0
Climbs last [] = Unit
Climbs last (bucket ∷ buckets) =
    (last.depth < bucket.depth) × (last.delay ≤ bucket.delay) × Climbs bucket buckets

-- Depths that never fall, from `depth` on.
abbrev pub Ascends : ℕ → List DelayBucket → Type 0
Ascends depth [] = Unit
Ascends depth (bucket ∷ buckets) = (depth ≤ bucket.depth) × Ascends bucket.depth buckets

abbrev pub Rises : List DelayBucket → Type 0
Rises [] = Unit
Rises (bucket ∷ buckets) = Climbs bucket buckets

-- A bucket that counts: its depth is positive and no more than the limits allow, and its delay is a
-- positive number of whole milliseconds.
pub record IsClean (capped_max : ℕ) (bucket : DelayBucket) : Type 0 where
  pub deep : 0 < bucket.depth
  pub within : bucket.depth ≤ or_else capped_max max_depth_cap
  pub below_cap : bucket.depth ≤ max_depth_cap
  pub delayed : 0 < bucket.delay
  pub whole : bucket.delay % min_delay_quantum ≡ 0

clean_bucket-IsClean :
    (capped_max : ℕ) (bucket kept : DelayBucket)
    → clean_bucket capped_max bucket ≡ some kept
    → IsClean capped_max kept
unfolding clean_bucket
clean_bucket-IsClean capped_max bucket kept h = ground arith

clean-IsClean :
    (capped_max : ℕ) (buckets : List DelayBucket)
    → All (IsClean capped_max) (clean capped_max buckets)
unfolding clean
clean-IsClean capped_max [] = tt
clean-IsClean capped_max (bucket ∷ buckets) = elim (Option-cases (clean_bucket capped_max bucket)) [
  | inl dropped ↦ rw dropped (clean-IsClean capped_max buckets)
  | inr (kept, e) ↦
      rw e (clean_bucket-IsClean capped_max bucket kept e, clean-IsClean capped_max buckets)
]

insert_sorted-All :
    (P : DelayBucket → Type 0) (bucket : DelayBucket) (buckets : List DelayBucket)
    → P bucket
    → All P buckets
    → All P (insert_sorted bucket buckets)
unfolding insert_sorted
insert_sorted-All P bucket [] p h = (p, tt)
insert_sorted-All P bucket (other ∷ buckets) p h = elim (Bool-cases (before other bucket)) [
  | inl first ↦ rw first (h.0, insert_sorted-All P bucket buckets p h.1)
  | inr later ↦ rw later (p, h)
]

pub sort_buckets-All :
    (P : DelayBucket → Type 0) (buckets : List DelayBucket)
    → All P buckets
    → All P (sort_buckets buckets)
unfolding sort_buckets
sort_buckets-All P [] h = tt
sort_buckets-All P (bucket ∷ buckets) h =
    insert_sorted-All P bucket (sort_buckets buckets) h.0 (sort_buckets-All P buckets h.1)

insert_sorted-Ascends :
    (depth : ℕ) (bucket : DelayBucket) (buckets : List DelayBucket)
    → depth ≤ bucket.depth
    → Ascends depth buckets
    → Ascends depth (insert_sorted bucket buckets)
unfolding insert_sorted
insert_sorted-Ascends depth bucket [] le h = (le, tt)
insert_sorted-Ascends depth bucket (other ∷ buckets) le h =
    elim (Bool-cases (before other bucket)) [
      | inl first ↦
          rw first (h.0, insert_sorted-Ascends other.depth bucket buckets (ground arith) h.1)
      | inr later ↦ rw later (le, (ground arith, h.1))
    ]

pub sort_buckets-Ascends : (buckets : List DelayBucket) → Ascends 0 (sort_buckets buckets)
unfolding sort_buckets
sort_buckets-Ascends [] = tt
sort_buckets-Ascends (bucket ∷ buckets) =
    insert_sorted-Ascends 0 bucket (sort_buckets buckets) (omega arith)
      (sort_buckets-Ascends buckets)

-- What the last loop gives from its last bucket on.
abbrev pub ClimbsFrom : DelayBucket → List DelayBucket → Type 0
ClimbsFrom last [] = ⊥
ClimbsFrom last (bucket ∷ buckets) =
    (bucket.depth ≡ last.depth) × (last.delay ≤ bucket.delay) × Climbs bucket buckets

ClimbsFrom-Climbs :
    (last bucket : DelayBucket) (out : List DelayBucket)
    → last.depth < bucket.depth
    → last.delay ≤ bucket.delay
    → ClimbsFrom bucket out
    → Climbs last out
ClimbsFrom-Climbs last bucket [] lt le h = tt
ClimbsFrom-Climbs last bucket (first ∷ rest) lt le h = (omega (arith, h.0), omega (arith, h.1), h.2)

ClimbsFrom-merged :
    (last bucket : DelayBucket) (out : List DelayBucket)
    → last.depth ≡ bucket.depth
    → last.delay ≤ bucket.delay
    → ClimbsFrom bucket out
    → ClimbsFrom last out
ClimbsFrom-merged last bucket [] e le h = h
ClimbsFrom-merged last bucket (first ∷ rest) e le h = (omega (arith, h.0), omega (arith, h.1), h.2)

pub climb-ClimbsFrom :
    (last : DelayBucket) (buckets : List DelayBucket)
    → Ascends last.depth buckets
    → ClimbsFrom last (climb last buckets)
unfolding climb
climb-ClimbsFrom last [] h = (refl, omega arith, tt)
climb-ClimbsFrom last (bucket ∷ buckets) h = elim (Bool-cases (bucket.depth == last.depth)) [
  | inl same ↦
      let merged : DelayBucket = record last { delay = at_least bucket.delay last.delay } in
      let e : bucket.depth ≡ last.depth = ground arith in
      rw same (
        ClimbsFrom-merged last merged (climb merged buckets) refl (ground arith)
          (climb-ClimbsFrom merged buckets (rw e at (h.1))))
  | inr deeper ↦
      let next : DelayBucket = record bucket { delay = at_least last.delay bucket.delay } in
      rw deeper (
        refl,
        omega arith,
        ClimbsFrom-Climbs last next (climb next buckets) (ground arith) (ground arith)
            (climb-ClimbsFrom next buckets h.1),
      )
]

at_least-IsClean :
    (capped_max : ℕ) (a b : DelayBucket)
    → IsClean capped_max a
    → IsClean capped_max b
    → IsClean capped_max (record a { delay = at_least b.delay a.delay })
at_least-IsClean capped_max a b h k = ground arith

climb-IsClean :
    (capped_max : ℕ) (last : DelayBucket) (buckets : List DelayBucket)
    → IsClean capped_max last
    → All (IsClean capped_max) buckets
    → All (IsClean capped_max) (climb last buckets)
unfolding climb
climb-IsClean m last [] h k = (h, tt)
climb-IsClean m last (bucket ∷ buckets) h k = elim (Bool-cases (bucket.depth == last.depth)) [
  | inl same ↦ rw same (
      climb-IsClean m (record last { delay = at_least bucket.delay last.delay }) buckets
        (at_least-IsClean m last bucket h k.0) k.1)
  | inr deeper ↦ rw deeper (
    h,
    climb-IsClean m (record bucket { delay = at_least last.delay bucket.delay }) buckets
        (at_least-IsClean m bucket last k.0 h) k.1,
  )
]

-- A list of buckets as `normalizeDelayBuckets` leaves it.
pub record IsStaircase (capped_max : ℕ) (buckets : List DelayBucket) : Type 0 where
  pub rises : Rises buckets
  pub clean_all : All (IsClean capped_max) buckets

ClimbsFrom-Rises : (last : DelayBucket) (out : List DelayBucket) → ClimbsFrom last out → Rises out
ClimbsFrom-Rises last [] h = tt
ClimbsFrom-Rises last (bucket ∷ buckets) h = h.2

pub climb_from-IsStaircase :
    (capped_max : ℕ) (buckets : List DelayBucket)
    → Ascends 0 buckets
    → All (IsClean capped_max) buckets
    → IsStaircase capped_max (climb_from buckets)
unfolding climb_from
climb_from-IsStaircase m [] h k = record { rises = tt; clean_all = tt }
climb_from-IsStaircase m (bucket ∷ buckets) h k = record {
  rises = ClimbsFrom-Rises bucket (climb bucket buckets) (climb-ClimbsFrom bucket buckets h.1);
  clean_all = climb-IsClean m bucket buckets k.0 k.1;
}

-- Whatever buckets are given, the normalised ones have depths that grow and delays that never fall;
-- every depth is positive and within the largest depth, where one is given, and the cap of a million,
-- and every delay is a positive number of whole milliseconds.
pub normalize-IsStaircase :
    (buckets : List DelayBucket) (max_depth : ℕ)
    → IsStaircase (clamp_depth max_depth) (normalize buckets max_depth)
unfolding normalize
normalize-IsStaircase buckets max_depth =
    let kept = clean (clamp_depth max_depth) buckets in
    climb_from-IsStaircase (clamp_depth max_depth) (sort_buckets kept) (sort_buckets-Ascends kept) (
      sort_buckets-All (IsClean (clamp_depth max_depth)) kept
        (clean-IsClean (clamp_depth max_depth) buckets))
