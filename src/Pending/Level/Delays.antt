-- ===== src/Pending/Level/Delays.antt =====
-- The delay of a depth: `pickDelay` of
-- cdmp-mini/internal/pkg/usercache/pending_state_machine.go.
use mathlib.Core.List.{Memᴰ}
use cdmp_mini.Base.{
  ◌+◌, sym, ◌∙◌, ℕ, ◌≤◌, ◌<◌, ◌≡◌, ◌⊎◌, inl, inr, refl, ◌||◌, ◌&&◌, ◌==◌, ltb, leb, if◌then◌else◌,
  List, [], ◌∷◌, All, arith,
}
use cdmp_mini.Pending.Level.{DelayBucket, pick_from, pick_delay}

-- The buckets that count at a depth.
abbrev pub IsMet : ℕ → DelayBucket → Type 0
IsMet depth bucket = (0 < bucket.depth) × (bucket.depth ≤ depth)

-- The delay that a bucket asks for at a depth.
abbrev pub met_delay : ℕ → DelayBucket → ℕ
met_delay depth bucket = if ltb 0 bucket.depth && leb bucket.depth depth then bucket.delay else 0

-- The result after one bucket.
abbrev next : ℕ → ℕ → DelayBucket → ℕ
next depth result bucket =
    if bucket.depth == 0 || bucket.delay == 0
    then result
    else if leb bucket.depth depth && ltb result bucket.delay
    then bucket.delay
    else result

pick_from-le :
    (depth result : ℕ) (buckets : List DelayBucket) → result ≤ pick_from depth result buckets
unfolding pick_from
pick_from-le depth result [] = omega arith
pick_from-le depth result (bucket ∷ buckets) =
    ground (arith, pick_from-le depth (next depth result bucket) buckets)

pick_from_mono :
    (depth depth' result result' : ℕ) (buckets : List DelayBucket)
    → depth ≤ depth'
    → result ≤ result'
    → pick_from depth result buckets ≤ pick_from depth' result' buckets
unfolding pick_from
pick_from_mono depth depth' result result' [] le le' = le'
pick_from_mono depth depth' result result' (bucket ∷ buckets) le le' =
    pick_from_mono depth depth' (next depth result bucket) (next depth' result' bucket) buckets le
      (ground arith)

pick_from_above :
    (depth result : ℕ) (buckets : List DelayBucket)
    → All (λ bucket. met_delay depth bucket ≤ pick_from depth result buckets) buckets
unfolding pick_from
pick_from_above depth result [] = tt
pick_from_above depth result (bucket ∷ buckets) = (
  ground (arith, pick_from-le depth (next depth result bucket) buckets),
  pick_from_above depth (next depth result bucket) buckets,
)

-- Where a delay was found.
abbrev pub Found : ℕ → ℕ → ℕ → List DelayBucket → Type 0
Found depth start result buckets =
    (result ≡ start)
    ⊎ ((bucket : DelayBucket) × Memᴰ bucket buckets × IsMet depth bucket × (bucket.delay ≡ result))

next_cases :
    (depth start : ℕ) (bucket : DelayBucket)
    → (next depth start bucket ≡ start)
      ⊎ ((next depth start bucket ≡ bucket.delay) × IsMet depth bucket)
next_cases depth start bucket = ground arith

pick_from-Found :
    (depth start : ℕ) (buckets : List DelayBucket)
    → Found depth start (pick_from depth start buckets) buckets
unfolding pick_from
pick_from-Found depth start [] = inl refl
pick_from-Found depth start (bucket ∷ buckets) =
    elim (pick_from-Found depth (next depth start bucket) buckets) [
      | inl same ↦ elim (next_cases depth start bucket) [
        | inl kept ↦ inl (same ∙ kept)
        | inr (taken, met) ↦ inr (bucket, Memᴰ.head refl, met, sym (same ∙ taken))
      ]
      | inr (other, member, met, e) ↦ inr (other, Memᴰ.tail member, met, e)
    ]

-- The delay of a depth never falls as the depth grows; it is at least the delay of every bucket that
-- starts at or below the depth, and it is the delay of one of these or 0.
pub pick_delay_longest :
    (depth more : ℕ) (buckets : List DelayBucket)
    → (pick_delay buckets depth ≤ pick_delay buckets (depth + more))
      × All (λ bucket. met_delay depth bucket ≤ pick_delay buckets depth) buckets
      × Found depth 0 (pick_delay buckets depth) buckets
unfolding pick_delay
pick_delay_longest depth more buckets = (
  pick_from_mono depth (depth + more) 0 0 buckets (omega arith) (omega arith),
  pick_from_above depth 0 buckets,
  pick_from-Found depth 0 buckets,
)
