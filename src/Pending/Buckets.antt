-- ===== src/Pending/Buckets.antt =====
-- The buckets of a delay profile: `normalizeDelayBuckets` and `buildDelayBuckets` of
-- cdmp-mini/internal/pkg/usercache/pending_state_machine.go.
-- Depths, counts and durations that are not positive stand as 0, as in Level. The delays between the
-- first bucket and the last are interpolated with floating-point numbers: `scaled i n spread` stands
-- for `time.Duration(float64(i) / float64(n) * float64(spread))`.
pub mod Staircase
pub mod Built
use cdmp_mini.Base.{
  ℕ, ◌+◌, ◌-◌, ◌*◌, ◌%◌, Bool, true, false, ◌&&◌, ◌||◌, not, Option, none, some, List, [], ◌∷◌,
  zero, suc, ltb, leb, ◌==◌, if◌then◌else◌, length,
}
use cdmp_mini.Base.Signed.{millisecond}
use cdmp_mini.Pending.Level.{DelayBucket, DelayProfile}

abbrev pub max_depth_cap : ℕ
max_depth_cap = 1000000

abbrev pub min_delay_quantum : ℕ
min_delay_quantum = millisecond

-- `clampDepth`
unfoldable pub clamp_depth : ℕ → ℕ
clamp_depth depth = if ltb max_depth_cap depth then max_depth_cap else depth

-- `ceilDuration`
unfoldable pub ceil_duration : ℕ → ℕ → ℕ
ceil_duration value quantum =
    if value == 0
    then 0
    else if quantum == 0
    then value
    else if value % quantum == 0
    then value
    else value + quantum - value % quantum

-- A value, or another where it is not positive.
abbrev pub or_else : ℕ → ℕ → ℕ
or_else value other = if value == 0 then other else value

-- The larger of two.
abbrev pub at_least : ℕ → ℕ → ℕ
at_least bound value = if ltb value bound then bound else value

-- The smaller of two, where the first is positive.
abbrev capped : ℕ → ℕ → ℕ
capped bound value = if ltb 0 bound && ltb bound value then bound else value

-- The bucket that the first loop of `normalizeDelayBuckets` makes of one.
pub cleaned_bucket : ℕ → DelayBucket → DelayBucket
unfolding clamp_depth ceil_duration
cleaned_bucket capped_max bucket = record {
  depth = capped capped_max (clamp_depth bucket.depth);
  delay = or_else (ceil_duration bucket.delay min_delay_quantum) min_delay_quantum;
}

-- The same, if the loop keeps it.
unfoldable pub clean_bucket : ℕ → DelayBucket → Option DelayBucket
unfolding cleaned_bucket
clean_bucket capped_max bucket =
    let cleaned = cleaned_bucket capped_max bucket in
    if bucket.depth == 0 || bucket.delay == 0
    then none
    else if cleaned.depth == 0
    then none
    else some cleaned

pub keep_some : Option DelayBucket → List DelayBucket → List DelayBucket
keep_some none buckets = buckets
keep_some (some bucket) buckets = bucket ∷ buckets

unfoldable pub clean : ℕ → List DelayBucket → List DelayBucket
unfolding clean_bucket keep_some
clean capped_max [] = []
clean capped_max (bucket ∷ buckets) =
    keep_some (clean_bucket capped_max bucket) (clean capped_max buckets)

-- The order of `sort.Slice`: by depth, and by delay where the depths are the same.
abbrev pub before : DelayBucket → DelayBucket → Bool
before a b = if a.depth == b.depth then ltb a.delay b.delay else ltb a.depth b.depth

-- Buckets that the order does not tell apart are the same, so that every way to sort gives one list.
pub insert_sorted : DelayBucket → List DelayBucket → List DelayBucket
insert_sorted bucket [] = bucket ∷ []
insert_sorted bucket (other ∷ buckets) =
    let later = insert_sorted bucket buckets in
    if before other bucket then other ∷ later else bucket ∷ other ∷ buckets

pub sort_buckets : List DelayBucket → List DelayBucket
unfolding insert_sorted
sort_buckets [] = []
sort_buckets (bucket ∷ buckets) = insert_sorted bucket (sort_buckets buckets)

-- The last loop of `normalizeDelayBuckets`, with the last bucket of its result.
pub climb : DelayBucket → List DelayBucket → List DelayBucket
climb last [] = last ∷ []
climb last (bucket ∷ buckets) =
    let merged = climb (record last { delay = at_least bucket.delay last.delay }) buckets in
    let next = last ∷ climb (record bucket { delay = at_least last.delay bucket.delay }) buckets in
    if bucket.depth == last.depth then merged else next

pub climb_from : List DelayBucket → List DelayBucket
unfolding climb
climb_from [] = []
climb_from (bucket ∷ buckets) = climb bucket buckets

-- `normalizeDelayBuckets`
unfoldable pub normalize : List DelayBucket → ℕ → List DelayBucket
unfolding clean sort_buckets climb_from
normalize buckets max_depth = climb_from (sort_buckets (clean (clamp_depth max_depth) buckets))

-- The depth after `depth` in the loop of `buildDelayBuckets`, with `remaining` buckets to follow.
pub next_depth : ℕ → ℕ → ℕ → ℕ
next_depth capped_max remaining depth =
    let doubled = if leb (depth * 2) depth then depth + 1 else depth * 2 in
    let allowed =
      if ltb 0 capped_max && ltb (capped_max - remaining) doubled
      then capped_max - remaining
      else doubled in
    let limited = if ltb max_depth_cap allowed then max_depth_cap else allowed in
    if leb limited depth then depth + 1 else limited

-- The delay of the bucket with the index `i`, of `count`.
pub bucket_delay : (ℕ → ℕ → ℕ → ℕ) → ℕ → ℕ → ℕ → ℕ → ℕ
unfolding ceil_duration
bucket_delay scaled count base_delay max_delay i =
    or_else
      (ceil_duration
        (if count == 1
          then max_delay
          else base_delay + scaled i (count - 1) (max_delay - base_delay))
        min_delay_quantum)
      min_delay_quantum

-- The loop of `buildDelayBuckets` from the index `i` on, with `rounds` buckets to go and the depth
-- that the code has reached at this index.
pub build_from : (ℕ → ℕ → ℕ → ℕ) → ℕ → ℕ → ℕ → ℕ → ℕ → ℕ → ℕ → List DelayBucket
unfolding next_depth bucket_delay
build_from scaled count capped_max base_delay max_delay zero i depth = []
build_from scaled count capped_max base_delay max_delay (suc rounds) i depth =
    record {
      depth = if ltb 0 capped_max && rounds == 0 then capped_max else depth;
      delay = bucket_delay scaled count base_delay max_delay i;
    }
    ∷ build_from scaled count capped_max base_delay max_delay rounds (i + 1)
        (next_depth capped_max (rounds - 1) depth)

-- `buildDelayBuckets`
pub build_buckets : (ℕ → ℕ → ℕ → ℕ) → ℕ → ℕ → ℕ → ℕ → ℕ → List DelayBucket
build_buckets scaled base_depth count base_delay max_delay max_depth =
    let base = or_else base_depth 1 in
    let capped_max = clamp_depth max_depth in
    let room = if ltb 0 capped_max then at_least base capped_max else capped_max in
    let first = or_else base_delay min_delay_quantum in
    let last = at_least first (or_else max_delay first) in
    if count == 0 then [] else normalize (build_from scaled count room first last count 0 base) room
