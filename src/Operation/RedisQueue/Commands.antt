-- ===== src/Operation/RedisQueue/Commands.antt =====
-- What the Redis queue coordinator relies on of Redis, which is not part of the repository: the
-- commands that its scripts call on one set, one sorted set and one list, with what Redis documents
-- of them. Each command on a data structure returns the structure that it leaves, and its reply.
use text.Mathlib.Text.{◌==◌ as str_eq}
use cdmp_mini.Base.{
  ℕ, ◌+◌, ◌≤◌, ◌<◌, String, ◌≡◌, sym, ap, ◌⊎◌, inl, inr, arith, Bool-cases, eq_iff, Bool, true,
  false, not, ◌&&◌, ◌||◌, Option, none, some, List, [], ◌∷◌, ◌++◌, length, if◌then◌else◌,
}

-- Whether a value is there.
unfoldable pub is_some {ℓ} : {A : Type ℓ} → Option A → Bool
is_some none = false
is_some (some a) = true

-- Whether a list holds a string.
unfoldable pub holds : String → List String → Bool
holds id [] = false
holds id (other ∷ ids) = str_eq other id || holds id ids

-- Equal identifiers are alike to a command.
pub alike {ℓ} :
    {A : Type ℓ} (f : String → A) (id other : String) → (str_eq other id ≡ false) ⊎ (f id ≡ f other)
alike f id other = elim (Bool-cases (str_eq other id)) [
  | inl same ↦ inr (ap f (sym ((eq_iff other id).0 same)))
  | inr apart ↦ inl apart
]

-- A list that holds something is not empty.
pub holds-length : (id : String) (ids : List String) → holds id ids ≡ true → 0 < length ids
unfolding holds
holds-length id [] h = ground (arith, h)
holds-length id (other ∷ ids) h = omega arith

-- `SISMEMBER`, `SADD` and `SREM`.
pub record Sets (S : Type 0) : Type 0 where
  pub sismember : String → S → Bool
  pub sadd : String → S → S × ℕ
  pub srem : String → S → S × ℕ
  pub sismember-sadd :
      (id key : String) (s : S) → sismember key (sadd id s).0 ≡ (str_eq id key || sismember key s)
  pub sismember-srem :
      (id key : String) (s : S)
      → sismember key (srem id s).0 ≡ (not (str_eq id key) && sismember key s)
  pub sadd_reply : (id : String) (s : S) → (sadd id s).1 ≡ (if sismember id s then 0 else 1)
  pub srem_reply : (id : String) (s : S) → (srem id s).1 ≡ (if sismember id s then 1 else 0)

-- `ZSCORE`, `ZCARD`, `ZADD`, `ZREM`, `ZRANGE 0 0 WITHSCORES` as `zfirst`, and
-- `ZRANGEBYSCORE -inf cutoff LIMIT 0 limit` as `zup_to`. A score is a number of milliseconds.
pub record SortedSets (Z : Type 0) : Type 0 where
  pub zscore : String → Z → Option ℕ
  pub zcard : Z → ℕ
  pub zadd : ℕ → String → Z → Z
  pub zrem : String → Z → Z
  pub zfirst : Z → Option (String × ℕ)
  pub zup_to : ℕ → ℕ → Z → List String
  pub zscore-zadd :
      (n : ℕ) (id key : String) (z : Z)
      → zscore key (zadd n id z) ≡ (if str_eq id key then some n else zscore key z)
  pub zscore-zrem :
      (id key : String) (z : Z)
      → zscore key (zrem id z) ≡ (if str_eq id key then none else zscore key z)
  pub zcard-zrem :
      (id : String) (z : Z) → is_some (zscore id z) ≡ true → zcard (zrem id z) < zcard z
  pub zcard-none : (id : String) (z : Z) → zcard z ≡ 0 → zscore id z ≡ none
  pub zfirst_none : (id : String) (z : Z) → zfirst z ≡ none → zscore id z ≡ none
  pub zfirst_some : (id : String) (n : ℕ) (z : Z) → zfirst z ≡ some (id, n) → zscore id z ≡ some n
  pub zfirst_least :
      (id key : String) (n m : ℕ) (z : Z) → zfirst z ≡ some (id, n) → zscore key z ≡ some m → n ≤ m
  pub zup_to_all :
      (id : String) (n cutoff limit : ℕ) (z : Z)
      → zscore id z ≡ some n
      → n ≤ cutoff
      → length (zup_to cutoff limit z) < limit
      → holds id (zup_to cutoff limit z) ≡ true

-- `LPOP`, `RPUSH` with its reply, `LLEN` and `LPOS`, on the list that `LRANGE 0 -1` shows.
pub record Lists (L : Type 0) : Type 0 where
  pub lrange : L → List String
  pub lpop : L → Option (String × L)
  pub rpush : String → L → L × ℕ
  pub llen : L → ℕ
  pub lpos : String → L → Option ℕ
  pub lrange-rpush : (id : String) (l : L) → lrange (rpush id l).0 ≡ lrange l ++ id ∷ []
  pub rpush_reply : (id : String) (l : L) → (rpush id l).1 ≡ length (lrange l) + 1
  pub llen_lem : (l : L) → llen l ≡ length (lrange l)
  pub lpop_none : (l : L) → lpop l ≡ none → lrange l ≡ []
  pub lpop_some :
      (id : String) (l left : L) → lpop l ≡ some (id, left) → lrange l ≡ id ∷ lrange left

-- The commands on the three kinds of data.
pub record Redis (S Z L : Type 0) : Type 0 where
  pub sets : Sets S
  pub sorted : SortedSets Z
  pub lists : Lists L
