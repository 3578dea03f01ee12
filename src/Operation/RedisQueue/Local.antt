-- ===== src/Operation/RedisQueue/Local.antt =====
-- A small Redis of lists and maps in memory, which satisfies what the coordinator relies on.
use text.Mathlib.Text.{◌==◌ as str_eq}
use cdmp_mini.Base.{
  ℕ, zero, suc, ◌+◌, ◌≤◌, ◌<◌, String, ◌≡◌, refl, sym, ap, ◌∙◌, ◌⊎◌, inl, inr, Bool, true, false,
  not, ◌&&◌, ◌||◌, Option, none, some, List, [], ◌∷◌, ◌++◌, length, leb, if◌then◌else◌, arith,
  Bool-cases, eq_iff, Option-cases,
}
use cdmp_mini.Base.GoMap.{GoMap, lookup, insert, delete, lookup-insert, lookup-delete}
use cdmp_mini.Operation.RedisQueue.Commands.{is_some, holds, Sets, SortedSets, Lists, Redis}

abbrev reply_of : Bool → ℕ
reply_of b = if b then 1 else 0

pub there-insert :
    (id key : String) (s : GoMap (Unit {0}))
    → is_some (lookup key (insert id tt s)) ≡ (str_eq id key || is_some (lookup key s))
unfolding is_some
there-insert id key s = let found = lookup-insert id key tt s in ground (arith, found)

pub there-delete :
    (id key : String) (s : GoMap (Unit {0}))
    → is_some (lookup key (delete id s)) ≡ (not (str_eq id key) && is_some (lookup key s))
unfolding is_some
there-delete id key s = let found = lookup-delete id key s in ground (arith, found)

unfoldable pub map_sets : Sets (GoMap (Unit {0}))
unfolding is_some
map_sets = record {
  sismember = λ key s. is_some (lookup key s);
  sadd = λ id s. (insert id tt s, if is_some (lookup id s) then 0 else 1);
  srem = λ id s. (delete id s, if is_some (lookup id s) then 1 else 0);
  sismember-sadd = there-insert;
  sismember-srem = there-delete;
  sadd_reply = λ id s. refl;
  srem_reply = λ id s. refl;
}

-- The better of an entry, where there is a score, and another one.
abbrev better : String → Option ℕ → Option (String × ℕ) → Option (String × ℕ)
better key none other = other
better key (some n) none = some (key, n)
better key (some n) (some (id, m)) = if leb n m then some (key, n) else some (id, m)

-- The entry with the lowest score in `m` of those whose names `names` holds.
abbrev least : GoMap ℕ → GoMap ℕ → Option (String × ℕ)
least m [] = none
least m ((key, n) ∷ names) = better key (lookup key m) (least m names)

-- The names of the entries with a score in `m` up to `cutoff`.
abbrev low_enough : ℕ → Option ℕ → Bool
low_enough cutoff none = false
low_enough cutoff (some n) = leb n cutoff

abbrev lower : ℕ → GoMap ℕ → GoMap ℕ → List String
lower cutoff m [] = []
lower cutoff m ((key, n) ∷ names) =
    let rest = lower cutoff m names in if low_enough cutoff (lookup key m) then key ∷ rest else rest

abbrev take : ℕ → List String → List String
take zero names = []
take (suc n) [] = []
take (suc n) (name ∷ names) = name ∷ take n names

pub take_all : (n : ℕ) (names : List String) → length (take n names) < n → take n names ≡ names
take_all zero names h = ground arith
take_all (suc n) [] h = refl
take_all (suc n) (name ∷ names) h = ap (λ rest. name ∷ rest) (take_all n names (omega (arith, h)))

pub lower-holds :
    (cutoff n : ℕ) (m names : GoMap ℕ) (id : String)
    → is_some (lookup id names) ≡ true
    → lookup id m ≡ some n
    → n ≤ cutoff
    → holds id (lower cutoff m names) ≡ true
unfolding is_some holds lookup
lower-holds cutoff n m [] id there found low = ground (arith, there)
lower-holds cutoff n m ((key, v) ∷ names) id there found low = elim (Bool-cases (str_eq key id)) [
  | inl same ↦
      let here = ap (λ name. lookup name m) ((eq_iff key id).0 same) ∙ found in
      ground (arith, here, same, low)
  | inr apart ↦
      let rest = lower-holds cutoff n m names id (ground (arith, there, apart)) found low in
      ground (arith, rest, apart)
]

-- Where the better of two comes from.
better_origin :
    (key id : String) (n : ℕ) (o : Option ℕ) (other : Option (String × ℕ))
    → better key o other ≡ some (id, n)
    → ((key ≡ id) × (o ≡ some n)) ⊎ (other ≡ some (id, n))
better_origin key id n none other h = inr h
better_origin key id n (some a) none h = inl (ground (arith, h), ground (arith, h))
better_origin key id n (some a) (some (name, m)) h = elim (Bool-cases (leb a m)) [
  | inl le ↦ inl (ground (arith, h, le), ground (arith, h, le))
  | inr gt ↦ inr (ground (arith, h, gt))
]

pub least_found :
    (m names : GoMap ℕ) (id : String) (n : ℕ) → least m names ≡ some (id, n) → lookup id m ≡ some n
least_found m [] id n h = ground (arith, h)
least_found m ((key, v) ∷ names) id n h =
    elim (better_origin key id n (lookup key m) (least m names) h) [
      | inl (same, found) ↦ ap (λ name. lookup name m) (sym same) ∙ found
      | inr rest ↦ least_found m names id n rest
    ]

better_none :
    (key : String) (o : Option ℕ) (other : Option (String × ℕ))
    → better key o other ≡ none
    → (o ≡ none) × (other ≡ none)
better_none key none other h = (refl, h)
better_none key (some a) none h = ground (arith, h)
better_none key (some a) (some (name, m)) h = ground (arith, h)

better_low :
    (key id : String) (n y : ℕ) (o : Option ℕ) (other : Option (String × ℕ))
    → better key o other ≡ some (id, n)
    → o ≡ some y
    → n ≤ y
better_low key id n y none other h own = ground (arith, own)
better_low key id n y (some a) none h own = ground (arith, h, own)
better_low key id n y (some a) (some (name, m)) h own = ground (arith, h, own)

better_low_other :
    (key id name : String) (n m : ℕ) (o : Option ℕ)
    → better key o (some (name, m)) ≡ some (id, n)
    → n ≤ m
better_low_other key id name n m none h = ground (arith, h)
better_low_other key id name n m (some a) h = ground (arith, h)

least_none :
    (m names : GoMap ℕ) (key : String)
    → least m names ≡ none
    → is_some (lookup key names) ≡ true
    → lookup key m ≡ none
unfolding lookup is_some
least_none m [] key h there = ground (arith, there)
least_none m ((name, v) ∷ names) key h there =
    let parts = better_none name (lookup name m) (least m names) h in
    elim (Bool-cases (str_eq name key)) [
      | inl same ↦ ap (λ k. lookup k m) (sym ((eq_iff name key).0 same)) ∙ parts.0
      | inr apart ↦ least_none m names key parts.1 (ground (arith, there, apart))
    ]

-- No entry with a score in `m` has a lower one.
pub least_low :
    (m names : GoMap ℕ) (id key : String) (n y : ℕ)
    → least m names ≡ some (id, n)
    → is_some (lookup key names) ≡ true
    → lookup key m ≡ some y
    → n ≤ y
unfolding lookup is_some
least_low m [] id key n y h there found = ground (arith, h)
least_low m ((name, v) ∷ names) id key n y h there found = elim (Bool-cases (str_eq name key)) [
  | inl same ↦
      better_low name id n y (lookup name m) (least m names) h
        (ap (λ k. lookup k m) ((eq_iff name key).0 same) ∙ found)
  | inr apart ↦
      let further : is_some (lookup key names) ≡ true = ground (arith, there, apart) in
      elim (Option-cases (least m names)) [
        | inl nothing ↦
            let missing = least_none m names key nothing further in ground (arith, missing, found)
        | inr ((other, low), best) ↦
            let above =
              better_low_other name id other n low (lookup name m)
                (ap (better name (lookup name m)) (sym best) ∙ h) in
            let below = least_low m names other key low y best further found in
            omega (arith, above, below)
      ]
]

length-delete : (id : String) (m : GoMap ℕ) → length (delete id m) ≤ length m
unfolding delete
length-delete id [] = omega arith
length-delete id ((key, v) ∷ m) = let rest = length-delete id m in ground (arith, rest)

pub length-delete_found :
    (id : String) (m : GoMap ℕ) → is_some (lookup id m) ≡ true → length (delete id m) < length m
unfolding delete lookup is_some
length-delete_found id [] h = ground (arith, h)
length-delete_found id ((key, v) ∷ m) h =
    let rest = length-delete_found id m in
    let bound = length-delete id m in ground (arith, rest, bound, h)

abbrev pop : List String → Option (String × List String)
pop [] = none
pop (id ∷ l) = some (id, l)

abbrev lpos_from : ℕ → String → List String → Option ℕ
lpos_from idx id [] = none
lpos_from idx id (other ∷ l) =
    let rest = lpos_from (suc idx) id l in if str_eq other id then some idx else rest

pub pop_none : (l : List String) → pop l ≡ none → l ≡ []
pop_none [] h = refl
pop_none (id ∷ l) h = ground (arith, h)

pub pop_some : (id : String) (l left : List String) → pop l ≡ some (id, left) → l ≡ id ∷ left
pop_some id [] left h = ground (arith, h)
pop_some id (other ∷ l) left h = ground (arith, h)

unfoldable pub memory_lists : Lists (List String)
memory_lists = record {
  lrange = λ l. l;
  lpop = λ l. pop l;
  rpush = λ id l. (l ++ id ∷ [], length l + 1);
  llen = length;
  lpos = lpos_from 0;
  lrange-rpush = λ id l. refl;
  rpush_reply = λ id l. refl;
  llen_lem = λ l. refl;
  lpop_none = pop_none;
  lpop_some = pop_some;
}

pub scored :
    (id : String) (n : ℕ) (z : GoMap ℕ) → lookup id z ≡ some n → is_some (lookup id z) ≡ true
unfolding is_some
scored id n z h = ap is_some h

pub unscored : (z : GoMap ℕ) (id : String) → least z z ≡ none → lookup id z ≡ none
unscored z id h = elim (Option-cases (lookup id z)) [
  | inl missing ↦ missing
  | inr (n, found) ↦ least_none z z id h (scored id n z found)
]

pub empty_none : (id : String) (z : GoMap ℕ) → length z ≡ 0 → lookup id z ≡ none
unfolding lookup
empty_none id [] h = refl
empty_none id (entry ∷ z) h = ground (arith, h)

unfoldable pub map_sorted : SortedSets (GoMap ℕ)
unfolding is_some
map_sorted = record {
  zscore = lookup;
  zcard = length;
  zadd = λ n id z. insert id n z;
  zrem = delete;
  zfirst = λ z. least z z;
  zup_to = λ cutoff limit z. take limit (lower cutoff z z);
  zscore-zadd = λ n id key z. lookup-insert id key n z;
  zscore-zrem = λ id key z. lookup-delete id key z;
  zcard-zrem = length-delete_found;
  zcard-none = λ id z h. empty_none id z h;
  zfirst_none = λ id z h. unscored z id h;
  zfirst_some = λ id n z h. least_found z z id n h;
  zfirst_least = λ id key n m z h found. least_low z z id key n m h (scored key m z found) found;
  zup_to_all = λ id n cutoff limit z found low few.
      ap (holds id) (take_all limit (lower cutoff z z) few)
      ∙ lower-holds cutoff n z z id (scored id n z found) found low;
}

-- The small Redis.
abbrev pub local_redis : Redis (GoMap (Unit {0})) (GoMap ℕ) (List String)
local_redis = record { sets = map_sets; sorted = map_sorted; lists = memory_lists }
