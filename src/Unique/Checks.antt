-- ===== src/Unique/Checks.antt =====
-- What `EnsureFieldUnique` returns and leaves in the cache, with a cache that answers:
-- cdmp-mini/internal/common/service/unique/checker.go.
use cdmp_mini.Base.{
  ℕ, ◌+◌, ◌≡◌, ◌∙◌, refl, ap, sym, inl, inr, String, Bool, true, false, none, some, Bool-cases,
  if◌then◌else◌,
}
use cdmp_mini.Base.GoMap.{lookup}
use cdmp_mini.Operation.Types.{Result, ok, err}
use cdmp_mini.Operation.Acts.Ends.{Ends, attempt_known}
use cdmp_mini.Unique.Config.{
  is_blank, World, System, CheckerConfig, FieldConfig, callback, is_allowed, placeholder,
}
use cdmp_mini.Unique.First.{
  IsCalm, GoesByCache, KeepsCache, moved, get_known, verdict, written_by, entry_after,
  written_by-passed, Settled, follow-Settled, trusts, first_call,
}
use cdmp_mini.Unique.{get_key, decide, cached, checked, released, ensure_field_unique}

-- A check of a key goes by the cache, every call of the cache is answered and nobody else changes it,
-- the cache has no entry for the key, the placeholder is the caller's own, and the lookup with its
-- retries touches neither the cache nor the placeholder and EnsurePlaceholder leaves that placeholder.
-- Where the cache is taken at its word for the placeholder, EnsureFieldUnique returns nil; otherwise it
-- returns nil for an entity whose owner is none or allowed, the conflict for another owner, nil for an
-- error that degrades and any other error as it is. It leaves the placeholder in the cache where it
-- returns nil; where it returns an error, it leaves no entry if the error releases the placeholder, and
-- if not, the other owner for a conflict and the placeholder for an error of the lookup.
pub ensure_field_unique_first :
    {E : Type 0} (cfg : CheckerConfig E) (field : FieldConfig E) (world : World E)
    (found : ℕ → Result E) (s : System)
    → GoesByCache cfg field
    → IsCalm world
    → KeepsCache cfg field world found
    → is_blank (placeholder cfg field) ≡ false
    → is_allowed cfg field (placeholder cfg field) ≡ true
    → lookup field.cache_key s.cache ≡ none
    → let (s', result) = ensure_field_unique cfg field world s in
      let r = found (s.looks + 2) in
      (result ≡ (if trusts cfg field then ok tt else verdict cfg field r))
      × (lookup field.cache_key s'.cache
          ≡ entry_after cfg result
              (if trusts cfg field then placeholder cfg field else written_by cfg field r))
ensure_field_unique_first cfg field world found s goes calm keeps full own absent =
    let (result, entry) =
      first_call cfg field goes calm
        (λ n. if trusts cfg field then ok tt else verdict cfg field (found n))
        (λ n. if trusts cfg field then placeholder cfg field else written_by cfg field (found n))
        (λ s' held stored. follow-Settled cfg field goes calm keeps s' full own held stored) s
        absent in
    (result, rw result entry)

-- A call that returns nil leaves the placeholder.
kept_value :
    {E : Type 0} (cfg : CheckerConfig E) (field : FieldConfig E) (r : Result E)
    → (if trusts cfg field then ok tt else verdict cfg field r) ≡ ok tt
    → (if trusts cfg field then placeholder cfg field else written_by cfg field r)
      ≡ placeholder cfg field
kept_value cfg field r passed = elim (Bool-cases (trusts cfg field)) [
  | inl trusted ↦ rw trusted refl
  | inr asks ↦ let told = passed in rw asks (written_by-passed cfg field r (rw asks at told))
]

refused_decide :
    {E : Type 0} (cfg : CheckerConfig E) (field : FieldConfig E) (world : World E) (s : System)
    → is_blank (placeholder cfg field) ≡ false
    → is_allowed cfg field (placeholder cfg field) ≡ false
    → s.acquired ≡ true
    → lookup field.cache_key s.cache ≡ some (placeholder cfg field)
    → Ends
        (decide cfg field world (placeholder cfg field) true)
        (Settled cfg field (err field.conflict) (placeholder cfg field))
        s
unfolding decide
refused_decide cfg field world s full foreign held stored =
    rw (full, foreign)
      (record { ended = record { result_eq = refl; held = held; stored = stored } })

-- A check of a key goes by the cache, every call of the cache is answered, nobody else changes it, it
-- has no entry for the key, and it is not taken at its word for the placeholder, but the placeholder is
-- not the caller's own, as the fallback is not where both the owner and the placeholder are left empty:
-- then EnsureFieldUnique returns the conflict whatever the database says, also for a field that nobody
-- has; it leaves no entry if the conflict releases the placeholder, and if not, the placeholder.
pub ensure_field_unique_fallback :
    {E : Type 0} (cfg : CheckerConfig E) (field : FieldConfig E) (world : World E) (s : System)
    → GoesByCache cfg field
    → IsCalm world
    → is_blank (placeholder cfg field) ≡ false
    → is_allowed cfg field (placeholder cfg field) ≡ false
    → trusts cfg field ≡ false
    → lookup field.cache_key s.cache ≡ none
    → let (s', result) = ensure_field_unique cfg field world s in
      (result ≡ err field.conflict)
      × (lookup field.cache_key s'.cache ≡ (
          if callback cfg.should_release_placeholder (λ e. true) field.conflict
          then none
          else some (placeholder cfg field)))
ensure_field_unique_fallback cfg field world s goes calm full foreign asks absent =
    first_call cfg field goes calm (λ n. err field.conflict) (λ n. placeholder cfg field)
      (λ s' held stored. rw asks (refused_decide cfg field world s' full foreign held stored)) s
      absent

-- The decision by an entry that is there.
abbrev by_entry : {E : Type 0} → CheckerConfig E → FieldConfig E → String → Result (Unit {0})
by_entry cfg field owner = if is_allowed cfg field owner then ok tt else err field.conflict

unacquired :
    {E : Type 0} (cfg : CheckerConfig E) (field : FieldConfig E) (world : World E)
    (r : Result (Unit {0})) (s : System)
    → s.acquired ≡ false
    → released cfg field world r s ≡ (s, r)
unfolding released
unacquired cfg field world (ok done) s free = refl
unacquired cfg field world (err e) s free = rw free refl

cached_known :
    {E : Type 0} (cfg : CheckerConfig E) (field : FieldConfig E) (world : World E) (owner : String)
    (s : System)
    → is_blank owner ≡ false
    → cached cfg field world (ok owner) s ≡ (s, by_entry cfg field owner)
unfolding cached
cached_known cfg field world owner s full = elim (Bool-cases (is_allowed cfg field owner)) [
  | inl mine ↦ rw (full, mine) refl
  | inr other ↦ rw (full, other) refl
]

by_cache_eq :
    {A : Type 0} {degraded with_cache : Bool} (without through : System → A) (beside : System → A)
    (s : System) {end : A}
    → degraded ≡ false
    → with_cache ≡ true
    → through s ≡ end
    → (if degraded then without else if with_cache then through else beside) s ≡ end
by_cache_eq without through beside s healthy there known = rw (healthy, there) known

checked_known :
    {E : Type 0} (cfg : CheckerConfig E) (field : FieldConfig E) (world : World E) (owner : String)
    (s : System)
    → GoesByCache cfg field
    → IsCalm world
    → is_blank owner ≡ false
    → lookup field.cache_key s.cache ≡ some owner
    → checked cfg field world s ≡ (moved world s.cache s, by_entry cfg field owner)
unfolding checked
checked_known cfg field world owner s goes calm full stored =
    let found = get_known calm cfg field s (some owner) stored in
    by_cache_eq _ _ _ s goes.undegraded goes.with_cache (
      attempt_known (get_key cfg field world) (cached cfg field world) found
      ∙ cached_known cfg field world owner (moved world s.cache s) full)

second_call :
    {E : Type 0} (cfg : CheckerConfig E) (field : FieldConfig E) (world : World E) (owner : String)
    (s : System)
    → GoesByCache cfg field
    → IsCalm world
    → is_blank owner ≡ false
    → lookup field.cache_key s.cache ≡ some owner
    → ensure_field_unique cfg field world s
      ≡ (moved world s.cache (record s { acquired = false }), by_entry cfg field owner)
unfolding ensure_field_unique
second_call cfg field world owner s goes calm full stored =
    let start : System = record s { acquired = false } in
    let known = checked_known cfg field world owner start goes calm full stored in
    rw goes.keyed (
      attempt_known (checked cfg field world) (released cfg field world) known
      ∙ unacquired cfg field world (by_entry cfg field owner) (moved world s.cache start) refl)

-- Two callers check one key one after the other with a cache that they share; both go by the cache,
-- every call of it is answered, and nobody else changes it, also not between the two. The cache has no
-- entry for the key at the first check, the placeholder of the first is its own and not one of the
-- second caller's, and the callbacks of the first leave the cache as asked of them. Once the first
-- EnsureFieldUnique has returned nil, also where it has degraded or has not asked the database, the
-- second returns its conflict and leaves the cache as it is.
pub ensure_field_unique-excludes :
    {E : Type 0} (cfg cfg' : CheckerConfig E) (field field' : FieldConfig E)
    (world world' : World E) (found : ℕ → Result E) (s s' : System)
    → GoesByCache cfg field
    → GoesByCache cfg' field'
    → IsCalm world
    → IsCalm world'
    → KeepsCache cfg field world found
    → field'.cache_key ≡ field.cache_key
    → is_blank (placeholder cfg field) ≡ false
    → is_allowed cfg field (placeholder cfg field) ≡ true
    → is_allowed cfg' field' (placeholder cfg field) ≡ false
    → lookup field.cache_key s.cache ≡ none
    → (ensure_field_unique cfg field world s).1 ≡ ok tt
    → s'.cache ≡ (ensure_field_unique cfg field world s).0.cache
    → ((ensure_field_unique cfg' field' world' s').1 ≡ err field'.conflict)
      × ((ensure_field_unique cfg' field' world' s').0.cache ≡ s'.cache)
ensure_field_unique-excludes cfg cfg' field field' world world' found s s' goes goes' calm calm'
      keeps key full own foreign absent passed same =
    let r = found (s.looks + 2) in
    let (result, entry) =
      ensure_field_unique_first cfg field world found s goes calm keeps full own absent in
    let value = kept_value cfg field r (sym result ∙ passed) in
    let left =
      entry
      ∙ ap
          (λ e.
            entry_after cfg e
              (if trusts cfg field then placeholder cfg field else written_by cfg field r))
          passed
      ∙ ap some value in
    let stored = ap (λ k. lookup k s'.cache) key ∙ (ap (lookup field.cache_key) same ∙ left) in
    let second =
      second_call cfg' field' world' (placeholder cfg field) s' goes' calm' full stored in
    (ap (λ r. r.1) second ∙ rw foreign refl, ap (λ r. r.0.cache) second)
