-- ===== src/Unique/First.antt =====
-- The first check of a field that the cache has no entry for, with a cache that answers:
-- cdmp-mini/internal/common/service/unique/checker.go.
use cdmp_mini.Base.{
  ℕ, ◌+◌, ◌≡◌, ◌∙◌, refl, ap, inl, inr, String, Bool, true, false, ◌&&◌, Option, none, some,
  Bool-cases, if◌then◌else◌, ltb, arith, eq_refl,
}
use cdmp_mini.Base.GoMap.{GoMap, lookup, insert, delete, lookup-insert_self, lookup-delete}
use cdmp_mini.Operation.Types.{GoError, Result, ok, err}
use cdmp_mini.Operation.Acts.{Act, after, answered, answer, attempt, or_fail, return, fail}
use cdmp_mini.Operation.Acts.Ends.{Ends, attempt_known, known-Ends, known_attempt-Ends, bind-Ends}
use cdmp_mini.Unique.Config.{
  is_blank, World, System, CheckerConfig, FieldConfig, callback, is_allowed, placeholder, owner_of,
  is_free, mark, maybe_degrade_slow_command, ensure_placeholder,
}
use cdmp_mini.Unique.{
  call, write_absent, present_or, get_key, set_nx, set_key, delete_key, run_lookup, owner_cached,
  looked, decide, placed, cached, checked, released, ensure_field_unique,
}

-- Every call of the cache is answered, and nobody else changes it.
pub record IsCalm {E : Type 0} (world : World E) : Type 0 where
  pub answers : (n : ℕ) → world.net n ≡ answered
  pub alone : (n : ℕ) (cache : GoMap String) → world.others n cache ≡ cache

-- A check of a key that goes by the cache.
pub record GoesByCache {E : Type 0} (cfg : CheckerConfig E) (field : FieldConfig E) : Type 0 where
  pub keyed : is_blank field.cache_key ≡ false
  pub with_cache : cfg.has_cache ≡ true
  pub undegraded : cfg.degrade_active ≡ false

-- What the callbacks do: the lookup with its retries, which begins at the n-th look, returns `found n`
-- and touches neither the cache nor the placeholder, and `EnsurePlaceholder` leaves an entry that is
-- the placeholder already.
pub record KeepsCache {E : Type 0} (cfg : CheckerConfig E) (field : FieldConfig E) (world : World E)
    (found : ℕ → Result E) : Type 0 where
  pub finds : (s : System) → (run_lookup cfg field world s).1 ≡ found s.looks
  pub same_cache : (s : System) → (run_lookup cfg field world s).0.cache ≡ s.cache
  pub same_hold : (s : System) → (run_lookup cfg field world s).0.acquired ≡ s.acquired
  pub ensures :
      (cache : GoMap String)
      → lookup field.cache_key cache ≡ some (placeholder cfg field)
      → lookup field.cache_key (
          callback cfg.ensure_placeholder
            (λ key value c. c)
            field.cache_key
            (placeholder cfg field)
            cache)
        ≡ some (placeholder cfg field)

-- Whether the cache is taken at its word for the placeholder that has just been written.
abbrev pub trusts : {E : Type 0} → CheckerConfig E → FieldConfig E → Bool
trusts cfg field =
    cfg.cache_ready && callback field.skip_placeholder_lookup (λ p. false) (placeholder cfg field)

-- The state after a look that leaves `cache`.
abbrev pub moved : {E : Type 0} → World E → GoMap String → System → System
moved world cache s = record s {
  cache = cache;
  elapsed = world.duration s.looks;
  looks = s.looks + 1;
}

module _ {E : Type 0} {world : World E} (calm : IsCalm world) where
  pub call_calm :
      {A : Type 0} (command : GoMap String → GoMap String × A) (s : System)
      → call world command s ≡ (moved world (command s.cache).0 s, ok (command s.cache).1)
  unfolding call answer
  call_calm command s = rw (calm.alone s.looks s.cache, calm.answers s.looks) refl

  pub get_known :
      (cfg : CheckerConfig E) (field : FieldConfig E) (s : System) (o : Option String)
      → lookup field.cache_key s.cache ≡ o
      → get_key cfg field world s ≡ (moved world s.cache s, present_or cfg.cache_miss o)
  unfolding get_key or_fail
  get_known cfg field s o found =
      attempt_known _ _ (call_calm (λ cache. (cache, lookup field.cache_key cache)) s)
      ∙ ap (λ p. (moved world s.cache s, present_or cfg.cache_miss p)) found

-- What the call must return by what the lookup has found, and the value that it must have written for
-- the key by then.
pub verdict : {E : Type 0} → CheckerConfig E → FieldConfig E → Result E → Result (Unit {0})
verdict cfg field (ok entity) = if is_free cfg field entity then ok tt else err field.conflict
verdict cfg field (err e) = if cfg.should_degrade e then ok tt else err e

pub written_by : {E : Type 0} → CheckerConfig E → FieldConfig E → Result E → String
written_by cfg field (ok entity) =
    if is_free cfg field entity then placeholder cfg field else owner_of cfg field entity
written_by cfg field (err e) = placeholder cfg field

-- What is left of that value: an error that releases the placeholder takes it back.
abbrev pub entry_after : {E : Type 0} → CheckerConfig E → Result (Unit {0}) → String → Option String
entry_after cfg (ok done) value = some value
entry_after cfg (err e) value =
    if callback cfg.should_release_placeholder (λ e'. true) e then none else some value

pub written_by-passed :
    {E : Type 0} (cfg : CheckerConfig E) (field : FieldConfig E) (r : Result E)
    → verdict cfg field r ≡ ok tt
    → written_by cfg field r ≡ placeholder cfg field
unfolding verdict written_by
written_by-passed cfg field (ok entity) h = elim (Bool-cases (is_free cfg field entity)) [
  | inl free ↦ rw free refl
  | inr taken ↦ absurd (cc (rw taken at h))
]
written_by-passed cfg field (err e) h = refl

-- A step that touches neither the cache nor the placeholder.
pub record Quiet (before s : System) (r : Result (Unit {0})) : Type 0 where
  pub cache_eq : s.cache ≡ before.cache
  pub looks_eq : s.looks ≡ before.looks
  pub acquired_eq : s.acquired ≡ before.acquired
  pub fine : r ≡ ok tt

by_cache :
    {A : Type 0} {degraded with_cache : Bool} (without : Act System A) {through : Act System A}
    (beside : Act System A) {Q : System → Result A → Type 0} {s : System}
    → degraded ≡ false
    → with_cache ≡ true
    → Ends through Q s
    → Ends (if degraded then without else if with_cache then through else beside) Q s
by_cache without beside healthy there run = rw (healthy, there) run

all_three : {a b c d : Bool} → a ≡ true → b ≡ true → c ≡ d → (a && b && c) ≡ d
all_three p q r = rw (p, q) r

module _ {E : Type 0} (cfg : CheckerConfig E) (field : FieldConfig E) where
  maybe_degrade-Quiet : (s : System) → Ends (maybe_degrade_slow_command cfg field) (Quiet s) s
  unfolding maybe_degrade_slow_command
  maybe_degrade-Quiet s =
      elim (Bool-cases (ltb 0 cfg.latency_threshold && ltb cfg.latency_threshold s.elapsed)) [
        | inl slow ↦ record {
          ended =
              rw slow
                (record { cache_eq = refl; looks_eq = refl; acquired_eq = refl; fine = refl });
        }
        | inr fast ↦ record {
          ended =
              rw fast
                (record { cache_eq = refl; looks_eq = refl; acquired_eq = refl; fine = refl });
        }
      ]

  -- The checked call has its result, holds its placeholder, and has written a value for the key.
  pub record Settled (result : Result (Unit {0})) (value : String) (s : System)
      (r : Result (Unit {0})) : Type 0 where
    pub result_eq : r ≡ result
    pub held : s.acquired ≡ true
    pub stored : lookup field.cache_key s.cache ≡ some value

  module _ (goes : GoesByCache cfg field) {world : World E} (calm : IsCalm world) where
    taken-Settled :
        (owner : String) (s : System)
        → s.acquired ≡ true
        → Ends
            (attempt (set_key cfg field world owner) (owner_cached cfg field world))
            (Settled (err field.conflict) owner)
            s
    unfolding set_key owner_cached
    taken-Settled owner s held =
        let put = call_calm calm (λ cache. (insert field.cache_key owner cache, tt)) s in
        known_attempt-Ends (set_key cfg field world owner) (owner_cached cfg field world) put (
          bind-Ends (maybe_degrade-Quiet (moved world (insert field.cache_key owner s.cache) s))
            (λ s' a q. record {
              ended = record {
                result_eq = refl;
                held = q.acquired_eq ∙ held;
                stored =
                    ap (lookup field.cache_key) q.cache_eq
                    ∙ lookup-insert_self field.cache_key owner s.cache;
              };
            })
            (λ s' e q. absurd (cc (q.fine))))

    module _ {found : ℕ → Result E} (keeps : KeepsCache cfg field world found) where
      looked-Settled :
          (r : Result E) (s : System)
          → s.acquired ≡ true
          → lookup field.cache_key s.cache ≡ some (placeholder cfg field)
          → Ends
              (looked cfg field world r)
              (Settled (verdict cfg field r) (written_by cfg field r))
              s
      unfolding looked verdict written_by ensure_placeholder
      looked-Settled (ok entity) s held stored = elim (Bool-cases (is_free cfg field entity)) [
        | inl free ↦
            rw free (record { ended = record { result_eq = refl; held = held; stored = stored } })
        | inr taken ↦ rw taken (taken-Settled (owner_of cfg field entity) s held)
      ]
      looked-Settled (err e) s held stored = elim (Bool-cases (cfg.should_degrade e)) [
        | inl degrades ↦ rw degrades (
            known-Ends _ _ refl (record {
              ended = record {
                result_eq = refl;
                held = held;
                stored = keeps.ensures s.cache stored;
              };
            }))
        | inr strict ↦
            rw strict (record { ended = record { result_eq = refl; held = held; stored = stored } })
      ]

      decide-Settled :
          (s : System)
          → is_blank (placeholder cfg field) ≡ false
          → is_allowed cfg field (placeholder cfg field) ≡ true
          → s.acquired ≡ true
          → lookup field.cache_key s.cache ≡ some (placeholder cfg field)
          → Ends
              (decide cfg field world (placeholder cfg field) true)
              (Settled (verdict cfg field (found s.looks)) (written_by cfg field (found s.looks)))
              s
      unfolding decide
      decide-Settled s full own held stored =
          rw (full, own, ← keeps.finds s)
            (known_attempt-Ends (run_lookup cfg field world) (looked cfg field world) refl (
              looked-Settled (run_lookup cfg field world s).1 (run_lookup cfg field world s).0
                (keeps.same_hold s ∙ held)
                (ap (lookup field.cache_key) (keeps.same_cache s) ∙ stored)))

      pub follow-Settled :
          (s : System)
          → is_blank (placeholder cfg field) ≡ false
          → is_allowed cfg field (placeholder cfg field) ≡ true
          → s.acquired ≡ true
          → lookup field.cache_key s.cache ≡ some (placeholder cfg field)
          → Ends
              (if trusts cfg field
                then return tt
                else decide cfg field world (placeholder cfg field) true)
              (Settled (if trusts cfg field then ok tt else verdict cfg field (found s.looks)) (
                if trusts cfg field
                then placeholder cfg field
                else written_by cfg field (found s.looks)))
              s
      follow-Settled s full own held stored = elim (Bool-cases (trusts cfg field)) [
        | inl trusted ↦
            rw trusted
              (record { ended = record { result_eq = refl; held = held; stored = stored } })
        | inr asks ↦ rw asks (decide-Settled s full own held stored)
      ]

    -- What follows the placeholder gives `result` and writes `value`.
    module _ (result : ℕ → Result (Unit {0})) (value : ℕ → String)
        (follows : (s : System)
          → s.acquired ≡ true
          → lookup field.cache_key s.cache ≡ some (placeholder cfg field)
          → Ends
              (if trusts cfg field
                then return tt
                else decide cfg field world (placeholder cfg field) true)
              (Settled (result s.looks) (value s.looks))
              s) where
      placed-Settled :
          (s : System)
          → lookup field.cache_key s.cache ≡ some (placeholder cfg field)
          → Ends (placed cfg field world "" (ok true)) (Settled (result s.looks) (value s.looks)) s
      unfolding placed
      placed-Settled s stored =
          bind-Ends (maybe_degrade-Quiet s)
            (λ s' a q. known-Ends _ _ refl (
              rw (← q.looks_eq) (
                follows (record s' { acquired = true }) refl
                  (ap (lookup field.cache_key) q.cache_eq ∙ stored))))
            (λ s' e q. absurd (cc (q.fine)))

      -- The entry is not there: the placeholder is written.
      place-Settled :
          (s : System)
          → lookup field.cache_key s.cache ≡ none
          → Ends
              (attempt (set_nx cfg field world) (placed cfg field world ""))
              (Settled (result (s.looks + 1)) (value (s.looks + 1)))
              s
      unfolding set_nx write_absent
      place-Settled s absent =
          let written = insert field.cache_key (placeholder cfg field) s.cache in
          let put =
            call_calm calm
              (λ cache.
                write_absent field.cache_key (placeholder cfg field) (lookup field.cache_key cache)
                  cache)
              s in
          known_attempt-Ends (set_nx cfg field world) (placed cfg field world "")
            (put
              ∙ ap
                  (λ o.
                    let done = write_absent field.cache_key (placeholder cfg field) o s.cache in
                    (moved world done.0 s, ok done.1))
                  absent)
            (placed-Settled (moved world written s)
              (lookup-insert_self field.cache_key (placeholder cfg field) s.cache))

      missed-Quiet :
          (e : GoError) (s : System)
          → Ends (if cfg.is_cache_miss e then return tt else mark "redis_cache_error") (Quiet s) s
      missed-Quiet e s = elim (Bool-cases (cfg.is_cache_miss e)) [
        | inl miss ↦ rw miss (record {
          ended = record { cache_eq = refl; looks_eq = refl; acquired_eq = refl; fine = refl };
        })
        | inr fault ↦ rw fault (record {
          ended = record { cache_eq = refl; looks_eq = refl; acquired_eq = refl; fine = refl };
        })
      ]

      checked-Settled :
          (s : System)
          → lookup field.cache_key s.cache ≡ none
          → Ends
              (checked cfg field world)
              (Settled (result (s.looks + 1 + 1)) (value (s.looks + 1 + 1)))
              s
      unfolding checked cached
      checked-Settled s absent =
          let missed = get_known calm cfg field s none absent in
          by_cache _ _ goes.undegraded goes.with_cache (
            known_attempt-Ends (get_key cfg field world) (cached cfg field world) missed (
              bind-Ends (missed-Quiet cfg.cache_miss (moved world s.cache s))
                (λ s' a q.
                  rw (← q.looks_eq)
                    (place-Settled s' (ap (lookup field.cache_key) q.cache_eq ∙ absent)))
                (λ s' e q. absurd (cc (q.fine)))))

      -- The deferred function takes the entry back on an error that releases.
      released_end :
          (outcome r : Result (Unit {0})) (left : String) (s : System)
          → Settled outcome left s r
          → ((released cfg field world r s).1 ≡ outcome)
            × (lookup field.cache_key (released cfg field world r s).0.cache
                ≡ entry_after cfg outcome left)
      unfolding released delete_key
      released_end outcome (ok done) left s settled =
          rw (← settled.result_eq) (refl, settled.stored)
      released_end outcome (err e) left s settled =
          let taken = call_calm calm (λ cache. (delete field.cache_key cache, tt)) s in
          let gone =
            lookup-delete field.cache_key field.cache_key s.cache
            ∙ rw (eq_refl field.cache_key) refl in
          let releases = callback cfg.should_release_placeholder (λ e'. true) e in
          elim (Bool-cases releases) [
            | inl back ↦
                rw
                  (
                    ← settled.result_eq,
                    all_three settled.held goes.with_cache back,
                    back,
                    attempt_known (delete_key cfg field world) (λ done. fail e) {s = s} taken,
                  )
                  (refl, gone)
            | inr stays ↦
                rw (← settled.result_eq, all_three settled.held goes.with_cache stays, stays)
                  (refl, settled.stored)
          ]

      -- The whole call.
      pub first_call :
          (s : System)
          → lookup field.cache_key s.cache ≡ none
          → ((ensure_field_unique cfg field world s).1 ≡ result (s.looks + 2))
            × (lookup field.cache_key (ensure_field_unique cfg field world s).0.cache
                ≡ entry_after cfg (result (s.looks + 2)) (value (s.looks + 2)))
      unfolding ensure_field_unique attempt after
      first_call s absent =
          let start : System = record s { acquired = false } in
          let settled = (checked-Settled start absent).ended in
          let two : s.looks + 1 + 1 ≡ s.looks + 2 = omega arith in
          rw (goes.keyed, ← two)
            (released_end _ (checked cfg field world start).1 _ (checked cfg field world start).0
              settled)
