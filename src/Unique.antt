-- ===== src/Unique.antt =====
-- The uniqueness checker of the services: cdmp-mini/internal/common/service/unique/checker.go.
-- The checker and its context are there; metrics and logs are left out. A callback that may be nil is
-- an `Option` where the code asks, and the clients with and without a command timeout are one.
pub mod Checks
pub mod Config
pub mod Examples
pub mod First
use cdmp_mini.Base.{
  ℕ, ◌+◌, String, Bool, true, false, not, ◌&&◌, ◌||◌, Option, none, some, List, [], ◌∷◌, ltb,
  if◌then◌else◌,
}
use cdmp_mini.Base.Text.{is_empty, trim_space}
use cdmp_mini.Base.GoMap.{GoMap, lookup, insert, delete}
use cdmp_mini.Operation.Types.{GoError, Result, ok, err}
use cdmp_mini.Operation.Acts.{
  Outcome, Act, answer, attempt, or_fail, ◌>>=◌, ◌>>◌, given, return, fail, change,
}
use cdmp_mini.Unique.Config.{
  is_blank, World, System, CheckerConfig, FieldConfig, callback, is_allowed, placeholder, owner_of,
  is_free, mark, maybe_degrade_slow_command, ensure_placeholder,
}

module _ {E : Type 0} (world : World E) where
  -- One command of the cache, on what the others have left.
  unfoldable pub call : {A : Type 0} → (GoMap String → GoMap String × A) → Act System A
  unfolding answer
  call command s =
      let found = world.others s.looks s.cache in
      let done = answer (world.net s.looks) found (command found) in
      (record s { cache = done.0; elapsed = world.duration s.looks; looks = s.looks + 1 }, done.1)

  -- `Lookup`
  unfoldable pub lookup_entity : Act System E
  lookup_entity s = (record s { looks = s.looks + 1 }, world.lookups s.looks)

-- `SETNX`, with whether the value is written.
unfoldable pub write_absent : String → String → Option String → GoMap String → GoMap String × Bool
write_absent key value none cache = (insert key value cache, true)
write_absent key value (some old) cache = (cache, false)

pub present_or : {A : Type 0} → GoError → Option A → Result A
present_or e none = err e
present_or e (some a) = ok a

module _ {E : Type 0} (cfg : CheckerConfig E) (field : FieldConfig E) (world : World E) where
  -- `getKey`
  pub get_key : Act System String
  unfolding call present_or
  get_key = do
    found ← call world (λ cache. (cache, lookup field.cache_key cache))
    given (present_or cfg.cache_miss found)

  -- `setNX`
  pub set_nx : Act System Bool
  unfolding call write_absent
  set_nx = call world (λ cache.
      write_absent field.cache_key (placeholder cfg field) (lookup field.cache_key cache) cache)

  -- `setKey`
  pub set_key : String → Act System (Unit {0})
  unfolding call
  set_key value = call world (λ cache. (insert field.cache_key value cache, tt))

  -- `deleteKey`
  pub delete_key : Act System (Unit {0})
  unfolding call
  delete_key = call world (λ cache. (delete field.cache_key cache, tt))

  -- The callback of `runLookup`.
  pub executed : Result E → Act System E
  executed (ok entity) = return entity
  executed (err e) = if cfg.is_not_found e then return cfg.zero else fail e

  -- `runLookup`
  unfoldable pub run_lookup : Act System E
  unfolding executed lookup_entity
  run_lookup =
      if field.has_lookup
      then callback cfg.retry (λ act. act) (attempt (lookup_entity world) executed)
      else return cfg.zero

  -- After `setKey` of the other owner.
  pub owner_cached : Result (Unit {0}) → Act System (Unit {0})
  unfolding maybe_degrade_slow_command
  owner_cached (ok done) = maybe_degrade_slow_command cfg field >> fail field.conflict
  owner_cached (err e) = mark "redis_cache_error" >> fail field.conflict

  -- The decision by what the lookup has found.
  pub looked : Result E → Act System (Unit {0})
  unfolding is_free owner_of set_key owner_cached ensure_placeholder
  looked (ok entity) =
      if is_free cfg field entity
      then return tt
      else attempt (set_key (owner_of cfg field entity)) owner_cached
  looked (err e) =
      if cfg.should_degrade e
      then mark field.degrade_reason >> ensure_placeholder cfg field
      else fail e

  -- The decision by the owner that the cache names.
  pub decide : String → Bool → Act System (Unit {0})
  unfolding is_allowed run_lookup looked
  decide owner acquired =
      if is_blank owner
      then attempt run_lookup looked
      else if not (is_allowed cfg field owner)
      then fail field.conflict
      else if acquired
      then attempt run_lookup looked
      else return tt

  pub refreshed : String → Result String → Act System (Unit {0})
  unfolding decide
  refreshed owner (ok found) = decide found false
  refreshed owner (err e) = decide owner false

  -- After `setNX`; `owner` is blank.
  pub placed : String → Result Bool → Act System (Unit {0})
  unfolding maybe_degrade_slow_command placeholder decide refreshed get_key
  placed owner (err e) = mark "redis_placeholder_error" >> decide owner false
  placed owner (ok true) =
      maybe_degrade_slow_command cfg field
      >> (change (λ s. record s { acquired = true })
          >> (if cfg.cache_ready
                && callback field.skip_placeholder_lookup (λ p. false) (placeholder cfg field)
              then return tt
              else decide (placeholder cfg field) true))
  placed owner (ok false) =
      maybe_degrade_slow_command cfg field >> attempt get_key (refreshed owner)

  -- After the first `getKey`.
  pub cached : Result String → Act System (Unit {0})
  unfolding is_allowed set_nx placed
  cached (ok owner) =
      if is_blank owner
      then attempt set_nx (placed owner)
      else if is_allowed cfg field owner
      then return tt
      else fail field.conflict
  cached (err e) =
      (if cfg.is_cache_miss e then return tt else mark "redis_cache_error")
      >> attempt set_nx (placed "")

  -- The check without a cache.
  pub judged : E → Act System (Unit {0})
  unfolding is_free
  judged entity = if is_free cfg field entity then return tt else fail field.conflict

  -- The body of `EnsureFieldUnique` between its variables and its deferred function.
  pub checked : Act System (Unit {0})
  unfolding ensure_placeholder run_lookup judged get_key cached
  checked =
      if cfg.degrade_active
      then (if cfg.has_cache then ensure_placeholder cfg field else return tt)
      else if cfg.has_cache
      then attempt get_key cached
      else run_lookup >>= judged

  -- The deferred function.
  pub released : Result (Unit {0}) → Act System (Unit {0})
  unfolding delete_key
  released (ok done) s = (s, ok tt)
  released (err e) s =
      if s.acquired && cfg.has_cache && callback cfg.should_release_placeholder (λ e. true) e
      then attempt delete_key (λ done. fail e) s
      else (s, err e)

  -- `EnsureFieldUnique`
  unfoldable pub ensure_field_unique : Act System (Unit {0})
  unfolding checked released
  ensure_field_unique s =
      if is_blank field.cache_key
      then (s, ok tt)
      else attempt checked released (record s { acquired = false })
