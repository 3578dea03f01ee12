-- ===== src/Unique/Config.antt =====
-- What the uniqueness checker is given, and what it computes without a call of the cache:
-- cdmp-mini/internal/common/service/unique/checker.go.
use cdmp_mini.Base.{ℕ, String, Bool, ◌&&◌, ◌||◌, Option, none, some, List, ◌∷◌, ltb, if◌then◌else◌}
use cdmp_mini.Base.Text.{is_empty, trim_space}
use cdmp_mini.Base.GoMap.{GoMap}
use cdmp_mini.Operation.Types.{GoError, Result, ok}
use cdmp_mini.Operation.Acts.{Outcome, Act, change}

-- `strings.TrimSpace(s) == ""`
abbrev pub is_blank : String → Bool
is_blank s = is_empty (trim_space s)

-- What the checker finds around it at its n-th look: what becomes of a call of the cache and how long
-- it takes, what others and the expiry of entries have done, and what the `Lookup` returns.
pub record World (E : Type 0) : Type 0 where
  pub net : ℕ → Outcome
  pub duration : ℕ → ℕ
  pub others : ℕ → GoMap String → GoMap String
  pub lookups : ℕ → Result E

-- The cache, the reasons given to `MarkDegraded`, whether the call holds a placeholder, how long the
-- last look took, and the number of looks.
pub record System : Type 0 where
  pub cache : GoMap String
  pub degraded : List String
  pub acquired : Bool
  pub elapsed : ℕ
  pub looks : ℕ

-- `CheckerConfig`. `zero` is the entity that stands for none, `cache_miss` the error of the client for a
-- missing key, and the callbacks are what they answer during the call.
pub record CheckerConfig (E : Type 0) : Type 0 where
  pub has_cache : Bool
  pub placeholder_fallback : String
  pub cache_ready : Bool
  pub degrade_active : Bool
  pub ensure_placeholder : Option (String → String → GoMap String → GoMap String)
  pub retry : Option (Act System E → Act System E)
  pub should_degrade : GoError → Bool
  pub should_release_placeholder : Option (GoError → Bool)
  pub latency_threshold : ℕ
  pub latency_reason : String
  pub is_not_found : GoError → Bool
  pub is_cache_miss : GoError → Bool
  pub cache_miss : GoError
  pub zero : E
  pub equal_fold : String → String → Bool

-- `FieldConfig`, with the error for a taken field.
pub record FieldConfig (E : Type 0) : Type 0 where
  pub allowed_owner : String
  pub cache_key : String
  pub placeholder_value : String
  pub has_lookup : Bool
  pub extract_owner : Option (E → String)
  pub conflict : GoError
  pub is_allowed_owner : Option (String → String → Bool)
  pub skip_placeholder_lookup : Option (String → Bool)
  pub degrade_reason : String

-- The default of a callback.
abbrev pub callback : {A : Type 0} → Option A → A → A
callback none default = default
callback (some f) default = f

-- `MarkDegraded`
abbrev pub mark : String → Act System (Unit {0})
mark reason = change (λ s. record s { degraded = reason ∷ s.degraded })

module _ {E : Type 0} (cfg : CheckerConfig E) (field : FieldConfig E) where
  -- `isAllowed`
  unfoldable pub is_allowed : String → Bool
  is_allowed owner = callback field.is_allowed_owner cfg.equal_fold owner field.allowed_owner

  -- `placeholderValue`
  unfoldable pub placeholder : String
  placeholder =
      let own =
        if is_blank field.placeholder_value then field.allowed_owner else field.placeholder_value in
      if is_blank own then cfg.placeholder_fallback else own

  -- `cfg.ExtractOwner(entity)`
  unfoldable pub owner_of : E → String
  owner_of entity = callback field.extract_owner (λ e. "") entity

  -- Whether an entity leaves the field to the caller.
  unfoldable pub is_free : E → Bool
  unfolding owner_of is_allowed
  is_free entity = is_empty (owner_of entity) || is_allowed (owner_of entity)

  -- `slowCommandReason`
  slow_command_reason : String
  slow_command_reason =
      if is_blank cfg.latency_reason then "redis_command_slow" else trim_space cfg.latency_reason

  -- `maybeDegradeSlowCommand`, of the last command
  unfoldable pub maybe_degrade_slow_command : Act System (Unit {0})
  unfolding slow_command_reason
  maybe_degrade_slow_command s =
      if ltb 0 cfg.latency_threshold && ltb cfg.latency_threshold s.elapsed
      then mark slow_command_reason s
      else (s, ok tt)

  -- `EnsurePlaceholder`, if it is there
  unfoldable pub ensure_placeholder : Act System (Unit {0})
  ensure_placeholder s = (
    record s {
      cache =
          callback cfg.ensure_placeholder (λ key value cache. cache) field.cache_key placeholder
            s.cache;
    },
    ok tt,
  )
