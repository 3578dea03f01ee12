-- ===== src/User/Mode.antt =====
-- The configuration that says which requests on users go through the queue:
-- cdmp-mini/internal/apiserver/service/v1/user/operation_mode_controller.go.
-- A set of strings is the list of its members. A percentage that is not positive stands as 0.
-- `lower_rune` is `unicode.ToLower`.
pub mod Sanitized
use Prim.Native.Char.{Char}
use Prim.Native.String.{◌++◌ as join}
use text.Mathlib.Text.{◌==◌ as str_eq}
use cdmp_mini.Base.{
  ℕ, ◌+◌, ◌%◌, String, Bool, true, false, not, ◌&&◌, ◌||◌, List, [], ◌∷◌, ltb, leb, ◌==◌,
  if◌then◌else◌,
}
use cdmp_mini.Base.Text.{is_empty, trim_space, to_lower}
use cdmp_mini.Base.Decimal.{itoa}
use cdmp_mini.Pending.Hash.{fnv32a}

abbrev pub mode_sync : String
mode_sync = "sync"

abbrev pub mode_queue : String
mode_queue = "queue"

abbrev pub mode_rollout : String
mode_rollout = "rollout"

abbrev default_queue_kinds : List String
default_queue_kinds = "create" ∷ "update" ∷ "delete" ∷ "batch" ∷ []

pub record OperationModeConfig : Type 0 where
  pub mode : String
  pub rollout_percent : ℕ
  pub sticky_header : String
  pub queue_kinds : List String
  pub allow_users : List String
  pub block_users : List String
  pub prefer_subject_kinds : List String
  pub prefer_subject_users : List String

-- `operationModeState`
pub record ModeState : Type 0 where
  pub config : OperationModeConfig
  pub mode : String
  pub rollout_percent : ℕ
  pub sticky_header : String
  pub queue_kind_set : List String
  pub allow_user_set : List String
  pub block_user_set : List String
  pub prefer_subject_kind_set : List String
  pub prefer_subject_user_set : List String

pub record OperationModeDecision : Type 0 where
  pub mode : String
  pub queue_kinds_hit : Bool
  pub subject_blocked : Bool
  pub subject_allowed : Bool
  pub rollout_sample : Bool

-- The lock of `operationModeController` is held for each read and write of its state.
pub record ModeController : Type 0 where
  pub seq : ℕ
  pub state : ModeState

unfoldable pub contains : List String → String → Bool
contains [] item = false
contains (other ∷ items) item = str_eq other item || contains items item

unfoldable pub is_nil : List String → Bool
is_nil [] = true
is_nil (item ∷ items) = false

module _ (lower_rune : Char → Char) where
  abbrev pub normal : String → String
  normal s = to_lower lower_rune (trim_space s)

  -- The loop of `dedupeToLower`, with the set of what it has met.
  pub dedupe_from : List String → List String → List String
  unfolding contains
  dedupe_from seen [] = []
  dedupe_from seen (raw ∷ items) =
      let trimmed = normal raw in
      let kept = trimmed ∷ dedupe_from (trimmed ∷ seen) items in
      let skipped = dedupe_from seen items in
      if is_empty trimmed then skipped else if contains seen trimmed then skipped else kept

  -- `dedupeToLower`
  unfoldable pub dedupe_to_lower : List String → List String
  unfolding dedupe_from
  dedupe_to_lower items = dedupe_from [] items

  -- The mode that `sanitizeOperationModeConfig` reads, which is one of the three.
  pub sanitized_mode : String → String
  sanitized_mode raw =
      let mode = normal raw in
      if str_eq mode mode_sync || str_eq mode mode_queue || str_eq mode mode_rollout
      then mode
      else mode_queue

  pub sanitized_kinds : List String → List String
  unfolding dedupe_to_lower is_nil
  sanitized_kinds kinds =
      let deduped = dedupe_to_lower kinds in if is_nil deduped then default_queue_kinds else deduped

  -- `normalized` of `sanitizeOperationModeConfig`
  unfoldable pub sanitized_config : OperationModeConfig → OperationModeConfig
  unfolding sanitized_mode sanitized_kinds dedupe_to_lower
  sanitized_config cfg = record {
    mode = sanitized_mode cfg.mode;
    rollout_percent = if ltb 100 cfg.rollout_percent then 100 else cfg.rollout_percent;
    sticky_header = normal cfg.sticky_header;
    queue_kinds = sanitized_kinds cfg.queue_kinds;
    allow_users = dedupe_to_lower cfg.allow_users;
    block_users = dedupe_to_lower cfg.block_users;
    prefer_subject_kinds = dedupe_to_lower cfg.prefer_subject_kinds;
    prefer_subject_users = dedupe_to_lower cfg.prefer_subject_users;
  }

  -- `sanitizeOperationModeConfig`
  unfoldable pub sanitize : OperationModeConfig → ModeState
  unfolding sanitized_config
  sanitize cfg =
      let normalized = sanitized_config cfg in
      record {
        config = normalized;
        mode = normalized.mode;
        rollout_percent = normalized.rollout_percent;
        sticky_header = normalized.sticky_header;
        queue_kind_set = normalized.queue_kinds;
        allow_user_set = normalized.allow_users;
        block_user_set = normalized.block_users;
        prefer_subject_kind_set = normalized.prefer_subject_kinds;
        prefer_subject_user_set = normalized.prefer_subject_users;
      }

  -- `newOperationModeController`
  unfoldable pub new_controller : OperationModeConfig → ModeController
  unfolding sanitize
  new_controller cfg = record { seq = 0; state = sanitize cfg }

  -- `Update`
  unfoldable pub update_mode :
      OperationModeConfig → ModeController → ModeController × OperationModeConfig
  unfolding sanitize
  update_mode cfg c = (record c { state = sanitize cfg }, (sanitize cfg).config)

-- `Snapshot`
abbrev pub snapshot : ModeController → OperationModeConfig
snapshot c = c.state.config
