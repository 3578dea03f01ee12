-- ===== src/User/Mode/Sanitized.antt =====
-- That a sanitized configuration is sanitized again to itself:
-- cdmp-mini/internal/apiserver/service/v1/user/operation_mode_controller.go.
use Prim.Native.Char.{Char}
use text.Mathlib.Text.{◌==◌ as str_eq}
use cdmp_mini.Base.{String, ◌≡◌, refl, ap, false, ◌||◌, List, [], ◌∷◌, arith, Bool-cases, inl, inr}
use cdmp_mini.Base.Text.{is_empty, trim_space, to_lower}
use cdmp_mini.Base.Text.Trimming.{LowersRunes, to_lower-trim_space_idem}
use cdmp_mini.User.Mode.{
  mode_sync, mode_queue, mode_rollout, default_queue_kinds, OperationModeConfig, ModeController,
  contains, is_nil, normal, dedupe_from, dedupe_to_lower, sanitized_mode, sanitized_kinds,
  sanitized_config, sanitize, update_mode, snapshot,
}

-- The words that the code compares with, or falls back on, are in lower case.
pub record KeepsWords (lower_rune : Char → Char) : Type 0 where
  pub lowers : LowersRunes lower_rune
  pub queue : to_lower lower_rune "queue" ≡ "queue"
  pub create : to_lower lower_rune "create" ≡ "create"
  pub update : to_lower lower_rune "update" ≡ "update"
  pub remove : to_lower lower_rune "delete" ≡ "delete"
  pub batch : to_lower lower_rune "batch" ≡ "batch"

module _ (lower_rune : Char → Char) (words : KeepsWords lower_rune) where
  normal_idem : (s : String) → normal lower_rune (normal lower_rune s) ≡ normal lower_rune s
  normal_idem s = to_lower-trim_space_idem lower_rune words.lowers s

  -- Names without a repetition, none of them in `seen`, and each as `normal` leaves it.
  data IsDeduped : List String → List String → Type 0 where
    nothing : {seen : List String} → IsDeduped seen []
    name_of :
        {seen : List String} {name : String} {names : List String}
        → is_empty name ≡ false
        → contains seen name ≡ false
        → normal lower_rune name ≡ name
        → IsDeduped (name ∷ seen) names
        → IsDeduped seen (name ∷ names)

  dedupe_from-IsDeduped :
      (seen items : List String) → IsDeduped seen (dedupe_from lower_rune seen items)
  unfolding dedupe_from
  dedupe_from-IsDeduped seen [] = nothing
  dedupe_from-IsDeduped seen (raw ∷ items) =
      let name = normal lower_rune raw in
      let skipped = dedupe_from-IsDeduped seen items in
      let rest = dedupe_from-IsDeduped (name ∷ seen) items in
      elim (Bool-cases (is_empty name)) [
        | inl blank ↦ rw blank skipped
        | inr named ↦ elim (Bool-cases (contains seen name)) [
          | inl known ↦ rw (named, known) skipped
          | inr fresh ↦ rw (named, fresh) (name_of named fresh (normal_idem raw) rest)
        ]
      ]

  dedupe_from-deduped :
      (seen names : List String) → IsDeduped seen names → dedupe_from lower_rune seen names ≡ names
  unfolding dedupe_from
  dedupe_from-deduped seen [] nothing = refl
  dedupe_from-deduped seen (name ∷ names) (name_of named fresh same rest) =
      rw (same, named, fresh)
        (ap (λ later. name ∷ later) (dedupe_from-deduped (name ∷ seen) names rest))

  dedupe_to_lower_idem :
      (items : List String)
      → dedupe_to_lower lower_rune (dedupe_to_lower lower_rune items)
        ≡ dedupe_to_lower lower_rune items
  unfolding dedupe_to_lower
  dedupe_to_lower_idem items =
      dedupe_from-deduped [] (dedupe_from lower_rune [] items) (dedupe_from-IsDeduped [] items)

  sanitized_mode_idem :
      (raw : String)
      → sanitized_mode lower_rune (sanitized_mode lower_rune raw) ≡ sanitized_mode lower_rune raw
  unfolding sanitized_mode trim_space
  sanitized_mode_idem raw =
      let mode = normal lower_rune raw in
      elim (Bool-cases
        (str_eq mode mode_sync || str_eq mode mode_queue || str_eq mode mode_rollout)) [
          | inl known ↦ rw (known, normal_idem raw, known) refl
          | inr other ↦ rw (other, words.queue) refl
        ]

  default_queue_kinds-IsDeduped : IsDeduped [] default_queue_kinds
  unfolding trim_space contains
  default_queue_kinds-IsDeduped = name_of refl refl words.create (
      name_of refl refl words.update
        (name_of refl refl words.remove (name_of refl refl words.batch nothing)))

  sanitized_kinds_idem :
      (kinds : List String)
      → sanitized_kinds lower_rune (sanitized_kinds lower_rune kinds)
        ≡ sanitized_kinds lower_rune kinds
  unfolding sanitized_kinds
  sanitized_kinds_idem kinds = elim (Bool-cases (is_nil (dedupe_to_lower lower_rune kinds))) [
    | inl empty ↦
        rw (empty, dedupe_from-deduped [] default_queue_kinds default_queue_kinds-IsDeduped) refl
    | inr some ↦ rw (some, dedupe_to_lower_idem kinds, some) refl
  ]

  sanitized_config_idem :
      (cfg : OperationModeConfig)
      → sanitized_config lower_rune (sanitized_config lower_rune cfg)
        ≡ sanitized_config lower_rune cfg
  unfolding sanitized_config
  sanitized_config_idem cfg =
      rw
        (
          sanitized_mode_idem cfg.mode,
          normal_idem cfg.sticky_header,
          sanitized_kinds_idem cfg.queue_kinds,
          dedupe_to_lower_idem cfg.allow_users,
          dedupe_to_lower_idem cfg.block_users,
          dedupe_to_lower_idem cfg.prefer_subject_kinds,
          dedupe_to_lower_idem cfg.prefer_subject_users,
        )
        (ground arith)

  -- What `Update` leaves and returns for a configuration that is sanitized.
  published : ModeController → OperationModeConfig → ModeController × OperationModeConfig
  published c cfg = (
    record c {
      state = record {
        config = cfg;
        mode = cfg.mode;
        rollout_percent = cfg.rollout_percent;
        sticky_header = cfg.sticky_header;
        queue_kind_set = cfg.queue_kinds;
        allow_user_set = cfg.allow_users;
        block_user_set = cfg.block_users;
        prefer_subject_kind_set = cfg.prefer_subject_kinds;
        prefer_subject_user_set = cfg.prefer_subject_users;
      };
    },
    cfg,
  )

  -- What `Snapshot` returns after an `Update`, given to `Update` again, leaves the controller as it
  -- is, and `Update` returns it as it was given.
  pub update_mode-snapshot :
      (cfg : OperationModeConfig) (c : ModeController)
      → update_mode lower_rune
          (snapshot (update_mode lower_rune cfg c).0)
          (update_mode lower_rune cfg c).0
        ≡ update_mode lower_rune cfg c
  unfolding update_mode sanitize published
  update_mode-snapshot cfg c = ap (published c) (sanitized_config_idem cfg)
