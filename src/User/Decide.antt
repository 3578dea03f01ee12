-- ===== src/User/Decide.antt =====
-- The decision for one request, whether it goes through the queue:
-- cdmp-mini/internal/apiserver/service/v1/user/operation_mode_controller.go.
-- `lower_rune` is `unicode.ToLower`, and `header` is what the context holds under the name of a header,
-- the empty string where there is none.
pub mod Rollout
use Prim.Native.Char.{Char}
use Prim.Native.String.{◌++◌ as join}
use text.Mathlib.Text.{◌==◌ as str_eq}
use cdmp_mini.Base.{
  ℕ, ◌+◌, ◌%◌, String, Bool, true, false, not, ◌&&◌, ◌||◌, ltb, leb, ◌==◌, if◌then◌else◌,
}
use cdmp_mini.Base.Text.{is_empty, to_lower}
use cdmp_mini.Base.Decimal.{itoa}
use cdmp_mini.Pending.Hash.{fnv32a}
use cdmp_mini.User.Mode.{
  mode_sync, mode_queue, mode_rollout, ModeState, OperationModeDecision, ModeController, contains,
  is_nil, normal,
}

-- `withinRolloutSample`
unfoldable pub within_rollout_sample : String → ℕ → Bool
within_rollout_sample key percent =
    if leb 100 percent then true else if percent == 0 then false else ltb (fnv32a key % 100) percent

-- A decision for one of the two modes, with the flags of the code.
abbrev pub decided : String → Bool → Bool → Bool → Bool → OperationModeDecision
decided mode hit blocked allowed sample = record {
  mode = mode;
  queue_kinds_hit = hit;
  subject_blocked = blocked;
  subject_allowed = allowed;
  rollout_sample = sample;
}

-- Whether the subject goes before the sticky header.
unfoldable pub prefers_subject : ModeState → String → String → Bool
unfolding contains
prefers_subject state kind subject =
    contains state.prefer_subject_kind_set kind
    || not (is_empty subject) && contains state.prefer_subject_user_set subject

-- `rolloutHeaderFromContext`
pub rollout_header : (Char → Char) → (String → String) → String → String
unfolding to_lower
rollout_header lower_rune header name =
    if is_empty name then "" else normal lower_rune (header name)

-- The key of the sample, which is empty where the sequence is to give one.
unfoldable pub rollout_key : ModeState → String → String → String → String
unfolding prefers_subject
rollout_key state kind subject value =
    if not (is_empty state.sticky_header)
      && not (is_empty value)
      && not (prefers_subject state kind subject && not (is_empty subject))
    then value
    else subject

-- The branch of the rollout mode with the key that it has found.
unfoldable pub sample_key : ModeController → Bool → String → ModeController × OperationModeDecision
unfolding within_rollout_sample itoa
sample_key c hit key =
    let seq = c.seq + 1 in
    let numbered = is_empty key in
    let sample =
      within_rollout_sample (if numbered then join "rollout:" (itoa seq) else key)
        c.state.rollout_percent in
    (
      if numbered then record c { seq = seq } else c,
      decided (if sample then mode_queue else mode_sync) hit false false sample,
    )

-- The `switch` on the mode.
unfoldable pub decide_by_mode :
    ModeController → Bool → String → String → String → ModeController × OperationModeDecision
unfolding rollout_key sample_key
decide_by_mode c hit kind subject value =
    if str_eq c.state.mode mode_sync
    then (c, decided mode_sync hit false false false)
    else if str_eq c.state.mode mode_queue
    then (c, decided mode_queue hit false false false)
    else if str_eq c.state.mode mode_rollout
    then (if c.state.rollout_percent == 0
        then (c, decided mode_sync hit false false false)
        else if leb 100 c.state.rollout_percent
        then (c, decided mode_queue hit false false true)
        else sample_key c hit (rollout_key c.state kind subject value))
    else (c, decided mode_queue hit false false false)

-- The lists of users, which go before the mode.
unfoldable pub decide_subject :
    ModeController → Bool → String → String → String → ModeController × OperationModeDecision
unfolding contains decide_by_mode
decide_subject c hit kind subject value =
    if not (is_empty subject) && contains c.state.block_user_set subject
    then (c, decided mode_sync hit true false false)
    else if not (is_empty subject) && contains c.state.allow_user_set subject
    then (c, decided mode_queue hit false true false)
    else decide_by_mode c hit kind subject value

-- `DecideDetailed`
unfoldable pub decide_detailed :
    (Char → Char)
    → (String → String)
    → String
    → String
    → ModeController
    → ModeController × OperationModeDecision
unfolding contains decide_subject rollout_header to_lower is_nil
decide_detailed lower_rune header kind subject c =
    let some_kinds = not (is_nil c.state.queue_kind_set) in
    if some_kinds && not (contains c.state.queue_kind_set kind)
    then (c, decided mode_sync false false false false)
    else decide_subject c some_kinds kind (normal lower_rune subject)
        (rollout_header lower_rune header c.state.sticky_header)

-- `Decide`
abbrev pub decide : (Char → Char) → (String → String) → String → String → ModeController → String
decide lower_rune header kind subject c = (decide_detailed lower_rune header kind subject c).1.mode
