-- ===== src/User/Decide/Rollout.antt =====
-- The rollout mode between the two others, and what its sample goes by:
-- cdmp-mini/internal/apiserver/service/v1/user/operation_mode_controller.go.
use Prim.Native.Char.{Char}
use Prim.Native.String.{◌++◌ as join}
use text.Mathlib.Text.{◌==◌ as str_eq}
use cdmp_mini.Base.{
  ℕ, ◌+◌, ◌≤◌, String, ◌≡◌, refl, Bool, true, false, not, if◌then◌else◌, arith, ap, sym, ◌∙◌,
}
use cdmp_mini.Base.Text.{is_empty}
use cdmp_mini.Base.Decimal.{itoa}
use cdmp_mini.User.Mode.{
  mode_sync, mode_queue, OperationModeDecision, ModeController, is_nil, normal,
}
use cdmp_mini.User.Decide.{
  within_rollout_sample, prefers_subject, rollout_header, rollout_key, sample_key, decide_by_mode,
  decide_subject, decide_detailed, decide,
}

-- The same controller with another percentage.
abbrev pub with_percent : ℕ → ModeController → ModeController
with_percent percent c = record c { state = record c.state { rollout_percent = percent } }

within_rollout_sample_mono :
    (key : String) (percent more : ℕ)
    → percent ≤ more
    → within_rollout_sample key percent ≡ true
    → within_rollout_sample key more ≡ true
unfolding within_rollout_sample
within_rollout_sample_mono key percent more le h = ground (arith, h)

-- The mode that a call decided on.
abbrev mode_of : ModeController × OperationModeDecision → String
mode_of r = r.1.mode

-- The mode of a sample.
abbrev sampled : Bool → String
sampled sample = if sample then mode_queue else mode_sync

sampled-true : (sample : Bool) → sampled sample ≡ mode_queue → sample ≡ true
sampled-true true h = refl
sampled-true false h = ap (λ s. str_eq s mode_queue) h

sampled_key : ModeController → String → String
unfolding itoa
sampled_key c key = if is_empty key then join "rollout:" (itoa (c.seq + 1)) else key

sample_key-mode :
    (c : ModeController) (hit : Bool) (key : String)
    → mode_of (sample_key c hit key)
      ≡ sampled (within_rollout_sample (sampled_key c key) c.state.rollout_percent)
unfolding sample_key sampled_key
sample_key-mode c hit key = refl

sample_key_mono :
    (c : ModeController) (hit : Bool) (key : String) (more : ℕ)
    → c.state.rollout_percent ≤ more
    → mode_of (sample_key c hit key) ≡ mode_queue
    → mode_of (sample_key (with_percent more c) hit key) ≡ mode_queue
unfolding sampled_key
sample_key_mono c hit key more le h =
    sample_key-mode (with_percent more c) hit key
    ∙ ap sampled (
        within_rollout_sample_mono (sampled_key c key) c.state.rollout_percent more le
          (sampled-true _ (sym (sample_key-mode c hit key) ∙ h)))

decide_by_mode_mono :
    (c : ModeController) (hit : Bool) (kind subject value : String) (more : ℕ)
    → c.state.rollout_percent ≤ more
    → mode_of (decide_by_mode c hit kind subject value) ≡ mode_queue
    → mode_of (decide_by_mode (with_percent more c) hit kind subject value) ≡ mode_queue
unfolding decide_by_mode rollout_key prefers_subject
decide_by_mode_mono c hit kind subject value more le h =
    let keyed = sample_key_mono c hit (rollout_key c.state kind subject value) more le in
    ground (arith, h, keyed)

decide_subject_mono :
    (c : ModeController) (hit : Bool) (kind subject value : String) (more : ℕ)
    → c.state.rollout_percent ≤ more
    → mode_of (decide_subject c hit kind subject value) ≡ mode_queue
    → mode_of (decide_subject (with_percent more c) hit kind subject value) ≡ mode_queue
unfolding decide_subject
decide_subject_mono c hit kind subject value more le h =
    let by_mode = decide_by_mode_mono c hit kind subject value more le in ground (arith, h, by_mode)

-- A request that the controller sends to the queue goes to the queue under any larger percentage of
-- the rollout too, with the rest of the state and the request as they were.
pub decide_mono :
    (lower_rune : Char → Char) (header : String → String) (kind subject : String)
    (c : ModeController) (more : ℕ)
    → c.state.rollout_percent ≤ more
    → decide lower_rune header kind subject c ≡ mode_queue
    → decide lower_rune header kind subject (with_percent more c) ≡ mode_queue
unfolding decide_detailed
decide_mono lower_rune header kind subject c more le h =
    let by_subject =
      decide_subject_mono c (not (is_nil c.state.queue_kind_set)) kind (normal lower_rune subject)
        (rollout_header lower_rune header c.state.sticky_header) more le in
    ground (arith, h, by_subject)

-- The same controller after another number of samples by sequence.
abbrev pub with_seq : ℕ → ModeController → ModeController
with_seq seq c = record c { seq = seq }

-- The outcome of another controller under another header: the same decision, and no change of state.
abbrev Sticks :
    (ModeController → String → ModeController × OperationModeDecision)
    → ModeController
    → ℕ
    → String
    → String
    → Type 0
Sticks call c seq value other = call (with_seq seq c) other ≡ (with_seq seq c, (call c value).1)

sample_key_sticky :
    (c : ModeController) (hit : Bool) (key : String) (seq : ℕ)
    → is_empty key ≡ false
    → sample_key (with_seq seq c) hit key ≡ (with_seq seq c, (sample_key c hit key).1)
unfolding sample_key
sample_key_sticky c hit key seq named = ground (arith, named)

decide_by_mode_sticky :
    (c : ModeController) (hit : Bool) (kind subject value other : String) (seq : ℕ)
    → is_empty subject ≡ false
    → prefers_subject c.state kind subject ≡ true
    → Sticks (λ from value. decide_by_mode from hit kind subject value) c seq value other
unfolding decide_by_mode rollout_key
decide_by_mode_sticky c hit kind subject value other seq named preferred =
    let keyed = sample_key_sticky c hit subject seq named in ground (arith, named, preferred, keyed)

decide_subject_sticky :
    (c : ModeController) (hit : Bool) (kind subject value other : String) (seq : ℕ)
    → is_empty subject ≡ false
    → prefers_subject c.state kind subject ≡ true
    → Sticks (λ from value. decide_subject from hit kind subject value) c seq value other
unfolding decide_subject
decide_subject_sticky c hit kind subject value other seq named preferred =
    let by_mode = decide_by_mode_sticky c hit kind subject value other seq named preferred in
    ground (arith, by_mode)

-- For a subject that is not blank and goes before the sticky header, the decision depends neither on
-- the headers nor on how many samples there were before, and the call leaves the controller as it is.
pub decide_detailed_sticky :
    (lower_rune : Char → Char) (header others : String → String) (kind subject : String)
    (c : ModeController) (seq : ℕ)
    → is_empty (normal lower_rune subject) ≡ false
    → prefers_subject c.state kind (normal lower_rune subject) ≡ true
    → decide_detailed lower_rune others kind subject (with_seq seq c)
      ≡ (with_seq seq c, (decide_detailed lower_rune header kind subject c).1)
unfolding decide_detailed
decide_detailed_sticky lower_rune header others kind subject c seq named preferred =
    let by_subject =
      decide_subject_sticky c (not (is_nil c.state.queue_kind_set)) kind (normal lower_rune subject)
        (rollout_header lower_rune header c.state.sticky_header)
        (rollout_header lower_rune others c.state.sticky_header) seq named preferred in
    ground (arith, by_subject)
