-- ===== src/User/Examples.antt =====
-- Runs of the operation mode on small inputs:
-- cdmp-mini/internal/apiserver/service/v1/user/operation_mode_controller.go.
use Prim.Native.Char.{Char, char, code}
use cdmp_mini.Base.{◌≡◌, refl, [], ◌∷◌, ◌==◌, if◌then◌else◌, arith, Bool-cases, inl, inr}
use cdmp_mini.Base.Text.{trim_space, to_lower, is_space}
use cdmp_mini.Pending.Hash.{fnv32a}
use cdmp_mini.User.Mode.{
  mode_queue, OperationModeConfig, ModeController, new_controller, update_mode, snapshot,
}
use cdmp_mini.User.Mode.Sanitized.{KeepsWords, update_mode-snapshot}
use cdmp_mini.User.Decide.{decide, decide_detailed}
use cdmp_mini.User.Decide.Rollout.{with_percent, decide_mono}

-- The lower case of `Q`.
abbrev lower_q : Char → Char
lower_q c = if code c == 81 then char 113 tt else c

lower_q_idem : (c : Char) → lower_q (lower_q c) ≡ lower_q c
lower_q_idem c = elim (Bool-cases (code c == 81)) [
  | inl upper ↦ rw upper refl
  | inr other ↦ rw (other, other) refl
]

lower_q-is_space : (c : Char) → is_space (lower_q c) ≡ is_space c
unfolding is_space
lower_q-is_space c = elim (Bool-cases (code c == 81)) [
  | inl upper ↦ rw upper (ground (arith, upper))
  | inr other ↦ rw other refl
]

abbrev config : OperationModeConfig
config = record {
  mode = " rollout";
  rollout_percent = 130;
  sticky_header = "Queue-Key";
  queue_kinds = "create" ∷ " create" ∷ "" ∷ [];
  allow_users = [];
  block_users = "mallory" ∷ [];
  prefer_subject_kinds = "create" ∷ [];
  prefer_subject_users = [];
}

lower_q-KeepsWords : KeepsWords lower_q
unfolding to_lower
lower_q-KeepsWords = record {
  lowers = record { idem = lower_q_idem; keeps_space = lower_q-is_space };
  queue = refl;
  create = refl;
  update = refl;
  remove = refl;
  batch = refl;
}

abbrev controller : ModeController
controller = new_controller lower_q config

update_mode-snapshot_example :
    update_mode lower_q
      (snapshot (update_mode lower_q config controller).0)
      (update_mode lower_q config controller).0
    ≡ update_mode lower_q config controller
update_mode-snapshot_example = update_mode-snapshot lower_q lower_q-KeepsWords config controller

decide_mono_example :
    decide lower_q (λ name. "") "create" "alice" (with_percent 100 (with_percent 99 controller))
    ≡ mode_queue
unfolding decide_detailed new_controller trim_space to_lower fnv32a
decide_mono_example =
    decide_mono lower_q (λ name. "") "create" "alice" (with_percent 99 controller) 100 (omega arith)
      refl
