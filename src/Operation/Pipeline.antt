-- ===== src/Operation/Pipeline.antt =====
-- The pipeline: cdmp-mini/internal/common/service/operation/pipeline.go.
-- Tracing, logging and printing are left out: they return nothing that the code reads.
-- A worker reads the clock when it dequeues (`now`) and when it settles the item (`later`).
pub mod Backoff
use Prim.Native.String.{◌++◌ as join}
use cdmp_mini.Base.{
  ℕ, ◌-◌, ◌*◌, ◌^◌, String, Bool, true, false, ◌&&◌, Option, none, some, ltb, leb, if◌then◌else◌,
}
use cdmp_mini.Base.GoMap.{lookup}
use cdmp_mini.Base.Signed.{ℤ, pos, is_positive, pos_part, millisecond, second}
use cdmp_mini.Base.Text.{is_empty}
use cdmp_mini.Operation.Types.{
  OperationState, failed, same_state, OperationEnvelope, GoError, new_error, Result, ok, err,
  OperationResult, QueueCoordinator, RequestStateStore, OperationExecutor,
}

pub record Pipeline (Q S X : Type 0) : Type 0 where
  pub queue : QueueCoordinator Q
  pub state : RequestStateStore S
  pub exec : OperationExecutor X
  pub max_attempts : ℕ
  pub retry_backoff : ℕ → ℤ

-- The objects behind the three interfaces.
pub record World (Q S X : Type 0) : Type 0 where
  pub queue : Q
  pub state : S
  pub outside : X

unfoldable pub default_max_attempts : ℤ → ℕ
default_max_attempts v = if is_positive v then pos_part v else 3

abbrev min : ℕ → ℕ → ℕ
min a b = if ltb a b then a else b

-- The function that `defaultRetryBackoff` returns for a nil argument, in nanoseconds.
unfoldable pub standard_backoff : ℕ → ℕ
standard_backoff attempt =
    let delay = 2 ^ min (attempt - 1) 6 * (250 * millisecond) in
    if leb attempt 1
    then 250 * millisecond
    else if ltb (30 * second) delay
    then 30 * second
    else delay

unfoldable pub default_retry_backoff : Option (ℕ → ℤ) → ℕ → ℤ
unfolding standard_backoff
default_retry_backoff (some custom) attempt = custom attempt
default_retry_backoff none attempt = pos (standard_backoff attempt)

-- `NewPipeline`: each of the three interfaces may be nil.
unfoldable pub new_pipeline :
    {Q S X : Type 0}
    → Option (QueueCoordinator Q)
    → Option (RequestStateStore S)
    → Option (OperationExecutor X)
    → ℤ
    → Option (ℕ → ℤ)
    → Result (Pipeline Q S X)
unfolding default_max_attempts default_retry_backoff
new_pipeline none state exec attempts backoff = err (new_error "queue coordinator is required")
new_pipeline (some queue) none exec attempts backoff = err (new_error "state store is required")
new_pipeline (some queue) (some state) none attempts backoff =
    err (new_error "operation executor is required")
new_pipeline (some queue) (some state) (some exec) attempts backoff = ok (record {
  queue = queue;
  state = state;
  exec = exec;
  max_attempts = default_max_attempts attempts;
  retry_backoff = default_retry_backoff backoff;
})

-- The delay before the next attempt: `RetryAfter`, or the backoff where that is not positive, and
-- never a negative one.
unfoldable pub retry_delay : ℤ → ℤ → ℕ
retry_delay retry_after backoff =
    if is_positive retry_after then pos_part retry_after else pos_part backoff

abbrev pub phase_header : String
phase_header = "operation-phase"

abbrev pub phase_execute : String
phase_execute = "execute"

abbrev pub phase_compensate : String
phase_compensate = "compensate"

phase_found : Option String → String
phase_found none = phase_execute
phase_found (some phase) = if is_empty phase then phase_execute else phase

unfoldable pub operation_phase : OperationEnvelope → String
unfolding phase_found
operation_phase env = phase_found (lookup phase_header env.headers)

-- `fmt.Errorf("operation %s <what>", id)`
abbrev pub operation_error : String → String → GoError
operation_error id what = new_error (join "operation " (join id what))

-- The error itself, or another where it is nil.
abbrev pub error_or : Option GoError → GoError → GoError
error_or (some e) other = e
error_or none other = other

-- The result that the code goes on with, from what `Execute` or `Compensate` returned.
merge_result : String → String → Option OperationResult → Option GoError → OperationResult
merge_result id missing none none = record {
  operation_id = id;
  state = failed;
  attempt = 0;
  error = some (new_error missing);
  retry_after = pos 0;
  fatal = false;
  trigger_compensation = false;
}
merge_result id missing none (some e) = record {
  operation_id = id;
  state = failed;
  attempt = 0;
  error = some e;
  retry_after = pos 0;
  fatal = false;
  trigger_compensation = false;
}
merge_result id missing (some res) none = res
merge_result id missing (some res) (some e) = record res { error = some (error_or res.error e) }

unfoldable pub settle_result :
    String → String → ℕ → Option OperationResult × Option GoError → OperationResult
unfolding merge_result
settle_result id missing attempt (res, e) = record (merge_result id missing res e) {
  attempt = attempt;
}

abbrev is_none {ℓ} : {A : Type ℓ} → Option A → Bool
is_none none = true
is_none (some a) = false

-- `res.Error == nil && res.State == want`
abbrev pub succeeded : OperationResult → OperationState → Bool
succeeded res want = is_none res.error && same_state res.state want
