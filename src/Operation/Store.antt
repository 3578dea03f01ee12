-- ===== src/Operation/Store.antt =====
-- The in-memory request state store: cdmp-mini/internal/common/service/operation/state/memory.go.
-- The map holds pointers that never leave the store (`Get` copies), so it is a map of records.
pub mod Consistency
pub mod Exclusion
pub mod Lifecycle
pub mod States
use Prim.Native.String.{◌++◌ as join}
use cdmp_mini.Base.{ℕ, ◌/◌, String, Option, none, some, [], if◌then◌else◌}
use cdmp_mini.Base.GoMap.{GoMap, lookup, insert}
use cdmp_mini.Base.Signed.{millisecond}
use cdmp_mini.Base.Text.{is_empty}
use cdmp_mini.Operation.Types.{
  OperationState, queued, failed, same_state, OperationEnvelope, GoError, state_conflict, new_error,
  Result, ok, err, RequestState, RequestStateStore,
}

pub record Store : Type 0 where
  pub states : GoMap RequestState

abbrev pub new_store : Store
new_store = record { states = [] }

abbrev unix_milli : ℕ → ℕ
unix_milli now = now / millisecond

abbrev pub not_found : String → GoError
not_found id = new_error (join "operation " (join id " not found"))

abbrev pub id_required : GoError
id_required = new_error "operation id is required"

-- The fields that `Upsert` and `Advance` give anew when the state becomes `to`.
unfoldable pub enter_state : ℕ → OperationState → RequestState → RequestState
enter_state now to current = record current {
  state = to;
  last_error = if same_state to failed then current.last_error else "";
  attempts = if same_state to queued then 0 else current.attempts;
  updated_at = unix_milli now;
}

unfoldable pub upserted :
    ℕ → OperationEnvelope → OperationState → Option RequestState → RequestState
unfolding enter_state
upserted now env to (some existing) =
    enter_state now to (record existing { kind = env.kind; resource = env.resource })
upserted now env to none = record {
  operation_id = env.id;
  kind = env.kind;
  resource = env.resource;
  state = to;
  attempts = 0;
  last_error = "";
  updated_at = unix_milli now;
}

unfoldable pub upsert : ℕ → OperationEnvelope → OperationState → Store → Store × Option GoError
unfolding upserted
upsert now env to s = if is_empty env.id then (s, some id_required) else (
  record { states = insert env.id (upserted now env to (lookup env.id s.states)) s.states },
  none,
)

unfoldable pub advance_found :
    ℕ
    → String
    → OperationState
    → OperationState
    → Option RequestState
    → Store
    → Store × Option GoError
unfolding enter_state
advance_found now id from to none s = (s, some (not_found id))
advance_found now id from to (some current) s =
    if same_state current.state from
    then (record { states = insert id (enter_state now to current) s.states }, none)
    else (s, some state_conflict)

unfoldable pub advance :
    ℕ → String → OperationState → OperationState → Store → Store × Option GoError
unfolding advance_found
advance now id from to s =
    if is_empty id
    then (s, some id_required)
    else advance_found now id from to (lookup id s.states) s

unfoldable pub fail_found :
    ℕ → String → ℕ → String → Option RequestState → Store → Store × Option GoError
fail_found now id attempt reason none s = (s, some (not_found id))
fail_found now id attempt reason (some current) s = (
  record {
    states =
        insert id
          (record current {
            state = failed;
            attempts = attempt;
            last_error = reason;
            updated_at = unix_milli now;
          })
          s.states;
  },
  none,
)

unfoldable pub record_failure : ℕ → String → ℕ → String → Store → Store × Option GoError
unfolding fail_found
record_failure now id attempt reason s =
    if is_empty id
    then (s, some id_required)
    else fail_found now id attempt reason (lookup id s.states) s

get_found : String → Option RequestState → Result RequestState
get_found id none = err (not_found id)
get_found id (some current) = ok current

unfoldable pub get : String → Store → Result RequestState
unfolding get_found
get id s = if is_empty id then err id_required else get_found id (lookup id s.states)

-- `var _ operation.RequestStateStore = (*Store)(nil)`
abbrev pub memory_store : RequestStateStore Store
memory_store = record {
  upsert = upsert;
  advance = advance;
  record_failure = record_failure;
  get = get;
}
