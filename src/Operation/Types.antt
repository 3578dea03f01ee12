-- ===== src/Operation/Types.antt =====
-- The data of the asynchronous operation pipeline, the errors that it passes on, and its interfaces:
-- cdmp-mini/internal/common/service/operation/types.go and interfaces.go.
-- A pointer that may be nil is an `Option`, an interface is a record of its methods over the type of
-- the object behind it, and a method returns the new object beside its results.
use Prim.Native.String.{◌++◌ as join}
use cdmp_mini.Base.{ℕ, String, ◌≡◌, Bool, true, false, Option, List}
use cdmp_mini.Base.GoMap.{GoMap}
use cdmp_mini.Base.Signed.{ℤ}

-- `unset_kind` is the empty text, Go's zero value.
pub data OperationKind : Type 0 where
  create update delete batch query unset_kind : OperationKind

pub data OperationState : Type 0 where
  queued executing completed failed compensating compensated : OperationState

-- `a == b` of two states
abbrev pub same_state : OperationState → OperationState → Bool
same_state queued queued = true
same_state executing executing = true
same_state completed completed = true
same_state failed failed = true
same_state compensating compensating = true
same_state compensated compensated = true
same_state _ _ = false

pub record OperationEnvelope : Type 0 where
  pub id : String
  pub kind : OperationKind
  pub resource : String
  pub tenant : String
  pub trace_id : String
  pub idempotency_key : String
  pub headers : GoMap String
  pub submitted_at : ℕ
  pub deadline : ℕ
  pub payload : List ℕ
  pub compensate_hint : List ℕ

-- Go's `error`: the two sentinels of types.go, `errors.New`, and `fmt.Errorf("prefix: %w", err)`.
pub data GoError : Type 0 where
  queue_empty state_conflict : GoError
  new_error : String → GoError
  wrap : String → GoError → GoError

-- `err.Error()`
unfoldable pub error_text : GoError → String
error_text queue_empty = "operation queue empty"
error_text state_conflict = "operation state conflict"
error_text (new_error message) = message
error_text (wrap context err) = join context (join ": " (error_text err))

-- `errors.Is(err, ErrStateConflict)`
unfoldable pub is_state_conflict : GoError → Bool
is_state_conflict queue_empty = false
is_state_conflict state_conflict = true
is_state_conflict (new_error message) = false
is_state_conflict (wrap context err) = is_state_conflict err

-- The pair `(*T, error)` of a call that returns one or the other.
pub data Result {ℓ} (A : Type ℓ) : Type ℓ where
  ok : A → Result A
  err : GoError → Result A

pub record OperationResult : Type 0 where
  pub operation_id : String
  pub state : OperationState
  pub attempt : ℕ
  pub error : Option GoError
  pub retry_after : ℤ
  pub fatal : Bool
  pub trigger_compensation : Bool

pub record QueueTicket : Type 0 where
  pub ticket_id : String
  pub operation_id : String
  pub queue_position : ℕ
  pub issued_at : ℕ

-- `position` is -1 where the operation is not in the queue.
pub record QueueStatus : Type 0 where
  pub operation_id : String
  pub state : OperationState
  pub position : ℤ
  pub remaining : ℕ

pub record QueueItem : Type 0 where
  pub envelope : OperationEnvelope
  pub attempts : ℕ
  pub available_at : ℕ

pub record RequestState : Type 0 where
  pub operation_id : String
  pub kind : OperationKind
  pub resource : String
  pub state : OperationState
  pub attempts : ℕ
  pub last_error : String
  pub updated_at : ℕ

-- Each method that reads the clock takes the time that it reads as its first argument.
pub record QueueCoordinator (Q : Type 0) : Type 0 where
  pub enqueue : ℕ → OperationEnvelope → Q → Q × Result QueueTicket
  pub poll : String → Q → Result QueueStatus
  pub cancel : String → Q → Q × Option GoError
  pub dequeue : ℕ → Q → Q × Result (Option QueueItem)
  pub ack : String → Q → Q × Option GoError
  pub requeue : ℕ → QueueItem → ℕ → Q → Q × Option GoError

pub record RequestStateStore (S : Type 0) : Type 0 where
  pub upsert : ℕ → OperationEnvelope → OperationState → S → S × Option GoError
  pub advance : ℕ → String → OperationState → OperationState → S → S × Option GoError
  pub record_failure : ℕ → String → ℕ → String → S → S × Option GoError
  pub get : String → S → Result RequestState

-- The business logic, over whatever it changes outside: its results may differ from call to call. Each
-- method gets a pointer to the envelope, so that it returns what it leaves there.
pub record OperationExecutor (X : Type 0) : Type 0 where
  pub prepare : OperationEnvelope → X → X × OperationEnvelope × Option GoError
  pub execute :
      OperationEnvelope → X → X × OperationEnvelope × Option OperationResult × Option GoError
  pub compensate :
      OperationEnvelope → X → X × OperationEnvelope × Option OperationResult × Option GoError

-- An executor that leaves the identifier of the envelope as it is.
pub record KeepsId {X : Type 0} (exec : OperationExecutor X) : Type 0 where
  pub prepare_id : (env : OperationEnvelope) (x : X) → (exec.prepare env x).1.id ≡ env.id
  pub execute_id : (env : OperationEnvelope) (x : X) → (exec.execute env x).1.id ≡ env.id
  pub compensate_id : (env : OperationEnvelope) (x : X) → (exec.compensate env x).1.id ≡ env.id
