-- ===== src/Operation/DbStore/Records.antt =====
-- What the request state store over Redis and a database computes without a call: its keys, its rows
-- and its entries: cdmp-mini/internal/common/service/operation/state/redisdb/store.go.
-- The length of a text is counted in UTF-8.
use Prim.Native.Char.{Char, code}
use Prim.Native.String.{◌++◌ as join}
use text.Mathlib.Text.{◌==◌ as str_eq}
use cdmp_mini.Base.{
  ℕ, ◌+◌, ◌-◌, ◌*◌, ◌/◌, String, Bool, false, ◌||◌, Option, none, some, ltb, leb, ◌==◌,
  if◌then◌else◌,
}
use cdmp_mini.Base.Signed.{millisecond, second}
use cdmp_mini.Base.Text.{is_empty}
use cdmp_mini.Operation.Types.{
  OperationKind, OperationState, queued, failed, same_state, OperationEnvelope, GoError, new_error,
  RequestState,
}
use cdmp_mini.Operation.DbStore.Table.{OperationStateRecord, Updates}

-- `Config` without the clients; `has_db` tells whether there is a database.
pub record Config : Type 0 where
  pub key_prefix : String
  pub ttl : ℕ
  pub has_db : Bool

-- `strings.TrimSuffix(s, ":")`
trim_suffix_colon : String → String
trim_suffix_colon String.[] = String.[]
trim_suffix_colon (String.◌∷◌ c String.[]) =
    if code c == 58 then String.[] else String.◌∷◌ c String.[]
trim_suffix_colon (String.◌∷◌ c (String.◌∷◌ d s)) =
    String.◌∷◌ c (trim_suffix_colon (String.◌∷◌ d s))

-- What `NewStore` keeps of the configuration.
unfoldable pub new_settings : Config → Config
unfolding trim_suffix_colon
new_settings cfg = record cfg {
  key_prefix = trim_suffix_colon cfg.key_prefix;
  ttl = if cfg.ttl == 0 then 24 * 3600 * second else cfg.ttl;
}

-- `persistentKey`
unfoldable pub persistent_key : Config → String → String
persistent_key settings id =
    if is_empty settings.key_prefix
    then join "operation_state:" id
    else join settings.key_prefix (join ":operation_state:" id)

-- The bytes of a character in UTF-8.
abbrev utf8_width : Char → ℕ
utf8_width c =
    let n = code c in
    if ltb n 0x80 then 1 else if ltb n 0x800 then 2 else if ltb n 0x10000 then 3 else 4

-- `len(s)`
pub byte_length : String → ℕ
byte_length String.[] = 0
byte_length (String.◌∷◌ c s) = utf8_width c + byte_length s

-- `s[:limit]`, without the first bytes of a character that the limit splits.
pub take_bytes : ℕ → String → String
take_bytes limit String.[] = String.[]
take_bytes limit (String.◌∷◌ c s) =
    let rest = take_bytes (limit - utf8_width c) s in
    if leb (utf8_width c) limit then String.◌∷◌ c rest else String.[]

-- `truncateReason`
unfoldable pub truncate_reason : String → String
unfolding byte_length take_bytes
truncate_reason reason = if leb (byte_length reason) 2048 then reason else take_bytes 2048 reason

-- `toRequestState`
unfoldable pub to_request_state : OperationStateRecord → RequestState
to_request_state row = record {
  operation_id = row.operation_id;
  kind = row.kind;
  resource = row.resource;
  state = row.state;
  attempts = row.attempts;
  last_error = row.last_error;
  updated_at = row.updated_at / millisecond;
}

-- The errors of `GetKey` that stand for a missing entry: `redis.Nil`, `storage.ErrKeyNotFound` and
-- `storage.ErrRedisIsDown`.
abbrev pub key_not_found : GoError
key_not_found = new_error "key not found"

abbrev pub redis_is_down : GoError
redis_is_down = new_error "storage: Redis is either down or not configured"

abbrev pub redis_nil : GoError
redis_nil = new_error "redis: nil"

-- `errors.Is` with each of them
unfoldable pub is_absent : GoError → Bool
is_absent (new_error message) =
    str_eq message "redis: nil"
    || str_eq message "key not found"
    || str_eq message "storage: Redis is either down or not configured"
is_absent (GoError.wrap context cause) = is_absent cause
is_absent GoError.queue_empty = false
is_absent GoError.state_conflict = false

-- `&operation.RequestState{OperationID: operationID}`, with the state that both callers set next.
abbrev pub empty_state : String → OperationState → RequestState
empty_state id to = record {
  operation_id = id;
  kind = OperationKind.unset_kind;
  resource = "";
  state = to;
  attempts = 0;
  last_error = "";
  updated_at = 0;
}

abbrev pub not_found : String → GoError
not_found id = new_error (join "operation " (join id " not found"))

-- The columns that `Advance` updates.
unfoldable pub advance_updates : ℕ → OperationState → Updates
advance_updates now to = record {
  state = to;
  attempts = if same_state to queued then some 0 else none;
  last_error = if same_state to failed then none else some "";
  updated_at = now;
}

-- The columns that `RecordFailure` updates.
unfoldable pub failure_updates : ℕ → ℕ → String → Updates
unfolding truncate_reason
failure_updates now attempt reason = record {
  state = failed;
  attempts = some attempt;
  last_error = some (truncate_reason reason);
  updated_at = now;
}

-- What `Advance` makes of the entry in Redis.
unfoldable pub advanced_entry : ℕ → String → OperationState → Option RequestState → RequestState
advanced_entry now id to (some current) = record current {
  state = to;
  last_error = if same_state to failed then current.last_error else "";
  attempts = if same_state to queued then 0 else current.attempts;
  updated_at = now / millisecond;
}
advanced_entry now id to none = record (empty_state id to) { updated_at = now / millisecond }

-- What `RecordFailure` makes of the entry in Redis.
unfoldable pub failed_entry : ℕ → String → ℕ → String → Option RequestState → RequestState
failed_entry now id attempt reason (some current) = record current {
  state = failed;
  attempts = attempt;
  last_error = reason;
  updated_at = now / millisecond;
}
failed_entry now id attempt reason none = record (empty_state id failed) {
  attempts = attempt;
  last_error = reason;
  updated_at = now / millisecond;
}

-- The record that `Upsert` makes.
abbrev pub upserted_row : ℕ → OperationEnvelope → OperationState → OperationStateRecord
upserted_row now env to = record {
  operation_id = env.id;
  kind = env.kind;
  resource = env.resource;
  state = to;
  attempts = 0;
  last_error = "";
  updated_at = now;
  created_at = 0;
}
