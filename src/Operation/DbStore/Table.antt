-- ===== src/Operation/DbStore/Table.antt =====
-- What the Redis and database request state store relies on of GORM and of `encoding/json`, which are
-- not part of the repository: the table `operation_states` with its primary key, and the encoding of a
-- request state.
use text.Mathlib.Text.{◌==◌ as str_eq}
use cdmp_mini.Base.{ℕ, String, ◌≡◌, ◌≢◌, Bool, true, Option, none, some, if◌then◌else◌}
use cdmp_mini.Operation.Types.{OperationKind, OperationState, Result, ok, RequestState}

-- A row. The times are nanoseconds.
pub record OperationStateRecord : Type 0 where
  pub operation_id : String
  pub kind : OperationKind
  pub resource : String
  pub state : OperationState
  pub attempts : ℕ
  pub last_error : String
  pub updated_at : ℕ
  pub created_at : ℕ

-- The columns of an `Updates(map[string]interface{}{…})`: each one but `state` and `updated_at` may be
-- left out.
pub record Updates : Type 0 where
  pub state : OperationState
  pub attempts : Option ℕ
  pub last_error : Option String
  pub updated_at : ℕ

abbrev pub value_or : {A : Type 0} → Option A → A → A
value_or none old = old
value_or (some new) old = new

-- A row with the columns of an update.
unfoldable pub apply_updates : Updates → OperationStateRecord → OperationStateRecord
apply_updates updates row = record row {
  state = updates.state;
  attempts = value_or updates.attempts row.attempts;
  last_error = value_or updates.last_error row.last_error;
  updated_at = updates.updated_at;
}

-- The `DoUpdates` of `persistRecord`: the row that is there keeps its key and its `created_at`.
unfoldable pub assign : OperationStateRecord → OperationStateRecord → OperationStateRecord
assign new old = record new { operation_id = old.operation_id; created_at = old.created_at }

abbrev pub created_row : OperationStateRecord → Option OperationStateRecord → OperationStateRecord
created_row new none = new
created_row new (some old) = assign new old

abbrev pub updated_row :
    (OperationStateRecord → Bool)
    → Updates
    → Option OperationStateRecord
    → Option OperationStateRecord
updated_row test updates none = none
updated_row test updates (some row) = some (if test row then apply_updates updates row else row)

-- How many rows a condition finds among at most one.
abbrev pub rows_found : (OperationStateRecord → Bool) → Option OperationStateRecord → ℕ
rows_found test none = 0
rows_found test (some row) = if test row then 1 else 0

-- `WHERE operation_id = ?` with `Take`, with `Count`, and with a further condition and `Updates`, whose
-- reply is `RowsAffected`; `Create` with `OnConflict` on the key. The connections of `pkg/db/mysql.go`
-- ask for `clientFoundRows`: a row that is found is counted although the update changes nothing.
pub record Tables (T : Type 0) : Type 0 where
  pub find : String → T → Option OperationStateRecord
  pub count : String → T → ℕ
  pub update_where : String → (OperationStateRecord → Bool) → Updates → T → T × ℕ
  pub create : OperationStateRecord → T → T
  pub count-find : (id : String) (t : T) → count id t ≡ rows_found (λ row. true) (find id t)
  pub find-update_where :
      (id key : String) (test : OperationStateRecord → Bool) (updates : Updates) (t : T)
      → find key (update_where id test updates t).0
        ≡ (if str_eq id key then updated_row test updates (find key t) else find key t)
  pub update_where_reply :
      (id : String) (test : OperationStateRecord → Bool) (updates : Updates) (t : T)
      → (update_where id test updates t).1 ≡ rows_found test (find id t)
  pub find-create :
      (key : String) (row : OperationStateRecord) (t : T)
      → find key (create row t)
        ≡ (if str_eq row.operation_id key then some (created_row row (find key t)) else find key t)

-- `json.Marshal` and `json.Unmarshal` of a request state.
pub record StateCodec : Type 0 where
  pub marshal : RequestState → Result String
  pub unmarshal : String → Result RequestState

-- An encoding can be read back, and is not empty.
pub record IsFaithful (codec : StateCodec) : Type 0 where
  pub encoded : RequestState → String
  pub marshal_ok : (r : RequestState) → codec.marshal r ≡ ok (encoded r)
  pub unmarshal-marshal : (r : RequestState) → codec.unmarshal (encoded r) ≡ ok r
  pub encoded-ne : (r : RequestState) → encoded r ≢ ""
