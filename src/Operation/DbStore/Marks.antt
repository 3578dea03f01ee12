-- ===== src/Operation/DbStore/Marks.antt =====
-- An encoding of request states that meets what the Redis and database request state store relies on:
-- numbers as so many marks, and texts with a mark before each character.
use Prim.Native.Char.{code}
use Prim.Native.String.{[], ◌∷◌}
use cdmp_mini.Base.{ℕ, zero, suc, String, ◌≡◌, ◌≢◌, refl, ap, if◌then◌else◌, ◌==◌}
use cdmp_mini.Operation.Types.{OperationKind, OperationState, ok, RequestState}
use cdmp_mini.Operation.DbStore.Table.{StateCodec, IsFaithful}

unfoldable pub put_number : ℕ → String → String
put_number zero later = "." ∷ later
put_number (suc n) later = "i" ∷ put_number n later

take_number : String → ℕ × String
take_number [] = (0, [])
take_number (c ∷ s) =
    let rest = take_number s in if code c == b'i' then (suc rest.0, rest.1) else (0, s)

take_number-put_number : (n : ℕ) (later : String) → take_number (put_number n later) ≡ (n, later)
unfolding take_number put_number
take_number-put_number zero later = refl
take_number-put_number (suc n) later =
    ap (λ (r : ℕ × String). (suc r.0, r.1)) (take_number-put_number n later)

unfoldable pub put_text : String → String → String
put_text [] later = "." ∷ later
put_text (c ∷ s) later = "i" ∷ c ∷ put_text s later

take_text : String → String × String
take_text [] = ([], [])
take_text (c ∷ []) = ([], [])
take_text (c ∷ d ∷ s) =
    let rest = take_text s in if code c == b'i' then (d ∷ rest.0, rest.1) else ([], d ∷ s)

take_text-put_text : (text later : String) → take_text (put_text text later) ≡ (text, later)
unfolding take_text put_text
take_text-put_text [] [] = refl
take_text-put_text [] (d ∷ later) = refl
take_text-put_text (c ∷ text) later =
    ap (λ (r : String × String). (c ∷ r.0, r.1)) (take_text-put_text text later)

unfoldable pub number_of_kind : OperationKind → ℕ
number_of_kind OperationKind.create = 0
number_of_kind OperationKind.update = 1
number_of_kind OperationKind.delete = 2
number_of_kind OperationKind.batch = 3
number_of_kind OperationKind.query = 4
number_of_kind OperationKind.unset_kind = 5

kind_of_number : ℕ → OperationKind
kind_of_number zero = OperationKind.create
kind_of_number (suc zero) = OperationKind.update
kind_of_number (suc (suc zero)) = OperationKind.delete
kind_of_number (suc (suc (suc zero))) = OperationKind.batch
kind_of_number (suc (suc (suc (suc zero)))) = OperationKind.query
kind_of_number (suc (suc (suc (suc (suc n))))) = OperationKind.unset_kind

kind_of_number-number_of_kind : (k : OperationKind) → kind_of_number (number_of_kind k) ≡ k
unfolding kind_of_number number_of_kind
kind_of_number-number_of_kind OperationKind.create = refl
kind_of_number-number_of_kind OperationKind.update = refl
kind_of_number-number_of_kind OperationKind.delete = refl
kind_of_number-number_of_kind OperationKind.batch = refl
kind_of_number-number_of_kind OperationKind.query = refl
kind_of_number-number_of_kind OperationKind.unset_kind = refl

unfoldable pub number_of_state : OperationState → ℕ
number_of_state OperationState.queued = 0
number_of_state OperationState.executing = 1
number_of_state OperationState.completed = 2
number_of_state OperationState.failed = 3
number_of_state OperationState.compensating = 4
number_of_state OperationState.compensated = 5

state_of_number : ℕ → OperationState
state_of_number zero = OperationState.queued
state_of_number (suc zero) = OperationState.executing
state_of_number (suc (suc zero)) = OperationState.completed
state_of_number (suc (suc (suc zero))) = OperationState.failed
state_of_number (suc (suc (suc (suc zero)))) = OperationState.compensating
state_of_number (suc (suc (suc (suc (suc n))))) = OperationState.compensated

state_of_number-number_of_state : (t : OperationState) → state_of_number (number_of_state t) ≡ t
unfolding state_of_number number_of_state
state_of_number-number_of_state OperationState.queued = refl
state_of_number-number_of_state OperationState.executing = refl
state_of_number-number_of_state OperationState.completed = refl
state_of_number-number_of_state OperationState.failed = refl
state_of_number-number_of_state OperationState.compensating = refl
state_of_number-number_of_state OperationState.compensated = refl

unfoldable pub encode : RequestState → String
unfolding put_text put_number number_of_kind number_of_state
encode r = put_text r.operation_id (
    put_number (number_of_kind r.kind) (
      put_text r.resource (
        put_number (number_of_state r.state)
          (put_number r.attempts (put_text r.last_error (put_number r.updated_at ""))))))

pub decode : String → RequestState
unfolding take_text take_number kind_of_number state_of_number
decode raw =
    let id = take_text raw in
    let kind = take_number id.1 in
    let resource = take_text kind.1 in
    let state = take_number resource.1 in
    let attempts = take_number state.1 in
    let last_error = take_text attempts.1 in
    let updated_at = take_number last_error.1 in
    record {
      operation_id = id.0;
      kind = kind_of_number kind.0;
      resource = resource.0;
      state = state_of_number state.0;
      attempts = attempts.0;
      last_error = last_error.0;
      updated_at = updated_at.0;
    }

pub decode-encode : (r : RequestState) → decode (encode r) ≡ r
unfolding decode encode
decode-encode r = simp (
  take_text-put_text, take_number-put_number, kind_of_number-number_of_kind,
  state_of_number-number_of_state,
)

put_text-ne : (text later : String) → put_text text later ≢ ""
unfolding put_text
put_text-ne [] later same = cc same
put_text-ne (c ∷ text) later same = cc same

pub encode-ne : (r : RequestState) → encode r ≢ ""
unfolding encode
encode-ne r = put_text-ne r.operation_id _

unfoldable pub marks : StateCodec
unfolding encode decode
marks = record { marshal = λ r. ok (encode r); unmarshal = λ raw. ok (decode raw) }

unfoldable pub marks-IsFaithful : IsFaithful marks
unfolding marks encode
marks-IsFaithful = record {
  encoded = encode;
  marshal_ok = λ r. refl;
  unmarshal-marshal = λ r. ap ok (decode-encode r);
  encoded-ne = encode-ne;
}
