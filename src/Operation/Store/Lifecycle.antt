-- ===== src/Operation/Store/Lifecycle.antt =====
-- The lifecycle of an operation as the edges that the phases of the pipeline take, and the calls of the in-memory
-- store: cdmp-mini/internal/common/service/operation/state/memory.go.
use text.Mathlib.Text.{◌==◌ as str_eq}
use cdmp_mini.Base.{
  ℕ, String, ◌≡◌, refl, sym, Bool, false, Option, none, some, inl, inr, Bool-cases, true, arith,
  eq_iff,
}
use mathlib.Core.Path.{subst}
use cdmp_mini.Base.GoMap.{lookup, insert, lookup-insert, lookup-insert_self}
use cdmp_mini.Base.Text.{is_empty}
use cdmp_mini.Operation.Types.{
  OperationState, queued, executing, completed, failed, compensating, compensated, same_state,
  RequestState,
}
use cdmp_mini.Operation.Store.{
  Store, enter_state, advance_found, fail_found, advance, record_failure,
}

-- A worker claims a waiting operation.
pub data Claims : OperationState → OperationState → Type 0 where
  claim : Claims queued executing
  reclaim : Claims failed executing

-- It settles what it has claimed.
pub data Settles : OperationState → OperationState → Type 0 where
  finish : Settles executing completed
  fail : Settles executing failed

-- It decides what becomes of a failed operation.
pub data Disposes : OperationState → OperationState → Type 0 where
  return_to_queue : Disposes failed queued
  begin_compensation : Disposes failed compensating

-- A compensation ends.
pub data Ends : OperationState → OperationState → Type 0 where
  compensate : Ends compensating compensated
  abandon : Ends compensating failed

same_state_eq : (a b : OperationState) → same_state a b ≡ true → a ≡ b
same_state_eq a b h = ground arith

-- The state of an operation, or `none` where the store does not know it.
abbrev pub state_in : Option RequestState → Option OperationState
state_in none = none
state_in (some current) = some current.state

abbrev pub state_of : String → Store → Option OperationState
state_of id s = state_in (lookup id s.states)

-- No edge, or one.
pub data AtMostOne (R : OperationState → OperationState → Type 0) (o : Option OperationState)
    : Option OperationState → Type 0 where
  stay : AtMostOne R o o
  go : {a b : OperationState} → o ≡ some a → R a b → AtMostOne R o (some b)

-- Every operation takes at most one of the edges.
pub record Follows (R : OperationState → OperationState → Type 0) (s t : Store) : Type 0 where
  pub at_key : (id : String) → AtMostOne R (state_of id s) (state_of id t)

pub Follows-refl : (R : OperationState → OperationState → Type 0) (s : Store) → Follows R s s
Follows-refl R s = record { at_key = λ id. stay }

-- No two of the edges follow one another.
pub record IsApart (R : OperationState → OperationState → Type 0) : Type 0 where
  pub apart : {a b c : OperationState} → R a b → R b c → ⊥

AtMostOne-trans :
    {R : OperationState → OperationState → Type 0} {o p q : Option OperationState}
    → IsApart R
    → AtMostOne R o p
    → AtMostOne R p q
    → AtMostOne R o q
AtMostOne-trans h w stay = w
AtMostOne-trans h stay (go e r) = go e r
AtMostOne-trans {R} h (go {a = a} {b = b} e r) (go {a = a'} {b = c} e' r') =
    let same : b ≡ a' = cc e' in absurd (h.apart r (subst (λ t. R t c) (sym same) r'))

pub Follows-trans :
    {R : OperationState → OperationState → Type 0} {s t u : Store}
    → IsApart R
    → Follows R s t
    → Follows R t u
    → Follows R s u
Follows-trans h f g = record { at_key = λ id. AtMostOne-trans h (f.at_key id) (g.at_key id) }

waits : OperationState → Bool
waits executing = false
waits s = true

runs : OperationState → Bool
runs executing = true
runs s = false

Claims-waits : {a b : OperationState} → Claims a b → (waits a ≡ true) × (waits b ≡ false)
unfolding waits
Claims-waits claim = (refl, refl)
Claims-waits reclaim = (refl, refl)

Settles-runs : {a b : OperationState} → Settles a b → (runs a ≡ true) × (runs b ≡ false)
unfolding runs
Settles-runs finish = (refl, refl)
Settles-runs fail = (refl, refl)

pub Claims-IsApart : IsApart Claims
Claims-IsApart = record { apart = λ r r'. cc ((Claims-waits r).1, (Claims-waits r').0) }

pub Settles-IsApart : IsApart Settles
Settles-IsApart = record { apart = λ r r'. cc ((Settles-runs r).1, (Settles-runs r').0) }

insert-Follows :
    {R : OperationState → OperationState → Type 0} (id : String) (current next : RequestState)
    (s : Store)
    → lookup id s.states ≡ some current
    → R current.state next.state
    → Follows R s (record { states = insert id next s.states })
insert-Follows id current next s found e = record {
  at_key = λ j. rw (lookup-insert id j next s.states) (elim (Bool-cases (str_eq id j)) [
    | inl same ↦ rw (same, ← (eq_iff id j).0 same, found) (go refl e)
    | inr other ↦ rw other stay
  ]);
}

advance_found-Follows :
    {R : OperationState → OperationState → Type 0} (now : ℕ) (id : String)
    (from to : OperationState) (s : Store) (o : Option RequestState)
    → R from to
    → lookup id s.states ≡ o
    → Follows R s (advance_found now id from to o s).0
unfolding advance_found enter_state
advance_found-Follows {R} now id from to s none e found = Follows-refl R s
advance_found-Follows {R} now id from to s (some current) e found =
    elim (Bool-cases (same_state current.state from)) [
      | inl same ↦ rw same (
          insert-Follows id current (enter_state now to current) s found
            (rw (same_state_eq current.state from same) e))
      | inr other ↦ rw other (Follows-refl R s)
    ]

-- A call of `Advance` along an edge follows it, whatever state the operation is in.
pub advance-Follows :
    {R : OperationState → OperationState → Type 0} (now : ℕ) (id : String)
    (from to : OperationState) (s : Store)
    → R from to
    → Follows R s (advance now id from to s).0
unfolding advance
advance-Follows {R} now id from to s e = elim (Bool-cases (is_empty id)) [
  | inl empty ↦ rw empty (Follows-refl R s)
  | inr named ↦ rw named (advance_found-Follows now id from to s (lookup id s.states) e refl)
]

fail_found-Follows :
    (now : ℕ) (id : String) (attempt : ℕ) (reason : String) (s : Store) (o : Option RequestState)
    → lookup id s.states ≡ o
    → state_in o ≡ some executing
    → Follows Settles s (fail_found now id attempt reason o s).0
unfolding fail_found
fail_found-Follows now id attempt reason s none found e = Follows-refl Settles s
fail_found-Follows now id attempt reason s (some current) found e =
    let now_executing : current.state ≡ executing = cc in
    insert-Follows id current _ s found (rw now_executing fail)

-- `RecordFailure` of an operation that is executing.
pub record_failure-Follows :
    (now : ℕ) (id : String) (attempt : ℕ) (reason : String) (s : Store)
    → state_of id s ≡ some executing
    → Follows Settles s (record_failure now id attempt reason s).0
unfolding record_failure
record_failure-Follows now id attempt reason s e = elim (Bool-cases (is_empty id)) [
  | inl empty ↦ rw empty (Follows-refl Settles s)
  | inr named ↦ rw named (fail_found-Follows now id attempt reason s (lookup id s.states) refl e)
]

enter_executing :
    (now : ℕ) (id : String) (from : OperationState) (s : Store) (o : Option RequestState)
    → lookup id s.states ≡ o
    → (advance_found now id from executing o s).1 ≡ none
    → state_of id (advance_found now id from executing o s).0 ≡ some executing
unfolding advance_found enter_state
enter_executing now id from s none found done = cc
enter_executing now id from s (some current) found done =
    ground (arith, lookup-insert_self id (enter_state now executing current) s.states)

-- After a successful `Advance` to executing the operation is executing.
pub executing-advance :
    (now : ℕ) (id : String) (from : OperationState) (s : Store)
    → (advance now id from executing s).1 ≡ none
    → state_of id (advance now id from executing s).0 ≡ some executing
unfolding advance
executing-advance now id from s done = elim (Bool-cases (is_empty id)) [
  | inl e ↦ absurd (ground arith)
  | inr e ↦ rw e (enter_executing now id from s (lookup id s.states) refl (rw e at done))
]
