-- ===== src/Operation/Acts.antt =====
-- Chains of calls on a state of any type, which an error ends.
pub mod Ends
use cdmp_mini.Base.{String, Bool, if◌then◌else◌}
use cdmp_mini.Operation.Types.{GoError, new_error, Result, ok, err}

-- What becomes of a call over the network: it is answered, does not get there, or is done although the
-- answer gets lost.
pub data Outcome : Type 0 where
  answered : Outcome
  refused unanswered : GoError → Outcome

abbrev pub Act : Type 0 → Type 0 → Type 0
Act S A = S → S × Result A

-- A call that finds `found` and would leave `done`.
unfoldable pub answer : {D A : Type 0} → Outcome → D → D × A → D × Result A
answer answered found (done, reply) = (done, ok reply)
answer (refused e) found (done, reply) = (found, err e)
answer (unanswered e) found (done, reply) = (done, err e)

module _ {S : Type 0} where
  abbrev pub return : {A : Type 0} → A → Act S A
  return a s = (s, ok a)

  abbrev pub fail : {A : Type 0} → GoError → Act S A
  fail e s = (s, err e)

  unfoldable pub after : {A B : Type 0} → S × Result A → (Result A → Act S B) → S × Result B
  after (s, result) next = next result s

  -- Go on whether or not the chain has failed.
  unfoldable pub attempt : {A B : Type 0} → Act S A → (Result A → Act S B) → Act S B
  unfolding after
  attempt act next s = after (act s) next

  unfoldable pub or_fail : {A B : Type 0} → (A → Act S B) → Result A → Act S B
  or_fail next (ok a) = next a
  or_fail next (err e) = fail e

  infixl 5 ◌>>=◌ ◌>>◌
  abbrev pub ◌>>=◌ : {A B : Type 0} → Act S A → (A → Act S B) → Act S B
  act >>= next = attempt act (or_fail next)

  abbrev pub ◌>>◌ : {A B : Type 0} → Act S A → Act S B → Act S B
  act >> next = act >>= λ _. next

  -- `if !valid { return fmt.Errorf(message) }`
  abbrev pub require : Bool → String → Act S Unit
  require valid message s = if valid then (s, ok tt) else (s, err (new_error message))

  -- A result that needs no call.
  abbrev pub given : {A : Type 0} → Result A → Act S A
  given result s = (s, result)

  -- A change of the object's own fields.
  abbrev pub change : (S → S) → Act S Unit
  change f s = (f s, ok tt)
