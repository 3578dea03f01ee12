-- ===== src/Operation/Acts/Ends.antt =====
-- What a chain of calls ends with: a predicate of the last state and the result, from one first state.
use cdmp_mini.Base.{◌≡◌, refl}
use cdmp_mini.Operation.Types.{GoError, Result, ok, err}
use cdmp_mini.Operation.Acts.{Act, after, attempt, or_fail, ◌>>=◌}

pub record Ends {S A : Type 0} (act : Act S A) (Q : S → Result A → Type 0) (s : S) : Type 0 where
  pub ended : Q (act s).0 (act s).1

module _ {S A B : Type 0} where
  pub attempt-Ends :
      {Q : S → Result A → Type 0} {act : Act S A} {next : Result A → Act S B}
      {R : S → Result B → Type 0} {s : S}
      → Ends act Q s
      → ((s' : S) (r : Result A) → Q s' r → Ends (next r) R s')
      → Ends (attempt act next) R s
  unfolding attempt after
  attempt-Ends {act} {s = s} first later = record {
    ended = (later (act s).0 (act s).1 first.ended).ended;
  }

  or_fail-Ends :
      (Q : S → Result A → Type 0) {next : A → Act S B} {R : S → Result B → Type 0}
      → ((s : S) (a : A) → Q s (ok a) → Ends (next a) R s)
      → ((s : S) (e : GoError) → Q s (err e) → R s (err e))
      → (s : S) (r : Result A) → Q s r
      → Ends (or_fail next r) R s
  unfolding or_fail
  or_fail-Ends Q later failed s (ok a) q = later s a q
  or_fail-Ends Q later failed s (err e) q = record { ended = failed s e q }

  pub bind-Ends :
      {Q : S → Result A → Type 0} {act : Act S A} {next : A → Act S B} {R : S → Result B → Type 0}
      {s : S}
      → Ends act Q s
      → ((s' : S) (a : A) → Q s' (ok a) → Ends (next a) R s')
      → ((s' : S) (e : GoError) → Q s' (err e) → R s' (err e))
      → Ends (attempt act (or_fail next)) R s
  bind-Ends {Q} first later failed = attempt-Ends first (or_fail-Ends Q later failed)

pub attempt_known :
    {S A B : Type 0} (act : Act S A) (next : Result A → Act S B) {s s' : S} {r : Result A}
    → act s ≡ (s', r)
    → attempt act next s ≡ next r s'
unfolding attempt after
attempt_known act next known = rw known refl

pub any-Ends : {S A : Type 0} (act : Act S A) (s : S) → Ends act (λ s' r. Unit {0}) s
any-Ends act s = record { ended = tt }

-- A chain whose end is known.
pub eq-Ends :
    {S A : Type 0} {act : Act S A} {Q : S → Result A → Type 0} {s s' : S} {r : Result A}
    → act s ≡ (s', r)
    → Q s' r
    → Ends act Q s
eq-Ends known q = record { ended = rw known q }

pub known_attempt-Ends :
    {S A B : Type 0} (act : Act S A) (next : Result A → Act S B) {R : S → Result B → Type 0}
    {s s' : S} {r : Result A}
    → act s ≡ (s', r)
    → Ends (next r) R s'
    → Ends (attempt act next) R s
unfolding attempt after
known_attempt-Ends act next known later = record { ended = rw known later.ended }

module _ {S A B : Type 0} (act : Act S A) (next : A → Act S B) {R : S → Result B → Type 0}
    {s s' : S} where
  -- A call whose result is known goes on from the state that it leaves.
  pub known-Ends : {a : A} → act s ≡ (s', ok a) → Ends (next a) R s' → Ends (act >>= next) R s
  unfolding attempt after or_fail
  known-Ends done later = record { ended = rw done later.ended }

  pub known_error-Ends :
      {e : GoError} → act s ≡ (s', err e) → R s' (err e) → Ends (act >>= next) R s
  unfolding attempt after or_fail
  known_error-Ends failed later = record { ended = rw failed later }
