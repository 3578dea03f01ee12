-- ===== src/Operation/RedisQueue/Calls/Keeps.antt =====
-- Predicates of the keys of the queue that a chain of calls of Redis keeps, whatever becomes of the
-- calls.
use cdmp_mini.Base.{ℕ, String, Bool, true, false}
use cdmp_mini.Operation.Types.{GoError, Result, ok, err}
use cdmp_mini.Operation.RedisQueue.Scripts.{Keys}
use cdmp_mini.Operation.Acts.{
  Outcome, answered, refused, unanswered, Act, after, attempt, or_fail, answer, require, fail,
  given, return,
}
use cdmp_mini.Operation.RedisQueue.Calls.{
  Store, World, System, call, look, write, run_keys, read_clock, new_ticket_id,
}

pub record Keeps {S Z L : Type 0} (P : Keys S Z L → Type 0) {A : Type 0}
    (act : Act (System S Z L) A) : Type 0 where
  pub kept : (s : System S Z L) → P s.store.keys → P (act s).0.store.keys

answer-Keeps :
    {S Z L A : Type 0} (P : Keys S Z L → Type 0) (outcome : Outcome) (found : Store S Z L)
    (done : Store S Z L × A)
    → P found.keys
    → P done.0.keys
    → P (answer outcome found done).0.keys
unfolding answer
answer-Keeps P answered found (done, reply) h k = k
answer-Keeps P (refused e) found (done, reply) h k = h
answer-Keeps P (unanswered e) found (done, reply) h k = k

module _ {S Z L : Type 0} {P : Keys S Z L → Type 0} where
  pub attempt-Keeps :
      {A B : Type 0} {act : Act (System S Z L) A} {next : Result A → Act (System S Z L) B}
      → Keeps P act
      → ((r : Result A) → Keeps P (next r))
      → Keeps P (attempt act next)
  unfolding attempt after
  attempt-Keeps {act} first later = record {
    kept = λ s h. (later (act s).1).kept (act s).0 (first.kept s h);
  }

  pub or_fail-Keeps :
      {A B : Type 0} {next : A → Act (System S Z L) B}
      → ((a : A) → Keeps P (next a))
      → (r : Result A) → Keeps P (or_fail next r)
  unfolding or_fail
  or_fail-Keeps later (ok a) = later a
  or_fail-Keeps later (err e) = record { kept = λ s h. h }

  pub bind-Keeps :
      {A B : Type 0} {act : Act (System S Z L) A} {next : A → Act (System S Z L) B}
      → Keeps P act
      → ((a : A) → Keeps P (next a))
      → Keeps P (attempt act (or_fail next))
  bind-Keeps first later = attempt-Keeps first (or_fail-Keeps later)

  pub require-Keeps : (valid : Bool) (message : String) → Keeps P (require valid message)
  require-Keeps true message = record { kept = λ s h. h }
  require-Keeps false message = record { kept = λ s h. h }

  pub given-Keeps : {A : Type 0} (result : Result A) → Keeps P (given result)
  given-Keeps result = record { kept = λ s h. h }

  pub return-Keeps : {A : Type 0} (a : A) → Keeps P (return a)
  return-Keeps a = record { kept = λ s h. h }

  pub fail-Keeps : {A : Type 0} (e : GoError) → Keeps P {A = A} (fail e)
  fail-Keeps e = record { kept = λ s h. h }

  pub read_clock-Keeps : (world : World S Z L) → Keeps P (read_clock world)
  read_clock-Keeps world = record { kept = λ s h. h }

  pub new_ticket_id-Keeps : (world : World S Z L) → Keeps P (new_ticket_id world)
  new_ticket_id-Keeps world = record { kept = λ s h. h }

  module _ (world : World S Z L)
      (others : (n : ℕ) (st : Store S Z L) → P st.keys → P (world.others n st).keys) where
    pub call-Keeps :
        {A : Type 0} (command : Store S Z L → Store S Z L × A)
        → ((st : Store S Z L) → P st.keys → P (command st).0.keys)
        → Keeps P (call world command)
    unfolding call
    call-Keeps command step = record {
      kept = λ s h.
          let found = world.others s.looks s.store in
          let before = others s.looks s.store h in
          answer-Keeps P (world.net s.looks) found (command found) before (step found before);
    }

    pub look-Keeps : {A : Type 0} (read : Store S Z L → A) → Keeps P (look world read)
    unfolding look
    look-Keeps read = call-Keeps (λ st. (st, read st)) (λ st h. h)

    pub write-Keeps :
        (command : Store S Z L → Store S Z L)
        → ((st : Store S Z L) → P st.keys → P (command st).keys)
        → Keeps P (write world command)
    unfolding write
    write-Keeps command step = call-Keeps (λ st. (command st, tt)) step

    pub run_keys-Keeps :
        {A : Type 0} (script : Keys S Z L → Keys S Z L × A)
        → ((k : Keys S Z L) → P k → P (script k).0)
        → Keeps P (run_keys world script)
    unfolding run_keys
    run_keys-Keeps script step =
        call-Keeps (λ st. let done = script st.keys in (record st { keys = done.0 }, done.1))
          (λ st h. step st.keys h)
