-- ===== src/Operation/RedisQueue/Calls.antt =====
-- How the Redis queue coordinator calls Redis: its state, its calls with what may become of them, and
-- the chains of calls that an error ends.
pub mod Keeps
use cdmp_mini.Base.{ℕ, ◌+◌, String, Bool, true, false, Option, none, some, List, if◌then◌else◌}
use cdmp_mini.Base.GoMap.{GoMap}
use cdmp_mini.Operation.Types.{ok}
use cdmp_mini.Operation.Acts.{Outcome, Act, answer}
use cdmp_mini.Operation.RedisQueue.Scripts.{Keys}

-- What Redis holds for the queue. The text of a number of attempts stands as the number.
pub record Store (S Z L : Type 0) : Type 0 where
  pub keys : Keys S Z L
  pub tickets : GoMap String
  pub payloads : GoMap String
  pub attempts : GoMap ℕ

-- What the coordinator finds around it at its n-th look: what becomes of a call, the clock, what
-- `SRANDMEMBER` samples, what other processes and the expiry of keys have done to the store since, and
-- new ticket identifiers.
pub record World (S Z L : Type 0) : Type 0 where
  pub net : ℕ → Outcome
  pub clock : ℕ → ℕ
  pub samples : ℕ → ℕ → List String
  pub others : ℕ → Store S Z L → Store S Z L
  pub uuid : ℕ → String

-- The store, the fields of the `Coordinator` that change, and the number of looks so far. A zero time
-- is `none`.
pub record System (S Z L : Type 0) : Type 0 where
  pub store : Store S Z L
  pub metrics_last : Option ℕ
  pub metrics_fail : ℕ
  pub metrics_hold : Option ℕ
  pub reclaim_last : Option ℕ
  pub looks : ℕ

module _ {S Z L : Type 0} (world : World S Z L) where
  -- `c.now()`
  abbrev pub read_clock : Act (System S Z L) ℕ
  read_clock s = (record s { looks = s.looks + 1 }, ok (world.clock s.looks))

  -- `idutil.GetUUID36("")`
  abbrev pub new_ticket_id : Act (System S Z L) String
  new_ticket_id s = (record s { looks = s.looks + 1 }, ok (world.uuid s.looks))

  -- One command or script, on the store as the other processes have left it.
  unfoldable pub call : {A : Type 0} → (Store S Z L → Store S Z L × A) → Act (System S Z L) A
  unfolding answer
  call command s =
      let found = world.others s.looks s.store in
      let done = answer (world.net s.looks) found (command found) in
      (record s { store = done.0; looks = s.looks + 1 }, done.1)

  -- A command that reads only.
  unfoldable pub look : {A : Type 0} → (Store S Z L → A) → Act (System S Z L) A
  unfolding call
  look read = call (λ store. (store, read store))

  -- A command that the code reads no reply of.
  unfoldable pub write : (Store S Z L → Store S Z L) → Act (System S Z L) Unit
  unfolding call
  write command = call (λ store. (command store, tt))

  -- A script on the keys of the queue.
  unfoldable pub run_keys : {A : Type 0} → (Keys S Z L → Keys S Z L × A) → Act (System S Z L) A
  unfolding call
  run_keys script =
      call (λ store. let done = script store.keys in (record store { keys = done.0 }, done.1))
