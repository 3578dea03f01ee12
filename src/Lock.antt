-- ===== src/Lock.antt =====
-- The distributed lock over Redis: cdmp-mini/pkg/lock/redis_lock.go.
-- The cluster holds the lock's key with the value of its holder or not at all; that the key expires is
-- what the environment does to it.
pub mod Held
pub mod Examples
use text.Mathlib.Text.{◌==◌ as str_eq}
use cdmp_mini.Base.{
  ℕ, zero, suc, ◌+◌, ◌==◌, String, Bool, true, false, Option, none, some, if◌then◌else◌,
}
use cdmp_mini.Operation.Types.{GoError, new_error, Result, ok, err}
use cdmp_mini.Operation.Acts.{
  Outcome, Act, answer, attempt, or_fail, ◌>>=◌, ◌>>◌, given, return, fail,
}

-- What a holder finds around it at its n-th look: what becomes of a call, what other holders and the
-- expiry have done to the key, and whether its context is done.
pub record World : Type 0 where
  pub net : ℕ → Outcome
  pub others : ℕ → Option String → Option String
  pub context : ℕ → Option GoError

-- The value at the key, and the number of looks.
pub record System : Type 0 where
  pub holder : Option String
  pub looks : ℕ

abbrev pub acquisition_failed : GoError
acquisition_failed = new_error "lock acquisition failed"

abbrev pub not_held : GoError
not_held = new_error "lock not held by this client"

-- `SETNX`, with whether the value is written
pub set_absent : String → Option String → Option String × Bool
set_absent value none = (some value, true)
set_absent value (some old) = (some old, false)

-- The scripts' `redis.call("get", KEYS[1]) == ARGV[1]`
unfoldable pub is_held_by : String → Option String → Bool
is_held_by value none = false
is_held_by value (some old) = str_eq old value

-- The script of `Release`
pub release_script : String → Option String → Option String × ℕ
unfolding is_held_by
release_script value held = if is_held_by value held then (none, 1) else (held, 0)

-- The script of `Renew`, whose `expire` leaves the value
pub renew_script : String → Option String → Option String × ℕ
unfolding is_held_by
renew_script value held = if is_held_by value held then (held, 1) else (held, 0)

module _ (world : World) where
  unfoldable pub call : {A : Type 0} → (Option String → Option String × A) → Act System A
  unfolding answer
  call command s =
      let found = world.others s.looks s.holder in
      let done = answer (world.net s.looks) found (command found) in
      (record { holder = done.0; looks = s.looks + 1 }, done.1)

  -- `Acquire`
  unfoldable pub acquire : String → Act System Bool
  unfolding call set_absent
  acquire value = call (set_absent value)

  pub deleted : ℕ → Act System (Unit {0})
  deleted n = if n == 1 then return tt else fail not_held

  -- `Release`
  unfoldable pub release : String → Act System (Unit {0})
  unfolding call release_script deleted
  release value = call (release_script value) >>= deleted

  -- `Renew`
  unfoldable pub renew : String → Act System Bool
  unfolding call renew_script
  renew value = call (renew_script value) >>= λ n. return (n == 1)

  -- `ctx.Done()`, and `ctx.Err()`
  pub check_context : Act System (Unit {0})
  check_context s = (
    record s { looks = s.looks + 1 },
    elim (world.context s.looks) [ none ↦ ok tt | some e ↦ err e ],
  )

  -- A turn of `TryAcquire` after `Acquire`
  pub acquired_or : Act System Bool → Bool → Act System Bool
  acquired_or later true = return true
  acquired_or later false = later

  -- `TryAcquire`
  unfoldable pub try_acquire : ℕ → String → Act System Bool
  unfolding check_context acquire acquired_or
  try_acquire zero value = fail acquisition_failed
  try_acquire (suc retries) value =
      check_context >> (acquire value >>= acquired_or (try_acquire retries value))
