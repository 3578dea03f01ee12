-- ===== src/Operation/DbStore.antt =====
-- The request state store over Redis and a database:
-- cdmp-mini/internal/common/service/operation/state/redisdb/store.go.
-- The envelope and the Redis client are there.
pub mod Calm
pub mod Table
pub mod Entries
pub mod Examples
pub mod Exclusion
pub mod Local
pub mod Marks
pub mod Past
pub mod Records
pub mod Refines
pub mod Rows
pub mod Runs
pub mod Statements
use cdmp_mini.Base.{ℕ, ◌+◌, String, Bool, true, false, not, Option, none, some, ◌==◌, if◌then◌else◌}
use cdmp_mini.Base.Text.{is_empty}
use cdmp_mini.Base.GoMap.{GoMap, lookup, insert}
use cdmp_mini.Operation.Types.{
  OperationState, same_state, OperationEnvelope, GoError, state_conflict, Result, ok, err,
  RequestState,
}
use cdmp_mini.Operation.Acts.{
  Outcome, Act, answer, attempt, or_fail, ◌>>=◌, ◌>>◌, require, given, return, fail,
}
use cdmp_mini.Operation.DbStore.Table.{OperationStateRecord, Tables, StateCodec}
use cdmp_mini.Operation.DbStore.Records.{
  Config, new_settings, persistent_key, to_request_state, is_absent, not_found, advance_updates,
  failure_updates, advanced_entry, failed_entry, upserted_row,
}

-- What the processes share: the entries in Redis and the table.
pub record Shared (T : Type 0) : Type 0 where
  pub cache : GoMap String
  pub table : T

-- What the store finds around it at its n-th look: what becomes of a call, the clock, and what other
-- processes and the expiry of entries have done since.
pub record World (T : Type 0) : Type 0 where
  pub net : ℕ → Outcome
  pub clock : ℕ → ℕ
  pub others : ℕ → Shared T → Shared T

-- What is shared, the result of `migrateOnce` if it has run, and the number of looks so far.
pub record System (T : Type 0) : Type 0 where
  pub shared : Shared T
  pub migrated : Option (Result (Unit {0}))
  pub looks : ℕ

-- `map some` of a result
some_ok : {A : Type 0} → Result A → Result (Option A)
some_ok (ok a) = ok (some a)
some_ok (err e) = err e

module _ {T : Type 0} where
  -- The update of `Advance` that found no row.
  pub not_advanced : String → ℕ → Act (System T) Unit
  not_advanced id count = if count == 0 then fail (not_found id) else fail state_conflict

  pub failed_rows : String → ℕ → Act (System T) Unit
  failed_rows id rows = if rows == 0 then fail (not_found id) else return tt

module _ {T : Type 0} (codec : StateCodec) where
  pub read_entry : Result (Option String) → Act (System T) (Option RequestState)
  unfolding some_ok is_absent
  read_entry (ok none) = return none
  read_entry (ok (some raw)) =
      if is_empty raw then return none else given (some_ok (codec.unmarshal raw))
  read_entry (err e) = if is_absent e then return none else fail e

module _ {T : Type 0} (world : World T) where
  -- `s.now()`
  pub read_clock : Act (System T) ℕ
  read_clock s = (record s { looks = s.looks + 1 }, ok (world.clock s.looks))

  -- One command, on what the other processes have left.
  unfoldable pub call : {A : Type 0} → (Shared T → Shared T × A) → Act (System T) A
  unfolding answer
  call command s =
      let found = world.others s.looks s.shared in
      let done = answer (world.net s.looks) found (command found) in
      (record s { shared = done.0; looks = s.looks + 1 }, done.1)

  -- `GetKey`, before a missing entry becomes an error
  pub get_key : String → Act (System T) (Option String)
  unfolding call
  get_key key = call (λ d. (d, lookup key d.cache))

  -- `SetKey`
  set_key : String → String → Act (System T) Unit
  unfolding call
  set_key key value = call (λ d. (record d { cache = insert key value d.cache }, tt))

  -- `AutoMigrate` with its result kept
  migrate : Act (System T) Unit
  unfolding call
  migrate s = let done = call (λ d. (d, tt)) s in (record done.0 { migrated = some done.1 }, done.1)

  migrate_once : Option (Result (Unit {0})) → Act (System T) Unit
  unfolding migrate
  migrate_once none = migrate
  migrate_once (some result) = given result

module _ {T : Type 0} (world : World T) (settings : Config) where
  -- `ensureMigrated`
  pub ensure_migrated : Act (System T) Unit
  unfolding migrate_once
  ensure_migrated s = if settings.has_db then migrate_once world s.migrated s else (s, ok tt)

module _ {T : Type 0} (world : World T) where
  -- `NewStore`, with what it keeps of the configuration
  unfoldable pub new_store : Config → Act (System T) Config
  unfolding ensure_migrated new_settings
  new_store cfg s =
      let fresh : System T = record s { migrated = none } in
      (ensure_migrated world (new_settings cfg) >> return (new_settings cfg)) fresh

module _ {T : Type 0} (codec : StateCodec) (world : World T) (settings : Config) where
  -- `cacheState`
  pub cache_state : RequestState → Act (System T) Unit
  unfolding set_key
  cache_state state = do
    payload ← given (codec.marshal state)
    set_key world (persistent_key settings state.operation_id) payload

  -- `fetchState`
  pub fetch_state : String → Act (System T) (Option RequestState)
  unfolding get_key read_entry
  fetch_state id = attempt (get_key world (persistent_key settings id)) (read_entry codec)

module _ {T : Type 0} (tables : Tables T) (world : World T) where
  pub advanced_rows : String → ℕ → Act (System T) Unit
  unfolding call not_advanced
  advanced_rows id rows =
      if rows == 0
      then call world (λ d. (d, tables.count id d.table)) >>= not_advanced id
      else return tt

module _ {T : Type 0} (tables : Tables T) (world : World T) (settings : Config) where
  -- `persistRecord`
  pub persist_record : OperationStateRecord → Act (System T) Unit
  unfolding ensure_migrated call
  persist_record row = do
    ensure_migrated world settings
    if settings.has_db
        then call world (λ d. (
          record d { table = tables.create (record row { created_at = row.updated_at }) d.table },
          tt,
        ))
        else return tt

  -- What `Advance` does to the database
  pub advance_row : ℕ → String → OperationState → OperationState → Act (System T) Unit
  unfolding call advanced_rows
  advance_row now id from to =
      if settings.has_db
      then (call world (λ d.
            let done =
              tables.update_where id (λ row. same_state row.state from) (advance_updates now to)
                d.table in
            (record d { table = done.0 }, done.1))
          >>= advanced_rows tables world id)
      else return tt

  -- What `RecordFailure` does to the database
  pub fail_row : ℕ → String → ℕ → String → Act (System T) Unit
  unfolding call failed_rows
  fail_row now id attempt reason =
      if settings.has_db
      then (call world (λ d.
            let done =
              tables.update_where id (λ row. true) (failure_updates now attempt reason) d.table in
            (record d { table = done.0 }, done.1))
          >>= failed_rows id)
      else return tt

module _ {T : Type 0} (tables : Tables T) (codec : StateCodec) (world : World T)
    (settings : Config) where
  -- `Upsert`
  unfoldable pub upsert : OperationEnvelope → OperationState → Act (System T) Unit
  unfolding read_clock persist_record cache_state
  upsert env to = do
    require (not (is_empty env.id)) "operation id is required"
    now ← read_clock world
    persist_record tables world settings (upserted_row now env to)
    cache_state codec world settings (to_request_state (upserted_row now env to))

  -- `Advance`
  unfoldable pub advance : String → OperationState → OperationState → Act (System T) Unit
  unfolding ensure_migrated read_clock advance_row fetch_state cache_state advanced_entry
  advance id from to = do
    require (not (is_empty id)) "operation id is required"
    ensure_migrated world settings
    now ← read_clock world
    advance_row tables world settings now id from to
    current ← fetch_state codec world settings id
    cache_state codec world settings (advanced_entry now id to current)

  -- `RecordFailure`
  unfoldable pub record_failure : String → ℕ → String → Act (System T) Unit
  unfolding ensure_migrated read_clock fail_row fetch_state cache_state failed_entry
  record_failure id attempt reason = do
    require (not (is_empty id)) "operation id is required"
    ensure_migrated world settings
    now ← read_clock world
    fail_row tables world settings now id attempt reason
    current ← fetch_state codec world settings id
    cache_state codec world settings (failed_entry now id attempt reason current)

  -- `Get` with the row that the key is looked up for; the error of the cache is logged only.
  pub found_row : String → Option OperationStateRecord → Act (System T) RequestState
  unfolding cache_state
  found_row id none = fail (not_found id)
  found_row id (some row) =
      attempt (cache_state codec world settings (to_request_state row))
        (λ cached. return (to_request_state row))

  pub found_entry : String → Option RequestState → Act (System T) RequestState
  unfolding found_row call
  found_entry id (some cached) = return cached
  found_entry id none =
      if settings.has_db
      then call world (λ d. (d, tables.find id d.table)) >>= found_row id
      else fail (not_found id)

  -- `Get`
  unfoldable pub get : String → Act (System T) RequestState
  unfolding fetch_state found_entry
  get id = do
    require (not (is_empty id)) "operation id is required"
    cached ← fetch_state codec world settings id
    found_entry id cached
