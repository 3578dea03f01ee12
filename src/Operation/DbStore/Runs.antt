-- ===== src/Operation/DbStore/Runs.antt =====
-- Any calls of the Redis and database request state store, beside the same calls of the in-memory one:
-- cdmp-mini/internal/common/service/operation/state/redisdb/store.go and
-- cdmp-mini/internal/common/service/operation/state/memory.go.
use cdmp_mini.Base.{ℕ, String, ◌≡◌, refl, List, [], ◌∷◌, Option, All}
use mathlib.Core.Path.{ap₂}
use cdmp_mini.Operation.Types.{OperationState, queued, OperationEnvelope, GoError, Result}
use cdmp_mini.Operation.Acts.{Act}
use cdmp_mini.Operation.Acts.Ends.{Ends}
use cdmp_mini.Operation.Store as Memory
use cdmp_mini.Operation.Store.{Store}
use cdmp_mini.Operation.DbStore.Table.{Tables, StateCodec, IsFaithful}
use cdmp_mini.Operation.DbStore.Records.{Config, truncate_reason}
use cdmp_mini.Operation.DbStore.Rows.{Shows}
use cdmp_mini.Operation.DbStore.Calm.{IsCalm, IsReadable}
use cdmp_mini.Operation.DbStore.Statements.{result_of, IsMigrated}
use cdmp_mini.Operation.DbStore.Refines.{
  Agrees, advance-Agrees, record_failure-Agrees, upsert-Agrees,
}
use cdmp_mini.Operation.DbStore.{System, World, upsert, advance, record_failure}

-- The calls of the pipeline that change a state: `Upsert` is called with the queued state only.
pub data StoreCall : Type 0 where
  upsert_of : OperationEnvelope → StoreCall
  advance_of : String → OperationState → OperationState → StoreCall
  failure_of : String → ℕ → String → StoreCall

-- A reason that the table takes whole.
abbrev pub IsWhole : StoreCall → Type 0
IsWhole (upsert_of env) = Unit
IsWhole (advance_of id from to) = Unit
IsWhole (failure_of id attempt reason) = truncate_reason reason ≡ reason

unfoldable pub serve_memory : ℕ → StoreCall → Store → Store × Option GoError
serve_memory now (upsert_of env) = Memory.upsert now env queued
serve_memory now (advance_of id from to) = Memory.advance now id from to
serve_memory now (failure_of id attempt reason) = Memory.record_failure now id attempt reason

module _ {T : Type 0} (tables : Tables T) (codec : StateCodec) (world : World T)
    (settings : Config) where
  unfoldable pub serve : StoreCall → Act (System T) Unit
  serve (upsert_of env) = upsert tables codec world settings env queued
  serve (advance_of id from to) = advance tables codec world settings id from to
  serve (failure_of id attempt reason) =
      record_failure tables codec world settings id attempt reason

  -- The calls one after the other, with what each of them returns.
  unfoldable pub serve_all : List StoreCall → System T → System T × List (Result (Unit {0}))
  unfolding serve
  serve_all [] s = (s, [])
  serve_all (c ∷ calls) s =
      let done = serve c s in let rest = serve_all calls done.0 in (rest.0, done.1 ∷ rest.1)

  -- The same calls of the in-memory store, at the times that the other one reads.
  unfoldable pub serve_all_memory :
      List StoreCall → System T → Store → Store × List (Result (Unit {0}))
  unfolding serve serve_memory
  serve_all_memory [] s m = (m, [])
  serve_all_memory (c ∷ calls) s m =
      let done = serve_memory (world.clock s.looks) c m in
      let rest = serve_all_memory calls (serve c s).0 done.0 in (rest.0, result_of done.1 ∷ rest.1)

module _ {T : Type 0} (tables : Tables T) (codec : StateCodec) (faithful : IsFaithful codec)
    (settings : Config) {world : World T} (calm : IsCalm world) where
  serve-Agrees :
      (c : StoreCall) (m : Store) (s : System T)
      → IsWhole c
      → Shows tables s.shared.table m
      → IsReadable codec s.shared.cache
      → IsMigrated settings s
      → Ends
          (serve tables codec world settings c)
          (Agrees tables codec
            (serve_memory (world.clock s.looks) c m).0
            (serve_memory (world.clock s.looks) c m).1)
          s
  unfolding serve serve_memory
  serve-Agrees (upsert_of env) m s whole shows readable ready =
      upsert-Agrees tables codec faithful settings calm m s shows readable ready env
  serve-Agrees (advance_of id from to) m s whole shows readable ready =
      advance-Agrees tables codec faithful settings calm m s shows readable ready id from to
  serve-Agrees (failure_of id attempt reason) m s whole shows readable ready =
      record_failure-Agrees tables codec faithful settings calm m s shows readable ready id attempt
        reason whole

  -- The writing calls that the pipeline makes, Get not among them, on the table of the Redis and
  -- database store: while every call of Redis and the database is answered and nobody else changes
  -- anything, any sequence of Upsert into the queued state, Advance, and RecordFailure with reasons
  -- that need no cut at 2048 bytes returns the results that the in-memory store returns at the same
  -- times, and leaves a table that shows its map, where the table showed the map before and is
  -- migrated, and the entries in Redis decode.
  pub serve_all-refines :
      (calls : List StoreCall) (m : Store) (s : System T)
      → All IsWhole calls
      → Shows tables s.shared.table m
      → IsReadable codec s.shared.cache
      → IsMigrated settings s
      → ((serve_all tables codec world settings calls s).1
          ≡ (serve_all_memory tables codec world settings calls s m).1)
        × Shows tables
            (serve_all tables codec world settings calls s).0.shared.table
            (serve_all_memory tables codec world settings calls s m).0
  unfolding serve_all serve_all_memory
  serve_all-refines [] m s whole shows readable ready = (refl, shows)
  serve_all-refines (c ∷ calls) m s whole shows readable ready =
      let one = (serve-Agrees c m s whole.0 shows readable ready).ended in
      let rest =
        serve_all-refines calls _ _ whole.1 one.shows one.readable
          (record { db = ready.db; done = one.migrated }) in
      (ap₂ ◌∷◌ one.result rest.0, rest.1)
