-- ===== src/Operation/DbStore/Examples.antt =====
-- Runs of the Redis and database request state store over a small table:
-- cdmp-mini/internal/common/service/operation/state/redisdb/store.go.
use cdmp_mini.Base.{ℕ, ◌*◌, ◌≡◌, ◌≢◌, refl, true, none, some, List, [], ◌∷◌}
use cdmp_mini.Base.Signed.{millisecond}
use cdmp_mini.Base.GoMap.{lookup, insert}
use cdmp_mini.Operation.Types.{
  OperationKind, queued, executing, failed, OperationEnvelope, new_error, ok,
}
use cdmp_mini.Operation.Acts.{answered, unanswered, answer, attempt, after, or_fail}
use cdmp_mini.Operation.Store.{new_store}
use cdmp_mini.Operation.DbStore.Table.{OperationStateRecord, apply_updates}
use cdmp_mini.Operation.DbStore.Records.{
  Config, empty_state, to_request_state, advance_updates, persistent_key, truncate_reason,
}
use cdmp_mini.Operation.DbStore.Rows.{Shows}
use cdmp_mini.Operation.DbStore.Local.{Rows, local_tables, update_found}
use cdmp_mini.Operation.DbStore.Marks.{marks, marks-IsFaithful, encode}
use cdmp_mini.Operation.DbStore.Calm.{IsCalm, IsReadable}
use cdmp_mini.Operation.DbStore.Past.{NoneReturns}
use cdmp_mini.Operation.DbStore.Statements.{IsMigrated}
use cdmp_mini.Operation.DbStore.Runs.{
  StoreCall, upsert_of, advance_of, failure_of, serve_all, serve_all_memory, serve_all-refines,
}
use cdmp_mini.Operation.DbStore.Entries.{get-advance_cached, get-advance_missed}
use cdmp_mini.Operation.DbStore.Exclusion.{advance-excludes}
use cdmp_mini.Operation.DbStore.{
  System, World, Shared, call, ensure_migrated, migrate_once, read_clock, advanced_rows,
  advance_row, get_key, set_key, read_entry, cache_state, fetch_state, advance, get,
}

-- The n-th look happens at n milliseconds.
abbrev calm_world : World Rows
calm_world = record { net = λ n. answered; clock = λ n. n * millisecond; others = λ n d. d }

calm : IsCalm calm_world
calm = record { answers = λ n. refl; alone = λ n d. refl }

abbrev settings : Config
settings = record { key_prefix = "cdmp"; ttl = 1000; has_db = true }

abbrev row : OperationStateRecord
row = record {
  operation_id = "op-1";
  kind = OperationKind.create;
  resource = "user";
  state = queued;
  attempts = 2;
  last_error = "";
  updated_at = 0;
  created_at = 0;
}

abbrev at_start : System Rows
at_start = record {
  shared = record { cache = []; table = ("op-1", row) ∷ [] };
  migrated = some (ok tt);
  looks = 5;
}

at_start-IsMigrated : IsMigrated settings at_start
at_start-IsMigrated = record { db = refl; done = refl }

abbrev cached_start : System Rows
cached_start = record at_start {
  shared = record {
    cache = ("cdmp:operation_state:op-1", encode (to_request_state row)) ∷ [];
    table = ("op-1", row) ∷ [];
  };
}

abbrev empty_start : System Rows
empty_start = record at_start { shared = record { cache = []; table = [] } }

abbrev envelope : OperationEnvelope
envelope = record {
  id = "op-1";
  kind = OperationKind.create;
  resource = "user";
  tenant = "";
  trace_id = "";
  idempotency_key = "";
  headers = [];
  submitted_at = 0;
  deadline = 0;
  payload = [];
  compensate_hint = [];
}

-- A run with a conflict and an operation that is not there.
abbrev calls : List StoreCall
calls =
    upsert_of envelope
    ∷ advance_of "op-1" queued executing
    ∷ advance_of "op-1" queued executing
    ∷ failure_of "op-1" 1 "timeout"
    ∷ failure_of "op-2" 1 "timeout"
    ∷ []

empty-Shows : Shows local_tables [] new_store
unfolding local_tables lookup
empty-Shows = record { shown = λ id. refl }

empty-IsReadable : IsReadable marks []
unfolding lookup
empty-IsReadable = record { decodes = λ key raw found. absurd (cc found) }

whole : truncate_reason "timeout" ≡ "timeout"
unfolding truncate_reason
whole = refl

serve_all-refines_example :
    ((serve_all local_tables marks calm_world settings calls empty_start).1
      ≡ (serve_all_memory local_tables marks calm_world settings calls empty_start new_store).1)
    × Shows local_tables
        (serve_all local_tables marks calm_world settings calls empty_start).0.shared.table
        (serve_all_memory local_tables marks calm_world settings calls empty_start new_store).0
serve_all-refines_example =
    serve_all-refines local_tables marks marks-IsFaithful settings calm calls new_store empty_start
      (tt, (tt, (tt, (whole, (whole, tt))))) empty-Shows empty-IsReadable
      (record { db = refl; done = refl })

get-advance_missed_example :
    ((get local_tables marks calm_world settings "op-1"
        (advance local_tables marks calm_world settings "op-1" queued executing at_start).0).1
      ≡ ok (record (empty_state "op-1" executing) { updated_at = 5 }))
    × (lookup "op-1"
          (advance local_tables marks calm_world settings "op-1" queued executing
            at_start).0.shared.table
        ≡ some (apply_updates (advance_updates (5 * millisecond) executing) row))
unfolding local_tables lookup
get-advance_missed_example =
    get-advance_missed local_tables marks marks-IsFaithful settings calm "op-1" row queued executing
      at_start at_start-IsMigrated refl refl refl refl

get-advance_cached_example :
    ((get local_tables marks calm_world settings "op-1"
        (advance local_tables marks calm_world settings "op-1" queued executing cached_start).0).1
      ≡ ok (to_request_state (apply_updates (advance_updates (5 * millisecond) executing) row)))
    × (lookup "op-1"
          (advance local_tables marks calm_world settings "op-1" queued executing
            cached_start).0.shared.table
        ≡ some (apply_updates (advance_updates (5 * millisecond) executing) row))
unfolding local_tables lookup persistent_key marks-IsFaithful
get-advance_cached_example =
    get-advance_cached local_tables marks marks-IsFaithful settings calm "op-1" row queued executing
      cached_start (record { db = refl; done = refl }) refl refl refl refl refl

-- A second process, whose looks at the network get no answer.
abbrev lossy_world : World Rows
lossy_world = record {
  net = λ n. unanswered (new_error "i/o timeout");
  clock = λ n. n * millisecond;
  others = λ n d. d;
}

alone-NoneReturns :
    (world : World Rows)
    → ((n : ℕ) (d : Shared Rows) → world.others n d ≡ d)
    → NoneReturns local_tables "op-1" queued world
alone-NoneReturns world alone = record { others = λ n d past. rw (alone n d) past }

abbrev after_first : Shared Rows
after_first =
    (advance local_tables marks calm_world settings "op-1" queued executing at_start).0.shared

won : (advance local_tables marks calm_world settings "op-1" queued executing at_start).1 ≡ ok tt
unfolding advance read_clock ensure_migrated migrate_once advance_row advanced_rows local_tables
    lookup update_found insert call answer attempt after or_fail fetch_state get_key read_entry
    cache_state set_key marks persistent_key
won = refl

abbrev second_start : System Rows
second_start = record { shared = after_first; migrated = none; looks = 0 }

advance-excludes_example :
    (advance local_tables marks lossy_world settings "op-1" queued failed second_start).1 ≢ ok tt
advance-excludes_example =
    advance-excludes local_tables marks marks calm_world lossy_world settings settings "op-1" queued
      executing failed at_start second_start (alone-NoneReturns calm_world (λ n d. refl))
      (alone-NoneReturns lossy_world (λ n d. refl)) refl refl refl won refl
