-- ===== src/Operation/DbStore/Past.antt =====
-- What keeps an operation past a state in the table of the Redis and database request state store,
-- whatever becomes of the calls:
-- cdmp-mini/internal/common/service/operation/state/redisdb/store.go.
use cdmp_mini.Base.{
  ℕ, String, ◌≡◌, ◌≢◌, refl, sym, ap, ◌∙◌, inl, inr, Bool, true, false, Option, none, some,
  Bool-cases,
}
use cdmp_mini.Base.Text.{is_empty}
use cdmp_mini.Base.GoMap.{lookup, insert}
use cdmp_mini.Operation.Types.{OperationState, same_state, Result, ok, err, RequestState}
use cdmp_mini.Operation.Acts.{Outcome, answered, refused, unanswered, answer, require, ◌>>=◌}
use cdmp_mini.Operation.Acts.Ends.{Ends, eq-Ends, bind-Ends, attempt-Ends}
use cdmp_mini.Operation.DbStore.Table.{OperationStateRecord, Tables, StateCodec}
use cdmp_mini.Operation.DbStore.Records.{Config, persistent_key, is_absent}
use cdmp_mini.Operation.DbStore.Statements.{not_advanced_eq}
use cdmp_mini.Operation.DbStore.{
  System, World, Shared, call, migrate, migrate_once, ensure_migrated, advanced_rows, get_key,
  set_key, read_entry, cache_state, fetch_state,
}

-- The operation is not in the state `from`, by the table.
pub record IsPast {T : Type 0} (tables : Tables T) (id : String) (from : OperationState)
    (d : Shared T) : Type 0 where
  pub past :
      (row : OperationStateRecord)
      → tables.find id d.table ≡ some row
      → same_state row.state from ≡ false

-- Nobody else brings the operation back into that state.
pub record NoneReturns {T : Type 0} (tables : Tables T) (id : String) (from : OperationState)
    (world : World T) : Type 0 where
  pub others :
      (n : ℕ) (d : Shared T) → IsPast tables id from d → IsPast tables id from (world.others n d)

-- A condition on the value of a call that gives one.
abbrev pub WhenOk : {A : Type 0} → (A → Type 0) → Result A → Type 0
WhenOk Q (ok a) = Q a
WhenOk Q (err e) = Unit

-- What holds after the command holds after a call that gives a value.
pub answer_ok :
    {D A : Type 0} (P : D → Type 0) (outcome : Outcome) (found : D) (done : D × A) (a : A)
    → P done.0
    → (answer outcome found done).1 ≡ ok a
    → P (answer outcome found done).0
unfolding answer
answer_ok P answered found (d, a') a after e = after
answer_ok P (refused cause) found (d, a') a after e = absurd (cc e)
answer_ok P (unanswered cause) found (d, a') a after e = after

answer-WhenOk :
    {D A : Type 0} (P : D → Type 0) (Q : A → Type 0) (outcome : Outcome) (found : D) (done : D × A)
    → P found
    → P done.0
    → Q done.1
    → P (answer outcome found done).0 × WhenOk Q (answer outcome found done).1
unfolding answer
answer-WhenOk P Q answered found (d, a) before after reply = (after, reply)
answer-WhenOk P Q (refused e) found (d, a) before after reply = (before, tt)
answer-WhenOk P Q (unanswered e) found (d, a) before after reply = (after, tt)

module _ {T : Type 0} (tables : Tables T) (codec : StateCodec) (world : World T) (settings : Config)
    (id : String) (from : OperationState) (stable : NoneReturns tables id from world) where
  -- A call whose command keeps the operation past the state.
  pub call-IsPast :
      {A : Type 0} (Q : A → Type 0) (command : Shared T → Shared T × A)
      → ((d : Shared T)
          → IsPast tables id from d
          → IsPast tables id from (command d).0 × Q (command d).1)
      → (s : System T) → IsPast tables id from s.shared
      → Ends (call world command) (λ s' r. IsPast tables id from s'.shared × WhenOk Q r) s
  unfolding call
  call-IsPast Q command keeps s before =
      let found = world.others s.looks s.shared in
      let ready = stable.others s.looks s.shared before in
      record {
        ended =
            answer-WhenOk (IsPast tables id from) Q (world.net s.looks) found (command found) ready
              (keeps found ready).0 (keeps found ready).1;
      }

  -- A call that does not touch the table.
  pub aside-IsPast :
      {A : Type 0} (command : Shared T → Shared T × A)
      → ((d : Shared T) → (command d).0.table ≡ d.table)
      → (s : System T) → IsPast tables id from s.shared
      → Ends (call world command) (λ s' r. IsPast tables id from s'.shared) s
  aside-IsPast command aside s before = record {
    ended =
        (call-IsPast (λ a. Unit {0}) command
          (λ d past. (
            record {
              past = λ row found. past.past row (ap (tables.find id) (sym (aside d)) ∙ found);
            },
            tt,
          ))
          s before).ended.0;
  }

  pub cache_state-IsPast :
      (entry : RequestState) (s : System T)
      → IsPast tables id from s.shared
      → Ends (cache_state codec world settings entry) (λ s' r. IsPast tables id from s'.shared) s
  unfolding cache_state set_key
  cache_state-IsPast entry s before =
      bind-Ends {Q = λ s' r. IsPast tables id from s'.shared} (record { ended = before })
        (λ s' payload past.
          aside-IsPast
            (λ d. (
              record d {
                cache = insert (persistent_key settings entry.operation_id) payload d.cache;
              },
              tt,
            ))
            (λ d. refl) s' past)
        (λ s' e past. past)

  read_entry-IsPast :
      (r : Result (Option String)) (s : System T)
      → IsPast tables id from s.shared
      → Ends (read_entry codec r) (λ s' r. IsPast tables id from s'.shared) s
  unfolding read_entry
  read_entry-IsPast (ok none) s before = record { ended = before }
  read_entry-IsPast (ok (some raw)) s before = elim (Bool-cases (is_empty raw)) [
    | inl blank ↦ rw blank (record { ended = before })
    | inr full ↦ rw full (record { ended = before })
  ]
  read_entry-IsPast (err e) s before = elim (Bool-cases (is_absent e)) [
    | inl absent ↦ rw absent (record { ended = before })
    | inr other ↦ rw other (record { ended = before })
  ]

  pub fetch_state-IsPast :
      (key : String) (s : System T)
      → IsPast tables id from s.shared
      → Ends (fetch_state codec world settings key) (λ s' r. IsPast tables id from s'.shared) s
  unfolding fetch_state get_key
  fetch_state-IsPast key s before =
      attempt-Ends
        (aside-IsPast (λ d. (d, lookup (persistent_key settings key) d.cache)) (λ d. refl) s before)
        (λ s' r past. read_entry-IsPast r s' past)

  migrate_once-IsPast :
      (migrated : Option (Result (Unit {0}))) (s : System T)
      → IsPast tables id from s.shared
      → Ends (migrate_once world migrated) (λ s' r. IsPast tables id from s'.shared) s
  unfolding migrate_once migrate
  migrate_once-IsPast none s before = record {
    ended = (aside-IsPast (λ d. (d, tt)) (λ d. refl) s before).ended;
  }
  migrate_once-IsPast (some result) s before = record { ended = before }

  pub ensure_migrated-IsPast :
      (s : System T)
      → IsPast tables id from s.shared
      → Ends (ensure_migrated world settings) (λ s' r. IsPast tables id from s'.shared) s
  unfolding ensure_migrated
  ensure_migrated-IsPast s before = elim (Bool-cases settings.has_db) [
    | inl db ↦ record { ended = rw db (migrate_once-IsPast s.migrated s before).ended }
    | inr alone ↦ record { ended = rw alone before }
  ]

  -- The entry is read and written anew.
  pub settle-IsPast :
      (entry : Option RequestState → RequestState) (key : String) (s : System T)
      → IsPast tables id from s.shared
      → Ends
          (fetch_state codec world settings key >>= λ current.
            cache_state codec world settings (entry current))
          (λ s' r. IsPast tables id from s'.shared)
          s
  settle-IsPast entry key s before =
      bind-Ends (fetch_state-IsPast key s before)
        (λ s' current past. cache_state-IsPast (entry current) s' past) (λ s' e past. past)

  -- The statement finds no row, and the count is not answered with success.
  pub no_rows :
      (s : System T)
      → IsPast tables id from s.shared
      → Ends
          (advanced_rows tables world id 0)
          (λ s' r. IsPast tables id from s'.shared × (r ≢ ok tt))
          s
  unfolding advanced_rows
  no_rows s before =
      bind-Ends (aside-IsPast (λ d. (d, tables.count id d.table)) (λ d. refl) s before)
        (λ s' n past. eq-Ends (not_advanced_eq id n s') (past, λ done. cc done))
        (λ s' e past. (past, λ done. cc done))

  pub require-IsPast :
      (valid : Bool) (message : String) (s : System T)
      → IsPast tables id from s.shared
      → Ends (require valid message) (λ s' r. IsPast tables id from s'.shared) s
  require-IsPast true message s before = record { ended = before }
  require-IsPast false message s before = record { ended = before }
