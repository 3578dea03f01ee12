-- ===== src/Operation/DbStore/Refines.antt =====
-- That the Redis and database request state store does to its rows what the in-memory store does to
-- its map: cdmp-mini/internal/common/service/operation/state/redisdb/store.go and
-- cdmp-mini/internal/common/service/operation/state/memory.go.
use cdmp_mini.Base.{
  ℕ, String, ◌≡◌, refl, ◌∙◌, inl, inr, true, false, Option, none, some, Bool-cases,
}
use cdmp_mini.Base.Text.{is_empty}
use text.Mathlib.Text.{◌==◌ as str_eq}
use cdmp_mini.Base.GoMap.{GoMap, insert, lookup-insert}
use cdmp_mini.Operation.Types.{
  OperationState, queued, OperationEnvelope, GoError, Result, ok, err, RequestState,
}
use cdmp_mini.Operation.Acts.{Act, ◌>>=◌}
use cdmp_mini.Operation.Acts.Ends.{Ends, eq-Ends, known-Ends, known_error-Ends, bind-Ends}
use cdmp_mini.Operation.Store as Memory
use cdmp_mini.Operation.Store.{Store, id_required}
use cdmp_mini.Operation.DbStore.Table.{Tables, StateCodec, IsFaithful}
use cdmp_mini.Operation.DbStore.Records.{
  Config, to_request_state, upserted_row, truncate_reason, advanced_entry, failed_entry,
}
use cdmp_mini.Operation.DbStore.Rows.{
  Shows, advance_reply, failure_reply, advance-Shows, failure-Shows, upsert-Shows, advance_error,
  failure_error,
}
use cdmp_mini.Operation.DbStore.Calm.{IsCalm, IsReadable, moved, cache_state_calm, fetch_state_calm}
use cdmp_mini.Operation.DbStore.Statements.{
  result_of, IsMigrated, Updated, advance_row-Updated, fail_row-Updated, ensure_migrated_known,
  persist_record-Updated,
}
use cdmp_mini.Operation.DbStore.{
  System, World, read_clock, cache_state, fetch_state, upsert, advance, record_failure,
}

-- What the in-memory store did and returned, the table shows and the caller gets; a next call finds
-- what this one found.
pub record Agrees {T : Type 0} (tables : Tables T) (codec : StateCodec) (m : Store)
    (e : Option GoError) (s : System T) (r : Result (Unit {0})) : Type 0 where
  pub result : r ≡ result_of e
  pub shows : Shows tables s.shared.table m
  pub readable : IsReadable codec s.shared.cache
  pub migrated : s.migrated ≡ some (ok tt)

-- A new entry can be read back.
insert-IsReadable :
    (codec : StateCodec) (faithful : IsFaithful codec) (key : String) (r : RequestState)
    (cache : GoMap String)
    → IsReadable codec cache
    → IsReadable codec (insert key (faithful.encoded r) cache)
insert-IsReadable codec faithful key r cache readable = record {
  decodes = λ other raw found.
      let stored = rw (lookup-insert key other (faithful.encoded r) cache) at found in
      elim (Bool-cases (str_eq key other)) [
        | inl hit ↦
            let written = rw hit at stored in inr (r, cc (written, faithful.unmarshal-marshal r))
        | inr miss ↦ readable.decodes other raw (rw miss at stored)
      ];
}

advance_unnamed :
    (now : ℕ) (id : String) (from to : OperationState) (m : Store)
    → is_empty id ≡ true
    → Memory.advance now id from to m ≡ (m, some id_required)
unfolding Memory.advance
advance_unnamed now id from to m unnamed = rw unnamed refl

failure_unnamed :
    (now : ℕ) (id : String) (attempt : ℕ) (reason : String) (m : Store)
    → is_empty id ≡ true
    → Memory.record_failure now id attempt reason m ≡ (m, some id_required)
unfolding Memory.record_failure
failure_unnamed now id attempt reason m unnamed = rw unnamed refl

upsert_unnamed :
    (now : ℕ) (env : OperationEnvelope) (m : Store)
    → is_empty env.id ≡ true
    → Memory.upsert now env queued m ≡ (m, some id_required)
unfolding Memory.upsert
upsert_unnamed now env m unnamed = rw unnamed refl

upsert_named :
    (now : ℕ) (env : OperationEnvelope) (m : Store)
    → is_empty env.id ≡ false
    → (Memory.upsert now env queued m).1 ≡ none
unfolding Memory.upsert
upsert_named now env m named = rw named refl

module _ {T : Type 0} (tables : Tables T) (codec : StateCodec) (faithful : IsFaithful codec)
    (settings : Config) {world : World T} (calm : IsCalm world) where
  cache_state-Agrees :
      (m : Store) (entry : RequestState) (s : System T)
      → Agrees tables codec m none s (ok tt)
      → Ends (cache_state codec world settings entry) (Agrees tables codec m none) s
  cache_state-Agrees m entry s before =
      eq-Ends (cache_state_calm codec faithful settings calm entry s) (record {
        result = refl;
        shows = before.shows;
        readable = insert-IsReadable codec faithful _ entry s.shared.cache before.readable;
        migrated = before.migrated;
      })

  -- The entry is read and written anew after the statement on the table, if that did not fail.
  settle-Agrees :
      {act : Act (System T) (Unit {0})} (id : String) (entry : Option RequestState → RequestState)
      (m : Store) (e : Option GoError) (s : System T) (table : T)
      → Shows tables table m
      → IsReadable codec s.shared.cache
      → s.migrated ≡ some (ok tt)
      → Ends act (Updated table s.shared.cache s.migrated (result_of e)) s
      → Ends
          (act >>= λ done. fetch_state codec world settings id >>= λ current.
            cache_state codec world settings (entry current))
          (Agrees tables codec m e)
          s
  settle-Agrees id entry m none s table shows readable migrated done =
      bind-Ends done
        (λ s' a up.
          let (o, fetched) =
            fetch_state_calm codec faithful settings calm id s' (rw up.cache_eq readable) in
          known-Ends _ _ fetched (
            cache_state-Agrees m (entry o) _ (record {
              result = refl;
              shows = rw up.table_eq shows;
              readable = rw up.cache_eq readable;
              migrated = up.migrated_eq ∙ migrated;
            })))
        (λ s' e up. absurd (cc (up.reply_eq)))
  settle-Agrees id entry m (some e) s table shows readable migrated done =
      bind-Ends done (λ s' a up. absurd (cc (up.reply_eq)))
        (λ s' e' up. record {
          result = up.reply_eq;
          shows = rw up.table_eq shows;
          readable = rw up.cache_eq readable;
          migrated = up.migrated_eq ∙ migrated;
        })

  module _ (m : Store) (s : System T) (shows : Shows tables s.shared.table m)
      (readable : IsReadable codec s.shared.cache) (ready : IsMigrated settings s) where
    -- What stays where nothing is called.
    refused-Agrees : (e : GoError) → Agrees tables codec m (some e) s (err e)
    refused-Agrees e = record {
      result = refl;
      shows = shows;
      readable = readable;
      migrated = ready.done;
    }

    -- `Advance` beside `Advance`.
    pub advance-Agrees :
        (id : String) (from to : OperationState)
        → Ends
            (advance tables codec world settings id from to)
            (Agrees tables codec
              (Memory.advance (world.clock s.looks) id from to m).0
              (Memory.advance (world.clock s.looks) id from to m).1)
            s
    unfolding advance read_clock
    advance-Agrees id from to = elim (Bool-cases (is_empty id)) [
      | inl unnamed ↦
          rw (advance_unnamed (world.clock s.looks) id from to m unnamed, unnamed)
            (known_error-Ends _ _ refl (refused-Agrees id_required))
      | inr named ↦
          let now = world.clock s.looks in
          let t = s.shared.table in
          let updated =
            advance_row-Updated tables calm settings now id from to (moved s.shared s) ready.db in
          let settled =
            settle-Agrees id (advanced_entry now id to) (Memory.advance now id from to m).0
              (advance_reply id from (tables.find id t)) (moved s.shared s) _
              (advance-Shows tables t m shows now id from to named) readable ready.done updated in
          rw (advance_error tables t m shows now id from to named) (
            rw named (
              known-Ends _ _ refl (
                known-Ends _ _ (ensure_migrated_known tables calm settings s ready)
                  (known-Ends _ _ refl settled))))
    ]

    -- `RecordFailure` beside `RecordFailure`.
    pub record_failure-Agrees :
        (id : String) (attempt : ℕ) (reason : String)
        → truncate_reason reason ≡ reason
        → Ends
            (record_failure tables codec world settings id attempt reason)
            (Agrees tables codec
              (Memory.record_failure (world.clock s.looks) id attempt reason m).0
              (Memory.record_failure (world.clock s.looks) id attempt reason m).1)
            s
    unfolding record_failure read_clock
    record_failure-Agrees id attempt reason whole = elim (Bool-cases (is_empty id)) [
      | inl unnamed ↦
          rw (failure_unnamed (world.clock s.looks) id attempt reason m unnamed, unnamed)
            (known_error-Ends _ _ refl (refused-Agrees id_required))
      | inr named ↦
          let now = world.clock s.looks in
          let t = s.shared.table in
          let updated =
            fail_row-Updated tables calm settings now id attempt reason (moved s.shared s)
              ready.db in
          let settled =
            settle-Agrees id (failed_entry now id attempt reason)
              (Memory.record_failure now id attempt reason m).0
              (failure_reply id (tables.find id t)) (moved s.shared s) _
              (failure-Shows tables t m shows now id attempt reason named whole) readable ready.done
              updated in
          rw (failure_error tables t m shows now id attempt reason named) (
            rw named (
              known-Ends _ _ refl (
                known-Ends _ _ (ensure_migrated_known tables calm settings s ready)
                  (known-Ends _ _ refl settled))))
    ]

    -- `Upsert` beside `Upsert`.
    pub upsert-Agrees :
        (env : OperationEnvelope)
        → Ends
            (upsert tables codec world settings env queued)
            (Agrees tables codec
              (Memory.upsert (world.clock s.looks) env queued m).0
              (Memory.upsert (world.clock s.looks) env queued m).1)
            s
    unfolding upsert read_clock
    upsert-Agrees env = elim (Bool-cases (is_empty env.id)) [
      | inl unnamed ↦
          rw (upsert_unnamed (world.clock s.looks) env m unnamed, unnamed)
            (known_error-Ends _ _ refl (refused-Agrees id_required))
      | inr named ↦
          let now = world.clock s.looks in
          let row = upserted_row now env queued in
          let created =
            persist_record-Updated tables calm settings row (moved s.shared s)
              (record { db = ready.db; done = ready.done }) in
          let after = (Memory.upsert now env queued m).0 in
          rw (upsert_named now env m named) (
            rw named (
              known-Ends _ _ refl (
                known-Ends _ _ refl (
                  bind-Ends created
                    (λ s' a up. cache_state-Agrees after (to_request_state row) s' (record {
                      result = refl;
                      shows =
                          rw up.table_eq (upsert-Shows tables s.shared.table m shows now env named);
                      readable = rw up.cache_eq readable;
                      migrated = up.migrated_eq ∙ ready.done;
                    }))
                    (λ s' e up. absurd (cc (up.reply_eq)))))))
    ]
