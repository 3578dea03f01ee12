-- ===== src/Operation/DbStore/Entries.antt =====
-- What `Get` of the Redis and database request state store finds in Redis after an `Advance`:
-- cdmp-mini/internal/common/service/operation/state/redisdb/store.go.
use cdmp_mini.Base.{
  ℕ, ◌/◌, String, ◌≡◌, ◌≢◌, refl, ap, ◌∙◌, true, false, Option, none, some, arith, eq_refl,
}
use cdmp_mini.Base.Signed.{millisecond}
use cdmp_mini.Base.Text.{is_empty}
use cdmp_mini.Base.GoMap.{lookup, insert, lookup-insert_self}
use cdmp_mini.Operation.Types.{OperationState, same_state, ok, RequestState}
use cdmp_mini.Operation.Acts.Ends.{Ends, attempt_known, eq-Ends, known-Ends, bind-Ends}
use cdmp_mini.Operation.DbStore.Table.{
  OperationStateRecord, Tables, StateCodec, IsFaithful, apply_updates,
}
use cdmp_mini.Operation.DbStore.Records.{
  Config, to_request_state, advance_updates, persistent_key, advanced_entry, empty_state,
}
use cdmp_mini.Operation.DbStore.Rows.{advance_reply}
use cdmp_mini.Operation.DbStore.Calm.{IsCalm, moved, call_calm, cache_state_calm}
use cdmp_mini.Operation.DbStore.Statements.{IsMigrated, advance_row-Updated, ensure_migrated_known}
use cdmp_mini.Operation.DbStore.{
  System, World, get_key, read_entry, some_ok, found_entry, read_clock, fetch_state, advance, get,
}

not_blank : (text : String) → text ≢ "" → is_empty text ≡ false
not_blank String.[] full = absurd (full refl)
not_blank (String.◌∷◌ c text) full = refl

-- The entry of an operation in Redis.
abbrev encoding : {codec : StateCodec} → IsFaithful codec → Option RequestState → Option String
encoding faithful none = none
encoding faithful (some r) = some (faithful.encoded r)

module _ {T : Type 0} (codec : StateCodec) (faithful : IsFaithful codec) (settings : Config)
    {world : World T} (calm : IsCalm world) (id : String) where
  read_entry_known :
      (o : Option RequestState) (s : System T)
      → read_entry codec (ok (encoding faithful o)) s ≡ (s, ok o)
  unfolding read_entry some_ok
  read_entry_known none s = refl
  read_entry_known (some r) s =
      rw (not_blank (faithful.encoded r) (faithful.encoded-ne r), faithful.unmarshal-marshal r) refl

  fetch_known :
      (o : Option RequestState) (s : System T)
      → lookup (persistent_key settings id) s.shared.cache ≡ encoding faithful o
      → fetch_state codec world settings id s ≡ (moved s.shared s, ok o)
  unfolding fetch_state get_key
  fetch_known o s stored =
      let looked = call_calm calm (λ d. (d, lookup (persistent_key settings id) d.cache)) s in
      attempt_known (get_key world (persistent_key settings id)) (read_entry codec) looked
      ∙ (ap (λ found. read_entry codec (ok found) (moved s.shared s)) stored
          ∙ read_entry_known o (moved s.shared s))

  module _ (tables : Tables T) where
    get_known :
        (r : RequestState) (s : System T)
        → is_empty id ≡ false
        → lookup (persistent_key settings id) s.shared.cache ≡ some (faithful.encoded r)
        → Ends (get tables codec world settings id) (λ s' result. result ≡ ok r) s
    unfolding get found_entry
    get_known r s named stored = rw named (
        known-Ends _ _ refl
          (known-Ends _ _ (fetch_known (some r) s stored) (record { ended = refl })))

    module _ (row : OperationStateRecord) (from to : OperationState) (s : System T)
        (ready : IsMigrated settings s) (named : is_empty id ≡ false)
        (found : tables.find id s.shared.table ≡ some row)
        (there : same_state row.state from ≡ true) where
      accepted : advance_reply id from (tables.find id s.shared.table) ≡ none
      accepted = rw (found, there) refl

      updated_found :
          tables.find id
            (tables.update_where id
              (λ row'. same_state row'.state from)
              (advance_updates (world.clock s.looks) to)
              s.shared.table).0
          ≡ some (apply_updates (advance_updates (world.clock s.looks) to) row)
      updated_found =
          tables.find-update_where id id (λ row'. same_state row'.state from)
            (advance_updates (world.clock s.looks) to) s.shared.table
          ∙ rw (eq_refl id, found, there) refl

      -- What `Advance` stores in Redis and in the table.
      advance_stores :
          (o : Option RequestState)
          → lookup (persistent_key settings id) s.shared.cache ≡ encoding faithful o
          → (advanced_entry (world.clock s.looks) id to o).operation_id ≡ id
          → Ends
              (advance tables codec world settings id from to)
              (λ s' r.
                (lookup (persistent_key settings id) s'.shared.cache
                  ≡ some (faithful.encoded (advanced_entry (world.clock s.looks) id to o)))
                × (tables.find id s'.shared.table
                    ≡ some (apply_updates (advance_updates (world.clock s.looks) to) row)))
              s
      unfolding advance read_clock
      advance_stores o stored keyed =
          let now = world.clock s.looks in
          let entry = advanced_entry now id to o in
          let key = persistent_key settings id in
          let updated =
            advance_row-Updated tables calm settings now id from to (moved s.shared s) ready.db in
          rw named (
            known-Ends _ _ refl (
              known-Ends _ _ (ensure_migrated_known tables calm settings s ready) (
                known-Ends _ _ refl (
                  bind-Ends updated
                    (λ s' a up.
                      known-Ends _ _ (fetch_known o s' (ap (lookup key) up.cache_eq ∙ stored)) (
                        eq-Ends
                          (cache_state_calm codec faithful settings calm entry (moved s'.shared s'))
                          (
                            ap
                                  (λ k. lookup key (
                                    insert (persistent_key settings k) (faithful.encoded entry)
                                      s'.shared.cache))
                                  keyed
                                ∙ lookup-insert_self key (faithful.encoded entry) s'.shared.cache,
                            ap (tables.find id) up.table_eq ∙ updated_found,
                          )))
                    (λ s' e up. absurd (cc (up.reply_eq, accepted)))))))

advanced_view :
    (now : ℕ) (id : String) (to : OperationState) (row : OperationStateRecord)
    → advanced_entry now id to (some (to_request_state row))
      ≡ to_request_state (apply_updates (advance_updates now to) row)
unfolding advanced_entry to_request_state apply_updates advance_updates
advanced_view now id to row = ground arith

advanced_view_key :
    (now : ℕ) (id : String) (to : OperationState) (row : OperationStateRecord)
    → row.operation_id ≡ id
    → (advanced_entry now id to (some (to_request_state row))).operation_id ≡ id
unfolding advanced_entry to_request_state
advanced_view_key now id to row keyed = keyed

module _ {T : Type 0} (tables : Tables T) (codec : StateCodec) (faithful : IsFaithful codec)
    (settings : Config) {world : World T} (calm : IsCalm world) (id : String)
    (row : OperationStateRecord) (from to : OperationState) (s : System T) where
  -- While every call is answered and nobody else changes anything, Get after an Advance returns what
  -- the table then holds for the operation, if Redis held an entry that showed the row before, whose
  -- state is the one to advance from, and the table is migrated.
  pub get-advance_cached :
      IsMigrated settings s
      → is_empty id ≡ false
      → row.operation_id ≡ id
      → tables.find id s.shared.table ≡ some row
      → same_state row.state from ≡ true
      → lookup (persistent_key settings id) s.shared.cache
        ≡ some (faithful.encoded (to_request_state row))
      → ((get tables codec world settings id (advance tables codec world settings id from to s).0).1
          ≡ ok (to_request_state (apply_updates (advance_updates (world.clock s.looks) to) row)))
        × (tables.find id (advance tables codec world settings id from to s).0.shared.table
            ≡ some (apply_updates (advance_updates (world.clock s.looks) to) row))
  get-advance_cached ready named keyed found there stored =
      let shown = advanced_view (world.clock s.looks) id to row in
      let done =
        (advance_stores codec faithful settings calm id tables row from to s ready named found there
          (some (to_request_state row)) stored
          (advanced_view_key (world.clock s.looks) id to row keyed)).ended in
      (
        (get_known codec faithful settings calm id tables _ _ named done.0).ended ∙ ap ok shown,
        done.1,
      )

  -- While every call is answered and nobody else changes anything, Get after an Advance of a row, whose
  -- state is the one to advance from, in a migrated table, returns a state with no kind, no resource, no
  -- attempts and no last error, if Redis held no entry before, although the table has the row with
  -- just the columns changed that Advance updates: the state and the time, the last error cleared
  -- unless the new state is failed, and the attempts reset where it is queued.
  pub get-advance_missed :
      IsMigrated settings s
      → is_empty id ≡ false
      → tables.find id s.shared.table ≡ some row
      → same_state row.state from ≡ true
      → lookup (persistent_key settings id) s.shared.cache ≡ none
      → ((get tables codec world settings id (advance tables codec world settings id from to s).0).1
          ≡ ok (record (empty_state id to) { updated_at = world.clock s.looks / millisecond }))
        × (tables.find id (advance tables codec world settings id from to s).0.shared.table
            ≡ some (apply_updates (advance_updates (world.clock s.looks) to) row))
  unfolding advanced_entry
  get-advance_missed ready named found there stored =
      let done =
        (advance_stores codec faithful settings calm id tables row from to s ready named found there
          none stored refl).ended in
      ((get_known codec faithful settings calm id tables _ _ named done.0).ended, done.1)
