-- ===== src/Operation/DbStore/Calm.antt =====
-- Runs of the Redis and database request state store in which every call is answered and nobody else
-- changes anything: cdmp-mini/internal/common/service/operation/state/redisdb/store.go.
use cdmp_mini.Base.{
  ℕ, ◌+◌, String, ◌≡◌, refl, ap, ◌∙◌, ◌⊎◌, inl, inr, true, Option, none, some, Bool-cases,
}
use cdmp_mini.Base.Text.{is_empty}
use cdmp_mini.Base.GoMap.{GoMap, lookup, insert}
use cdmp_mini.Operation.Types.{ok, RequestState}
use cdmp_mini.Operation.Acts.{answered, answer, given, or_fail}
use cdmp_mini.Operation.Acts.Ends.{attempt_known}
use cdmp_mini.Operation.DbStore.Table.{StateCodec, IsFaithful}
use cdmp_mini.Operation.DbStore.Records.{Config, persistent_key}
use cdmp_mini.Operation.DbStore.{
  Shared, World, System, call, cache_state, set_key, get_key, read_entry, fetch_state, some_ok,
}

pub record IsCalm {T : Type 0} (world : World T) : Type 0 where
  pub answers : (n : ℕ) → world.net n ≡ answered
  pub alone : (n : ℕ) (d : Shared T) → world.others n d ≡ d

-- Every entry decodes.
pub record IsReadable (codec : StateCodec) (cache : GoMap String) : Type 0 where
  pub decodes :
      (key raw : String)
      → lookup key cache ≡ some raw
      → (is_empty raw ≡ true) ⊎ ((r : RequestState) × (codec.unmarshal raw ≡ ok r))

-- The state after a look that changes what is shared to `d`.
abbrev pub moved : {T : Type 0} → Shared T → System T → System T
moved d s = record s { shared = d; looks = s.looks + 1 }

module _ {T : Type 0} {world : World T} (calm : IsCalm world) where
  pub call_calm :
      {A : Type 0} (command : Shared T → Shared T × A) (s : System T)
      → call world command s ≡ (moved (command s.shared).0 s, ok (command s.shared).1)
  unfolding call answer
  call_calm command s = rw (calm.alone s.looks s.shared, calm.answers s.looks) refl

module _ {T : Type 0} (codec : StateCodec) (faithful : IsFaithful codec) (settings : Config)
    {world : World T} (calm : IsCalm world) where
  pub cache_state_calm :
      (r : RequestState) (s : System T)
      → cache_state codec world settings r s ≡ (
        moved
            (record s.shared {
              cache =
                  insert
                    (persistent_key settings r.operation_id)
                    (faithful.encoded r)
                    s.shared.cache;
            })
            s,
        ok tt,
      )
  unfolding cache_state set_key or_fail
  cache_state_calm r s =
      attempt_known (given (codec.marshal r)) _ (ap (λ m. (s, m)) (faithful.marshal_ok r))
      ∙ call_calm calm
          (λ d. (
            record d {
              cache = insert (persistent_key settings r.operation_id) (faithful.encoded r) d.cache;
            },
            tt,
          ))
          s

  read_entry_calm :
      (id : String) (found : Option String) (s : System T)
      → ((raw : String)
          → found ≡ some raw
          → (is_empty raw ≡ true) ⊎ ((r : RequestState) × (codec.unmarshal raw ≡ ok r)))
      → (o : Option RequestState) × (read_entry codec (ok found) s ≡ (s, ok o))
  unfolding read_entry some_ok
  read_entry_calm id none s decodes = (none, refl)
  read_entry_calm id (some raw) s decodes = elim (Bool-cases (is_empty raw)) [
    | inl blank ↦ (none, rw blank refl)
    | inr full ↦ elim (decodes raw refl) [
      | inl blank ↦ (none, rw blank refl)
      | inr (r, e) ↦ (some r, rw (full, e) refl)
    ]
  ]

  pub fetch_state_calm :
      (id : String) (s : System T)
      → IsReadable codec s.shared.cache
      → (o : Option RequestState) × (fetch_state codec world settings id s
          ≡ (moved s.shared s, ok o))
  unfolding fetch_state get_key
  fetch_state_calm id s readable =
      let found = lookup (persistent_key settings id) s.shared.cache in
      let (o, e) =
        read_entry_calm id found (moved s.shared s) (λ raw e. readable.decodes _ raw e) in
      let looked = call_calm calm (λ d. (d, lookup (persistent_key settings id) d.cache)) s in
      (o, attempt_known (get_key world (persistent_key settings id)) (read_entry codec) looked ∙ e)
