-- ===== src/Lock/Held.antt =====
-- That a held lock stays with its holder: cdmp-mini/pkg/lock/redis_lock.go.
use text.Mathlib.Text.{◌==◌ as str_eq}
use cdmp_mini.Base.{
  ℕ, zero, suc, ◌+◌, ◌≡◌, ◌≢◌, refl, String, Bool, true, false, Option, some, List, [], ◌∷◌, All,
}
use cdmp_mini.Operation.Types.{Result, ok, err}
use cdmp_mini.Operation.Acts.{Outcome, answered, refused, unanswered, answer}
use cdmp_mini.Operation.Acts.Ends.{Ends, bind-Ends}
use cdmp_mini.Lock.{
  World, System, set_absent, is_held_by, release_script, renew_script, call, acquire, deleted,
  release, renew, check_context, acquired_or, try_acquire,
}

-- While the lease time runs, nothing but the calls of this client touches the key that `value` holds.
pub record Unexpired (world : World) (value : String) : Type 0 where
  pub others : (n : ℕ) → world.others n (some value) ≡ some value

-- The key is still held, and the call gives `reply` or an error.
record Refused {A : Type 0} (value : String) (reply : A) (s : System) (r : Result A) : Type 0 where
  holder_eq : s.holder ≡ some value
  reply_eq : (a : A) → r ≡ ok a → a ≡ reply

answer-Refused :
    {A : Type 0} (value : String) (outcome : Outcome) (reply : A) (n : ℕ)
    → Refused value reply
        (record { holder = (answer outcome (some value) (some value, reply)).0; looks = n })
        (answer outcome (some value) (some value, reply)).1
unfolding answer
answer-Refused value answered reply n = record { holder_eq = refl; reply_eq = λ a e. cc e }
answer-Refused value (refused e) reply n = record {
  holder_eq = refl;
  reply_eq = λ a e. absurd (cc e);
}
answer-Refused value (unanswered e) reply n = record {
  holder_eq = refl;
  reply_eq = λ a e. absurd (cc e);
}

module _ {world : World} {value : String} (unexpired : Unexpired world value) where
  call-Refused :
      {A : Type 0} (command : Option String → Option String × A) (reply : A) (s : System)
      → s.holder ≡ some value
      → command (some value) ≡ (some value, reply)
      → Ends (call world command) (Refused value reply) s
  unfolding call
  call-Refused command reply s held does = record {
    ended =
        rw (held, unexpired.others s.looks, does)
          (answer-Refused value (world.net s.looks) reply (s.looks + 1));
  }

  context_held :
      (s : System)
      → s.holder ≡ some value
      → Ends (check_context world) (λ s' r. s'.holder ≡ some value) s
  unfolding check_context
  context_held s held = record { ended = held }

  module _ (other : String) (apart : str_eq value other ≡ false) where
    acquire-Refused :
        (s : System) → s.holder ≡ some value → Ends (acquire world other) (Refused value false) s
    unfolding acquire set_absent
    acquire-Refused s held = call-Refused (set_absent other) false s held refl

    release-Refused :
        (s : System)
        → s.holder ≡ some value
        → Ends (release world other) (λ s' r. (s'.holder ≡ some value) × (r ≢ ok tt)) s
    unfolding release deleted release_script is_held_by
    release-Refused s held =
        bind-Ends (call-Refused (release_script other) 0 s held (rw apart refl))
          (λ s' n q. rw (q.reply_eq n refl) (record { ended = (q.holder_eq, λ done. cc done) }))
          (λ s' e q. (q.holder_eq, λ done. cc done))

    renew-Refused :
        (s : System)
        → s.holder ≡ some value
        → Ends (renew world other) (λ s' r. (s'.holder ≡ some value) × (r ≢ ok true)) s
    unfolding renew renew_script is_held_by
    renew-Refused s held =
        bind-Ends (call-Refused (renew_script other) 0 s held (rw apart refl))
          (λ s' n q. rw (q.reply_eq n refl) (record { ended = (q.holder_eq, λ done. cc done) }))
          (λ s' e q. (q.holder_eq, λ done. cc done))

    try_acquire-Refused :
        (retries : ℕ) (s : System)
        → s.holder ≡ some value
        → Ends
            (try_acquire world retries other)
            (λ s' r. (s'.holder ≡ some value) × (r ≢ ok true))
            s
    unfolding try_acquire acquired_or
    try_acquire-Refused zero s held = record { ended = (held, λ done. cc done) }
    try_acquire-Refused (suc retries) s held =
        bind-Ends (context_held s held)
          (λ s₁ a held₁.
            bind-Ends (acquire-Refused s₁ held₁)
              (λ s₂ b q. rw (q.reply_eq b refl) (try_acquire-Refused retries s₂ q.holder_eq))
              (λ s₂ e q. (q.holder_eq, λ done. cc done)))
          (λ s₁ e held₁. (held₁, λ done. cc done))

-- The calls of a client: with how often it tries, or to free or to prolong the lock.
pub data LockCall : Type 0 where
  try_of : ℕ → LockCall
  release_of renew_of : LockCall

-- Whether an answer is a success.
abbrev pub told : Result Bool → Bool
told (ok b) = b
told (err e) = false

abbrev pub freed : Result (Unit {0}) → Bool
freed (ok done) = true
freed (err e) = false

-- A call, and whether the client is told that it has the lock or has freed it.
unfoldable pub succeeds : World → String → LockCall → System → System × Bool
succeeds world value (try_of retries) s =
    let done = try_acquire world retries value s in (done.0, told done.1)
succeeds world value release_of s = let done = release world value s in (done.0, freed done.1)
succeeds world value renew_of s = let done = renew world value s in (done.0, told done.1)

-- A sequence of calls of clients, each with its value.
unfoldable pub serve_all : World → List (String × LockCall) → System → System × List Bool
unfolding succeeds
serve_all world [] s = (s, [])
serve_all world ((value, c) ∷ calls) s =
    let done = succeeds world value c s in
    let rest = serve_all world calls done.0 in (rest.0, done.1 ∷ rest.1)

told-false : (r : Result Bool) → r ≢ ok true → told r ≡ false
told-false (ok true) failed = absurd (failed refl)
told-false (ok false) failed = refl
told-false (err e) failed = refl

freed-false : (r : Result (Unit {0})) → r ≢ ok tt → freed r ≡ false
freed-false (ok done) failed = absurd (failed refl)
freed-false (err e) failed = refl

serve_one :
    (world : World) (value other : String) (c : LockCall) (s : System)
    → Unexpired world value
    → str_eq value other ≡ false
    → s.holder ≡ some value
    → ((succeeds world other c s).0.holder ≡ some value) × ((succeeds world other c s).1 ≡ false)
unfolding succeeds
serve_one world value other (try_of retries) s unexpired apart held =
    let q = (try_acquire-Refused unexpired other apart retries s held).ended in
    (q.0, told-false _ q.1)
serve_one world value other release_of s unexpired apart held =
    let q = (release-Refused unexpired other apart s held).ended in (q.0, freed-false _ q.1)
serve_one world value other renew_of s unexpired apart held =
    let q = (renew-Refused unexpired other apart s held).ended in (q.0, told-false _ q.1)

-- While a client holds the lock and its lease time runs, no sequence of calls of TryAcquire, Release
-- and Renew by clients with other values takes the lock from it, and none of these calls is told that it
-- has succeeded, whatever becomes of the calls of Redis.
pub serve_all-held :
    (world : World) (value : String) (calls : List (String × LockCall)) (s : System)
    → Unexpired world value
    → All (λ call. str_eq value call.0 ≡ false) calls
    → s.holder ≡ some value
    → ((serve_all world calls s).0.holder ≡ some value)
      × All (λ told. told ≡ false) (serve_all world calls s).1
unfolding serve_all
serve_all-held world value [] s unexpired apart held = (held, tt)
serve_all-held world value ((other, c) ∷ calls) s unexpired apart held =
    let one = serve_one world value other c s unexpired apart.0 held in
    let rest =
      serve_all-held world value calls (succeeds world other c s).0 unexpired apart.1 one.0 in
    (rest.0, (one.1, rest.1))
