-- ===== src/Lock/Examples.antt =====
-- Runs of the distributed lock: cdmp-mini/pkg/lock/redis_lock.go.
use cdmp_mini.Base.{◌≡◌, refl, String, false, none, some, List, [], ◌∷◌, All}
use cdmp_mini.Operation.Types.{new_error}
use cdmp_mini.Operation.Acts.{unanswered}
use cdmp_mini.Lock.{World, System}
use cdmp_mini.Lock.Held.{
  Unexpired, LockCall, try_of, release_of, renew_of, serve_all, serve_all-held,
}

-- Every call is done while its answer gets lost.
abbrev lossy_world : World
lossy_world = record {
  net = λ n. unanswered (new_error "i/o timeout");
  others = λ n held. held;
  context = λ n. none;
}

lossy_world-Unexpired : Unexpired lossy_world "a1"
lossy_world-Unexpired = record { others = λ n. refl }

abbrev calls : List (String × LockCall)
calls = ("b2", try_of 3) ∷ ("b2", release_of) ∷ ("c3", renew_of) ∷ []

abbrev held : System
held = record { holder = some "a1"; looks = 0 }

serve_all-held_example :
    ((serve_all lossy_world calls held).0.holder ≡ some "a1")
    × All (λ told. told ≡ false) (serve_all lossy_world calls held).1
serve_all-held_example =
    serve_all-held lossy_world "a1" calls held lossy_world-Unexpired (refl, (refl, (refl, tt))) refl
