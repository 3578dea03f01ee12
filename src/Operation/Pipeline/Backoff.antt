-- ===== src/Operation/Pipeline/Backoff.antt =====
-- The waiting time before the next attempt: `defaultRetryBackoff` and `defaultMaxAttempts`.
use native.Mathlib.Nat.{zero-add, suc-add, add-zero, add_comm}
use cdmp_mini.Base.{ℕ, zero, suc, ◌+◌, ◌-◌, ◌*◌, ◌≤◌, ◌≡◌, refl, ltb, leb, false, arith}
use cdmp_mini.Base.Signed.{millisecond, second}
use cdmp_mini.Operation.Pipeline.{standard_backoff}

-- From the seventh attempt on the delay stays the same.
standard_backoff_late :
    (n : ℕ) → standard_backoff (suc (suc (suc (suc (suc (suc (suc n))))))) ≡ 16 * second
unfolding standard_backoff
standard_backoff_late n =
    let late : ltb (suc (suc (suc (suc (suc (suc (suc n)))))) - 1) 6 ≡ false = ground arith in
    let later : leb (suc (suc (suc (suc (suc (suc (suc n))))))) 1 ≡ false = ground arith in
    rw (late, later) refl

standard_backoff-suc : (n : ℕ) → standard_backoff n ≤ standard_backoff (suc n)
unfolding standard_backoff
standard_backoff-suc zero = omega arith
standard_backoff-suc (suc zero) = omega arith
standard_backoff-suc (suc (suc zero)) = omega arith
standard_backoff-suc (suc (suc (suc zero))) = omega arith
standard_backoff-suc (suc (suc (suc (suc zero)))) = omega arith
standard_backoff-suc (suc (suc (suc (suc (suc zero))))) = omega arith
standard_backoff-suc (suc (suc (suc (suc (suc (suc zero)))))) = omega arith
standard_backoff-suc (suc (suc (suc (suc (suc (suc (suc n))))))) =
    omega (arith, standard_backoff_late n, standard_backoff_late (suc n))

standard_backoff-add : (k n : ℕ) → standard_backoff n ≤ standard_backoff (k + n)
standard_backoff-add zero n = rw zero-add (omega arith)
standard_backoff-add (suc k) n =
    rw suc-add (omega (arith, standard_backoff-add k n, standard_backoff-suc (k + n)))

standard_backoff_least : (n : ℕ) → 250 * millisecond ≤ standard_backoff n
unfolding standard_backoff
standard_backoff_least n = rw (← add-zero n) (standard_backoff-add n 0)

-- The standard waiting time never falls from one attempt to a later one, and lies between a quarter
-- of a second and 16 seconds, so that the limit of 30 seconds is never reached.
pub standard_backoff_bounds :
    (n k : ℕ)
    → (standard_backoff n ≤ standard_backoff (n + k))
      × (250 * millisecond ≤ standard_backoff n)
      × (standard_backoff n ≤ 16 * second)
standard_backoff_bounds n k = (
  rw (add_comm n k) (standard_backoff-add k n),
  standard_backoff_least n,
  omega (
    arith,
    standard_backoff-suc n,
    standard_backoff-suc (suc n),
    standard_backoff-suc (suc (suc n)),
    standard_backoff-suc (suc (suc (suc n))),
    standard_backoff-suc (suc (suc (suc (suc n)))),
    standard_backoff-suc (suc (suc (suc (suc (suc n))))),
    standard_backoff-suc (suc (suc (suc (suc (suc (suc n)))))),
    standard_backoff_late n,
  ),
)
