-- ===== src/Base/Decimal.antt =====
-- `strconv.Itoa` of numbers that are not negative, which `%d` of Go's `fmt` prints too.
use Prim.Native.Nat.{ℕ, zero, suc, ◌+◌, ◌/◌, ◌%◌}
use Prim.Native.String.{String, ◌++◌}
use cdmp_mini.Base.Tests.{ltb, ◌==◌, if◌then◌else◌}

digit : ℕ → String
digit n =
    if n == 0
    then "0"
    else if n == 1
    then "1"
    else if n == 2
    then "2"
    else if n == 3
    then "3"
    else if n == 4
    then "4"
    else if n == 5
    then "5"
    else if n == 6
    then "6"
    else if n == 7
    then "7"
    else if n == 8
    then "8"
    else "9"

-- The digits of `n` in front of `later`, of which there are at most `fuel`.
print_from : ℕ → ℕ → String → String
unfolding digit
print_from zero n later = later
print_from (suc fuel) n later =
    let printed = digit (n % 10) ++ later in
    let rest = print_from fuel (n / 10) printed in if ltb n 10 then printed else rest

-- A number has no more digits than it counts, and one.
unfoldable pub itoa : ℕ → String
unfolding print_from
itoa n = print_from (n + 1) n ""
