-- ===== src/Prelude/Text/Decimal.antt =====
-- `str(n)` of a natural number.
use Prim.Native.Nat.{ℕ, zero, suc, ◌/◌, ◌%◌}
use Prim.Native.String.{String, ◌++◌ as ◌<>◌}
use mathlib.Core.Path.{◌≡◌, refl}
use oracle_patching.Prelude.Tests.{◌==◌, nat_eq, ltb, if◌then◌else◌}

unfoldable pub digit : ℕ → String
digit n =
    if n == 0
    then "0"
    else if n == 1
    then "1"
    else if n == 2
    then "2"
    else if n == 3
    then "3"
    else if n == 4
    then "4"
    else if n == 5
    then "5"
    else if n == 6
    then "6"
    else if n == 7
    then "7"
    else if n == 8
    then "8"
    else "9"

-- The digits of `n`, of which there are fewer than the fuel.
unfoldable pub decimal_within : ℕ → ℕ → String
unfolding digit
decimal_within zero n = ""
decimal_within (suc fuel) n =
    let high = decimal_within fuel (n / 10) in if ltb n 10 then digit n else high <> digit (n % 10)

unfoldable pub decimal : ℕ → String
unfolding decimal_within
decimal n = decimal_within (suc n) n

decimal_runs : decimal 1407 ≡ "1407"
unfolding decimal
decimal_runs = refl
