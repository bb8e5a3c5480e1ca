-- ===== src/Base/Decimal.antt =====
-- `%d` of `fmt.Sprintf`: a number in decimal digits.
use Prim.Native.Nat.{ℕ, zero, suc, ◌/◌, ◌%◌}
use Prim.Native.String.{String}
use Prim.Native.String
use mathlib.Core.Bool.{true, false}
use argus.Base.Tests.{◌==◌, if◌then◌else◌}

abbrev digit : ℕ → String
digit d =
    if d == 0
    then "0"
    else if d == 1
    then "1"
    else if d == 2
    then "2"
    else if d == 3
    then "3"
    else if d == 4
    then "4"
    else if d == 5
    then "5"
    else if d == 6
    then "6"
    else if d == 7
    then "7"
    else if d == 8
    then "8"
    else "9"

-- The digits of a number in front of a text; a number has no more digits than its successor.
unfoldable pub decimal_before : ℕ → ℕ → String → String
decimal_before zero n rest = rest
decimal_before (suc fuel) n rest = elim (n / 10 == 0) [
  | true ↦ String.◌++◌ (digit (n % 10)) rest
  | false ↦ decimal_before fuel (n / 10) (String.◌++◌ (digit (n % 10)) rest)
]

unfoldable pub decimal : ℕ → String
unfolding decimal_before
decimal n = decimal_before (suc n) n ""
