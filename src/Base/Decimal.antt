-- ===== src/Base/Decimal.antt =====
-- Decimal text of a number, as `std::to_string` and `fmt` write it.
use Prim.Native.Nat.{ℕ, zero, suc, ◌/◌, ◌%◌, ◌^◌, ◌<◌}
use Prim.Native.String.{String, ◌++◌}
use mathlib.Core.Path.{◌≡◌, ap}
use mathlib.Core.Logic.{inl, inr}
use native.Mathlib.Omega.{arith}
use native.Mathlib.Nat.{pow-suc}
use instrument_script_server.Base.Tests.{ltb, nat_eqb, if◌then◌else◌, Bool-cases}

digit : ℕ → String
digit n =
    if nat_eqb n 0
    then "0"
    else if nat_eqb n 1
    then "1"
    else if nat_eqb n 2
    then "2"
    else if nat_eqb n 3
    then "3"
    else if nat_eqb n 4
    then "4"
    else if nat_eqb n 5
    then "5"
    else if nat_eqb n 6
    then "6"
    else if nat_eqb n 7
    then "7"
    else if nat_eqb n 8
    then "8"
    else "9"

-- At most `fuel` digits.
unfoldable pub decimal_within : ℕ → ℕ → String
unfolding digit
decimal_within zero n = ""
decimal_within (suc fuel) n =
    let rest = decimal_within fuel (n / 10) in if ltb n 10 then digit n else rest ++ digit (n % 10)

-- A 64-bit number has at most twenty digits.
unfoldable pub to_decimal : ℕ → String
unfolding decimal_within
to_decimal n = decimal_within 20 n

-- More fuel than digits changes nothing.
pub decimal_within_enough :
    (fuel n : ℕ)
    → n < 10 ^ suc fuel
    → decimal_within (suc (suc fuel)) n ≡ decimal_within (suc fuel) n
unfolding decimal_within
decimal_within_enough zero n h = ground arith
decimal_within_enough (suc fuel) n h = elim (Bool-cases (ltb n 10)) [
  | inl small ↦ rw small
  | inr big ↦ rw big (
      ap (λ s. s ++ digit (n % 10))
        (decimal_within_enough fuel (n / 10) (omega (arith, pow-suc 10 (suc fuel)))))
]
