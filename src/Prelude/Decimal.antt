-- ===== src/Prelude/Decimal.antt =====
-- strconv.FormatInt in base 10.
use Prim.Native.Nat.{ℕ, zero, suc, ◌+◌, ◌/◌, ◌%◌, ◌<◌}
use Prim.Native.String.{String, ◌++◌ as ◌<>◌}
use mathlib.Core.Path.{◌≡◌, refl}
use mathlib.Core.Logic.{inl, inr}
use mathlib.Core.List.{[], ◌∷◌}
use native.Mathlib.Omega.{arith}
use microservice_diagnosis.Prelude.Tests.{ltb, if◌then◌else◌, Bool-cases}
use microservice_diagnosis.Prelude.Lists.{get_or}
use microservice_diagnosis.Prelude.Integers.{ℤ, pos, negsuc}

abbrev digit : ℕ → String
digit n = get_or ("0" ∷ "1" ∷ "2" ∷ "3" ∷ "4" ∷ "5" ∷ "6" ∷ "7" ∷ "8" ∷ "9" ∷ []) n ""

-- The decimal digits of a number below the fuel.
unfoldable pub decimal : ℕ → ℕ → String
decimal zero n = ""
decimal (suc f) n =
    let front = decimal f (n / 10) in if ltb n 10 then digit n else front <> digit (n % 10)

unfoldable pub format_int : ℤ → String
unfolding decimal
format_int (pos n) = decimal (suc n) n
format_int (negsuc n) = "-" <> decimal (suc (n + 1)) (n + 1)

-- The digits do not depend on the fuel once it is above the number.
pub decimal_fuel : (f g n : ℕ) → n < f → n < g → decimal f n ≡ decimal g n
unfolding decimal
decimal_fuel zero g n h k = absurd (omega arith)
decimal_fuel (suc f) zero n h k = absurd (omega arith)
decimal_fuel (suc f) (suc g) n h k = elim (Bool-cases (ltb n 10)) [
  | inl e ↦ rw e refl
  | inr e ↦ rw (e, decimal_fuel f g (n / 10) (ground arith) (ground arith)) refl
]
