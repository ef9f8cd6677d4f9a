-- ===== src/Base/Decimal.antt =====
-- `strconv.Itoa` and `strconv.FormatUint(n, 10)` of a number that is not negative.
use Prim.Native.Nat.{ℕ, zero, suc, ◌+◌, ◌/◌, ◌%◌, ◌<◌}
use mathlib.Core.Path.{◌≡◌, refl, sym, ap, ◌∙◌}
use mathlib.Core.List.{[], ◌∷◌, ◌++◌, append_assoc}
use mathlib.Core.Bool.{false}
use native.Mathlib.Omega.{arith}
use cpa_monitor.Base.Tests.{ltb, if◌then◌else◌, Bool-cases}
use cpa_monitor.Base.Strings.{Text}
use cpa_monitor.Base.Int.{ℤ, pos, negsuc}
use mathlib.Core.Logic.{inl, inr}

-- The digits of `n` before `rest`, on fuel.
unfoldable pub decimal_from : ℕ → ℕ → Text → Text
decimal_from zero n rest = rest
decimal_from (suc f) n rest =
    let more = decimal_from f (n / 10) ((48 + n % 10) ∷ rest) in
    if ltb n 10 then (48 + n) ∷ rest else more

unfoldable pub decimal : ℕ → Text
decimal n = decimal_from (suc n) n []

-- The decimal numeral of an integer.
unfoldable pub int_text : ℤ → Text
int_text (pos n) = decimal n
int_text (negsuc n) = 45 ∷ decimal (suc n)

-- Any fuel above the number gives the same digits.
decimal_from_fuel :
    (f g n : ℕ) (rest : Text) → n < f → n < g → decimal_from f n rest ≡ decimal_from g n rest
unfolding decimal_from
decimal_from_fuel zero g n rest h k = elim h [ ]
decimal_from_fuel (suc f) zero n rest h k = elim k [ ]
decimal_from_fuel (suc f) (suc g) n rest h k =
    ground (arith, decimal_from_fuel f g (n / 10) ((48 + n % 10) ∷ rest))

decimal_from-append : (f n : ℕ) (rest : Text) → decimal_from f n rest ≡ decimal_from f n [] ++ rest
unfolding decimal_from
decimal_from-append zero n rest = refl
decimal_from-append (suc f) n rest = elim (Bool-cases (ltb n 10)) [
  | inl t ↦ rw t
  | inr more ↦ rw more (
      decimal_from-append f (n / 10) ((48 + n % 10) ∷ rest)
      ∙ sym (
          ap (λ (t : Text). t ++ rest) (decimal_from-append f (n / 10) ((48 + n % 10) ∷ []))
          ∙ append_assoc (decimal_from f (n / 10) []) ((48 + n % 10) ∷ []) rest))
]

decimal_from_more :
    (f n : ℕ)
    → ltb n 10 ≡ false
    → decimal_from (suc f) n [] ≡ decimal_from f (n / 10) ((48 + n % 10) ∷ [])
unfolding decimal_from
decimal_from_more f n more = rw more

-- The fuel suffices: the last digit stands behind the digits of the tenth.
pub decimal_lem :
    (n : ℕ)
    → decimal n ≡ (if ltb n 10 then (48 + n) ∷ [] else decimal (n / 10) ++ (48 + n % 10) ∷ [])
unfolding decimal
decimal_lem n = elim (Bool-cases (ltb n 10)) [
  | inl t ↦ unfold decimal_from in rw t
  | inr more ↦ rw more (
      decimal_from_more n n more
      ∙ decimal_from-append n (n / 10) ((48 + n % 10) ∷ [])
      ∙ ap (λ (t : Text). t ++ (48 + n % 10) ∷ [])
          (decimal_from_fuel n (suc (n / 10)) (n / 10) [] (ground arith) (omega arith)))
]
