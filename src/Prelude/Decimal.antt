-- ===== src/Prelude/Decimal.antt =====
-- `fmt.Sprintf("%d", n)` of a natural number, and that it tells numbers apart.
use Prim.Native.Nat.{ℕ, zero, suc, ◌+◌, ◌-◌, ◌*◌, ◌/◌, ◌%◌, ◌<◌}
use mathlib.Core.Path.{◌≡◌, refl, sym, ap, ◌∙◌}
use mathlib.Core.Logic.{inl, inr}
use mathlib.Core.List.{[], ◌∷◌, ◌++◌}
use native.Mathlib.Omega.{arith}
use slipgate.Prelude.Tests.{ltb, if◌then◌else◌, Bool-cases}
use slipgate.Prelude.Text.{Bytes}

-- The last digit is `n % 10`; the fuel bounds the number of digits.
digits : ℕ → ℕ → Bytes
digits zero n = []
digits (suc fuel) n =
    let front = digits fuel (n / 10) in
    if ltb n 10 then (48 + n) ∷ [] else front ++ ((48 + n % 10) ∷ [])

unfoldable pub decimal : ℕ → Bytes
unfolding digits
decimal n = digits (suc n) n

-- what a sequence of digits says, after `acc`
value : ℕ → Bytes → ℕ
value acc [] = acc
value acc (d ∷ ds) = value (acc * 10 + (d - 48)) ds

value-append : (acc d : ℕ) (xs : Bytes) → value acc (xs ++ (d ∷ [])) ≡ value acc xs * 10 + (d - 48)
unfolding value
value-append acc d [] = refl
value-append acc d (x ∷ xs) = value-append (acc * 10 + (x - 48)) d xs

value-digits : (fuel n : ℕ) → n < fuel → value 0 (digits fuel n) ≡ n
unfolding digits value
value-digits zero n h = elim h [ ]
value-digits (suc fuel) n h = elim (Bool-cases (ltb n 10)) [
  | inl small ↦ rw small (ground arith)
  | inr large ↦
      rw
        (
          large,
          value-append 0 (48 + n % 10) (digits fuel (n / 10)),
          value-digits fuel (n / 10) (ground arith),
        )
        (omega arith)
]

pub decimal-injective : (m n : ℕ) → decimal m ≡ decimal n → m ≡ n
unfolding decimal
decimal-injective m n e =
    sym (value-digits (suc m) m (omega arith))
    ∙ ap (value 0) e
    ∙ value-digits (suc n) n (omega arith)
