-- ===== src/Host/Cases.antt =====
-- The answers of Host, split with their equation.
use slipgate.Prelude.{ℕ, ◌≡◌, refl, ◌⊎◌, inl, inr}
use slipgate.Host.{Result, ok, err, Error, Write, full, refused, cut, Done}

pub Result-cases :
    {A : Type 0} (answer : Result A)
    → ((value : A) × (answer ≡ ok value)) ⊎ ((failure : Error) × (answer ≡ err failure))
Result-cases (ok value) = inl (value, refl)
Result-cases (err failure) = inr (failure, refl)

-- with nothing to return
pub Done-cases : (r : Result Done) → (r ≡ ok tt) ⊎ ((e : Error) × (r ≡ err e))
Done-cases (ok tt) = inl refl
Done-cases (err e) = inr (e, refl)

pub Write-cases :
    (r : Write)
    → (r ≡ full) ⊎ (((e : Error) × (r ≡ refused e)) ⊎ ((n : ℕ) × (e : Error) × (r ≡ cut n e)))
Write-cases full = inl refl
Write-cases (refused e) = inr (inl (e, refl))
Write-cases (cut n e) = inr (inr (n, e, refl))
