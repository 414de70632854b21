-- ===== src/Host/Ensures.antt =====
-- What holds of the world when an action of Host returns without an error.
use slipgate.Prelude.{◌≡◌}
use slipgate.Host.{World, Action, Result, ok, err, Error, raise, lift, ◌>>=◌}
use slipgate.Host.Keeps.{Keeps, Keeps-bind-lift}

pub record Ensures (Q : World → Type 0) {A : Type 0} (m : Action A) : Type 0 where
  pub at : (w : World) (a : A) → (m w).0 ≡ ok a → Q (m w).1

module _ {Q : World → Type 0} {A : Type 0} where
  pub Ensures-raise : (e : Error) → Ensures Q (raise {A = A} e)
  unfolding raise
  Ensures-raise e = record { at = λ w a h. cc }

module _ {Q : World → Type 0} {A B : Type 0} where
  after_answer :
      (answer : Result B) (f : B → Action A)
      → ((b : B) → Ensures Q (f b))
      → Ensures Q (lift answer >>= f)
  unfolding ◌>>=◌ lift
  after_answer (ok b) f next = record { at = λ w a h. (next b).at w a h }
  after_answer (err e) f next = record { at = λ w a h. cc }

  -- the last step decides
  pub Ensures-bind :
      (m : Action B) (f : B → Action A) → ((b : B) → Ensures Q (f b)) → Ensures Q (m >>= f)
  unfolding ◌>>=◌ lift
  Ensures-bind m f next = record { at = λ w a h. (after_answer (m w).0 f next).at (m w).1 a h }

  -- a step that leaves `Q` behind, and steps that keep it
  pub Ensures-then :
      (m : Action B) (f : B → Action A)
      → ((w : World) → Q (m w).1)
      → ((b : B) → Keeps Q (f b))
      → Ensures Q (m >>= f)
  unfolding ◌>>=◌ lift
  Ensures-then m f made kept = record {
    at = λ w a h. (Keeps-bind-lift (m w).0 f (λ b _. kept b)).at (m w).1 (made w);
  }
