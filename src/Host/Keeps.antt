-- ===== src/Host/Keeps.antt =====
-- Invariants of the actions of Host, one rule for each way to build an action.
use slipgate.Prelude.{
  ◌≡◌, refl, Bool, true, false, if◌then◌else◌, Option, none, some, List, [], ◌∷◌,
}
use slipgate.Host.{
  World, Action, Result, ok, err, Error, pure, raise, gets, attempt, lift, done, ignore, modify,
  ◌>>=◌, Done, on_option, on_result, each,
}

-- `m` keeps `P`, whether it returns or fails
pub record Keeps (P : World → Type 0) {A : Type 0} (m : Action A) : Type 0 where
  pub at : (w : World) → P w → P (m w).1

module _ {P : World → Type 0} {R : Type 0} where
  -- a branch may use which way the test went
  pub Keeps-if :
      (test : Bool) (taken other : Action R)
      → (test ≡ true → Keeps P taken)
      → (test ≡ false → Keeps P other)
      → Keeps P (if test then taken else other)
  Keeps-if true taken other when_true when_false = when_true refl
  Keeps-if false taken other when_true when_false = when_false refl

  pub Keeps-pure : (x : R) → Keeps P (pure x)
  unfolding pure
  Keeps-pure x = record { at = λ w held. held }

  pub Keeps-raise : (e : Error) → Keeps P (raise {A = R} e)
  unfolding raise
  Keeps-raise e = record { at = λ w held. held }

  pub Keeps-gets : (f : World → R) → Keeps P (gets f)
  unfolding gets
  Keeps-gets f = record { at = λ w held. held }

  pub Keeps-lift : (answer : Result R) → Keeps P (lift answer)
  unfolding lift
  Keeps-lift answer = record { at = λ w held. held }

  pub Keeps-attempt : (m : Action R) → Keeps P m → Keeps P (attempt m)
  unfolding attempt
  Keeps-attempt m k = record { at = λ w h. k.at w h }

module _ {P : World → Type 0} {A B : Type 0} where
  -- the rest of the block may use that `r` did not fail
  pub Keeps-bind-lift :
      (r : Result B) (f : B → Action A)
      → ((b : B) → r ≡ ok b → Keeps P (f b))
      → Keeps P (lift r >>= f)
  unfolding ◌>>=◌ lift
  Keeps-bind-lift (ok b) f kf = record { at = λ w h. (kf b refl).at w h }
  Keeps-bind-lift (err e) f kf = record { at = λ w h. h }

  pub Keeps-bind :
      (m : Action B) (f : B → Action A) → Keeps P m → ((b : B) → Keeps P (f b)) → Keeps P (m >>= f)
  unfolding ◌>>=◌ lift
  Keeps-bind m f km kf = record {
    at = λ w h. let (r, w') = m w in (Keeps-bind-lift r f (λ b _. kf b)).at w' (km.at w h);
  }

module _ {P : World → Type 0} {A B : Type 0} where
  -- a switch on an option or a result
  pub Keeps-option :
      (o : Option B) (m : Action A) (f : B → Action A)
      → Keeps P m
      → ((b : B) → Keeps P (f b))
      → Keeps P (on_option o m f)
  unfolding on_option
  Keeps-option none m f km kf = km
  Keeps-option (some b) m f km kf = kf b

  pub Keeps-result :
      (r : Result B) (f : B → Action A) (g : Error → Action A)
      → ((b : B) → Keeps P (f b))
      → ((e : Error) → Keeps P (g e))
      → Keeps P (on_result r f g)
  unfolding on_result
  Keeps-result (ok b) f g kf kg = kf b
  Keeps-result (err e) f g kf kg = kg e

module _ {P : World → Type 0} where
  pub Keeps-done : Keeps P done
  unfolding done
  Keeps-done = Keeps-pure tt

  pub Keeps-ignore : {A : Type 0} (m : Action A) → Keeps P m → Keeps P (ignore m)
  unfolding ignore
  Keeps-ignore m k = Keeps-bind (attempt m) (λ _. done) (Keeps-attempt m k) (λ _. Keeps-done)

  pub Keeps-each :
      {A : Type 0} (f : A → Action Done) (as_ : List A)
      → ((a : A) → Keeps P (f a))
      → Keeps P (each f as_)
  unfolding each
  Keeps-each f [] k = Keeps-done
  Keeps-each f (a ∷ as_) k = Keeps-bind (f a) (λ _. each f as_) (k a) (λ _. Keeps-each f as_ k)

  pub Keeps-modify : (f : World → World) → ((w : World) → P w → P (f w)) → Keeps P (modify f)
  unfolding modify
  Keeps-modify f k = record { at = k }

pub ruleset keeps_rules = (
  Keeps-pure, Keeps-raise, Keeps-gets, Keeps-lift, Keeps-attempt, Keeps-if, Keeps-bind, Keeps-done,
  Keeps-ignore, Keeps-option, Keeps-result, Keeps-each,
)
