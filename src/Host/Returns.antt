-- ===== src/Host/Returns.antt =====
-- What the actions of Host return when they do not fail, one rule for each way to build an action.
use slipgate.Prelude.{◌≡◌, refl, Bool, true, false, if◌then◌else◌, sym, Option, none, some}
use slipgate.Host.{World, Action, Result, ok, err, Error, pure, raise, on_option, ◌>>=◌}

-- whatever `m` returns has `Q`
pub record Returns {A : Type 0} (Q : A → Type 0) (m : Action A) : Type 0 where
  pub at : (w : World) (a : A) → (m w).0 ≡ ok a → Q a

-- the value that `a` and `b` are
ok_inj : {A : Type 0} (Q : A → Type 0) {a b : A} → Q a → ◌≡◌ {A = Result A} (ok a) (ok b) → Q b
ok_inj Q {a = a} {b = b} q e = let same : a ≡ b = cc in rw (sym same) q

module _ {A : Type 0} {Q : A → Type 0} where
  pub Returns-pure : (a : A) → Q a → Returns Q (pure a)
  unfolding pure
  Returns-pure a q = record { at = λ w b e. ok_inj Q q e }

  pub Returns-raise : (e : Error) → Returns Q (raise e)
  unfolding raise
  Returns-raise e = record { at = λ w a h. cc }

  pub Returns-if :
      (b : Bool) (m n : Action A)
      → (b ≡ true → Returns Q m)
      → (b ≡ false → Returns Q n)
      → Returns Q (if b then m else n)
  Returns-if true m n km kn = km refl
  Returns-if false m n km kn = kn refl

module _ {A B : Type 0} {Q : A → Type 0} where
  last_step :
      (r : Result B) (f : B → Action A) (w : World) (a : A)
      → ((b : B) → Returns Q (f b))
      → (((λ _. (r, w)) >>= f) w).0 ≡ ok a
      → Q a
  unfolding ◌>>=◌
  last_step (ok b) f w a k e = (k b).at w a e
  last_step (err x) f w a k e = cc

  pub Returns-bind :
      (m : Action B) (f : B → Action A) → ((b : B) → Returns Q (f b)) → Returns Q (m >>= f)
  unfolding ◌>>=◌
  Returns-bind m f k = record { at = λ w a e. last_step (m w).0 f (m w).1 a k e }

module _ {A B : Type 0} {Q : A → Type 0} where
  pub Returns-option :
      (o : Option B) (m : Action A) (f : B → Action A)
      → Returns Q m
      → ((b : B) → Returns Q (f b))
      → Returns Q (on_option o m f)
  unfolding on_option
  Returns-option none m f km kf = km
  Returns-option (some b) m f km kf = kf b

pub ruleset returns_rules = (Returns-pure, Returns-raise, Returns-if, Returns-bind, Returns-option)
