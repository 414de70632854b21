-- ===== src/Host/Leads.antt =====
-- Actions that lead from one property to another, over the invariants of Host/Keeps.
use slipgate.Prelude.{◌≡◌, refl}
use slipgate.Config.{Config}
use slipgate.Host.{World, Action, Result, ok, err, lift, ◌>>=◌, set_config}
use slipgate.Host.Keeps.{Keeps, Keeps-bind-lift}
use slipgate.Host.Returns.{Returns}
use slipgate.Host.Frame.{InMemory}

-- from `P`, `m` leads to `Q`, whether it returns or fails
pub record Leads (P Q : World → Type 0) {A : Type 0} (m : Action A) : Type 0 where
  pub at : (w : World) → P w → Q (m w).1

module _ {P Q : World → Type 0} {A B : Type 0} where
  keeps_then :
      (r : Result B) (f : B → Action A)
      → ((w : World) → P w → Q w)
      → ((b : B) → Leads P Q (f b))
      → Leads P Q (lift r >>= f)
  unfolding ◌>>=◌ lift
  keeps_then (ok b) f weaken k = record { at = λ w h. (k b).at w h }
  keeps_then (err e) f weaken k = record { at = weaken }

  -- first a step that keeps `P`
  pub Leads-bind :
      (m : Action B) (f : B → Action A)
      → Keeps P m
      → ((w : World) → P w → Q w)
      → ((b : B) → Leads P Q (f b))
      → Leads P Q (m >>= f)
  unfolding ◌>>=◌ lift
  Leads-bind m f keeps weaken k = record {
    at = λ w h. let (r, w') = m w in (keeps_then r f weaken k).at w' (keeps.at w h);
  }

  Returns-then :
      (m : Action B) (f : B → Action A) (R : B → Type 0) (w : World) (r : Result B)
      → (m w).0 ≡ r
      → Returns R m
      → ((w : World) → P w → Q w)
      → ((b : B) → R b → Leads P Q (f b))
      → Leads P Q (lift r >>= f)
  unfolding ◌>>=◌ lift
  Returns-then m f R w (ok b) e returns weaken k = record {
    at = λ w' h. (k b (returns.at w b e)).at w' h;
  }
  Returns-then m f R w (err x) e returns weaken k = record { at = weaken }

  -- first a step that keeps `P` and returns what has `R`
  pub Leads-bind-Returns :
      (m : Action B) (f : B → Action A) (R : B → Type 0)
      → Keeps P m
      → Returns R m
      → ((w : World) → P w → Q w)
      → ((b : B) → R b → Leads P Q (f b))
      → Leads P Q (m >>= f)
  unfolding ◌>>=◌ lift
  Leads-bind-Returns m f R keeps returns weaken k = record {
    at = λ w h. (Returns-then m f R w (m w).0 refl returns weaken k).at (m w).1 (keeps.at w h);
  }

  -- first the step that leads to `Q`
  pub Leads-then :
      (m : Action B) (f : B → Action A)
      → Leads P Q m
      → ((b : B) → Keeps Q (f b))
      → Leads P Q (m >>= f)
  unfolding ◌>>=◌ lift
  Leads-then m f leads k = record {
    at = λ w h. let (r, w') = m w in (Keeps-bind-lift r f (λ b _. k b)).at w' (leads.at w h);
  }

pub set_config-Leads :
    (P Q : Config → Type 0) (f : Config → Config)
    → ((c : Config) → P c → Q (f c))
    → Leads (InMemory P) (InMemory Q) (set_config f)
unfolding set_config
set_config-Leads P Q f k = record { at = λ w h. record { holds = k w.config h.holds } }
