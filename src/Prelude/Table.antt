-- ===== src/Prelude/Table.antt =====
-- Go maps and `sync.Map` as association lists: reading, writing and deleting a key.
use Prim.Native.Nat.{ℕ, ◌≤◌, ◌<◌}
use mathlib.Core.Path.{◌≡◌}
use mathlib.Core.Logic.{◌↔◌}
use mathlib.Core.Bool.{Bool, true}
use mathlib.Core.Option.{Option, none, some}
use mathlib.Core.List.{List, [], ◌∷◌}
use native.Mathlib.Omega.{arith}
use slipgate.Prelude.Tests.{◌==◌, ==_iff, if◌then◌else◌, is_some}
use slipgate.Prelude.Lists.{length}
use slipgate.Prelude.Text.{Bytes, bytes_eq, bytes_eq_iff}

pub record Eq (K : Type 0) : Type 0 where
  pub beq : K → K → Bool
  pub beq_iff : (a b : K) → (beq a b ≡ true) ↔ (a ≡ b)

instance abbrev pub nat_eq : Eq ℕ
nat_eq = record { beq = ◌==◌; beq_iff = ==_iff }

instance abbrev pub text_eq : Eq Bytes
text_eq = record { beq = bytes_eq; beq_iff = bytes_eq_iff }

abbrev pub Table : Type 0 → Type 0 → Type 0
Table K V = List (K × V)

module _ {K V : Type 0} ⦃e : Eq K⦄ where
  -- v, ok := m[k]
  unfoldable pub load : K → Table K V → Option V
  load k [] = none
  load k ((j, v) ∷ m) = if e.beq j k then some v else load k m

  -- delete(m, k)
  unfoldable pub delete : K → Table K V → Table K V
  delete k [] = []
  delete k ((j, v) ∷ m) = let rest = delete k m in if e.beq j k then rest else (j, v) ∷ rest

  -- m[k] = v
  unfoldable pub store : K → V → Table K V → Table K V
  unfolding delete
  store k v m = (k, v) ∷ delete k m

  pub load-delete :
      (k j : K) (m : Table K V) → load j (delete k m) ≡ (if e.beq k j then none else load j m)
  unfolding load delete
  load-delete k j [] = ground arith
  load-delete k j ((i, v) ∷ m) =
      ground (arith, load-delete k j m, e.beq_iff i k, e.beq_iff i j, e.beq_iff k j)

  pub load-store :
      (k j : K) (v : V) (m : Table K V)
      → load j (store k v m) ≡ (if e.beq k j then some v else load j m)
  unfolding load store
  load-store k j v m = ground (arith, load-delete k j m)

  pub length-delete-le : (k : K) (m : Table K V) → length (delete k m) ≤ length m
  unfolding delete
  length-delete-le k [] = omega arith
  length-delete-le k ((j, v) ∷ m) = ground (arith, length-delete-le k m)

  pub length-delete :
      (k : K) (m : Table K V) → is_some (load k m) ≡ true → length (delete k m) < length m
  unfolding load delete
  length-delete k [] h = cc
  length-delete k ((j, v) ∷ m) h = ground (arith, length-delete k m, length-delete-le k m)
