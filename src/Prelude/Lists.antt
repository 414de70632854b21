-- ===== src/Prelude/Lists.antt =====
-- Slices: lists measured and indexed by native numbers, under the library's names.
use Prim.Native.Nat.{ℕ, zero, suc, ◌+◌, ◌-◌, min}
use mathlib.Core.Path.{◌≡◌, refl, sym, ap, ◌∙◌}
use mathlib.Core.List.{List, [], ◌∷◌, ◌++◌}
use mathlib.Core.Option.{Option, none, some}
use native.Mathlib.Omega.{arith}
use native.Mathlib.Nat.{zero-add, suc-add}

module _ {ℓ} {A : Type ℓ} where
  abbrev pub length : List A → ℕ
  length [] = 0
  length (x ∷ xs) = suc (length xs)

  abbrev pub get_elem? : List A → ℕ → Option A
  get_elem? [] i = none
  get_elem? (x ∷ xs) zero = some x
  get_elem? (x ∷ xs) (suc i) = get_elem? xs i

  abbrev pub get_or : List A → ℕ → A → A
  get_or [] i d = d
  get_or (x ∷ xs) zero d = x
  get_or (x ∷ xs) (suc i) d = get_or xs i d

  -- A write out of bounds changes nothing.
  abbrev pub set : List A → ℕ → A → List A
  set [] i v = []
  set (x ∷ xs) zero v = v ∷ xs
  set (x ∷ xs) (suc i) v = x ∷ set xs i v

  abbrev pub take : ℕ → List A → List A
  take zero xs = []
  take (suc n) [] = []
  take (suc n) (x ∷ xs) = x ∷ take n xs

  abbrev pub drop : ℕ → List A → List A
  drop zero xs = xs
  drop (suc n) [] = []
  drop (suc n) (x ∷ xs) = drop n xs

  -- `s[from : from + n]`
  abbrev pub slice : List A → ℕ → ℕ → List A
  slice xs from n = take n (drop from xs)

  abbrev pub All {κ} : (A → Type κ) → List A → Type κ
  All P [] = Unit
  All P (x ∷ xs) = P x × All P xs

module _ {ℓ} {A : Type ℓ} where
  pub length-append : (xs ys : List A) → length (xs ++ ys) ≡ length xs + length ys
  length-append [] ys = omega arith
  length-append (x ∷ xs) ys = omega (arith, length-append xs ys)

  pub length-take : (n : ℕ) (xs : List A) → length (take n xs) ≡ min n (length xs)
  length-take zero xs = omega arith
  length-take (suc n) [] = omega arith
  length-take (suc n) (x ∷ xs) = omega (arith, length-take n xs)

  pub length-drop : (n : ℕ) (xs : List A) → length (drop n xs) ≡ length xs - n
  length-drop zero xs = omega arith
  length-drop (suc n) [] = omega arith
  length-drop (suc n) (x ∷ xs) = omega (arith, length-drop n xs)

  pub take-append-drop : (n : ℕ) (xs : List A) → take n xs ++ drop n xs ≡ xs
  take-append-drop zero xs = refl
  take-append-drop (suc n) [] = refl
  take-append-drop (suc n) (x ∷ xs) = ap (◌∷◌ x) (take-append-drop n xs)

  pub take-length-append : (xs ys : List A) → take (length xs) (xs ++ ys) ≡ xs
  take-length-append [] ys = refl
  take-length-append (x ∷ xs) ys = ap (◌∷◌ x) (take-length-append xs ys)

  pub drop-length-append : (xs ys : List A) → drop (length xs) (xs ++ ys) ≡ ys
  drop-length-append [] ys = refl
  drop-length-append (x ∷ xs) ys = drop-length-append xs ys

  pub get_or-drop : (n i : ℕ) (d : A) (xs : List A) → get_or xs (n + i) d ≡ get_or (drop n xs) i d
  get_or-drop zero i d xs = rw zero-add
  get_or-drop (suc n) i d [] = refl
  get_or-drop (suc n) i d (x ∷ xs) = rw suc-add (get_or-drop n i d xs)

  drop-nil : (n : ℕ) → drop {A = A} n [] ≡ []
  drop-nil zero = refl
  drop-nil (suc n) = refl

  pub drop-drop : (m n : ℕ) (xs : List A) → drop (m + n) xs ≡ drop n (drop m xs)
  drop-drop zero n xs = rw zero-add
  drop-drop (suc m) n [] = rw suc-add (sym (drop-nil n))
  drop-drop (suc m) n (x ∷ xs) = rw suc-add (drop-drop m n xs)

-- What stands at an offset, seen from the suffix that begins there.
module _ {ℓ} {A : Type ℓ} (xs : List A) (offset : ℕ) {b : A} {rest : List A}
    (at : drop offset xs ≡ b ∷ rest) where
  pub length-at : length xs ≡ offset + suc (length rest)
  length-at = omega (arith, ap length at, length-drop offset xs)

  pub get_or-at : (d : A) → get_or xs offset d ≡ b
  get_or-at d =
      let e : offset ≡ offset + 0 = omega arith in
      ap (λ (i : ℕ). get_or xs i d) e
      ∙ get_or-drop offset 0 d xs
      ∙ ap (λ (ys : List A). get_or ys 0 d) at

  pub drop-at : (n : ℕ) → drop (offset + 1 + n) xs ≡ drop n rest
  drop-at n = drop-drop (offset + 1) n xs ∙ ap (drop n) (drop-drop offset 1 xs ∙ ap (drop 1) at)

module _ {ℓ} {A : Type ℓ} where
  pub take-prefix : (n : ℕ) (xs ys : List A) → length xs ≡ n → take n (xs ++ ys) ≡ xs
  take-prefix n xs ys e = ap (λ (m : ℕ). take m (xs ++ ys)) (sym e) ∙ take-length-append xs ys

  pub drop-prefix : (n : ℕ) (xs ys : List A) → length xs ≡ n → drop n (xs ++ ys) ≡ ys
  drop-prefix n xs ys e = ap (λ (m : ℕ). drop m (xs ++ ys)) (sym e) ∙ drop-length-append xs ys
