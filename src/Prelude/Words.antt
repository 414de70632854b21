-- ===== src/Prelude/Words.antt =====
-- Big-endian words of two bytes.
use Prim.Native.Nat.{ℕ, ◌+◌, ◌*◌, ◌/◌, ◌%◌}
use mathlib.Core.List.{[], ◌∷◌}
use mathlib.Core.Path.{◌≡◌, ap, ◌∙◌}
use native.Mathlib.Omega.{arith}
use slipgate.Prelude.Lists.{get_or, drop, get_or-drop}
use slipgate.Prelude.Text.{Bytes}

-- `binary.BigEndian.Uint16(b[i : i + 2])`, for an index in range
abbrev pub get_u16 : Bytes → ℕ → ℕ
get_u16 b i = get_or b i 0 * 256 + get_or b (i + 1) 0

-- the two bytes of `uint16(v)`
abbrev pub u16_bytes : ℕ → Bytes
u16_bytes v = (v / 256 % 256) ∷ (v % 256) ∷ []

-- Reading behind an offset is reading in the suffix.
pub get_u16-drop : (n i : ℕ) (xs : Bytes) → get_u16 xs (n + i) ≡ get_u16 (drop n xs) i
get_u16-drop n i xs =
    let e : n + i + 1 ≡ n + (i + 1) = omega arith in
    let low : get_or xs (n + i + 1) 0 ≡ get_or (drop n xs) (i + 1) 0 =
      ap (λ (j : ℕ). get_or xs j 0) e ∙ get_or-drop n (i + 1) 0 xs in
    omega (arith, get_or-drop n i 0 xs, low)
