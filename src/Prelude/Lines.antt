-- ===== src/Prelude/Lines.antt =====
-- Text in lines, and the spaces at the ends of a line.
use Prim.Native.Nat.{ℕ}
use mathlib.Core.Path.{◌≡◌, refl, ap, ◌∙◌}
use mathlib.Core.Logic.{◌≢◌}
use mathlib.Core.Bool.{Bool, true, false, not, ◌&&◌}
use mathlib.Core.List.{List, [], ◌∷◌, ◌++◌}
use native.Mathlib.Omega.{arith}
use slipgate.Prelude.Tests.{◌==◌}
use slipgate.Prelude.Lists.{All}
use slipgate.Prelude.Text.{
  Bytes, split, cons_byte, is_space, trim_space, trim_left, trim_right, trim_end,
}

-- the lines of a text, each closed by a newline
unfoldable pub lines_of : List Bytes → Bytes
lines_of [] = []
lines_of (l ∷ ls) = l ++ (b'\n' ∷ lines_of ls)

abbrev pub IsLine : Bytes → Type 0
IsLine = All (λ (c : ℕ). c ≢ 10)

-- text with no spaces
abbrev pub IsWord : Bytes → Type 0
IsWord = All (λ (c : ℕ). is_space c ≡ false)

pub split-line :
    (line rest : Bytes) → IsLine line → split (line ++ (10 ∷ rest)) 10 ≡ line ∷ split rest 10
unfolding split
split-line [] rest ok = refl
split-line (c ∷ line) rest (ne, ok) = ground (arith, split-line line rest ok, ne, cons_byte)

pub split-lines_of : (ls : List Bytes) → All IsLine ls → split (lines_of ls) 10 ≡ ls ++ ([] ∷ [])
unfolding split lines_of
split-lines_of [] ok = refl
split-lines_of (l ∷ ls) (ok, oks) =
    split-line l (lines_of ls) ok ∙ ap (◌∷◌ l) (split-lines_of ls oks)

pub trim_right-word : (s : Bytes) → IsWord s → trim_right s ≡ s
unfolding trim_right trim_end
trim_right-word [] w = refl
trim_right-word (c ∷ []) (n, w) = ground (arith, n)
trim_right-word (c ∷ d ∷ s) (n, w) = ground (arith, trim_right-word (d ∷ s) w)

trim_end-head : (c : ℕ) (s : Bytes) → is_space c ≡ false → trim_end c s ≡ c ∷ s
unfolding trim_end
trim_end-head c [] n = ground (arith, n)
trim_end-head c (d ∷ s) n = refl

-- what begins with another byte than a space keeps it
pub trim_space-head :
    (c : ℕ) (s : Bytes) → is_space c ≡ false → trim_space (c ∷ s) ≡ c ∷ trim_right s
unfolding trim_space trim_left trim_right trim_end
trim_space-head c s n = rw n (trim_end-head c (trim_right s) n)

pub IsWord-IsLine : (s : Bytes) → IsWord s → IsLine s
unfolding is_space
IsWord-IsLine [] w = tt
IsWord-IsLine (c ∷ s) (n, w) = (λ e. ground arith, IsWord-IsLine s w)

pub IsLine-append : (s t : Bytes) → IsLine s → IsLine t → IsLine (s ++ t)
IsLine-append [] t a b = b
IsLine-append (c ∷ s) t (n, a) b = (n, IsLine-append s t a b)

unfoldable pub is_line : Bytes → Bool
is_line [] = true
is_line (c ∷ s) = not (c == 10) && is_line s

-- of a literal, by evaluating
pub literal-IsLine : (s : Bytes) → is_line s ≡ true → IsLine s
unfolding is_line
literal-IsLine [] e = tt
literal-IsLine (c ∷ s) e = (λ same. ground arith, literal-IsLine s (ground arith))
