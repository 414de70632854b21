-- ===== src/Prelude/Text.antt =====
-- Go strings and byte slices are lists of bytes; the functions of Go's `strings` package that
-- the program uses.
use Prim.Native.Char.{code}
use Prim.Native.String.{String}
use Prim.Native.Nat.{ℕ, ◌+◌, ◌-◌, ◌*◌}
use mathlib.Core.Path.{◌≡◌, refl}
use mathlib.Core.Logic.{◌↔◌}
use mathlib.Core.Bool.{Bool, true, false, ◌&&◌, ◌||◌}
use mathlib.Core.Option.{Option, none, some}
use mathlib.Core.List.{List, [], ◌∷◌, ◌++◌}
use native.Mathlib.Omega.{arith}
use slipgate.Prelude.Tests.{leb, ◌==◌, if◌then◌else◌}
use slipgate.Prelude.Lists.{length, drop, take}

abbrev pub Bytes : Type 0
Bytes = List ℕ

-- The bytes of an ASCII literal.
abbrev pub codes : String → Bytes
codes String.[] = []
codes (String.◌∷◌ c s) = code c ∷ codes s

unfoldable pub bytes_eq : Bytes → Bytes → Bool
bytes_eq [] [] = true
bytes_eq [] (y ∷ ys) = false
bytes_eq (x ∷ xs) [] = false
bytes_eq (x ∷ xs) (y ∷ ys) = x == y && bytes_eq xs ys

pub bytes_eq→eq : (a b : Bytes) → bytes_eq a b ≡ true → a ≡ b
unfolding bytes_eq
bytes_eq→eq [] [] h = refl
bytes_eq→eq [] (y ∷ ys) h = cc
bytes_eq→eq (x ∷ xs) [] h = cc
bytes_eq→eq (x ∷ xs) (y ∷ ys) h = ground (arith, bytes_eq→eq xs ys)

pub bytes_eq_refl : (a : Bytes) → bytes_eq a a ≡ true
unfolding bytes_eq
bytes_eq_refl [] = refl
bytes_eq_refl (x ∷ xs) = ground (arith, bytes_eq_refl xs)

-- `s == t` on strings decides equality.
pub bytes_eq_iff : (a b : Bytes) → (bytes_eq a b ≡ true) ↔ (a ≡ b)
bytes_eq_iff a b = (bytes_eq→eq a b, λ e. rw e (bytes_eq_refl b))

unfoldable pub lower_byte : ℕ → ℕ
lower_byte c = if leb b'A' c && leb c b'Z' then c + 32 else c

-- `strings.ToLower`, on ASCII.
unfoldable pub to_lower : Bytes → Bytes
unfolding lower_byte
to_lower [] = []
to_lower (c ∷ s) = lower_byte c ∷ to_lower s

-- `strings.HasSuffix(s, suffix)`
unfoldable pub has_suffix : Bytes → Bytes → Bool
unfolding bytes_eq
has_suffix s suffix =
    leb (length suffix) (length s) && bytes_eq (drop (length s - length suffix) s) suffix

-- `strings.Join(parts, sep)`
unfoldable pub join : List Bytes → Bytes → Bytes
join [] sep = []
join (p ∷ []) sep = p
join (p ∷ q ∷ ps) sep = p ++ (sep ++ join (q ∷ ps) sep)

unfoldable pub is_space : ℕ → Bool
is_space c = c == b' ' || (leb b'\t' c && leb c b'\r')

unfoldable pub trim_left : Bytes → Bytes
unfolding is_space
trim_left [] = []
trim_left (c ∷ s) = let rest = trim_left s in if is_space c then rest else c ∷ s

unfoldable pub trim_end : ℕ → Bytes → Bytes
unfolding is_space
trim_end c [] = if is_space c then [] else c ∷ []
trim_end c (d ∷ s) = c ∷ d ∷ s

-- without the spaces at the end
unfoldable pub trim_right : Bytes → Bytes
unfolding trim_end
trim_right [] = []
trim_right (c ∷ s) = trim_end c (trim_right s)

-- `strings.TrimSpace`, on ASCII.
unfoldable pub trim_space : Bytes → Bytes
unfolding trim_left trim_right
trim_space s = trim_right (trim_left s)

-- the part before the first `sep`, and the parts behind it
unfoldable pub cons_byte : ℕ → List Bytes → List Bytes
cons_byte c [] = (c ∷ []) ∷ []
cons_byte c (p ∷ ps) = (c ∷ p) ∷ ps

-- `strings.Split(s, sep)`, for a separator of one byte
unfoldable pub split : Bytes → ℕ → List Bytes
unfolding cons_byte
split [] sep = [] ∷ []
split (c ∷ s) sep = if c == sep then [] ∷ split s sep else cons_byte c (split s sep)

-- `strings.IndexByte(s, c)`; `none` is -1
unfoldable pub index_byte : Bytes → ℕ → Option ℕ
index_byte [] c = none
index_byte (d ∷ s) c =
    if d == c then some 0 else elim (index_byte s c) [ none ↦ none | some i ↦ some (i + 1) ]

-- `strings.TrimSuffix(s, suffix)`
unfoldable pub trim_suffix : Bytes → Bytes → Bytes
unfolding has_suffix
trim_suffix s suffix = if has_suffix s suffix then take (length s - length suffix) s else s

-- `strings.HasPrefix(s, prefix)`
unfoldable pub has_prefix : Bytes → Bytes → Bool
has_prefix s [] = true
has_prefix [] (p ∷ ps) = false
has_prefix (c ∷ s) (p ∷ ps) = c == p && has_prefix s ps

-- the value of a hexadecimal digit
unfoldable pub hex_digit : ℕ → Option ℕ
hex_digit c =
    if leb b'0' c && leb c b'9'
    then some (c - b'0')
    else if leb b'a' c && leb c b'f'
    then some (c - b'a' + 10)
    else if leb b'A' c && leb c b'F'
    then some (c - b'A' + 10)
    else none

-- `hex.DecodeString`
unfoldable pub hex_decode : Bytes → Option Bytes
unfolding hex_digit
hex_decode [] = some []
hex_decode (c ∷ []) = none
hex_decode (c ∷ d ∷ s) = elim (hex_digit c) [
  | none ↦ none
  | some high ↦ elim (hex_digit d) [
    | none ↦ none
    | some low ↦ elim (hex_decode s) [ none ↦ none | some bytes ↦ some ((high * 16 + low) ∷ bytes) ]
  ]
]
