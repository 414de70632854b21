-- ===== src/Host/Format.antt =====
-- `fmt.Sprintf`: the verbs %q and %-15s; `strconv.Atoi` and `fmt.Sscanf` with %d. A negative
-- number is read as no number, since the model's ports and sizes are natural numbers.
use slipgate.Prelude.{
  ℕ, zero, suc, ◌+◌, ◌-◌, ◌*◌, ◌/◌, ◌%◌, Bool, true, false, ◌||◌, ◌&&◌, [], ◌∷◌, ◌++◌, Option, none,
  some, ltb, leb, ◌==◌, if◌then◌else◌, Bytes, codes, length, is_space,
}

abbrev hex : ℕ → ℕ
hex n = if ltb n 10 then b'0' + n else b'a' + (n - 10)

-- one byte of `%q`, on ASCII
unfoldable pub quote_byte : ℕ → Bytes
quote_byte c =
    if c == b'"' || c == b'\\'
    then b'\\' ∷ c ∷ []
    else if leb 32 c && ltb c 127
    then c ∷ []
    else if c == 7
    then codes "\\a"
    else if c == 8
    then codes "\\b"
    else if c == 9
    then codes "\\t"
    else if c == 10
    then codes "\\n"
    else if c == 11
    then codes "\\v"
    else if c == 12
    then codes "\\f"
    else if c == 13
    then codes "\\r"
    else b'\\' ∷ b'x' ∷ hex (c / 16) ∷ hex (c % 16) ∷ []

quote_bytes : Bytes → Bytes
unfolding quote_byte
quote_bytes [] = []
quote_bytes (c ∷ s) = quote_byte c ++ quote_bytes s

-- `%q`
unfoldable pub quote : Bytes → Bytes
unfolding quote_bytes
quote s = codes "\"" ++ (quote_bytes s ++ codes "\"")

unfoldable pub spaces : ℕ → Bytes
spaces zero = []
spaces (suc n) = b' ' ∷ spaces n

-- `%-ns`, on ASCII
unfoldable pub pad : ℕ → Bytes → Bytes
unfolding spaces
pad n s = s ++ spaces (n - length s)

unfoldable pub is_digit : ℕ → Bool
is_digit c = leb b'0' c && leb c b'9'

-- the digits at the front, after `acc`; the flag says whether there was one so far
unfoldable pub scan_digits : ℕ → Bool → Bytes → Option (ℕ × Bytes)
unfolding is_digit
scan_digits acc seen [] = if seen then some (acc, []) else none
scan_digits acc seen (c ∷ s) =
    let rest = scan_digits (acc * 10 + (c - b'0')) true s in
    if is_digit c then rest else if seen then some (acc, c ∷ s) else none

abbrev max_int : ℕ
max_int = 9223372036854775807

unfoldable pub skip_plus : Bytes → Bytes
skip_plus [] = []
skip_plus (c ∷ s) = if c == b'+' then s else c ∷ s

-- an optional `+`, then digits, with what is left
unfoldable pub scan_number : Bytes → Option (ℕ × Bytes)
unfolding scan_digits skip_plus
scan_number s = elim (scan_digits 0 false (skip_plus s)) [
  | none ↦ none
  | some (n, rest) ↦ if leb n max_int then some (n, rest) else none
]

-- `strconv.Atoi`
unfoldable pub atoi : Bytes → Option ℕ
unfolding scan_number
atoi s = elim (scan_number s) [
  | none ↦ none
  | some (n, rest) ↦ elim rest [ [] ↦ some n | c ∷ more ↦ none ]
]

unfoldable pub skip_spaces : Bytes → Bytes
unfolding is_space
skip_spaces [] = []
skip_spaces (c ∷ s) = let rest = skip_spaces s in if is_space c then rest else c ∷ s

-- `n, err := fmt.Sscanf(s, "%d", &v)`: the number when n == 1 and err == nil
unfoldable pub scan_int : Bytes → Option ℕ
unfolding scan_number skip_spaces
scan_int s = elim (scan_number (skip_spaces s)) [ none ↦ none | some (n, rest) ↦ some n ]
