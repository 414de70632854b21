-- ===== src/Prompt/Line/Refines.antt =====
-- `readLine` of internal/prompt/readline.go against the editor on two sides of a cursor.
use slipgate.Prelude.{
  ℕ, ◌≡◌, refl, ap, ◌∙◌, [], ◌∷◌, ◌++◌, arith, ◌==◌, if◌then◌else◌, Bytes, codes, length,
  Bool-cases, inl, inr, All, ◌≤◌,
}
use slipgate.Host.{Result, ok, err, plain}
use slipgate.Prompt.Line.{
  Key, enter, interrupt, end_of_file, backspace, left, right, home, line_end, delete_at, kill_start,
  kill_end, insert, escape, unknown, Mode, key_next, bracket_next, code_next, tilde_next, key_of,
  sequence_key, press, read_loop, blank, interrupted, on_key,
}
use slipgate.Prompt.Line.Zipper.{Zipper, act, onto, line_of, press-act, sides}

-- The keys that a sequence of bytes presses, one after another, up to the end of the line.
pub data Script : Type 0 where
  -- the line is finished, given up, or the input ends first
  finished given_up broken : Script
  pressing : Key → Script → Script
  -- Ctrl-D, which gives up an empty line only
  closing : Script → Script

-- the key, given the script after it and after ESC
unfoldable pub key_script : Key → Script → Script → Script
key_script k rest sequence = elim k [
  | enter ↦ finished
  | interrupt ↦ given_up
  | end_of_file ↦ closing rest
  | escape ↦ sequence
  | key ↦ pressing key rest
]

unfoldable pub script : Mode → Bytes → Script
unfolding key_of sequence_key key_script
script mode [] = broken
script key_next (b ∷ input) =
    let rest = script key_next input in
    let sequence = script bracket_next input in key_script (key_of b) rest sequence
script bracket_next (b ∷ input) =
    let code = script code_next input in
    let other = script key_next input in if b == b'[' then code else other
script code_next (b ∷ input) =
    let (key, tilde) = sequence_key b in
    let later = script (tilde_next key) input in
    let now = pressing key (script key_next input) in if tilde then later else now
script (tilde_next key) (b ∷ input) = pressing key (script key_next input)

-- the text of both sides
unfoldable pub text_of : Zipper → Bytes
unfolding onto
text_of z = onto z.before z.after

-- What the editor promises: the text on both sides once the keys have acted.
unfoldable pub edited : Script → Zipper → Result Bytes
unfolding act text_of
edited finished z = ok (text_of z)
edited given_up z = interrupted
edited broken z = err (plain (codes "EOF"))
edited (pressing k rest) z = edited rest (act k z)
edited (closing rest) z = if length (text_of z) == 0 then interrupted else edited rest z

on_key-edited :
    (k : Key) (z : Zipper) (rest sequence : Script) (r q : Result Bytes)
    → r ≡ edited rest (act k z)
    → q ≡ edited sequence z
    → on_key k (line_of z) r q ≡ edited (key_script k rest sequence) z
unfolding on_key edited key_script act line_of text_of
on_key-edited enter z rest sequence r q er eq = refl
on_key-edited interrupt z rest sequence r q er eq = refl
on_key-edited end_of_file z rest sequence r q er eq =
    ap (λ x. if length (text_of z) == 0 then interrupted else x) er
on_key-edited escape z rest sequence r q er eq = eq
on_key-edited backspace z rest sequence r q er eq = er
on_key-edited left z rest sequence r q er eq = er
on_key-edited right z rest sequence r q er eq = er
on_key-edited home z rest sequence r q er eq = er
on_key-edited line_end z rest sequence r q er eq = er
on_key-edited delete_at z rest sequence r q er eq = er
on_key-edited kill_start z rest sequence r q er eq = er
on_key-edited kill_end z rest sequence r q er eq = er
on_key-edited (insert b) z rest sequence r q er eq = er
on_key-edited unknown z rest sequence r q er eq = er

-- On a terminal, `readLine` returns what the editor on two sides of the cursor returns for the
-- keys that the bytes stand for, whatever bytes are sent and wherever the cursor is.
pub read_loop_refines :
    (mode : Mode) (input : Bytes) (z : Zipper)
    → read_loop mode (line_of z) input ≡ edited (script mode input) z
unfolding read_loop script edited
read_loop_refines key_next [] z = refl
read_loop_refines bracket_next [] z = refl
read_loop_refines code_next [] z = refl
read_loop_refines (tilde_next key) [] z = refl
read_loop_refines key_next (b ∷ input) z =
    let k = key_of b in
    on_key-edited k z (script key_next input) (script bracket_next input)
      (read_loop key_next (press k (line_of z)) input) (read_loop bracket_next (line_of z) input)
      (rw (press-act k z) (read_loop_refines key_next input (act k z)))
      (read_loop_refines bracket_next input z)
read_loop_refines bracket_next (b ∷ input) z = elim (Bool-cases (b == b'[')) [
  | inl e ↦ rw e (read_loop_refines code_next input z)
  | inr e ↦ rw e (read_loop_refines key_next input z)
]
read_loop_refines code_next (b ∷ input) z =
    let k = (sequence_key b).0 in
    elim (Bool-cases (sequence_key b).1) [
      | inl e ↦ rw e (read_loop_refines (tilde_next k) input z)
      | inr e ↦ rw (e, press-act k z) (read_loop_refines key_next input (act k z))
    ]
read_loop_refines (tilde_next k) (b ∷ input) z =
    rw (press-act k z) (read_loop_refines key_next input (act k z))

-- printable ASCII
abbrev pub IsPrintable : ℕ → Type 0
IsPrintable b = (32 ≤ b) × (b ≤ 126)

key_of-printable : (b : ℕ) → IsPrintable b → key_of b ≡ insert b
unfolding key_of
key_of-printable b (low, high) = ground arith

typed-from :
    (s rest before : Bytes)
    → All IsPrintable s
    → edited (script key_next (s ++ (b'\r' ∷ rest))) (sides before []) ≡ ok (onto before s)
unfolding edited script key_of key_script act text_of onto
typed-from [] rest before p = refl
typed-from (b ∷ s) rest before (p, ps) =
    rw (key_of-printable b p) (typed-from s rest (b ∷ before) ps)

-- Printable text typed on a terminal and closed with Return is what `readLine` returns, and what
-- is sent after it does not matter.
pub read_loop_typed :
    (s rest : Bytes) → All IsPrintable s → read_loop key_next blank (s ++ (b'\r' ∷ rest)) ≡ ok s
unfolding line_of onto
read_loop_typed s rest p =
    read_loop_refines key_next (s ++ (b'\r' ∷ rest)) (sides [] []) ∙ typed-from s rest [] p
