-- ===== src/Prompt/Line.antt =====
-- `readLine` of internal/prompt/readline.go on a terminal: the keys and what they do to the line.
-- What it draws is left out.
pub mod Zipper
pub mod Refines
use slipgate.Prelude.{
  ℕ, ◌+◌, ◌-◌, Bool, true, false, ◌&&◌, ◌||◌, List, [], ◌∷◌, ◌++◌, ltb, leb, ◌==◌, if◌then◌else◌,
  Bytes, codes, length, take, drop,
}
use slipgate.Host.{Result, ok, err, plain}

-- `buf` and `pos`
pub record Line : Type 0 where
  pub buf : Bytes
  pub pos : ℕ

pub data Key : Type 0 where
  enter interrupt end_of_file backspace left right home line_end delete_at kill_start kill_end : Key
  insert : ℕ → Key
  escape unknown : Key

-- switch b
unfoldable pub key_of : ℕ → Key
key_of b =
    if b == b'\r' || b == b'\n'
    then enter
    else if b == 3
    then interrupt
    else if b == 4
    then end_of_file
    else if b == 127 || b == 8
    then backspace
    else if b == 27
    then escape
    else if b == 1
    then home
    else if b == 5
    then line_end
    else if b == 21
    then kill_start
    else if b == 11
    then kill_end
    else if leb 32 b && ltb b 127
    then insert b
    else unknown

-- what is read next: a key, the `[` after ESC, the byte after that, or the `~` before a key acts
pub data Mode : Type 0 where
  key_next bracket_next code_next : Mode
  tilde_next : Key → Mode

-- switch seq1: the key, and whether a `~` follows it
unfoldable pub sequence_key : ℕ → Key × Bool
sequence_key b =
    if b == b'D'
    then (left, false)
    else if b == b'C'
    then (right, false)
    else if b == b'H'
    then (home, false)
    else if b == b'F'
    then (line_end, false)
    else if b == b'3'
    then (delete_at, true)
    else if b == b'1'
    then (home, true)
    else if b == b'4'
    then (line_end, true)
    else (unknown, false)

-- what a key does to the line
unfoldable pub press : Key → Line → Line
press backspace l =
    if ltb 0 l.pos
    then record { buf = take (l.pos - 1) l.buf ++ drop l.pos l.buf; pos = l.pos - 1 }
    else l
press left l = if ltb 0 l.pos then record { buf = l.buf; pos = l.pos - 1 } else l
press right l = if ltb l.pos (length l.buf) then record { buf = l.buf; pos = l.pos + 1 } else l
press home l = record { buf = l.buf; pos = 0 }
press line_end l = record { buf = l.buf; pos = length l.buf }
press delete_at l =
    if ltb l.pos (length l.buf)
    then record { buf = take l.pos l.buf ++ drop (l.pos + 1) l.buf; pos = l.pos }
    else l
press kill_start l = record { buf = drop l.pos l.buf; pos = 0 }
press kill_end l = record { buf = take l.pos l.buf; pos = l.pos }
press (insert b) l = record { buf = take l.pos l.buf ++ (b ∷ drop l.pos l.buf); pos = l.pos + 1 }
press enter l = l
press interrupt l = l
press end_of_file l = l
press escape l = l
press unknown l = l

abbrev pub interrupted : Result Bytes
interrupted = err (plain (codes "interrupted"))

-- switch b, given what the loop does after the key, and after ESC
unfoldable pub on_key : Key → Line → Result Bytes → Result Bytes → Result Bytes
on_key k l rest sequence = elim k [
  | enter ↦ ok l.buf
  | interrupt ↦ interrupted
  | end_of_file ↦ if length l.buf == 0 then interrupted else rest
  | escape ↦ sequence
  | _ ↦ rest
]

-- The loop, over the bytes that the terminal sends; after them a read fails.
unfoldable pub read_loop : Mode → Line → Bytes → Result Bytes
unfolding key_of sequence_key press on_key
read_loop mode l [] = err (plain (codes "EOF"))
read_loop key_next l (b ∷ input) =
    let rest = read_loop key_next (press (key_of b) l) input in
    let sequence = read_loop bracket_next l input in on_key (key_of b) l rest sequence
read_loop bracket_next l (b ∷ input) =
    let code = read_loop code_next l input in
    let other = read_loop key_next l input in if b == b'[' then code else other
read_loop code_next l (b ∷ input) =
    let (key, tilde) = sequence_key b in
    let later = read_loop (tilde_next key) l input in
    let now = read_loop key_next (press key l) input in if tilde then later else now
read_loop (tilde_next key) l (b ∷ input) = read_loop key_next (press key l) input

abbrev pub blank : Line
blank = record { buf = []; pos = 0 }
