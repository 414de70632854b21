-- ===== src/Proxy/Stream.antt =====
-- A connection that is served: the bytes that the client will send, and those written to it so far.
-- Reading past the end is an error of `io.ReadFull`, on which the handlers return.
use slipgate.Prelude.{
  ℕ, ◌≡◌, false, ◌++◌, arith, ltb, if◌then◌else◌, Bytes, length, take, drop, take-length-append,
  drop-length-append, length-append,
}

pub data Step (A : Type 0) : Type 0 where
  next : A → Bytes → Bytes → Step A
  stop : Bytes → Step A

-- from the input that is left and the output so far
abbrev pub Handler : Type 0 → Type 0
Handler A = Bytes → Bytes → Step A

infixl 5 ◌>>=◌ ◌>>◌
abbrev pub ◌>>=◌ : {A B : Type 0} → Handler A → (A → Handler B) → Handler B
◌>>=◌ m f input output = elim (m input output) [
  | next a input' output' ↦ f a input' output'
  | stop output' ↦ stop output'
]

abbrev pub ◌>>◌ : {A B : Type 0} → Handler A → Handler B → Handler B
m >> k = m >>= λ _. k

abbrev pub pure : {A : Type 0} → A → Handler A
pure a input output = next a input output

-- `return`
abbrev pub quit : {A : Type 0} → Handler A
quit input output = stop output

-- io.ReadFull(conn, buf[:n])
unfoldable pub read_full : ℕ → Handler Bytes
read_full n input output =
    if ltb (length input) n then stop output else next (take n input) (drop n input) output

-- conn.Write(b), whose result is not looked at
abbrev pub write : Bytes → Handler (Unit {0})
write b input output = next tt input (output ++ b)

pub read_full-append :
    (bytes rest output : Bytes)
    → read_full (length bytes) (bytes ++ rest) output ≡ next bytes rest output
unfolding read_full
read_full-append bytes rest output =
    let enough : ltb (length (bytes ++ rest)) (length bytes) ≡ false =
      ground (arith, length-append bytes rest) in
    rw (enough, take-length-append, drop-length-append)
