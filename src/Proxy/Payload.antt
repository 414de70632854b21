-- ===== src/Proxy/Payload.antt =====
-- The search for the SSH banner in `handlePayload` of internal/proxy/stuntls.go.
pub mod Banner
use slipgate.Prelude.{
  ℕ, zero, suc, ◌+◌, Bool, ◌&&◌, ltb, List, [], ◌∷◌, ◌++◌, Option, none, some, ◌==◌, if◌then◌else◌,
  Bytes, codes, get_or,
}

abbrev pub target : Bytes
target = codes "SSH-"

-- `matchIdx` behind one byte, from an index below 4
unfoldable pub advance : ℕ → ℕ → ℕ
advance match_idx b =
    if b == get_or target match_idx 0
    then match_idx + 1
    else if ltb 0 match_idx && b == get_or target 0 0
    then 1
    else 0

-- The search, on the bytes still allowed: what is behind the banner if it is found, `none` if the input ends
-- or the limit is reached.
unfoldable pub scan : ℕ → ℕ → Bytes → Option Bytes
scan zero match_idx input = none
scan (suc left) match_idx [] = none
scan (suc left) match_idx (b ∷ input) =
    let rest = scan left (advance match_idx b) input in
    if advance match_idx b == 4 then some input else rest

-- `handlePayload` up to the dial: what is relayed to the backend. The last byte of the banner is unread, and "SSH" put in front.
unfoldable pub payload_stream : Bytes → Option Bytes
payload_stream input = elim (scan 8192 0 input) [
  | none ↦ none
  | some rest ↦ some (codes "SSH" ++ (codes "-" ++ rest))
]
