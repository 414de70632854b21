-- ===== src/Dns/Parser.antt =====
-- internal/dnsrouter/parser.go: the query name of a raw DNS packet.
pub mod RoundTrip
use slipgate.Prelude.{
  ℕ, zero, suc, ◌+◌, Bool, true, false, ◌&&◌, List, [], ◌∷◌, ◌++◌, Option, none, some, arith, ltb,
  leb, ◌==◌, if◌then◌else◌, Bytes, codes, join, length, get_or, slice,
}

-- `length&0xC0 == 0xC0`, on a byte: the two top bits are set
abbrev is_pointer : ℕ → Bool
is_pointer b = leb 192 b

-- The loop of `extractDomain`, on the offset and the labels read so far. `none` is `return ""`.
-- The fuel bounds the rounds; each round moves the offset on.
unfoldable pub read_labels : ℕ → Bytes → ℕ → List Bytes → Option (List Bytes)
read_labels zero packet offset labels = none
read_labels (suc fuel) packet offset labels =
    let len = get_or packet offset 0 in
    let rest =
      read_labels fuel packet (offset + 1 + len) (labels ++ (slice packet (offset + 1) len ∷ [])) in
    if leb (length packet) offset
    then some labels
    else if len == 0
    then some labels
    else if is_pointer len
    then some labels
    else if ltb (length packet) (offset + 1 + len)
    then none
    else rest

-- `if len(labels) == 0 { return "" }; return strings.Join(labels, ".") + "."`
unfoldable pub name_of : Option (List Bytes) → Bytes
name_of none = []
name_of (some []) = []
name_of (some (l ∷ ls)) = join (l ∷ ls) (codes ".") ++ codes "."

unfoldable pub extract_domain : Bytes → Bytes
extract_domain packet =
    if ltb (length packet) 12 then [] else name_of (read_labels (suc (length packet)) packet 12 [])
