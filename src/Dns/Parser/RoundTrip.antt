-- ===== src/Dns/Parser/RoundTrip.antt =====
-- `extractDomain` of internal/dnsrouter/parser.go against the wire format of a name.
use slipgate.Prelude.{
  ℕ, zero, suc, ◌+◌, ◌≤◌, ◌<◌, ◌≡◌, ap, ◌∙◌, List, [], ◌∷◌, ◌++◌, some, false, arith, Bytes, codes,
  join, length, take, drop, slice, All, leb, ltb, ◌==◌, length-append, get_or-at, length-at,
  drop-at, drop-drop, take-length-append, drop-length-append, append-nil, append_assoc,
}
use mathlib.Core.Path.{subst}
use slipgate.Dns.Parser.{is_pointer, read_labels, name_of, extract_domain}

-- The wire format: each label behind its length.
abbrev pub wire_labels : List Bytes → Bytes
wire_labels [] = []
wire_labels (l ∷ ls) = length l ∷ (l ++ wire_labels ls)

-- A length byte below 192 is no compression pointer.
abbrev pub IsLabel : Bytes → Type 0
IsLabel l = (0 < length l) × (length l < 192)

module _ (fuel : ℕ) (packet : Bytes) (offset : ℕ) (labels : List Bytes) (rest : Bytes) where
  step_end :
      drop offset packet ≡ 0 ∷ rest → read_labels (suc fuel) packet offset labels ≡ some labels
  unfolding read_labels
  step_end at = ground (arith, get_or-at packet offset at 0, length-at packet offset at)

  step_label :
      (l : Bytes)
      → IsLabel l
      → drop offset packet ≡ length l ∷ (l ++ rest)
      → read_labels (suc fuel) packet offset labels
        ≡ read_labels fuel packet (offset + 1 + length l) (labels ++ (l ∷ []))
  unfolding read_labels
  step_label l ok at =
      let here = get_or-at packet offset at 0 in
      let room : leb (length packet) offset ≡ false = ground (arith, length-at packet offset at) in
      let fits : ltb (length packet) (offset + 1 + length l) ≡ false =
        ground (arith, length-at packet offset at, length-append l rest) in
      let tests : (length l == 0 ≡ false) × (is_pointer (length l) ≡ false) = ground arith in
      let read : slice packet (offset + 1) (length l) ≡ l =
        ap (take (length l)) (drop-drop offset 1 packet ∙ ap (drop 1) at)
        ∙ take-length-append l rest in
      rw (here, room, fits, tests.0, tests.1, read)

read_labels-wire :
    (ls : List Bytes) (fuel : ℕ) (packet : Bytes) (offset : ℕ) (labels : List Bytes) (rest : Bytes)
    → length ls < fuel
    → All IsLabel ls
    → drop offset packet ≡ wire_labels ls ++ (0 ∷ rest)
    → read_labels fuel packet offset labels ≡ some (labels ++ ls)
read_labels-wire ls zero packet offset labels rest f ok at = elim f [ ]
read_labels-wire [] (suc fuel) packet offset labels rest f ok at =
    step_end fuel packet offset labels rest at ∙ rw append-nil
read_labels-wire (l ∷ ls) (suc fuel) packet offset labels rest f ok at =
    let at' = at ∙ ap (◌∷◌ (length l)) (append_assoc l (wire_labels ls) (0 ∷ rest)) in
    step_label fuel packet offset labels (wire_labels ls ++ (0 ∷ rest)) l ok.0 at'
    ∙ read_labels-wire ls fuel packet (offset + 1 + length l) (labels ++ (l ∷ [])) rest
        (omega arith) ok.1 (drop-at packet offset at' (length l) ∙ drop-length-append l _)
    ∙ rw append_assoc

pub length-wire : (ls : List Bytes) → length ls ≤ length (wire_labels ls)
length-wire [] = omega arith
length-wire (l ∷ ls) = omega (arith, length-wire ls, length-append l (wire_labels ls))

-- From any packet with a 12-byte header and a question name written as labels of 1 to 191 bytes,
-- whatever follows it, `extractDomain` returns the labels joined by dots, with a dot behind.
pub extract_domain-wire :
    (header : Bytes) (l : Bytes) (ls : List Bytes) (rest : Bytes)
    → length header ≡ 12
    → All IsLabel (l ∷ ls)
    → extract_domain (header ++ (wire_labels (l ∷ ls) ++ (0 ∷ rest)))
      ≡ join (l ∷ ls) (codes ".") ++ codes "."
unfolding extract_domain name_of
extract_domain-wire header l ls rest h ok =
    let packet = header ++ (wire_labels (l ∷ ls) ++ (0 ∷ rest)) in
    let size : length packet ≡ 12 + (length (wire_labels (l ∷ ls)) + suc (length rest)) = omega (
      arith,
      length-append header (wire_labels (l ∷ ls) ++ (0 ∷ rest)),
      length-append (wire_labels (l ∷ ls)) (0 ∷ rest),
    ) in
    let long : ltb (length packet) 12 ≡ false = ground arith in
    let start : drop 12 packet ≡ wire_labels (l ∷ ls) ++ (0 ∷ rest) =
      subst (λ (n : ℕ). drop n packet ≡ wire_labels (l ∷ ls) ++ (0 ∷ rest)) h
        (drop-length-append header _) in
    rw (
      long,
      read_labels-wire (l ∷ ls) (suc (length packet)) packet 12 [] rest
          (omega (arith, length-wire (l ∷ ls))) ok start,
    )
