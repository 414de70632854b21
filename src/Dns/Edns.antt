-- ===== src/Dns/Edns.antt =====
-- `skipName` and `parseEDNS0PayloadSize` of internal/dnsrouter/verify.go.
pub mod Built
use slipgate.Prelude.{
  ℕ, zero, suc, ◌+◌, Bool, true, false, ◌||◌, List, Option, none, some, ltb, leb, ◌==◌,
  if◌then◌else◌, Bytes, length, get_or, get_u16,
}

-- `none` is -1. The fuel bounds the rounds, each of which moves the offset on.
unfoldable pub skip_name_from : ℕ → Bytes → ℕ → Option ℕ
skip_name_from zero packet offset = none
skip_name_from (suc fuel) packet offset =
    let len = get_or packet offset 0 in
    let rest = skip_name_from fuel packet (offset + (1 + len)) in
    if leb (length packet) offset
    then none
    else if len == 0
    then some (offset + 1)
    else if leb 0xC0 len
    then some (offset + 2)
    else rest

unfoldable pub skip_name : Bytes → ℕ → Option ℕ
skip_name packet offset = skip_name_from (suc (length packet)) packet offset

-- `offset = skipName(packet, offset); if offset < 0 || offset+10 > len(packet) { return 0 }`
unfoldable pub record_at : Bytes → ℕ → Option ℕ
record_at packet offset = elim (skip_name packet offset) [
  | none ↦ none
  | some at ↦ if ltb (length packet) (at + 10) then none else some at
]

-- `offset += 10 + rdLen; if offset > len(packet) { return 0 }`
unfoldable pub after_record : Bytes → ℕ → Option ℕ
after_record packet at =
    if ltb (length packet) (at + (10 + get_u16 packet (at + 8)))
    then none
    else some (at + (10 + get_u16 packet (at + 8)))

-- The first loop, over the answers and authorities. `none` is `return 0`.
unfoldable pub skip_records : ℕ → Bytes → ℕ → Option ℕ
skip_records zero packet offset = some offset
skip_records (suc n) packet offset = elim (record_at packet offset) [
  | none ↦ none
  | some at ↦ elim (after_record packet at) [ none ↦ none | some next ↦ skip_records n packet next ]
]

-- The second loop, over the additional records.
unfoldable pub find_opt : ℕ → Bytes → ℕ → ℕ
find_opt zero packet offset = 0
find_opt (suc n) packet offset = elim (record_at packet offset) [
  | none ↦ 0
  | some at ↦ elim (get_u16 packet at == 41) [
    | true ↦ get_u16 packet (at + 2)
    | false ↦ elim (after_record packet at) [ none ↦ 0 | some next ↦ find_opt n packet next ]
  ]
]

unfoldable pub parse_edns0 : Bytes → ℕ → ℕ
parse_edns0 packet q_end =
    if ltb (length packet) 12
    then 0
    else if get_u16 packet 10 == 0
    then 0
    else elim (skip_records (get_u16 packet 6 + get_u16 packet 8) packet q_end) [
      | none ↦ 0
      | some offset ↦ find_opt (get_u16 packet 10) packet offset
    ]
