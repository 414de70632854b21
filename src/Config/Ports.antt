-- ===== src/Config/Ports.antt =====
-- `(*Config).NextAvailablePort` of internal/config/defaults.go.
use slipgate.Prelude.{
  ◌⊎◌, ℕ, zero, suc, ◌+◌, ◌≤◌, ◌<◌, ◌≡◌, ◌≢◌, Bool, true, false, ◌||◌, List, [], ◌∷◌, Option, none,
  some, arith, ltb, ◌==◌, leb, if◌then◌else◌, length, All, Bool-cases, inl, inr,
}
use slipgate.Config.{TunnelConfig, Config}

abbrev pub base_port : ℕ
base_port = 5310

-- for _, t := range c.Tunnels { if t.Port > 0 { used[t.Port] = true } }
unfoldable pub used_ports : List TunnelConfig → List ℕ
used_ports [] = []
used_ports (t ∷ ts) = if ltb 0 t.port then t.port ∷ used_ports ts else used_ports ts

-- `used[port]`
unfoldable pub is_used : ℕ → List ℕ → Bool
is_used port [] = false
is_used port (p ∷ ps) = p == port || is_used port ps

-- for port := BasePort; ; port++ { if !used[port] { return port } }, with fuel for the rounds
unfoldable pub first_free : ℕ → ℕ → List ℕ → Option ℕ
first_free zero port used = none
first_free (suc fuel) port used =
    let rest = first_free fuel (port + 1) used in if is_used port used then rest else some port

-- One round more than there are tunnels is enough.
unfoldable pub next_available_port : Config → Option ℕ
unfolding used_ports is_used first_free
next_available_port c = first_free (suc (length c.tunnels)) base_port (used_ports c.tunnels)

-- the entries from `port` on
count_from : ℕ → List ℕ → ℕ
count_from port [] = 0
count_from port (p ∷ ps) = (if leb port p then 1 else 0) + count_from port ps

count_from-le : (port : ℕ) (used : List ℕ) → count_from (port + 1) used ≤ count_from port used
unfolding count_from
count_from-le port [] = omega arith
count_from-le port (p ∷ ps) = ground (arith, count_from-le port ps)

count_from-used :
    (port : ℕ) (used : List ℕ)
    → is_used port used ≡ true
    → count_from (port + 1) used < count_from port used
unfolding count_from is_used
count_from-used port [] h = cc
count_from-used port (p ∷ ps) h = ground (arith, count_from-used port ps, count_from-le port ps)

count_from-le-length :
    (port : ℕ) (ts : List TunnelConfig) → count_from port (used_ports ts) ≤ length ts
unfolding count_from used_ports
count_from-le-length port [] = omega arith
count_from-le-length port (t ∷ ts) = ground (arith, count_from-le-length port ts)

-- The outcome of the search: a free number, and every one before it is used.
record IsFirstFree (from : ℕ) (used : List ℕ) (port : ℕ) : Type 0 where
  pub from_base : from ≤ port
  pub free : is_used port used ≡ false
  pub least : (q : ℕ) → from ≤ q → q < port → is_used q used ≡ true

first_free-total :
    (fuel port : ℕ) (used : List ℕ)
    → count_from port used < fuel
    → (p : ℕ) × (first_free fuel port used ≡ some p) × IsFirstFree port used p
unfolding first_free
first_free-total zero port used h = elim h [ ]
first_free-total (suc fuel) port used h = elim (Bool-cases (is_used port used)) [
  | inl busy ↦
      let (p, e, first) =
        first_free-total fuel (port + 1) used (omega (arith, count_from-used port used busy)) in
      (
        p,
        rw busy e,
        record {
          from_base = omega (arith, first.from_base);
          free = first.free;
          least = λ q low high. elim (Bool-cases (q == port)) [
            | inl same ↦ ground arith
            | inr other ↦ first.least q (ground arith) high
          ];
        },
      )
  | inr free ↦ (
    port,
    rw free,
    record { from_base = omega arith; free = free; least = λ q low high. absurd (omega arith) },
  )
]

is_used_port :
    (p : ℕ) (ts : List TunnelConfig)
    → is_used p (used_ports ts) ≡ false
    → 0 < p
    → All (λ (t : TunnelConfig). t.port ≢ p) ts
unfolding is_used used_ports
is_used_port p [] h pos = tt
is_used_port p (t ∷ ts) h pos = (ground arith, is_used_port p ts (ground arith) pos)

-- `NextAvailablePort` returns a port of 5310 or more that no tunnel has, and the least one: any number `q` is below 5310, taken, or
-- no less than it.
pub next_available_port_total :
    (c : Config) (q : ℕ)
    → (p : ℕ) × (next_available_port c ≡ some p)
      × (base_port ≤ p)
      × All (λ (t : TunnelConfig). t.port ≢ p) c.tunnels
      × ((q < base_port) ⊎ ((is_used q (used_ports c.tunnels) ≡ true) ⊎ (p ≤ q)))
unfolding next_available_port
next_available_port_total c q =
    let (p, e, first) =
      first_free-total (suc (length c.tunnels)) base_port (used_ports c.tunnels)
        (omega (arith, count_from-le-length base_port c.tunnels)) in
    (
      p,
      e,
      first.from_base,
      is_used_port p c.tunnels first.free (omega (arith, first.from_base)),
      ground (arith, first.least q),
    )
