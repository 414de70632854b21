-- ===== src/Config/Tags.antt =====
-- `(*Config).UniqueTag` of internal/config/config.go.
use slipgate.Prelude.{
  ℕ, zero, suc, ◌+◌, ◌≤◌, ◌<◌, ◌≡◌, ◌≢◌, refl, sym, ap, ◌∙◌, true, false, List, [], ◌∷◌, ◌++◌,
  Option, none, some, arith, if◌then◌else◌, length, Bool-cases, ◌⊎◌, inl, inr, Bytes, codes,
  bytes_eq, bytes_eq_iff, is_some, decimal, decimal-injective,
}
use slipgate.Config.{TunnelConfig, Config}
use slipgate.Config.Store.{find_key, tunnel_key, get_tunnel}

-- fmt.Sprintf("%s-%d", base, i)
unfoldable pub candidate : Bytes → ℕ → Bytes
candidate base i = base ++ (codes "-" ++ decimal i)

-- for i := 2; ; i++ { … }, with fuel for the rounds
search_tag : ℕ → Config → Bytes → ℕ → Option Bytes
search_tag zero c base i = none
search_tag (suc fuel) c base i =
    let rest = search_tag fuel c base (i + 1) in
    if is_some (get_tunnel c (candidate base i)) then rest else some (candidate base i)

-- One round more than there are tunnels is enough.
unfoldable pub unique_tag : Config → Bytes → Option Bytes
unfolding search_tag
unique_tag c base =
    if is_some (get_tunnel c base) then search_tag (suc (length c.tunnels)) c base 2 else some base

append-injective : (xs ys zs : Bytes) → xs ++ ys ≡ xs ++ zs → ys ≡ zs
append-injective [] ys zs e = e
append-injective (x ∷ xs) ys zs e = append-injective xs ys zs (ground arith)

candidate-injective : (base : Bytes) (i j : ℕ) → candidate base i ≡ candidate base j → i ≡ j
unfolding candidate
candidate-injective base i j e = decimal-injective i j (
    append-injective (codes "-") (decimal i) (decimal j)
      (append-injective base (codes "-" ++ decimal i) (codes "-" ++ decimal j) e))

-- The tunnels without those of one tag.
without : Bytes → List TunnelConfig → List TunnelConfig
without k [] = []
without k (t ∷ ts) = if bytes_eq t.tag k then without k ts else t ∷ without k ts

length-without-le : (k : Bytes) (ts : List TunnelConfig) → length (without k ts) ≤ length ts
unfolding without
length-without-le k [] = omega arith
length-without-le k (t ∷ ts) = ground (arith, length-without-le k ts)

length-without :
    (k : Bytes) (ts : List TunnelConfig)
    → is_some (find_key tunnel_key k ts) ≡ true
    → length (without k ts) < length ts
unfolding without find_key
length-without k [] h = cc
length-without k (t ∷ ts) h = ground (arith, length-without k ts, length-without-le k ts)

find_key-without :
    (k j : Bytes) (ts : List TunnelConfig)
    → k ≢ j
    → find_key tunnel_key j (without k ts) ≡ find_key tunnel_key j ts
unfolding without find_key
find_key-without k j [] h = refl
find_key-without k j (t ∷ ts) h =
    ground (arith, find_key-without k j ts h, bytes_eq_iff t.tag k, bytes_eq_iff t.tag j)

-- A table with fewer entries than there are candidates has a free one, since the candidates differ.
free_candidate :
    (fuel : ℕ) (base : Bytes) (i : ℕ) (ts : List TunnelConfig)
    → length ts < fuel
    → (j : ℕ) × (i ≤ j)
      × (j < i + fuel)
      × (is_some (find_key tunnel_key (candidate base j) ts) ≡ false)
free_candidate zero base i ts h = elim h [ ]
free_candidate (suc fuel) base i ts h =
    elim (Bool-cases (is_some (find_key tunnel_key (candidate base i) ts))) [
      | inr free ↦ (i, omega arith, omega arith, free)
      | inl busy ↦
          let k = candidate base i in
          let (j, low, high, free) =
            free_candidate fuel base (i + 1) (without k ts)
              (omega (arith, length-without k ts busy)) in
          let differ : k ≢ candidate base j =
            λ e. absurd (omega (arith, candidate-injective base i j e)) in
          (
            j,
            omega arith,
            omega arith,
            ap is_some (sym (find_key-without k (candidate base j) ts differ)) ∙ free,
          )
    ]

search_tag-free :
    (fuel : ℕ) (c : Config) (base : Bytes) (i j : ℕ)
    → i ≤ j
    → j < i + fuel
    → is_some (get_tunnel c (candidate base j)) ≡ false
    → (k : ℕ) × (search_tag fuel c base i ≡ some (candidate base k))
      × (is_some (get_tunnel c (candidate base k)) ≡ false)
      × (i ≤ k)
unfolding search_tag
search_tag-free zero c base i j low high free = absurd (omega arith)
search_tag-free (suc fuel) c base i j low high free =
    elim (Bool-cases (is_some (get_tunnel c (candidate base i)))) [
      | inr here ↦ (i, rw here, here, omega arith)
      | inl busy ↦
          let later : i ≢ j =
            λ e. ground (arith, ap (λ (n : ℕ). is_some (get_tunnel c (candidate base n))) e) in
          let (k, e, f, g) =
            search_tag-free fuel c base (i + 1) j (omega arith) (omega arith) free in
          (k, rw busy e, f, omega arith)
    ]

-- `UniqueTag` returns, whatever tunnels there are, and no tunnel has the tag that it returns: it is
-- the base itself if that is free, and otherwise the base with a number of 2 or more behind a hyphen.
pub unique_tag_total :
    (c : Config) (base : Bytes)
    → (tag : Bytes) × (unique_tag c base ≡ some tag)
      × (get_tunnel c tag ≡ none)
      × ((tag ≡ base)
          ⊎ ((get_tunnel c base ≢ none) × ((k : ℕ) × (2 ≤ k) × (tag ≡ candidate base k))))
unfolding unique_tag
unique_tag_total c base = elim (Bool-cases (is_some (get_tunnel c base))) [
  | inr fresh ↦ (base, rw fresh, ground arith, inl refl)
  | inl busy ↦
      let enough = free_candidate (suc (length c.tunnels)) base 2 c.tunnels (omega arith) in
      let (j, low, high, free) = enough in
      let found =
        search_tag-free (suc (length c.tunnels)) c base 2 j low high (unfold get_tunnel in free) in
      let (k, e, none_yet, big) = found in
      (
        candidate base k,
        rw busy e,
        ground arith,
        inr ((λ absent. ground (arith, busy, absent)), (k, big, refl)),
      )
]
