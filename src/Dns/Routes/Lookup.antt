-- ===== src/Dns/Routes/Lookup.antt =====
-- `findBackend` against what it promises: the exact route, a route of a parent domain, or the default.
use mathlib.Core.Path.{subst}
use slipgate.Prelude.{
  ◌≡◌, ◌≢◌, ◌⊎◌, ◌↔◌, inl, inr, refl, sym, ap, ◌∙◌, true, false, List, [], ◌∷◌, none, some, Bytes,
  to_lower, Bool-cases, Option-cases, All, Memᴰ,
}
use slipgate.Prelude.Table.{text_eq, load}
use slipgate.Dns.Routes.{Routes, add_dot, route_matches, first_match, find_backend}

-- Where a destination may come from.
pub data Source (visited : List (Bytes × Bytes)) (r : Routes) (domain dst : Bytes) : Type 0 where
  exact : load domain r.table ≡ some dst → Source visited r domain dst
  parent :
      (route : Bytes)
      → load domain r.table ≡ none
      → Memᴰ (route, dst) visited
      → route_matches domain route ≡ true
      → Source visited r domain dst
  fallback :
      load domain r.table ≡ none
      → All (λ (e : Bytes × Bytes). route_matches domain e.0 ≡ false) visited
      → dst ≡ r.default_dst
      → Source visited r domain dst

first_match-Source :
    (domain default : Bytes) (visited : List (Bytes × Bytes))
    → ((route : Bytes) × Memᴰ (route, first_match domain visited default) visited
        × (route_matches domain route ≡ true))
      ⊎ (All (λ (e : Bytes × Bytes). route_matches domain e.0 ≡ false) visited
          × (first_match domain visited default ≡ default))
unfolding first_match
first_match-Source domain default [] = inr (tt, refl)
first_match-Source domain default ((route, dst) ∷ visited) =
    elim (Bool-cases (route_matches domain route)) [
      | inl yes_it ↦ inl (route, rw yes_it (Memᴰ.head refl), yes_it)
      | inr not_it ↦ elim (first_match-Source domain default visited) [
        | inl (found, at, ok) ↦ inl (found, rw not_it (Memᴰ.tail at), ok)
        | inr (all, e) ↦ inr ((not_it, all), rw not_it e)
      ]
    ]

All-Memᴰ :
    (P : Bytes × Bytes → Type 0) {e : Bytes × Bytes} (xs : List (Bytes × Bytes))
    → Memᴰ e xs
    → All P xs
    → P e
All-Memᴰ P [] m a = elim m [ ]
All-Memᴰ P (x ∷ xs) (Memᴰ.head same) a = subst P (sym same) a.0
All-Memᴰ P (x ∷ xs) (Memᴰ.tail m) a = All-Memᴰ P xs m a.1

-- `findBackend` returns the backend of the exact route if there is one, otherwise the backend of some route whose
-- domain is a suffix of the name, and the default exactly when no route matches.
pub find_backend-Source :
    (visited : List (Bytes × Bytes)) (r : Routes) (domain : Bytes)
    → Source visited r (add_dot (to_lower domain)) (find_backend visited r domain)
unfolding find_backend
find_backend-Source visited r domain =
    let name = add_dot (to_lower domain) in
    elim (Option-cases (load name r.table)) [
      | inr (dst, e) ↦ rw (e, find_backend) (exact e)
      | inl absent ↦
          rw (absent, find_backend)
            (elim (first_match-Source name r.default_dst visited) [
              | inl (route, at, ok) ↦ parent route absent at ok
              | inr (all, e) ↦ fallback absent all e
            ])
    ]

-- Two orders of ranging over the same table.
abbrev pub SameEntries : List (Bytes × Bytes) → List (Bytes × Bytes) → Type 0
SameEntries v w = (e : Bytes × Bytes) → Memᴰ e v ↔ Memᴰ e w

-- If all the routes that match a name have one backend, the order in which Go ranges over the table
-- does not show in `findBackend`.
pub find_backend_order :
    (v w : List (Bytes × Bytes)) (r : Routes) (domain : Bytes)
    → SameEntries v w
    → ((a b : Bytes × Bytes)
        → Memᴰ a v
        → Memᴰ b v
        → route_matches (add_dot (to_lower domain)) a.0 ≡ true
        → route_matches (add_dot (to_lower domain)) b.0 ≡ true
        → a.1 ≡ b.1)
    → find_backend v r domain ≡ find_backend w r domain
unfolding find_backend
find_backend_order v w r domain same agree =
    let name = add_dot (to_lower domain) in
    ap (λ (d : Bytes). elim (load name r.table) [ some dst ↦ dst | none ↦ d ])
      (by_source (first_match-Source name r.default_dst v)
        (first_match-Source name r.default_dst w))
  where
    by_source :
        ((route : Bytes) × Memᴰ (route, first_match (add_dot (to_lower domain)) v r.default_dst) v
            × (route_matches (add_dot (to_lower domain)) route ≡ true))
          ⊎ (All (λ (e : Bytes × Bytes). route_matches (add_dot (to_lower domain)) e.0 ≡ false) v
              × (first_match (add_dot (to_lower domain)) v r.default_dst ≡ r.default_dst))
        → ((route : Bytes) × Memᴰ (route, first_match (add_dot (to_lower domain)) w r.default_dst) w
            × (route_matches (add_dot (to_lower domain)) route ≡ true))
          ⊎ (All (λ (e : Bytes × Bytes). route_matches (add_dot (to_lower domain)) e.0 ≡ false) w
              × (first_match (add_dot (to_lower domain)) w r.default_dst ≡ r.default_dst))
        → first_match (add_dot (to_lower domain)) v r.default_dst
          ≡ first_match (add_dot (to_lower domain)) w r.default_dst
    by_source (inl (a, at, ok)) (inl (b, bt, bk)) = agree _ _ at ((same _).1 bt) ok bk
    by_source (inl (a, at, ok)) (inr (all, e)) = cc (
      ok,
      All-Memᴰ (λ (e : Bytes × Bytes). route_matches (add_dot (to_lower domain)) e.0 ≡ false) w
          ((same _).0 at) all,
    )
    by_source (inr (all, e)) (inl (b, bt, bk)) = cc (
      bk,
      All-Memᴰ (λ (e : Bytes × Bytes). route_matches (add_dot (to_lower domain)) e.0 ≡ false) v
          ((same _).1 bt) all,
    )
    by_source (inr (all, e)) (inr (all', e')) = e ∙ sym e'

-- With two nested route domains on different backends, a name under both, and no exact route, the backend depends on
-- the order of the range: two orders of one table give different backends.
pub find_backend_nested :
    (a b : Bytes × Bytes) (rest : List (Bytes × Bytes)) (r : Routes) (domain : Bytes)
    → load (add_dot (to_lower domain)) r.table ≡ none
    → route_matches (add_dot (to_lower domain)) a.0 ≡ true
    → route_matches (add_dot (to_lower domain)) b.0 ≡ true
    → a.1 ≢ b.1
    → SameEntries (a ∷ b ∷ rest) (b ∷ a ∷ rest)
      × (find_backend (a ∷ b ∷ rest) r domain ≢ find_backend (b ∷ a ∷ rest) r domain)
unfolding find_backend first_match
find_backend_nested a b rest r domain absent ok bk differ =
    ((λ e. (swap a b, swap b a)), λ same. differ (rw (absent, find_backend, ok, bk) at same))
  where
    swap : {e : Bytes × Bytes} (x y : Bytes × Bytes) → Memᴰ e (x ∷ y ∷ rest) → Memᴰ e (y ∷ x ∷ rest)
    swap x y (Memᴰ.head s) = Memᴰ.tail (Memᴰ.head s)
    swap x y (Memᴰ.tail (Memᴰ.head s)) = Memᴰ.head s
    swap x y (Memᴰ.tail (Memᴰ.tail m)) = Memᴰ.tail (Memᴰ.tail m)
