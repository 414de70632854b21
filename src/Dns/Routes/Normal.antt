-- ===== src/Dns/Routes/Normal.antt =====
-- Domains in the normal form of internal/dnsrouter/router.go: lower case, with a dot at the end.
use slipgate.Prelude.{
  ℕ, zero, suc, ◌+◌, ◌-◌, ◌≡◌, ◌≢◌, inl, inr, refl, sym, ap, ◌∙◌, true, List, [], ◌∷◌, ◌++◌, some,
  arith, leb, ◌==◌, Bytes, codes, bytes_eq, bytes_eq_iff, bytes_eq_refl, has_suffix, lower_byte,
  to_lower, length, drop, length-append, drop-length-append, Bool-cases, All,
}
use slipgate.Prelude.Table.{text_eq, load, load-store}
use slipgate.Dns.Routes.{Routes, add_dot, add_route, find_backend}

length-to_lower : (s : Bytes) → length (to_lower s) ≡ length s
unfolding to_lower
length-to_lower [] = refl
length-to_lower (c ∷ s) = ap suc (length-to_lower s)

drop-to_lower : (n : ℕ) (s : Bytes) → drop n (to_lower s) ≡ to_lower (drop n s)
unfolding to_lower
drop-to_lower zero s = refl
drop-to_lower (suc n) [] = refl
drop-to_lower (suc n) (c ∷ s) = drop-to_lower n s

lower_byte-eq_dot : (c : ℕ) → (lower_byte c == b'.') ≡ (c == b'.')
unfolding lower_byte
lower_byte-eq_dot c = ground arith

bytes_eq-dot : (s : Bytes) → bytes_eq (to_lower s) (codes ".") ≡ bytes_eq s (codes ".")
unfolding to_lower bytes_eq
bytes_eq-dot [] = refl
bytes_eq-dot (c ∷ []) = ground arith
bytes_eq-dot (c ∷ d ∷ s) = ground arith

has_suffix-to_lower : (s : Bytes) → has_suffix (to_lower s) (codes ".") ≡ has_suffix s (codes ".")
unfolding has_suffix
has_suffix-to_lower s = rw (length-to_lower s, drop-to_lower, bytes_eq-dot)

to_lower-append : (s t : Bytes) → to_lower (s ++ t) ≡ to_lower s ++ to_lower t
unfolding to_lower
to_lower-append [] t = refl
to_lower-append (c ∷ s) t = ap (◌∷◌ (lower_byte c)) (to_lower-append s t)

-- The key that `AddRoute` stores and the name that `findBackend` looks up are the same.
pub to_lower-add_dot : (s : Bytes) → to_lower (add_dot s) ≡ add_dot (to_lower s)
unfolding add_dot to_lower
to_lower-add_dot s = elim (Bool-cases (has_suffix s (codes "."))) [
  | inl dot ↦ rw (has_suffix-to_lower, dot)
  | inr none_there ↦ rw (has_suffix-to_lower, none_there) (to_lower-append s (codes "."))
]

has_suffix-append_dot : (s : Bytes) → has_suffix (s ++ codes ".") (codes ".") ≡ true
unfolding has_suffix
has_suffix-append_dot s =
    let size : length (s ++ codes ".") ≡ length s + 1 = length-append s (codes ".") ∙ omega arith in
    let back : length (s ++ codes ".") - 1 ≡ length s = omega arith in
    let long : leb 1 (length (s ++ codes ".")) ≡ true = ground arith in
    rw (long, back, drop-length-append) (bytes_eq_refl (codes "."))

-- A name with its final dot, and a domain of the same letters with or without one.
pub add_dot-absolute :
    (name domain : Bytes)
    → to_lower (name ++ codes ".") ≡ to_lower (add_dot domain)
    → add_dot (to_lower (name ++ codes ".")) ≡ add_dot (to_lower domain)
add_dot-absolute name domain e =
    let absolute : add_dot (to_lower name ++ codes ".") ≡ to_lower name ++ codes "." =
      unfold add_dot in rw (has_suffix-append_dot (to_lower name)) refl in
    let lowered : to_lower (name ++ codes ".") ≡ to_lower name ++ codes "." =
      unfold to_lower in to_lower-append name (codes ".") in
    ap add_dot lowered ∙ absolute ∙ sym lowered ∙ e ∙ to_lower-add_dot domain

load-add_route :
    (r : Routes) (domain key backend : Bytes)
    → key ≡ add_dot (to_lower domain)
    → load key (add_route r domain backend).table ≡ some backend
unfolding add_route
load-add_route r domain key backend e =
    let same : to_lower (add_dot domain) ≡ key = to_lower-add_dot domain ∙ sym e in
    ground (
      arith,
      load-store (to_lower (add_dot domain)) key backend r.table,
      bytes_eq_iff (to_lower (add_dot domain)) key,
    )

find_backend-loaded :
    (visited : List (Bytes × Bytes)) (r : Routes) (name backend : Bytes)
    → load (add_dot (to_lower name)) r.table ≡ some backend
    → find_backend visited r name ≡ backend
unfolding find_backend
find_backend-loaded visited r name backend e = rw (e, find_backend)

-- A query name that differs from the domain of the last `AddRoute` only in case and in the final dot
-- goes to its backend, whatever other routes there are and in whatever order the table is ranged over.
pub find_backend-add_route :
    (visited : List (Bytes × Bytes)) (r : Routes) (domain name backend : Bytes)
    → add_dot (to_lower name) ≡ add_dot (to_lower domain)
    → find_backend visited (add_route r domain backend) name ≡ backend
find_backend-add_route visited r domain name backend e =
    find_backend-loaded visited (add_route r domain backend) name backend
      (load-add_route r domain (add_dot (to_lower name)) backend e)

-- `AddRoute` for each domain and backend of a list
abbrev pub add_routes : Routes → List (Bytes × Bytes) → Routes
add_routes r [] = r
add_routes r ((domain, backend) ∷ later) = add_routes (add_route r domain backend) later

load-add_routes :
    (r : Routes) (later : List (Bytes × Bytes)) (key : Bytes)
    → All (λ (e : Bytes × Bytes). add_dot (to_lower e.0) ≢ key) later
    → load key (add_routes r later).table ≡ load key r.table
load-add_routes r [] key apart = refl
load-add_routes r ((domain, backend) ∷ later) key apart =
    let other : to_lower (add_dot domain) ≢ key =
      λ same. apart.0 (sym (to_lower-add_dot domain) ∙ same) in
    load-add_routes (add_route r domain backend) later key apart.1
    ∙ unfold add_route in
      ground (
        arith,
        load-store (to_lower (add_dot domain)) key backend r.table,
        bytes_eq_iff (to_lower (add_dot domain)) key,
      )

-- The same with later `AddRoute`s for other domains.
pub find_backend-add_routes :
    (visited : List (Bytes × Bytes)) (r : Routes) (domain name backend : Bytes)
    (later : List (Bytes × Bytes))
    → add_dot (to_lower name) ≡ add_dot (to_lower domain)
    → All (λ (e : Bytes × Bytes). add_dot (to_lower e.0) ≢ add_dot (to_lower domain)) later
    → find_backend visited (add_routes (add_route r domain backend) later) name ≡ backend
find_backend-add_routes visited r domain name backend later e apart =
    let key = add_dot (to_lower domain) in
    find_backend-loaded visited (add_routes (add_route r domain backend) later) name backend (
      rw e (
        load-add_routes (add_route r domain backend) later key apart
        ∙ load-add_route r domain key backend refl))
