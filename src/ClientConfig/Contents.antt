-- ===== src/ClientConfig/Contents.antt =====
-- The SSH port in a link of `GenerateURI` in internal/clientcfg/generate.go.
use slipgate.Prelude.{
  ℕ, zero, suc, ◌≡◌, ◌≢◌, ◌<◌, inl, inr, refl, ap, ◌∙◌, Bool, true, false, not, ◌&&◌, List, [], ◌∷◌,
  ◌++◌, Option, none, some, arith, ltb, ◌==◌, if◌then◌else◌, Bytes, codes, bytes_eq, bytes_eq_iff,
  length, get_or, set, Bool-cases,
}
use slipgate.Prelude.Table.{text_eq}
use slipgate.Config.{
  TunnelConfig, BackendConfig, DnsttConfig, VayDnsConfig, NaiveConfig, is_empty, transport_naive,
  transport_stuntls, backend_ssh,
}
use slipgate.ClientConfig.{Library, total_fields, blank}
use slipgate.ClientConfig.Fields.{
  f_ssh_port, f_ssh_host, f_ssh_enabled, f_ssh_user, f_ssh_pass, f_naive_user, f_naive_pass,
  f_socks_user, f_socks_pass,
}
use slipgate.ClientConfig.Generate.{
  UriOptions, Fields, assign, base_fields, default_fields, dnstt_fields, vaydns_fields,
  naive_fields, transport_fields, default_port, default_host, ssh_fields, naive_user_fields,
  credentials_of, generate_fields, b64,
}
use slipgate.ClientConfig.RoundTrip.{length-set, length-assign, length-blank, length-ssh_fields}

get_or-set :
    (i j : ℕ) (v : Bytes) (fields : Fields)
    → j < length fields
    → get_or (set fields j v) i [] ≡ (if j == i then v else get_or fields i [])
get_or-set i j v [] lt = elim lt [ ]
get_or-set zero zero v (f ∷ fields) lt = refl
get_or-set (suc i) zero v (f ∷ fields) lt = ground arith
get_or-set zero (suc j) v (f ∷ fields) lt = ground arith
get_or-set (suc i) (suc j) v (f ∷ fields) lt = ground (arith, get_or-set i j v fields)

-- The value that a list of assignments leaves in field `i`, from `d`.
abbrev last_of : ℕ → List (ℕ × Bytes) → Bytes → Bytes
last_of i [] d = d
last_of i ((j, v) ∷ l) d = last_of i l (if j == i then v else d)

-- All assignments are to fields that exist.
abbrev in_range : List (ℕ × Bytes) → Bool
in_range [] = true
in_range ((j, v) ∷ l) = ltb j 60 && in_range l

get_or-assign :
    (i : ℕ) (l : List (ℕ × Bytes)) (fields : Fields)
    → length fields ≡ 60
    → in_range l ≡ true
    → get_or (assign l fields) i [] ≡ last_of i l (get_or fields i [])
unfolding assign
get_or-assign i [] fields n ok = refl
get_or-assign i ((j, v) ∷ l) fields n ok =
    let lt : j < length fields = ground (arith, n) in
    get_or-assign i l (set fields j v) (length-set j v fields ∙ n) (ground arith)
    ∙ ap (last_of i l) (get_or-set i j v fields lt)

-- The assignments are in range and leave field `i` alone.
record Keeps (i : ℕ) (l : List (ℕ × Bytes)) : Type 0 where
  range : in_range l ≡ true
  same : (d : Bytes) → last_of i l d ≡ d

get_or-Keeps :
    (i : ℕ) (l : List (ℕ × Bytes)) (fields : Fields)
    → length fields ≡ 60
    → Keeps i l
    → get_or (assign l fields) i [] ≡ get_or fields i []
get_or-Keeps i l fields n k = get_or-assign i l fields n k.range ∙ k.same (get_or fields i [])

vaydns-Keeps : (lib : Library) (v : VayDnsConfig) → Keeps 17 (vaydns_fields lib (some v))
vaydns-Keeps lib v = elim (Bool-cases (is_empty v.idle_timeout)) [
  | inl e ↦ elim (Bool-cases (is_empty v.keep_alive)) [
    | inl f ↦ rw (e, f) (record { range = refl; same = λ d. refl })
    | inr f ↦ rw (e, f) (record { range = refl; same = λ d. refl })
  ]
  | inr e ↦ elim (Bool-cases (is_empty v.keep_alive)) [
    | inl f ↦ rw (e, f) (record { range = refl; same = λ d. refl })
    | inr f ↦ rw (e, f) (record { range = refl; same = λ d. refl })
  ]
]

none-Keeps : Keeps 17 []
none-Keeps = record { range = refl; same = λ d. refl }

if-Keeps :
    (b : Bool) (l m : List (ℕ × Bytes))
    → (b ≡ true → Keeps 17 l)
    → Keeps 17 m
    → Keeps 17 (if b then l else m)
if-Keeps true l m h k = h refl
if-Keeps false l m h k = k

dnstt-Keeps : (d : Option DnsttConfig) → Keeps 17 (dnstt_fields d)
dnstt-Keeps none = none-Keeps
dnstt-Keeps (some d) = record { range = refl; same = λ d. refl }

vaydns_option-Keeps : (lib : Library) (v : Option VayDnsConfig) → Keeps 17 (vaydns_fields lib v)
vaydns_option-Keeps lib none = none-Keeps
vaydns_option-Keeps lib (some v) = vaydns-Keeps lib v

naive-Keeps : (lib : Library) (n : Option NaiveConfig) → Keeps 17 (naive_fields lib n)
naive-Keeps lib none = none-Keeps
naive-Keeps lib (some n) = record { range = refl; same = λ d. refl }

domain-Keeps : (ip : Bytes) → Keeps 17 ((3, ip) ∷ [])
domain-Keeps ip = record { range = refl; same = λ d. refl }

transport-Keeps :
    (lib : Library) (t : TunnelConfig)
    → t.transport ≢ transport_stuntls
    → Keeps 17 (transport_fields lib t)
unfolding transport_fields
transport-Keeps lib t ne =
    if-Keeps _ _ _ (λ e. dnstt-Keeps t.dnstt)
      (if-Keeps _ _ _ (λ e. vaydns_option-Keeps lib t.vaydns)
        (if-Keeps _ _ _ (λ e. naive-Keeps lib t.naive)
          (if-Keeps _ _ _ (λ e. absurd (ne ((bytes_eq_iff t.transport transport_stuntls).0 e)))
            (if-Keeps _ _ _ (λ e. domain-Keeps lib.server_ip) none-Keeps))))

get_or-blank : get_or (blank 60) 17 [] ≡ []
unfolding blank
get_or-blank = refl

-- The port after the defaults.
get_or-defaults :
    (lib : Library) (t : TunnelConfig) (opts : UriOptions)
    → get_or (assign (base_fields t opts ++ default_fields lib) (blank 60)) 17 [] ≡ codes "22"
get_or-defaults lib t opts =
    get_or-assign 17 (base_fields t opts ++ default_fields lib) (blank 60) (length-blank 60) refl

get_or-default_port :
    (lib : Library) (backend : Option BackendConfig) (fields : Fields)
    → get_or fields 17 [] ≡ codes "22"
    → default_port lib backend fields ≡ fields
unfolding default_port is_empty
get_or-default_port lib none fields h = refl
get_or-default_port lib (some b) fields h = rw h refl

get_or-default_host :
    (lib : Library) (fields : Fields)
    → length fields ≡ 60
    → get_or (default_host lib fields) 17 [] ≡ get_or fields 17 []
unfolding default_host
get_or-default_host lib fields n = elim (Bool-cases (is_empty (get_or fields f_ssh_host []))) [
  | inl e ↦ rw e (get_or-set 17 19 lib.server_ip fields (omega (arith, n)))
  | inr e ↦ rw e refl
]

get_or-ssh_fields :
    (lib : Library) (t : TunnelConfig) (backend : Option BackendConfig) (user : Bytes × Bytes)
    (fields : Fields)
    → length fields ≡ 60
    → get_or fields 17 [] ≡ codes "22"
    → get_or (ssh_fields lib t backend user fields) 17 [] ≡ codes "22"
unfolding ssh_fields
get_or-ssh_fields lib t backend user fields n h =
    let l : List (ℕ × Bytes) =
      (f_ssh_enabled, codes "1") ∷ (f_ssh_user, user.0) ∷ (f_ssh_pass, user.1) ∷ [] in
    let sent = assign l fields in
    let kept : get_or sent 17 [] ≡ codes "22" =
      get_or-Keeps 17 l fields n (record { range = refl; same = λ d. refl }) ∙ h in
    elim (Bool-cases (bytes_eq t.backend backend_ssh)) [
      | inl e ↦ rw e (
          ap (λ (fs : Fields). get_or (default_host lib fs) 17 [])
            (get_or-default_port lib backend sent kept)
          ∙ get_or-default_host lib sent (length-assign l fields ∙ n)
          ∙ kept)
      | inr e ↦ rw e h
    ]

get_or-naive_user_fields :
    (lib : Library) (t : TunnelConfig) (user : Bytes × Bytes) (fields : Fields)
    → length fields ≡ 60
    → get_or (naive_user_fields lib t user fields) 17 [] ≡ get_or fields 17 []
unfolding naive_user_fields
get_or-naive_user_fields lib t user fields n =
    elim (Bool-cases (bytes_eq t.transport transport_naive && not (is_empty user.0))) [
      | inl e ↦ rw e (
          get_or-Keeps 17 ((f_naive_user, user.0) ∷ (f_naive_pass, b64 lib user.1) ∷ []) fields n
            (record { range = refl; same = λ d. refl }))
      | inr e ↦ rw e refl
    ]

-- The link of a tunnel that is not StunTLS names the SSH port 22, whatever the address of the SSH backend: the default is
-- set before the port of the backend would be taken.
pub generate_fields_port :
    (lib : Library) (t : TunnelConfig) (backend : Option BackendConfig) (opts : UriOptions)
    → t.transport ≢ transport_stuntls
    → get_or (generate_fields lib t backend opts) f_ssh_port [] ≡ codes "22"
unfolding generate_fields
generate_fields_port lib t backend opts ne =
    let user = credentials_of backend opts in
    let start = assign (base_fields t opts ++ default_fields lib) (blank total_fields) in
    let chosen = assign (transport_fields lib t) start in
    let l : List (ℕ × Bytes) = (f_socks_user, user.0) ∷ (f_socks_pass, user.1) ∷ [] in
    let n : length start ≡ 60 =
      length-assign (base_fields t opts ++ default_fields lib) (blank total_fields)
      ∙ length-blank 60 in
    let m : length chosen ≡ 60 = length-assign (transport_fields lib t) start ∙ n in
    let k : length (assign l chosen) ≡ 60 = length-assign l chosen ∙ m in
    let port : get_or (assign l chosen) 17 [] ≡ codes "22" =
      get_or-Keeps 17 l chosen m (record { range = refl; same = λ d. refl })
      ∙ get_or-Keeps 17 (transport_fields lib t) start n (transport-Keeps lib t ne)
      ∙ get_or-defaults lib t opts in
    get_or-naive_user_fields lib t user (ssh_fields lib t backend user (assign l chosen))
      (length-ssh_fields lib t backend user (assign l chosen) ∙ k)
    ∙ get_or-ssh_fields lib t backend user (assign l chosen) k port
