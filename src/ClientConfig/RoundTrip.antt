-- ===== src/ClientConfig/RoundTrip.antt =====
-- `Decode` of a link against `Encode`.
use mathlib.Core.Path.{subst}
use slipgate.Prelude.{
  ℕ, zero, suc, ◌≡◌, ◌≢◌, ◌↔◌, inl, inr, refl, sym, ap, ◌∙◌, true, not, ◌&&◌, List, [], ◌∷◌, ◌++◌,
  Option, none, some, arith, ◌==◌, Bytes, codes, bytes_eq, join, split, cons_byte, has_prefix,
  length, get_or, All, Bool-cases, Option-cases, drop-length-append, set,
}
use slipgate.Config.{TunnelConfig, BackendConfig, is_empty, backend_ssh, transport_naive}
use slipgate.ClientConfig.{
  Library, total_fields, uri_scheme, blank, fill, trim_prefix, encode, decode, decode_data,
}
use slipgate.ClientConfig.Fields.{
  f_ssh_port, f_ssh_host, f_ssh_enabled, f_ssh_user, f_ssh_pass, f_naive_user, f_naive_pass,
  f_socks_user, f_socks_pass,
}
use slipgate.ClientConfig.Generate.{
  UriOptions, Fields, assign, default_port, default_host, ssh_fields, naive_user_fields,
  generate_fields, generate_uri, credentials_of, transport_fields, base_fields, default_fields, b64,
}

-- The separator does not stand in it.
abbrev pub NoBar : Bytes → Type 0
NoBar = All (λ (c : ℕ). c ≢ 124)

split-field : (f rest : Bytes) → NoBar f → split (f ++ (124 ∷ rest)) 124 ≡ f ∷ split rest 124
unfolding split cons_byte
split-field [] rest ok = refl
split-field (c ∷ f) rest (ne, ok) = ground (arith, split-field f rest ok, ne)

split-last : (f : Bytes) → NoBar f → split f 124 ≡ f ∷ []
unfolding split cons_byte
split-last [] ok = refl
split-last (c ∷ f) (ne, ok) = ground (arith, split-last f ok, ne)

split-join :
    (f : Bytes) (fs : List Bytes)
    → All NoBar (f ∷ fs)
    → split (join (f ∷ fs) (codes "|")) 124 ≡ f ∷ fs
unfolding join
split-join f [] (ok, oks) = split-last f ok
split-join f (g ∷ fs) (ok, oks) =
    split-field f (join (g ∷ fs) (codes "|")) ok
    ∙ ap (λ (gs : List Bytes). f ∷ gs) (split-join g fs oks)

cons_byte-NoBar : (c : ℕ) (ps : List Bytes) → c ≢ 124 → All NoBar ps → All NoBar (cons_byte c ps)
unfolding cons_byte
cons_byte-NoBar c [] ne ok = ((ne, tt), tt)
cons_byte-NoBar c (p ∷ ps) ne (ok, oks) = ((ne, ok), oks)

split-NoBar : (s : Bytes) → All NoBar (split s 124)
unfolding split
split-NoBar [] = (tt, tt)
split-NoBar (c ∷ s) = elim (Bool-cases (c == 124)) [
  | inl e ↦ rw e (tt, split-NoBar s)
  | inr e ↦ rw e (cons_byte-NoBar c (split s 124) (ground (arith, e)) (split-NoBar s))
]

fill-blank : (fields : List Bytes) → fill fields (blank (length fields)) ≡ fields
unfolding fill blank
fill-blank [] = refl
fill-blank (f ∷ fields) = ap (λ (fs : List Bytes). f ∷ fs) (fill-blank fields)

blank-NoBar : (n : ℕ) → All NoBar (blank n)
unfolding blank
blank-NoBar zero = tt
blank-NoBar (suc n) = (tt, blank-NoBar n)

fill-NoBar : (n : ℕ) (parts : List Bytes) → All NoBar parts → All NoBar (fill parts (blank n))
unfolding fill blank
fill-NoBar zero parts ok = tt
fill-NoBar (suc n) [] ok = (tt, blank-NoBar n)
fill-NoBar (suc n) (p ∷ parts) (ok, oks) = (ok, fill-NoBar n parts oks)

has_prefix-append : (prefix s : Bytes) → has_prefix (prefix ++ s) prefix ≡ true
unfolding has_prefix
has_prefix-append [] s = refl
has_prefix-append (c ∷ prefix) s = ground (arith, has_prefix-append prefix s)

trim_prefix-append : (prefix s : Bytes) → trim_prefix (prefix ++ s) prefix ≡ s
trim_prefix-append prefix s = rw (has_prefix-append prefix s) (drop-length-append prefix s)

decode_data-base64 : (lib : Library) (s : Bytes) → decode_data lib (lib.base64 s) ≡ some s
unfolding decode_data
decode_data-base64 lib s = rw (lib.base64_decode-base64 s, decode_data) refl

decode-encode_parts :
    (lib : Library) (fields : List Bytes)
    → decode lib (encode lib fields)
      ≡ some (fill (split (join fields (codes "|")) 124) (blank total_fields))
unfolding decode encode
decode-encode_parts lib fields =
    ap
      (λ (o : Option Bytes). elim o [
        | none ↦ none
        | some bytes ↦ some (fill (split bytes 124) (blank total_fields))
      ])
      (ap (decode_data lib) (trim_prefix-append uri_scheme (lib.base64 (join fields (codes "|"))))
        ∙ decode_data-base64 lib (join fields (codes "|")))

-- `Decode` gives back the 60 fields that `Encode` was given exactly if the separator '|' stands in none of them.
decode-encode :
    (lib : Library) (fields : List Bytes)
    → length fields ≡ total_fields
    → (decode lib (encode lib fields) ≡ some fields) ↔ All NoBar fields
decode-encode lib fields n = (only, back fields n)
  where
    only : decode lib (encode lib fields) ≡ some fields → All NoBar fields
    only h =
        let same : fill (split (join fields (codes "|")) 124) (blank total_fields) ≡ fields =
          cc (h, decode-encode_parts lib fields) in
        subst (All NoBar) same (
          fill-NoBar total_fields (split (join fields (codes "|")) 124)
            (split-NoBar (join fields (codes "|"))))

    back :
        (fs : List Bytes)
        → length fs ≡ total_fields
        → All NoBar fs
        → decode lib (encode lib fs) ≡ some fs
    back [] m ok = absurd (omega (arith, m))
    back (f ∷ fs) m ok =
        decode-encode_parts lib (f ∷ fs)
        ∙ ap (λ (parts : List Bytes). some (fill parts (blank total_fields))) (split-join f fs ok)
        ∙ ap (λ (k : ℕ). some (fill (f ∷ fs) (blank k))) (sym m)
        ∙ ap some (fill-blank (f ∷ fs))

pub length-set : (i : ℕ) (v : Bytes) (fields : List Bytes) → length (set fields i v) ≡ length fields
length-set i v [] = refl
length-set zero v (f ∷ fields) = refl
length-set (suc i) v (f ∷ fields) = ap suc (length-set i v fields)

pub length-assign :
    (l : List (ℕ × Bytes)) (fields : Fields) → length (assign l fields) ≡ length fields
unfolding assign
length-assign [] fields = refl
length-assign (e ∷ l) fields = length-assign l (set fields e.0 e.1) ∙ length-set e.0 e.1 fields

pub length-blank : (n : ℕ) → length (blank n) ≡ n
unfolding blank
length-blank zero = refl
length-blank (suc n) = ap suc (length-blank n)

length-default_port :
    (lib : Library) (backend : Option BackendConfig) (fields : Fields)
    → length (default_port lib backend fields) ≡ length fields
unfolding default_port
length-default_port lib none fields = refl
length-default_port lib (some b) fields =
    elim (Bool-cases (is_empty (get_or fields f_ssh_port []))) [
      | inl e ↦ elim (Option-cases (lib.split_port b.address)) [
        | inl bad ↦ rw (e, bad) refl
        | inr (port, good) ↦ rw (e, good) (length-set f_ssh_port port fields)
      ]
      | inr e ↦ rw e refl
    ]

length-default_host :
    (lib : Library) (fields : Fields) → length (default_host lib fields) ≡ length fields
unfolding default_host
length-default_host lib fields = ground (arith, length-set f_ssh_host lib.server_ip fields)

pub length-ssh_fields :
    (lib : Library) (t : TunnelConfig) (backend : Option BackendConfig) (user : Bytes × Bytes)
    (fields : Fields)
    → length (ssh_fields lib t backend user fields) ≡ length fields
unfolding ssh_fields
length-ssh_fields lib t backend user fields =
    let sent =
      assign ((f_ssh_enabled, codes "1") ∷ (f_ssh_user, user.0) ∷ (f_ssh_pass, user.1) ∷ [])
        fields in
    elim (Bool-cases (bytes_eq t.backend backend_ssh)) [
      | inl e ↦ rw e (
          length-default_host lib (default_port lib backend sent)
          ∙ length-default_port lib backend sent
          ∙ length-assign
              ((f_ssh_enabled, codes "1") ∷ (f_ssh_user, user.0) ∷ (f_ssh_pass, user.1) ∷ [])
              fields)
      | inr e ↦ rw e refl
    ]

length-naive_user_fields :
    (lib : Library) (t : TunnelConfig) (user : Bytes × Bytes) (fields : Fields)
    → length (naive_user_fields lib t user fields) ≡ length fields
unfolding naive_user_fields
length-naive_user_fields lib t user fields =
    elim (Bool-cases (bytes_eq t.transport transport_naive && not (is_empty user.0))) [
      | inl e ↦
          rw e (length-assign ((f_naive_user, user.0) ∷ (f_naive_pass, b64 lib user.1) ∷ []) fields)
      | inr e ↦ rw e refl
    ]

-- A link has all 60 fields, whatever the tunnel, the backend and the options.
pub length-generate_fields :
    (lib : Library) (t : TunnelConfig) (backend : Option BackendConfig) (opts : UriOptions)
    → length (generate_fields lib t backend opts) ≡ total_fields
unfolding generate_fields
length-generate_fields lib t backend opts =
    let user = credentials_of backend opts in
    let start = assign (base_fields t opts ++ default_fields lib) (blank total_fields) in
    let chosen = assign (transport_fields lib t) start in
    let sent = assign ((f_socks_user, user.0) ∷ (f_socks_pass, user.1) ∷ []) chosen in
    length-naive_user_fields lib t user (ssh_fields lib t backend user sent)
    ∙ length-ssh_fields lib t backend user sent
    ∙ length-assign ((f_socks_user, user.0) ∷ (f_socks_pass, user.1) ∷ []) chosen
    ∙ length-assign (transport_fields lib t) start
    ∙ length-assign (base_fields t opts ++ default_fields lib) (blank total_fields)
    ∙ length-blank total_fields

-- A generated link is decoded to the 60 fields that were put into it exactly if the separator '|' stands in none of them.
pub decode-generate_uri :
    (lib : Library) (t : TunnelConfig) (backend : Option BackendConfig) (opts : UriOptions)
    → (decode lib (generate_uri lib t backend opts) ≡ some (generate_fields lib t backend opts))
      ↔ All NoBar (generate_fields lib t backend opts)
unfolding generate_uri
decode-generate_uri lib t backend opts =
    decode-encode lib (generate_fields lib t backend opts)
      (length-generate_fields lib t backend opts)
