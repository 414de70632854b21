-- ===== src/ClientConfig.antt =====
-- The slipnet:// links of internal/clientcfg: the fields, their encoding, and how a tunnel fills them.
pub mod Fields
pub mod Generate
pub mod RoundTrip
pub mod Contents
pub mod Types
use slipgate.Prelude.{
  ℕ, zero, suc, ◌≡◌, Bool, List, [], ◌∷◌, ◌++◌, Option, none, some, Bytes, codes, join, split,
  has_prefix, length, drop, take, if◌then◌else◌,
}

-- What the links use of Go's standard library: base64 in its two alphabets, of which the standard one decodes what it encodes; the
-- whole seconds of `time.ParseDuration`; the port of `net.SplitHostPort`; and the address that `getServerIP` finds.
pub record Library : Type 0 where
  pub base64 : Bytes → Bytes
  pub base64_decode : Bytes → Option Bytes
  pub url_base64_decode : Bytes → Option Bytes
  pub parse_seconds : Bytes → Option ℕ
  pub split_port : Bytes → Option Bytes
  pub server_ip : Bytes
  pub base64_decode-base64 : (s : Bytes) → base64_decode (base64 s) ≡ some s

abbrev pub total_fields : ℕ
total_fields = 60

abbrev pub uri_scheme : Bytes
uri_scheme = codes "slipnet://"

-- n empty fields
unfoldable pub blank : ℕ → List Bytes
blank zero = []
blank (suc n) = [] ∷ blank n

-- the loop that copies the parts into the fields
unfoldable pub fill : List Bytes → List Bytes → List Bytes
fill parts [] = []
fill [] (f ∷ fields) = f ∷ fields
fill (p ∷ parts) (f ∷ fields) = p ∷ fill parts fields

-- strings.TrimPrefix(s, prefix)
abbrev pub trim_prefix : Bytes → Bytes → Bytes
trim_prefix s prefix = if has_prefix s prefix then drop (length prefix) s else s

module _ (lib : Library) where
  -- `Encode`
  unfoldable pub encode : List Bytes → Bytes
  encode fields = uri_scheme ++ lib.base64 (join fields (codes "|"))

  decode_data : Bytes → Option Bytes
  decode_data encoded = elim (lib.base64_decode encoded) [
    | some bytes ↦ some bytes
    | none ↦ lib.url_base64_decode encoded
  ]

  -- `Decode`
  unfoldable pub decode : Bytes → Option (List Bytes)
  unfolding decode_data
  decode uri = elim (decode_data (trim_prefix uri uri_scheme)) [
    | none ↦ none
    | some bytes ↦ some (fill (split bytes b'|') (blank total_fields))
  ]
