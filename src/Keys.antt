-- ===== src/Keys.antt =====
-- internal/keys/dnstt.go: making, importing and reading the keys of a DNSTT or VayDNS tunnel. The
-- curve and the random bytes are parameters.
pub mod Frame
use slipgate.Prelude.{
  ℕ, ◌+◌, ◌-◌, ◌*◌, ◌/◌, ◌%◌, Bool, true, false, not, List, [], ◌∷◌, ◌++◌, Option, none, some, ltb,
  leb, ◌==◌, if◌then◌else◌, Bytes, codes, bytes_eq, hex_decode, length, take, decimal,
}
use slipgate.Host.{
  Action, Env, Error, plain, Result, ok, err, Done, pure, raise, done, gets, attempt, on_result,
  on_option, ◌>>=◌, ◌>>◌, error_text, World,
}
use slipgate.Host.Machine.{write_file, read_file}

-- golang.org/x/crypto/curve25519 and crypto/rand
pub record Crypto : Type 0 where
  -- X25519(scalar, Basepoint)
  pub public_of : Bytes → Result Bytes
  pub random_bytes : World → ℕ → Result Bytes
  -- what hex.DecodeString says of a bad text
  pub hex_error : Bytes → Bytes

hex_char : ℕ → ℕ
hex_char n = if ltb n 10 then b'0' + n else b'a' + (n - 10)

-- hex.EncodeToString
unfoldable pub hex_encode : Bytes → Bytes
unfolding hex_char
hex_encode [] = []
hex_encode (b ∷ s) = hex_char (b / 16) ∷ hex_char (b % 16) ∷ hex_encode s

-- privKey[31] &= 127; privKey[31] |= 64
unfoldable pub clamp_last : ℕ → ℕ
clamp_last b = let low = b % 128 in if ltb low 64 then low + 64 else low

-- the last byte of the tail
unfoldable pub clamp_tail : Bytes → Bytes
unfolding clamp_last
clamp_tail [] = []
clamp_tail (b ∷ []) = clamp_last b ∷ []
clamp_tail (b ∷ c ∷ s) = b ∷ clamp_tail (c ∷ s)

-- privKey[0] &= 248, and the last byte
unfoldable pub clamp : Bytes → Bytes
unfolding clamp_tail
clamp [] = []
clamp (b ∷ s) = (b - b % 8) ∷ clamp_tail s

-- fmt.Errorf(text + ": %w", err)
unfoldable pub wrap : {A : Type 0} → Action A → Bytes → Action A
wrap m text = do
  r ← attempt m
  on_result r pure (λ e. raise (plain (text ++ (codes ": " ++ error_text e))))

module _ (crypto : Crypto) where
  -- the bytes of a key in hex; `which` is `private` or `public`
  unfoldable pub key_bytes : Bytes → Bytes → Action Bytes
  key_bytes which text =
      on_option (hex_decode text)
        (raise
          (plain (codes "invalid " ++ (which ++ (codes " key hex: " ++ crypto.hex_error text)))))
        (λ bytes.
          if length bytes == 32
          then pure bytes
          else raise
              (plain (which ++ (codes " key must be 32 bytes, got " ++ decimal (length bytes)))))

  unfoldable pub derive : Bytes → Action Bytes
  derive private =
      on_result (crypto.public_of private) pure
        (λ e. raise (plain (codes "derive public key: " ++ error_text e)))

module _ ⦃env : Env⦄ where
  -- both keys in hex, each on a line
  unfoldable pub write_keys : Bytes → Bytes → Bytes → Bytes → Action Bytes
  write_keys private public private_path public_path = do
    wrap (write_file private_path (private ++ codes "\n")) (codes "write private key")
    wrap (write_file public_path (public ++ codes "\n")) (codes "write public key")
    pure public

  module _ (crypto : Crypto) where
    -- `GenerateDNSTTKeys`
    unfoldable pub generate_keys : Bytes → Bytes → Action Bytes
    generate_keys private_path public_path = do
      drawn ← wrap (λ w. (crypto.random_bytes w 32, w)) (codes "generate private key")
      let private = clamp drawn
      public ← derive crypto private
      write_keys (hex_encode private) (hex_encode public) private_path public_path

    -- `ImportDNSTTKeys`
    unfoldable pub import_keys : Bytes → Bytes → Bytes → Action Bytes
    import_keys private_hex private_path public_path = do
      private ← key_bytes crypto (codes "private") private_hex
      public ← derive crypto private
      write_keys private_hex (hex_encode public) private_path public_path

    -- `ImportDNSTTKeyPair`
    unfoldable pub import_key_pair : Bytes → Bytes → Bytes → Bytes → Action Bytes
    import_key_pair private_hex public_hex private_path public_path = do
      private ← key_bytes crypto (codes "private") private_hex
      key_bytes crypto (codes "public") public_hex
      derived ← derive crypto private
      if bytes_eq (hex_encode derived) public_hex
          then write_keys private_hex public_hex private_path public_path
          else raise (plain (codes "public key does not match private key"))

-- `ReadPublicKey`: without the last byte; Go panics on an empty file
unfoldable pub read_public_key : Bytes → Action (Option Bytes)
read_public_key path = do
  data_ ← read_file path
  pure (if length data_ == 0 then none else some (take (length data_ - 1) data_))
