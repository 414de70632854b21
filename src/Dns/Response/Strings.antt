-- ===== src/Dns/Response/Strings.antt =====
-- The character strings of a TXT record read back.
use slipgate.Prelude.{
  ℕ, zero, suc, ◌+◌, ◌/◌, ◌%◌, ◌≤◌, ◌<◌, ◌≡◌, refl, ap, ◌∙◌, List, [], ◌∷◌, ◌++◌, arith, Bytes,
  length, take, drop, length-take, length-drop, take-length-append, drop-length-append,
  length-append,
}
use slipgate.Dns.Response.{char_strings}

-- What a resolver reads: length, string, length, string, …
unfoldable pub read_strings : ℕ → Bytes → Bytes
read_strings zero rdata = []
read_strings (suc fuel) [] = []
read_strings (suc fuel) (n ∷ rdata) = take n rdata ++ read_strings fuel (drop n rdata)

length-chunk :
    (c : ℕ) (cs : Bytes)
    → (0 < length (take 255 (c ∷ cs)))
      × (length (take 255 (c ∷ cs)) ≤ 255)
      × (length (take 255 (c ∷ cs)) ≤ length (c ∷ cs))
length-chunk c cs = omega (arith, length-take 255 (c ∷ cs))

take-length-take :
    {A : Type 0} (n : ℕ) (xs : List A) → take n xs ++ drop (length (take n xs)) xs ≡ xs
take-length-take zero xs = refl
take-length-take (suc n) [] = refl
take-length-take (suc n) (x ∷ xs) = ap (◌∷◌ x) (take-length-take n xs)

-- Reading the character strings that `buildBinaryTXTResponseWithEDNS` writes for a payload gives the payload.
pub read_strings-char_strings :
    (fuel : ℕ) (payload : Bytes)
    → length payload ≤ fuel
    → read_strings fuel (char_strings fuel payload) ≡ payload
unfolding read_strings char_strings
read_strings-char_strings zero [] h = refl
read_strings-char_strings zero (c ∷ cs) h = elim h [ ]
read_strings-char_strings (suc fuel) [] h = refl
read_strings-char_strings (suc fuel) (c ∷ cs) h =
    let chunk = take 255 (c ∷ cs) in
    let n = length chunk in
    let later = char_strings fuel (drop n (c ∷ cs)) in
    let byte : n % 256 ≡ n = omega (arith, length-chunk c cs) in
    let rest =
      read_strings-char_strings fuel (drop n (c ∷ cs))
        (omega (arith, length-chunk c cs, length-drop n (c ∷ cs))) in
    ap (λ (m : ℕ). take m (chunk ++ later) ++ read_strings fuel (drop m (chunk ++ later))) byte
    ∙ ap (λ (b : Bytes). b ++ read_strings fuel (drop n (chunk ++ later)))
        (take-length-append chunk later)
    ∙ ap (λ (b : Bytes). chunk ++ read_strings fuel b) (drop-length-append chunk later)
    ∙ ap (λ (b : Bytes). chunk ++ b) rest
    ∙ take-length-take 255 (c ∷ cs)

-- The size of the record data: the payload and a length byte for each 255 bytes of it, or part.
pub length-char_strings :
    (fuel : ℕ) (payload : Bytes)
    → length payload ≤ fuel
    → length (char_strings fuel payload) ≡ length payload + (length payload + 254) / 255
unfolding char_strings
length-char_strings zero [] h = omega arith
length-char_strings zero (c ∷ cs) h = elim h [ ]
length-char_strings (suc fuel) [] h = omega arith
length-char_strings (suc fuel) (c ∷ cs) h =
    let n = length (take 255 (c ∷ cs)) in
    let left = drop n (c ∷ cs) in
    let split = length-append (take 255 (c ∷ cs)) (char_strings fuel left) in
    let rest =
      length-char_strings fuel left (omega (arith, length-chunk c cs, length-drop n (c ∷ cs))) in
    omega (arith, split, rest, length-take 255 (c ∷ cs), length-drop n (c ∷ cs))
