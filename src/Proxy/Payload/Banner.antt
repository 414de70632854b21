-- ===== src/Proxy/Payload/Banner.antt =====
-- The search for the SSH banner of `handlePayload` in internal/proxy/stuntls.go, for any input.
use slipgate.Prelude.{
  ℕ, zero, suc, ◌+◌, ◌-◌, ◌≡◌, ◌≢◌, ◌<◌, ◌≤◌, ◌⊎◌, inl, inr, refl, sym, ap, ◌∙◌, [], ◌∷◌, ◌++◌,
  append_assoc, none, some, arith, ◌==◌, Bytes, codes, length, take, get_or, All, Bool-cases,
  Option-cases, append-nil, length-append,
}
use slipgate.Proxy.Payload.{target, advance, scan, payload_stream}

-- How a byte moves the index: on by one, to 1 on 'S', or to 0.
advance-cases :
    (m b : ℕ)
    → ((b ≡ get_or target m 0) × (advance m b ≡ m + 1))
      ⊎ (((b ≡ 83) × (advance m b ≡ 1)) ⊎ (advance m b ≡ 0))
unfolding advance
advance-cases m b = ground arith

take-target : (m : ℕ) → m < 4 → take (m + 1) target ≡ take m target ++ (get_or target m 0 ∷ [])
take-target zero lt = refl
take-target (suc zero) lt = refl
take-target (suc (suc zero)) lt = refl
take-target (suc (suc (suc zero))) lt = refl
take-target (suc (suc (suc (suc m)))) lt = ground arith

length-take-target : (m : ℕ) → m < 4 → length (take m target) ≡ m
length-take-target zero lt = refl
length-take-target (suc zero) lt = refl
length-take-target (suc (suc zero)) lt = refl
length-take-target (suc (suc (suc zero))) lt = refl
length-take-target (suc (suc (suc (suc m)))) lt = ground arith

-- Where the search with `m` bytes of the banner read finds it.
record IsFound (left m : ℕ) (input rest : Bytes) : Type 0 where
  before : Bytes
  place : take m target ++ input ≡ before ++ (target ++ rest)
  early : length before + 4 ≤ m + left

-- What the search finds behind a byte, the search with the byte finds.
IsFound-later :
    (left m m' : ℕ) (input rest front : Bytes) (b : ℕ)
    → take m target ++ (b ∷ input) ≡ front ++ (take m' target ++ input)
    → length front + m' ≤ m + 1
    → IsFound left m' input rest
    → IsFound (suc left) m (b ∷ input) rest
IsFound-later left m m' input rest front b eq le found = record {
  before = front ++ found.before;
  place =
      eq
      ∙ ap (λ (x : Bytes). front ++ x) found.place
      ∙ sym (append_assoc front found.before (target ++ rest));
  early = omega (arith, length-append front found.before, found.early);
}

scan-last :
    (left m b : ℕ) (input rest : Bytes)
    → m ≡ 3
    → b ≡ get_or target m 0
    → input ≡ rest
    → IsFound (suc left) m (b ∷ input) rest
scan-last left m b input rest em eb er = record {
  before = [];
  place = rw em (rw (eb ∙ ap (λ (x : ℕ). get_or target x 0) em) (rw er refl));
  early = omega (arith, em);
}

scan-IsFound :
    (left m : ℕ) (input rest : Bytes)
    → m < 4
    → scan left m input ≡ some rest
    → IsFound left m input rest
unfolding scan
scan-IsFound zero m input rest lt h = cc
scan-IsFound (suc left) m [] rest lt h = cc
scan-IsFound (suc left) m (b ∷ input) rest lt h = elim (advance-cases m b) [
  | inl (eb, ea) ↦ elim (Bool-cases (m + 1 == 4)) [
    | inl e ↦
        scan-last left m b input rest (ground (arith, e)) (ground (arith, eb, e))
          (ground (arith, h, ea, e))
    | inr e ↦
        IsFound-later left m (m + 1) input rest [] b
          (ap (λ (x : ℕ). take m target ++ (x ∷ input)) eb
            ∙ sym (append_assoc (take m target) (get_or target m 0 ∷ []) input)
            ∙ ap (λ (x : Bytes). x ++ input) (sym (take-target m lt)))
          (omega arith)
          (scan-IsFound left (m + 1) input rest (ground (arith, e)) (ground (arith, h, ea, e)))
  ]
  | inr (inl (eb, ea)) ↦
      IsFound-later left m 1 input rest (take m target) b
        (ap (λ (x : ℕ). take m target ++ (x ∷ input)) eb) (omega (arith, length-take-target m lt))
        (scan-IsFound left 1 input rest (omega arith) (ground (arith, h, ea)))
  | inr (inr ea) ↦
      IsFound-later left m 0 input rest (take m target ++ (b ∷ [])) b
        (sym (append_assoc (take m target) (b ∷ []) input))
        (omega (arith, length-append (take m target) (b ∷ []), length-take-target m lt))
        (scan-IsFound left 0 input rest (omega arith) (ground (arith, h, ea)))
]

-- No 'S' stands in it.
abbrev pub NoStart : Bytes → Type 0
NoStart = All (λ (b : ℕ). b ≢ 83)

scan-step : (k b : ℕ) (input : Bytes) → b ≢ 83 → scan (suc k) 0 (b ∷ input) ≡ scan k 0 input
unfolding scan advance
scan-step k b input ne = elim (Bool-cases (b == 83)) [
  | inl e ↦ ground (arith, ne, e)
  | inr e ↦ ground (arith, e)
]

scan-NoStart :
    (left : ℕ) (before input : Bytes)
    → NoStart before
    → scan (left + length before) 0 (before ++ input) ≡ scan left 0 input
scan-NoStart left [] input ok = ap (λ (k : ℕ). scan k 0 input) (omega arith)
scan-NoStart left (b ∷ before) input (ne, ok) =
    ap (λ (k : ℕ). scan k 0 (b ∷ (before ++ input))) (omega arith)
    ∙ scan-step (left + length before) b (before ++ input) ne
    ∙ scan-NoStart left before input ok

-- After "SSSH-" the search is where it began: the third 'S' sets the index to 1, though "SS" is read again.
scan-missed :
    (left : ℕ) (input : Bytes)
    → scan (suc (suc (suc (suc (suc left))))) 0 (codes "SSSH-" ++ input) ≡ scan left 0 input
unfolding scan advance
scan-missed left input = refl

scan-end : (left : ℕ) → scan left 0 [] ≡ none
unfolding scan
scan-end zero = refl
scan-end (suc left) = refl

scan-nothing :
    (left : ℕ) (input : Bytes) → NoStart input → scan (left + length input) 0 input ≡ none
scan-nothing left input ok =
    ap (λ (x : Bytes). scan (left + length input) 0 x) (sym (append-nil input))
    ∙ scan-NoStart left input [] ok
    ∙ scan-end left

scan-target :
    (left : ℕ) (input : Bytes) → scan (suc (suc (suc (suc left)))) 0 (target ++ input) ≡ some input
unfolding scan advance
scan-target left input = refl

-- What `handlePayload` relays is a suffix of the input that opens with the banner, read within the first 8192 bytes.
pub payload_stream_sound :
    (input out : Bytes)
    → payload_stream input ≡ some out
    → (before : Bytes) × ((rest : Bytes) × ((out ≡ target ++ rest)
          × (input ≡ before ++ out)
          × (length before + 4 ≤ 8192)))
unfolding payload_stream
payload_stream_sound input out h = elim (Option-cases (scan 8192 0 input)) [
  | inl e ↦ ground (arith, h, e)
  | inr (rest, e) ↦
      let found = scan-IsFound 8192 0 input rest (omega arith) e in
      let out_eq : out ≡ target ++ rest = ground (arith, h, e) in
      (
        found.before,
        (
          rest,
          (
            out_eq,
            found.place ∙ ap (λ (x : Bytes). found.before ++ x) (sym out_eq),
            omega (arith, found.early),
          ),
        ),
      )
]

-- Behind a payload without an 'S' that leaves room for the banner, the banner is found, and what is relayed is the banner and all that follows it.
pub payload_stream_complete :
    (before rest : Bytes)
    → NoStart before
    → length before + 4 ≤ 8192
    → payload_stream (before ++ (target ++ rest)) ≡ some (target ++ rest)
unfolding payload_stream
payload_stream_complete before rest ok le =
    let left = 8188 - length before in
    let e : scan 8192 0 (before ++ (target ++ rest)) ≡ some rest =
      ap (λ (k : ℕ). scan k 0 (before ++ (target ++ rest))) (omega arith)
      ∙ scan-NoStart (suc (suc (suc (suc left)))) before (target ++ rest) ok
      ∙ scan-target left rest in
    ground (arith, e)

-- A banner that directly follows another 'S', with no 'S' before and behind it, is missed: nothing is relayed, although the input holds "SSH-".
pub payload_stream_missed :
    (before rest : Bytes)
    → NoStart before
    → NoStart rest
    → length before + 5 + length rest ≤ 8192
    → payload_stream (before ++ (codes "S" ++ (target ++ rest))) ≡ none
unfolding payload_stream
payload_stream_missed before rest ok ok' le =
    let left = 8187 - length before - length rest in
    let e : scan 8192 0 (before ++ (codes "S" ++ (target ++ rest))) ≡ none =
      ap (λ (k : ℕ). scan k 0 (before ++ (codes "S" ++ (target ++ rest)))) (omega arith)
      ∙ scan-NoStart (suc (suc (suc (suc (suc (left + length rest)))))) before
          (codes "SSSH-" ++ rest) ok
      ∙ scan-missed (left + length rest) rest
      ∙ scan-nothing left rest ok' in
    ground (arith, e)
