-- ===== src/Proxy/WebSocket/Mask.antt =====
-- The masking loop of `readWSFrame` in internal/proxy/stuntls.go.
use Prim.Native.Nat.{bit_xor}
use slipgate.Prelude.{
  ℕ, zero, suc, ◌+◌, ◌%◌, ◌≡◌, ◌<◌, refl, ap, Bool, true, false, ◌≤◌, if◌then◌else◌, [], ◌∷◌, arith,
  ==_iff, ◌==◌, Bytes, length, get_or, All,
}
use slipgate.Proxy.WebSocket.{apply_mask}

abbrev pub IsByte : ℕ → Type 0
IsByte b = b < 256

-- Unmasking `x` with each of the bytes up to `m` gives `x` back.
row : ℕ → ℕ → Bool
row x zero = bit_xor (bit_xor x 0) 0 == x
row x (suc m) = if bit_xor (bit_xor x (suc m)) (suc m) == x then row x m else false

-- The rows of the bytes up to `n`, each up to `m`.
table : ℕ → ℕ → Bool
unfolding row
table m zero = row 0 m
table m (suc n) = if row (suc n) m then table m n else false

table_holds : table 255 255 ≡ true
unfolding table row
table_holds = refl

row_at : (x m y : ℕ) → row x m ≡ true → y ≤ m → bit_xor (bit_xor x y) y ≡ x
unfolding row
row_at x zero y h le = ground (arith, ==_iff (bit_xor (bit_xor x 0) 0) x)
row_at x (suc m) y h le =
    ground (arith, row_at x m y, ==_iff (bit_xor (bit_xor x (suc m)) (suc m)) x)

table_at : (m n x : ℕ) → table m n ≡ true → x ≤ n → row x m ≡ true
unfolding table
table_at m zero x h le = ground arith
table_at m (suc n) x h le = ground (arith, table_at m n x)

bit_xor_twice : (x y : ℕ) → x < 256 → y < 256 → bit_xor (bit_xor x y) y ≡ x
bit_xor_twice x y hx hy =
    row_at x 255 y (table_at 255 255 x table_holds (omega arith)) (omega arith)

get_or-IsByte : (mask : Bytes) (i : ℕ) → All IsByte mask → get_or mask i 0 < 256
get_or-IsByte [] i h = omega arith
get_or-IsByte (m ∷ mask) zero h = h.0
get_or-IsByte (m ∷ mask) (suc i) h = get_or-IsByte mask i h.1

pub length-apply_mask :
    (mask : Bytes) (i : ℕ) (payload : Bytes) → length (apply_mask mask i payload) ≡ length payload
unfolding apply_mask
length-apply_mask mask i [] = refl
length-apply_mask mask i (b ∷ bs) = ap suc (length-apply_mask mask (i + 1) bs)

pub apply_mask-apply_mask :
    (mask : Bytes) (i : ℕ) (payload : Bytes)
    → All IsByte mask
    → All IsByte payload
    → apply_mask mask i (apply_mask mask i payload) ≡ payload
unfolding apply_mask
apply_mask-apply_mask mask i [] hm hp = refl
apply_mask-apply_mask mask i (b ∷ bs) hm hp = cc (
  bit_xor_twice b (get_or mask (i % 4) 0) hp.0 (get_or-IsByte mask (i % 4) hm),
  apply_mask-apply_mask mask (i + 1) bs hm hp.1,
)
