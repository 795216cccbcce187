-- ===== src/Network/Hex.antt =====
-- `rns_hex2dec` computes the value of the digits that it reads.
use native.Mathlib.Nat.{pow-suc, one-le-pow, pow-le-pow_right, mul-le-mul_right, mul-le-mul_left}
use yclib.Base.{
  ℕ, zero, suc, ◌+◌, ◌*◌, ◌^◌, ◌<◌, ◌≤◌, ◌≡◌, refl, some, List, [], ◌∷◌, arith, true, false,
  if◌then◌else◌, ltb, u32, ◌<<<◌, length, take, Bool-cases, inl, inr,
}
use yclib.Network.{char2value, hex_loop, hex2dec}

-- The value of a text of hexadecimal digits behind the value `acc`.
pub hex_value : ℕ → List ℕ → ℕ
hex_value acc [] = acc
hex_value acc (c ∷ hex) = hex_value (acc * 16 + char2value c) hex

char2value-lt : (c : ℕ) → char2value c < 16
unfolding char2value
char2value-lt c = ground arith

-- One more digit leaves room for the digits that follow.
room :
    (acc digit p q : ℕ)
    → q ≡ p * 16
    → digit < 16
    → 1 ≤ p
    → (acc + 1) * q ≤ 2 ^ 32
    → ((acc * 16 + digit + 1) * p ≤ 2 ^ 32) × (acc * 16 + digit < 2 ^ 32)
room acc digit p q e d one h =
    let digits_fit : digit * p ≤ 15 * p = mul-le-mul_right p (omega arith) in
    let scaled : (acc + 1) * q ≡ (acc + 1) * p * 16 = rw e (omega arith) in
    let total : (acc * 16 + digit + 1) * p ≤ 2 ^ 32 = omega arith in
    let less : (acc * 16 + digit + 1) * 1 ≤ (acc * 16 + digit + 1) * p =
      mul-le-mul_left (acc * 16 + digit + 1) one in
    (total, omega arith)

hex_loop-value :
    (n acc : ℕ) (hex : List ℕ)
    → n ≤ length hex
    → (acc + 1) * 16 ^ n ≤ 2 ^ 32
    → hex_loop false n acc hex ≡ some (hex_value acc (take n hex))
unfolding hex_loop hex_value
hex_loop-value zero acc hex k h = refl
hex_loop-value (suc n) acc [] k h = absurd (omega arith)
hex_loop-value (suc n) acc (c ∷ hex) k h =
    let fits =
      room acc (char2value c) (16 ^ n) (16 ^ suc n) (pow-suc 16 n) (char2value-lt c)
        (one-le-pow n 16 (omega arith)) h in
    let no_wrap : u32 (u32 (acc <<< 4) + char2value c) ≡ acc * 16 + char2value c =
      omega (arith, fits.1) in
    rw no_wrap (hex_loop-value n (acc * 16 + char2value c) hex (omega arith) fits.0)

hex_loop_start :
    (n : ℕ) (hex : List ℕ)
    → n ≤ length hex
    → n ≤ 8
    → hex_loop true n 0 hex ≡ some (hex_value 0 (take n hex))
unfolding hex_loop hex_value
hex_loop_start zero hex k h = refl
hex_loop_start (suc n) [] k h = absurd (omega arith)
hex_loop_start (suc n) (c ∷ hex) k h =
    let powers : 16 ^ suc n ≤ 16 ^ 8 = pow-le-pow_right (omega arith) h in
    let fits =
      room 0 (char2value c) (16 ^ n) (16 ^ suc n) (pow-suc 16 n) (char2value-lt c)
        (one-le-pow n 16 (omega arith)) (omega arith) in
    let no_wrap : u32 (0 + char2value c) ≡ 0 * 16 + char2value c = omega (arith, char2value-lt c) in
    rw no_wrap (hex_loop-value n (0 * 16 + char2value c) hex (omega arith) fits.0)

-- With `size` bytes in reach the reader returns the value of the first `size` digits, eight at
-- most, with no wrap.
pub hex2dec-value :
    (hex : List ℕ) (size : ℕ)
    → size ≤ length hex
    → hex2dec hex size ≡ some (hex_value 0 (take (if ltb 8 size then 8 else size) hex))
unfolding hex2dec
hex2dec-value hex size k = elim (Bool-cases (ltb 8 size)) [
  | inl long ↦ rw long (hex_loop_start 8 hex (ground arith) (omega arith))
  | inr short ↦ rw short (hex_loop_start size hex k (ground arith))
]
