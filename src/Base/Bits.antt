-- ===== src/Base/Bits.antt =====
-- Bit operations of bytes and words as arithmetic.
use Prim.Native.Nat.{
  ℕ, zero, suc, ◌+◌, ◌*◌, ◌/◌, ◌%◌, ◌^◌, ◌-◌, ◌≤◌, ◌<◌, min, max, digits, bit_and, bit_or,
  bit_and-bitwise, bit_or-bitwise,
}
use mathlib.Core.Path.{◌≡◌, refl, ap, ◌∙◌, sym}
use mathlib.Core.Bool.{Bool, true, ◌&&◌}
use native.Mathlib.Nat.{
  pow-suc, one-le-pow, mod-lt, mod-eq_of_lt, div-add-mod, mul-add-mod_self_left,
}
use native.Mathlib.Omega.{arith}
use yclib.Base.Tests.{◌==◌, ==_iff}
use yclib.Base.Words.{◌<<<◌}

-- A fact about every byte, checked value by value.
abbrev pub check_below : ℕ → (ℕ → Bool) → Bool
check_below zero p = true
check_below (suc n) p = check_below n p && p n

check_below_sound : (p : ℕ → Bool) (n x : ℕ) → check_below n p ≡ true → x < n → p x ≡ true
check_below_sound p zero x all below = absurd (omega arith)
check_below_sound p (suc n) x all below = ground (arith, check_below_sound p n x)

pub eq_of_check :
    (f g : ℕ → ℕ) (x : ℕ) → check_below 256 (λ y. f y == g y) ≡ true → x < 256 → f x ≡ g x
eq_of_check f g x all below =
    (==_iff (f x) (g x)).0 (check_below_sound (λ y. f y == g y) 256 x all below)

-- Spare rounds of the digit recursion make no difference.
module _ (last : ℕ → ℕ) (op : ℕ → ℕ → ℕ) where
  rounds : (b k j a : ℕ) → a ≤ k → a ≤ j → digits last op k a b ≡ digits last op j a b
  rounds b zero zero a p q = refl
  rounds b zero (suc j) zero p q = refl
  rounds b (suc k) zero zero p q = refl
  rounds b (suc k) (suc j) zero p q = refl
  rounds b zero j (suc a) p q = absurd (omega arith)
  rounds b (suc k) zero (suc a) p q = absurd (omega arith)
  rounds b (suc k) (suc j) (suc a) p q =
      ap (λ t. t * 2 + op (suc a % 2) (b % 2))
        (rounds (b / 2) k j (suc a / 2) (omega arith) (omega arith))

  pub lowest :
      (a b : ℕ)
      → digits last op (suc a) (suc a) b
        ≡ digits last op (suc a / 2) (suc a / 2) (b / 2) * 2 + op (suc a % 2) (b % 2)
  lowest a b =
      ap (λ t. t * 2 + op (suc a % 2) (b % 2))
        (rounds (b / 2) a (suc a / 2) (suc a / 2) (omega arith) (omega arith))

zero-bit_or : (b : ℕ) → bit_or 0 b ≡ b
zero-bit_or b = bit_or-bitwise 0 b

bit_or_lowest : (a b : ℕ) → bit_or a b ≡ bit_or (a / 2) (b / 2) * 2 + max (a % 2) (b % 2)
bit_or_lowest zero b = omega (arith, zero-bit_or b, zero-bit_or (b / 2))
bit_or_lowest (suc a) b =
    rw (bit_or-bitwise (suc a) b, bit_or-bitwise (suc a / 2) (b / 2)) (lowest (λ y. y) max a b)

bit_or-zero : (n a : ℕ) → a ≤ n → bit_or a 0 ≡ a
bit_or-zero n zero h = zero-bit_or 0
bit_or-zero zero (suc a) h = absurd (omega arith)
bit_or-zero (suc n) (suc a) h =
    omega (arith, bit_or_lowest (suc a) 0, bit_or-zero n (suc a / 2) (omega arith))

-- `(high << k) | low` is a sum where `low` has `k` bits.
pub bit_or-shl : (k high low : ℕ) → low < 2 ^ k → bit_or (high <<< k) low ≡ high * 2 ^ k + low
bit_or-shl zero high low fits =
    let none_left : low ≡ 0 = omega arith in
    let same : high * 2 ^ 0 ≡ high = omega arith in
    rw (none_left, same) (bit_or-zero high high (omega arith) ∙ omega arith)
bit_or-shl (suc k) high low fits =
    let doubled : high * 2 ^ suc k ≡ high * 2 ^ k * 2 =
      omega (arith, ap (λ t. high * t) (pow-suc 2 k)) in
    let low_half : low / 2 < 2 ^ k = omega (arith, pow-suc 2 k) in
    let halved : high * 2 ^ suc k / 2 ≡ high * 2 ^ k = omega (arith, doubled) in
    let ih = bit_or-shl k high (low / 2) low_half in
    bit_or_lowest (high * 2 ^ suc k) low ∙ rw halved (rw ih (omega (arith, doubled)))

zero-bit_and : (b : ℕ) → bit_and 0 b ≡ 0
zero-bit_and b = bit_and-bitwise 0 b

bit_and_lowest : (a b : ℕ) → bit_and a b ≡ bit_and (a / 2) (b / 2) * 2 + min (a % 2) (b % 2)
bit_and_lowest zero b = omega (arith, zero-bit_and b, zero-bit_and (b / 2))
bit_and_lowest (suc a) b =
    rw (bit_and-bitwise (suc a) b, bit_and-bitwise (suc a / 2) (b / 2)) (lowest (λ y. 0) min a b)

bit_and-zero : (n a : ℕ) → a ≤ n → bit_and a 0 ≡ 0
bit_and-zero n zero h = refl
bit_and-zero zero (suc a) h = absurd (omega arith)
bit_and-zero (suc n) (suc a) h =
    omega (arith, bit_and_lowest (suc a) 0, bit_and-zero n (suc a / 2) (omega arith))

mod-double : (m a : ℕ) → 0 < m → a % (m * 2) ≡ a / 2 % m * 2 + a % 2
mod-double m a pos =
    let low = a / 2 % m * 2 + a % 2 in
    let small : low < m * 2 = omega (arith, mod-lt (a / 2) pos) in
    let parts : m * 2 * (a / 2 / m) + low ≡ a =
      omega (arith, ap (λ t. t * 2) (div-add-mod (a / 2) m)) in
    ap (λ t. t % (m * 2)) (sym parts)
    ∙ mul-add-mod_self_left (m * 2) (a / 2 / m) low
    ∙ mod-eq_of_lt small

-- The mask of the `k` low bits takes the remainder by `2 ^ k`.
pub bit_and_ones : (k a : ℕ) → bit_and a (2 ^ k - 1) ≡ a % 2 ^ k
bit_and_ones zero a = bit_and-zero a a (omega arith) ∙ omega arith
bit_and_ones (suc k) a =
    let full : 2 ^ suc k ≡ 2 ^ k * 2 = pow-suc 2 k in
    let some_bit : 1 ≤ 2 ^ k = one-le-pow k 2 (omega arith) in
    let half : (2 ^ suc k - 1) / 2 ≡ 2 ^ k - 1 = omega arith in
    let ih = bit_and_ones k (a / 2) in
    bit_and_lowest a (2 ^ suc k - 1)
    ∙ rw half (rw ih (omega (arith, mod-double (2 ^ k) a some_bit, ap (λ t. a % t) full)))

pub bit_and_byte : (a : ℕ) → bit_and a 0xff ≡ a % 256
bit_and_byte a = bit_and_ones 8 a

pub bit_and_nibble : (a : ℕ) → bit_and a 0x0f ≡ a % 16
bit_and_nibble a = bit_and_ones 4 a

pub bit_and_five : (a : ℕ) → bit_and a 0x1f ≡ a % 32
bit_and_five a = bit_and_ones 5 a

-- The masks of low bits, as remainders.
pub ruleset masks = (bit_and_byte, bit_and_nibble, bit_and_five)
