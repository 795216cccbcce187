-- ===== src/Base/Xor.antt =====
-- Exclusive or: a second one with the same word takes the first back.
use Prim.Native.Nat.{ℕ, zero, suc, ◌+◌, ◌*◌, ◌/◌, ◌%◌, ◌≤◌, differ, bit_xor, bit_xor-bitwise}
use mathlib.Core.Path.{◌≡◌, refl, ◌∙◌}
use native.Mathlib.Omega.{arith}
use yclib.Base.Bits.{lowest}

zero-bit_xor : (b : ℕ) → bit_xor 0 b ≡ b
zero-bit_xor b = bit_xor-bitwise 0 b

bit_xor_lowest : (a b : ℕ) → bit_xor a b ≡ bit_xor (a / 2) (b / 2) * 2 + differ (a % 2) (b % 2)
bit_xor_lowest zero b = omega (arith, zero-bit_xor b, zero-bit_xor (b / 2))
bit_xor_lowest (suc a) b =
    rw (bit_xor-bitwise (suc a) b, bit_xor-bitwise (suc a / 2) (b / 2)) (lowest (λ y. y) differ a b)

-- A digit is 0 or 1.
digit_twice : (x y : ℕ) → x ≤ 1 → y ≤ 1 → (differ (differ x y) y ≡ x) × (differ x y ≤ 1)
digit_twice zero zero p q = (refl, omega arith)
digit_twice zero (suc zero) p q = (refl, omega arith)
digit_twice (suc zero) zero p q = (refl, omega arith)
digit_twice (suc zero) (suc zero) p q = (refl, omega arith)
digit_twice (suc (suc x)) y p q = absurd (omega arith)
digit_twice x (suc (suc y)) p q = absurd (omega arith)

cancel_below : (n a b : ℕ) → a + b ≤ n → bit_xor (bit_xor a b) b ≡ a
cancel_below zero a b h =
    let nothing_left : a ≡ 0 = omega arith in
    let none : b ≡ 0 = omega arith in rw (nothing_left, none) refl
cancel_below (suc n) a b h =
    let low = digit_twice (a % 2) (b % 2) (omega arith) (omega arith) in
    let half : bit_xor a b / 2 ≡ bit_xor (a / 2) (b / 2) =
      omega (arith, bit_xor_lowest a b, low.1) in
    let odd : bit_xor a b % 2 ≡ differ (a % 2) (b % 2) = omega (arith, bit_xor_lowest a b, low.1) in
    let ih = cancel_below n (a / 2) (b / 2) (omega arith) in
    bit_xor_lowest (bit_xor a b) b ∙ rw (half, odd, ih, low.0) (omega arith)

pub xor_cancel : (a b : ℕ) → bit_xor (bit_xor a b) b ≡ a
xor_cancel a b = cancel_below (a + b) a b (omega arith)

digits_comm : (x y : ℕ) → differ x y ≡ differ y x
digits_comm zero zero = refl
digits_comm zero (suc y) = refl
digits_comm (suc x) zero = refl
digits_comm (suc x) (suc y) = digits_comm x y

comm_below : (n a b : ℕ) → a + b ≤ n → bit_xor a b ≡ bit_xor b a
comm_below zero a b h =
    let nothing_left : a ≡ 0 = omega arith in
    let none : b ≡ 0 = omega arith in rw (nothing_left, none) refl
comm_below (suc n) a b h =
    rw
      (
        bit_xor_lowest a b,
        bit_xor_lowest b a,
        digits_comm (a % 2) (b % 2),
        comm_below n (a / 2) (b / 2) (omega arith),
      )
      refl

pub bit_xor_comm : (a b : ℕ) → bit_xor a b ≡ bit_xor b a
bit_xor_comm a b = comm_below (a + b) a b (omega arith)
