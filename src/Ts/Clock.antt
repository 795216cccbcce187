-- ===== src/Ts/Clock.antt =====
-- The program clock reference of a packet.
use yclib.Base.{
  ℕ, ◌+◌, ◌*◌, ◌/◌, ◌%◌, ◌^◌, ◌<◌, ◌≡◌, ap, ◌∙◌, some, List, ◌∷◌, bit_or, arith, bit_or-shl, u32,
  ◌<<<◌, ◌>>>◌,
}
use yclib.Ts.{get_pcr}

-- The clock reference of a packet as the standard has it: the 33 bits of its base.
abbrev pub base : ℕ → ℕ → ℕ → ℕ → ℕ → ℕ
base b6 b7 b8 b9 b10 = b6 * 2 ^ 25 + b7 * 2 ^ 17 + b8 * 2 ^ 9 + b9 * 2 + b10 / 128

-- `get_pcr` returns the 33 bits of the clock base, less the highest: the value wraps at 2 ^ 32.
pub get_pcr-base :
    (b0 b1 b2 b3 b4 b5 b6 b7 b8 b9 b10 : ℕ) (rest : List ℕ)
    → b7 < 256
    → b8 < 256
    → b9 < 256
    → b10 < 256
    → get_pcr (b0 ∷ b1 ∷ b2 ∷ b3 ∷ b4 ∷ b5 ∷ b6 ∷ b7 ∷ b8 ∷ b9 ∷ b10 ∷ rest) 0
      ≡ some (base b6 b7 b8 b9 b10 % 2 ^ 32)
unfolding get_pcr
get_pcr-base b0 b1 b2 b3 b4 b5 b6 b7 b8 b9 b10 rest h7 h8 h9 h10 =
    let s7 : bit_or (b6 <<< 25) (b7 <<< 17) ≡ (b6 * 256 + b7) * 2 ^ 17 =
      bit_or-shl 25 b6 (b7 <<< 17) (omega arith) ∙ omega arith in
    let s8 : bit_or ((b6 * 256 + b7) * 2 ^ 17) (b8 <<< 9) ≡ ((b6 * 256 + b7) * 256 + b8) * 2 ^ 9 =
      bit_or-shl 17 (b6 * 256 + b7) (b8 <<< 9) (omega arith) ∙ omega arith in
    let s9 : bit_or (((b6 * 256 + b7) * 256 + b8) * 2 ^ 9) (b9 <<< 1)
        ≡ (((b6 * 256 + b7) * 256 + b8) * 256 + b9) * 2 ^ 1 =
      bit_or-shl 9 ((b6 * 256 + b7) * 256 + b8) (b9 <<< 1) (omega arith) ∙ omega arith in
    let s10 = bit_or-shl 1 (((b6 * 256 + b7) * 256 + b8) * 256 + b9) (b10 >>> 7) (omega arith) in
    ap (λ t. some (u32 t)) (rw (s7, s8, s9) (s10 ∙ omega arith))
