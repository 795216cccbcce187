-- ===== src/Network/Order.antt =====
-- Reading and writing in a byte order undo one another, at 16, 24 and 32 bits.
use yclib.Base.{ℕ, ◌+◌, ◌*◌, ◌^◌, ◌<◌, ◌≡◌, refl, ap, none, some, List, [], ◌∷◌, ◌++◌, arith, masks}
use yclib.Network.{
  btoh32, btoh24, btoh16, btoh64, htob32, htob24, htob16, htob64, ltoh32, ltoh24, ltoh16, htol32,
  htol24, htol16,
}

-- A word that fits its width, written in network byte order, is read back, whatever follows it in
-- the buffer.
pub btoh-htob :
    (d : ℕ) (rest : List ℕ)
    → (d < 2 ^ 32 → btoh32 (htob32 d ++ rest) ≡ some d)
      × (d < 2 ^ 24 → btoh24 (htob24 d ++ rest) ≡ some d)
      × (d < 2 ^ 16 → btoh16 (htob16 d ++ rest) ≡ some d)
unfolding btoh32 btoh24 btoh16 htob32 htob24 htob16
btoh-htob d rest = (
  λ h. simp masks (ap some (omega arith)),
  λ h. simp masks (ap some (omega arith)),
  λ h. simp masks (ap some (omega arith)),
)

-- The same in little-endian byte order.
pub ltoh-htol :
    (d : ℕ) (rest : List ℕ)
    → (d < 2 ^ 32 → ltoh32 (htol32 d ++ rest) ≡ some d)
      × (d < 2 ^ 24 → ltoh24 (htol24 d ++ rest) ≡ some d)
      × (d < 2 ^ 16 → ltoh16 (htol16 d ++ rest) ≡ some d)
unfolding ltoh32 ltoh24 ltoh16 htol32 htol24 htol16
ltoh-htol d rest = (
  λ h. simp masks (ap some (omega arith)),
  λ h. simp masks (ap some (omega arith)),
  λ h. simp masks (ap some (omega arith)),
)

-- the value of four bytes, the most significant first
abbrev pub word : ℕ → ℕ → ℕ → ℕ → ℕ
word a b c d = a * 2 ^ 24 + b * 2 ^ 16 + c * 2 ^ 8 + d

pub btoh32_lem :
    (a b c d : ℕ) (rest : List ℕ)
    → a < 256
    → b < 256
    → c < 256
    → d < 256
    → btoh32 (a ∷ b ∷ c ∷ d ∷ rest) ≡ some (word a b c d)
unfolding btoh32
btoh32_lem a b c d rest ha hb hc hd = ap some (omega arith)

pub btoh24_lem :
    (a b c : ℕ) (rest : List ℕ)
    → a < 256
    → b < 256
    → c < 256
    → btoh24 (a ∷ b ∷ c ∷ rest) ≡ some (word 0 a b c)
unfolding btoh24
btoh24_lem a b c rest ha hb hc = ap some (omega arith)

pub htob32-word :
    (a b c d : ℕ)
    → a < 256
    → b < 256
    → c < 256
    → d < 256
    → htob32 (word a b c d) ≡ a ∷ b ∷ c ∷ d ∷ []
unfolding htob32
htob32-word a b c d ha hb hc hd = simp masks (ground arith)

-- Four bytes are a word in network byte order and another in little-endian byte order: each reader
-- gives its own, and each writer turns it back into the same bytes.
pub four_bytes :
    (a b c d : ℕ)
    → a < 256
    → b < 256
    → c < 256
    → d < 256
    → (btoh32 (a ∷ b ∷ c ∷ d ∷ []) ≡ some (word a b c d))
      × (htob32 (word a b c d) ≡ a ∷ b ∷ c ∷ d ∷ [])
      × (ltoh32 (a ∷ b ∷ c ∷ d ∷ []) ≡ some (word d c b a))
      × (htol32 (word d c b a) ≡ a ∷ b ∷ c ∷ d ∷ [])
unfolding ltoh32 htol32
four_bytes a b c d ha hb hc hd = (
  btoh32_lem a b c d [] ha hb hc hd,
  htob32-word a b c d ha hb hc hd,
  ap some (omega arith),
  simp masks (ground arith),
)

-- The 64-bit reader never moves its pointer and adds up in 32 bits: of any buffer it returns the
-- first byte repeated four times, so that bytes which differ later are not told apart.
pub btoh64_first : (b : ℕ) (rest : List ℕ) → b < 256 → btoh64 (b ∷ rest) ≡ some (word b b b b)
unfolding btoh64
btoh64_first b rest h = ap some (omega arith)

-- The 64-bit writer shifts a 32-bit word by 56 bits first, which C leaves undefined: no data word
-- is written in a defined way.
pub htob64_undefined : (d : ℕ) → htob64 d ≡ none
unfolding htob64
htob64_undefined d = refl
