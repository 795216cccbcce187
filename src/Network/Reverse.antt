-- ===== src/Network/Reverse.antt =====
-- rns_reverse of lib_src/util/rns_network.c, which turns the bytes of a buffer round in place by
-- exclusive ors, and the byte order of a double that stands on it.
use Prim.Native.Nat.{bit_xor}
use yclib.Base.{
  ℕ, zero, suc, ◌+◌, ◌-◌, ◌≡◌, List, [], ◌∷◌, ltb, if◌then◌else◌, length, bit_xor_comm, xor_cancel,
}

-- The byte at a place of the buffer, which every round of the loop keeps inside it.
abbrev byte_at : List ℕ → ℕ → ℕ
byte_at [] i = 0
byte_at (b ∷ buf) zero = b
byte_at (b ∷ buf) (suc i) = byte_at buf i

abbrev set_byte : List ℕ → ℕ → ℕ → List ℕ
set_byte [] i v = []
set_byte (b ∷ buf) zero v = v ∷ buf
set_byte (b ∷ buf) (suc i) v = b ∷ set_byte buf i v

-- The three assignments of a round
abbrev swap : ℕ → ℕ → List ℕ → List ℕ
swap left right buf =
    let first = set_byte buf right (bit_xor (byte_at buf right) (byte_at buf left)) in
    let second = set_byte first left (bit_xor (byte_at first right) (byte_at first left)) in
    set_byte second right (bit_xor (byte_at second right) (byte_at second left))

-- The loop, in which a round needs one of the bytes still between the two pointers.
reverse_loop : ℕ → ℕ → ℕ → List ℕ → List ℕ
reverse_loop zero left right buf = buf
reverse_loop (suc rounds) left right buf =
    let rest = reverse_loop rounds (left + 1) (right - 1) (swap left right buf) in
    if ltb left right then rest else buf

unfoldable pub rns_reverse : List ℕ → List ℕ
unfolding reverse_loop
rns_reverse buf = reverse_loop (length buf) 0 (length buf - 1) buf

xor_first : (a b : ℕ) → bit_xor (bit_xor a b) a ≡ b
xor_first a b = rw (bit_xor_comm a b) (xor_cancel b a)

-- The eight bytes of a double in the other order.
pub rns_reverse-eight :
    (a b c d e f g h : ℕ)
    → rns_reverse (a ∷ b ∷ c ∷ d ∷ e ∷ f ∷ g ∷ h ∷ []) ≡ h ∷ g ∷ f ∷ e ∷ d ∷ c ∷ b ∷ a ∷ []
unfolding rns_reverse
rns_reverse-eight a b c d e f g h = simp (xor_cancel, xor_first)
