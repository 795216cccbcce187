-- ===== src/Network.antt =====
-- lib_src/util/rns_network.c: integers in network and in little-endian byte order, and hexadecimal
-- text. A buffer is the list of bytes from the pointer on, `none` a read past its end or a shift
-- that C leaves undefined. A function that writes returns the bytes that it stores.
pub mod Address
pub mod Order
pub mod Hex
pub mod Reverse
mod Tests
use yclib.Base.{
  ℕ, zero, suc, ◌+◌, ◌-◌, ◌*◌, ◌/◌, ◌%◌, ◌^◌, bit_and, Bool, true, false, ◌&&◌, Option, none, some,
  List, [], ◌∷◌, ltb, leb, if◌then◌else◌, u32, ◌<<<◌, ◌>>>◌, ◌>>=◌,
}

-- The loop of `rns_btoh32`, `rns_btoh24` and `rns_btoh16`, which differ in the first `size` only.
be_loop : ℕ → ℕ → List ℕ → Option ℕ
be_loop zero result ptr = some result
be_loop (suc size) result [] = none
be_loop (suc size) result (b ∷ ptr) =
    let r = u32 (result + b) in
    let rest = be_loop size (u32 (r <<< 8)) ptr in elim size [ zero ↦ some r | suc _ ↦ rest ]

unfoldable pub btoh32 : List ℕ → Option ℕ
unfolding be_loop
btoh32 buf = be_loop 4 0 buf

unfoldable pub btoh24 : List ℕ → Option ℕ
unfolding be_loop
btoh24 buf = be_loop 3 0 buf

unfoldable pub btoh16 : List ℕ → Option ℕ
unfolding be_loop
btoh16 buf = be_loop 2 0 buf

-- The loop of `rns_btoh64`: the pointer stays where it is, and the sum is a uint32_t.
be64_loop : ℕ → ℕ → ℕ → ℕ
be64_loop zero result b = result
be64_loop (suc size) result b =
    let r = u32 (result + b) in
    let rest = be64_loop size (u32 (r <<< 8)) b in elim size [ zero ↦ r | suc _ ↦ rest ]

unfoldable pub btoh64 : List ℕ → Option ℕ
unfolding be64_loop
btoh64 [] = none
btoh64 (b ∷ buf) = some (be64_loop 8 0 b)

-- The loop of `rns_htob32`, `rns_htob24` and `rns_htob16`: all three shift by 24 - ((4 - size) << 3).
be_bytes : ℕ → ℕ → List ℕ
be_bytes data_word zero = []
be_bytes data_word (suc size) =
    bit_and (data_word >>> (24 - ((4 - suc size) <<< 3))) 0xff ∷ be_bytes data_word size

unfoldable pub htob32 : ℕ → List ℕ
unfolding be_bytes
htob32 d = be_bytes d 4

unfoldable pub htob24 : ℕ → List ℕ
unfolding be_bytes
htob24 d = be_bytes d 3

unfoldable pub htob16 : ℕ → List ℕ
unfolding be_bytes
htob16 d = be_bytes d 2

-- A uint32_t shifted to the right, which C defines for counts below 32.
shr32 : ℕ → ℕ → Option ℕ
shr32 x k = if ltb k 32 then some (x >>> k) else none

-- `rns_htob64` takes its data as a uint32_t.
htob64_loop : ℕ → ℕ → Option (List ℕ)
unfolding shr32
htob64_loop d zero = some []
htob64_loop d (suc size) = shr32 d (56 - ((8 - suc size) <<< 3)) >>= λ x.
    htob64_loop d size >>= λ bytes. some (bit_and x 0xff ∷ bytes)

unfoldable pub htob64 : ℕ → Option (List ℕ)
unfolding htob64_loop
htob64 d = htob64_loop d 8

-- The loop of `rns_ltoh32`, `rns_ltoh24` and `rns_ltoh16`: byte `width - size` is shifted by eight
-- times that index, in the width of the result.
le_loop : ℕ → ℕ → ℕ → List ℕ → Option ℕ
le_loop width zero result ptr = some result
le_loop width (suc size) result [] = none
le_loop width (suc size) result (b ∷ ptr) =
    le_loop width size (u32 (result + u32 (b <<< ((width - suc size) * 8)))) ptr

unfoldable pub ltoh32 : List ℕ → Option ℕ
unfolding le_loop
ltoh32 buf = le_loop 4 4 0 buf

unfoldable pub ltoh24 : List ℕ → Option ℕ
unfolding le_loop
ltoh24 buf = le_loop 3 3 0 buf

unfoldable pub ltoh16 : List ℕ → Option ℕ
unfolding le_loop
ltoh16 buf = le_loop 2 2 0 buf

-- The loop of `rns_htol32`, `rns_htol24` and `rns_htol16`: the first shift is by no bits.
le_bytes : ℕ → ℕ → ℕ → List ℕ
le_bytes bits d zero = []
le_bytes bits d (suc size) = bit_and (d >>> (bits - (suc size <<< 3))) 0xff ∷ le_bytes bits d size

unfoldable pub htol32 : ℕ → List ℕ
unfolding le_bytes
htol32 d = le_bytes 32 d 4

unfoldable pub htol24 : ℕ → List ℕ
unfolding le_bytes
htol24 d = le_bytes 24 d 3

unfoldable pub htol16 : ℕ → List ℕ
unfolding le_bytes
htol16 d = le_bytes 16 d 2

-- The value of a hexadecimal digit; any other byte counts as 0.
unfoldable pub char2value : ℕ → ℕ
char2value c =
    if leb c b'9' && leb b'0' c
    then c - b'0'
    else if leb c b'f' && leb b'a' c
    then c - b'a' + 10
    else if leb c b'F' && leb b'A' c
    then c - b'A' + 10
    else 0

-- The loop of `rns_hex2dec` over the first `size` bytes; `first` holds at i = 0.
hex_loop : Bool → ℕ → ℕ → List ℕ → Option ℕ
hex_loop first zero value hex = some value
hex_loop first (suc left) value [] = none
hex_loop first (suc left) value (c ∷ hex) =
    let shifted = if first then value else u32 (value <<< 4) in
    hex_loop false left (u32 (shifted + char2value c)) hex

unfoldable pub hex2dec : List ℕ → ℕ → Option ℕ
unfolding hex_loop char2value
hex2dec hex size = hex_loop true (if ltb 8 size then 8 else size) 0 hex
