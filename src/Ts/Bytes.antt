-- ===== src/Ts/Bytes.antt =====
-- The bytes of a packet in arithmetic: the sync byte, the packet identifier and the flags that
-- `is_pat`, `is_pid` and `is_pcr` test.
use yclib.Base.{
  ℕ, zero, suc, ◌+◌, ◌*◌, ◌/◌, ◌%◌, ◌^◌, ◌<◌, ◌≡◌, refl, Bool, true, false, not, ◌||◌, ◌&&◌, some,
  List, [], ◌∷◌, bit_and, arith, bit_or-shl, bit_and_ones, eq_of_check, check_below, ◌==◌, length,
  get_elem?, ◌>>>◌,
}
use yclib.Ts.{is_pat, is_pid, is_pcr, pid_of, parse_ts}

-- What a packet says of itself, in arithmetic.
abbrev pub pid_value : ℕ → ℕ → ℕ
pid_value high low = high % 32 * 256 + low

pub pid_of_lem : (high low : ℕ) → low < 256 → pid_of high low ≡ pid_value high low
pid_of_lem high low h = rw (bit_and_ones 5 high) (bit_or-shl 8 (high % 2 ^ 5) low h)

-- A read inside the buffer gives a byte.
pub get_elem?-inside :
    (buf : List ℕ) (i : ℕ) → i < length buf → (b : ℕ) × (get_elem? buf i ≡ some b)
get_elem?-inside [] i h = absurd (omega arith)
get_elem?-inside (x ∷ xs) zero h = (x, refl)
get_elem?-inside (x ∷ xs) (suc i) h = get_elem?-inside xs i (omega arith)

bit_value : Bool → ℕ
bit_value true = 1
bit_value false = 0

eq_of_bit_value : (b c : Bool) → bit_value b ≡ bit_value c → b ≡ c
unfolding bit_value
eq_of_bit_value true true h = refl
eq_of_bit_value true false h = absurd (omega arith)
eq_of_bit_value false true h = absurd (omega arith)
eq_of_bit_value false false h = refl

-- A test of one byte that agrees with arithmetic on all 256 values agrees.
module _ (p q : ℕ → Bool)
    (all : check_below 256 (λ y. bit_value (p y) == bit_value (q y)) ≡ true) where
  test_eq : (x : ℕ) → x < 256 → p x ≡ q x
  test_eq x h =
      eq_of_bit_value (p x) (q x)
        (eq_of_check (λ y. bit_value (p y)) (λ y. bit_value (q y)) x all h)

start_flag : (b : ℕ) → b < 256 → (bit_and b 0x40 == 0x40) ≡ (b / 64 % 2 == 1)
unfolding bit_value
start_flag = test_eq (λ b. bit_and b 0x40 == 0x40) (λ b. b / 64 % 2 == 1) refl

adaptation_flag :
    (b : ℕ) → b < 256 → (bit_and b 0x30 == 0x20 || bit_and b 0x30 == 0x30) ≡ (b / 32 % 2 == 1)
unfolding bit_value
adaptation_flag =
    test_eq (λ b. bit_and b 0x30 == 0x20 || bit_and b 0x30 == 0x30) (λ b. b / 32 % 2 == 1) refl

clock_flag : (b : ℕ) → b < 256 → not (bit_and b 0x10 == 0) ≡ (b / 16 % 2 == 1)
unfolding bit_value
clock_flag = test_eq (λ b. not (bit_and b 0x10 == 0)) (λ b. b / 16 % 2 == 1) refl

-- `is_pat` recognises the packets that begin with the sync byte, start a unit (bit 6 of the second
-- byte) and have packet identifier 0, the 13 low bits of the second and third byte.
pub is_pat_lem :
    (b0 b1 b2 : ℕ) (rest : List ℕ)
    → b1 < 256
    → b2 < 256
    → is_pat (b0 ∷ b1 ∷ b2 ∷ rest) 0 ≡ some (b0 == 0x47 && b1 / 64 % 2 == 1 && pid_value b1 b2 == 0)
unfolding is_pat
is_pat_lem b0 b1 b2 rest h1 h2 = rw (start_flag b1 h1, pid_of_lem b1 b2 h2) (ground arith)

-- `is_pcr` recognises the packets of a pid that begin with the sync byte, have an adaptation field
-- (bit 5 of the fourth byte) and in it a clock reference (bit 4 of the sixth byte).
pub is_pcr_lem :
    (b0 b1 b2 b3 b4 b5 : ℕ) (rest : List ℕ) (pid : ℕ)
    → b2 < 256
    → b3 < 256
    → b5 < 256
    → is_pcr (b0 ∷ b1 ∷ b2 ∷ b3 ∷ b4 ∷ b5 ∷ rest) 0 pid
      ≡ some (b0 == 0x47 && pid_value b1 b2 == pid && b3 / 32 % 2 == 1 && b5 / 16 % 2 == 1)
unfolding is_pcr is_pid
is_pcr_lem b0 b1 b2 b3 b4 b5 rest pid h2 h3 h5 =
    rw (pid_of_lem b1 b2 h2, adaptation_flag b3 h3, clock_flag b5 h5) (ground arith)

-- Of the fields of a header `parse_ts` reads the sync byte, the flags, the 13 bits of the pid, the
-- scrambling control and the counter where the standard puts them; but `adaptation_field_control`
-- is the two low bits of the fourth byte, part of the counter, not its bits 4 and 5.
pub parse_ts_lem :
    (b0 b1 b2 b3 : ℕ) (rest : List ℕ)
    → b1 < 256
    → b2 < 256
    → b3 < 256
    → parse_ts (b0 ∷ b1 ∷ b2 ∷ b3 ∷ rest) 0
      ≡ some (record {
        sync_byte = b0;
        transport_error_indicator = b1 / 128;
        payload_unit_start_indicator = b1 / 64 % 2;
        transport_priority = b1 / 32 % 2;
        pid = pid_value b1 b2;
        transport_scrambling_control = b3 / 64;
        adaptation_field_control = b3 % 4;
        continuity_counter = b3 % 16;
      })
unfolding parse_ts
parse_ts_lem b0 b1 b2 b3 rest h1 h2 h3 =
    let start : bit_and b1 0x40 >>> 6 ≡ b1 / 64 % 2 =
      eq_of_check (λ b. bit_and b 0x40 >>> 6) (λ b. b / 64 % 2) b1 refl h1 in
    let priority : bit_and b1 0x20 >>> 5 ≡ b1 / 32 % 2 =
      eq_of_check (λ b. bit_and b 0x20 >>> 5) (λ b. b / 32 % 2) b1 refl h1 in
    rw (start, priority, pid_of_lem b1 b2 h2, bit_and_ones 2 b3, bit_and_ones 4 b3) refl
