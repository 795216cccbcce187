-- ===== src/Ts.antt =====
-- lib_src/media/ts.c: MPEG transport streams. A pointer into the stream is an offset into the list
-- of its bytes; where only the bytes from a pointer on matter, the list begins there. `none` is a
-- read outside the buffer or through NULL, and an inner `none` the NULL that the code returns.
pub mod Bytes
pub mod Scan
pub mod Find
pub mod Clock
pub mod Tables
pub mod Sections
pub mod Seek
pub mod Reach
pub mod Stream
mod Tests
use yclib.Base.{
  ℕ, zero, suc, ◌+◌, ◌-◌, ◌*◌, ◌/◌, ◌%◌, ◌^◌, bit_and, bit_or, ◌||◌, Bool, true, false, not, Option,
  none, some, List, [], ◌∷◌, ltb, leb, ◌==◌, if◌then◌else◌, u32, sub32, ◌<<<◌, ◌>>>◌, ◌>>=◌,
  get_elem?, drop, length,
}

abbrev pub packet_size : ℕ
packet_size = 188

-- The pid in the second and third byte of a packet, and likewise in the tables.
abbrev pub pid_of : ℕ → ℕ → ℕ
pid_of high low = bit_or (bit_and high 0x1f <<< 8) low

unfoldable pub is_pat : List ℕ → ℕ → Option Bool
is_pat buf p = do
  b0 ← get_elem? buf p
  if b0 == 0x47
      then (do
        b1 ← get_elem? buf (p + 1)
        if bit_and b1 0x40 == 0x40
            then (do b2 ← get_elem? buf (p + 2); some (pid_of b1 b2 == 0))
            else some false)
      else some false

unfoldable pub is_pid : List ℕ → ℕ → ℕ → Option Bool
is_pid buf p pid = do
  b0 ← get_elem? buf p
  if b0 == 0x47
      then (do b1 ← get_elem? buf (p + 1); b2 ← get_elem? buf (p + 2); some (pid_of b1 b2 == pid))
      else some false

unfoldable pub is_pcr : List ℕ → ℕ → ℕ → Option Bool
is_pcr buf p pid = do
  same ← is_pid buf p pid
  if same
      then (do
        b3 ← get_elem? buf (p + 3)
        if bit_and b3 0x30 == 0x20 || bit_and b3 0x30 == 0x30
            then (do b5 ← get_elem? buf (p + 5); some (not (bit_and b5 0x10 == 0)))
            else some false)
      else some false

-- The loops of `find_pid`, `find_pat` and `find_pcr`, which differ in the test.
unfoldable pub scan : (ℕ → Option Bool) → ℕ → ℕ → ℕ → Option (Option ℕ)
scan test zero walker end = none
scan test (suc rounds) walker end =
    let rest = scan test rounds (walker + packet_size) end in
    if ltb walker end
    then (test walker >>= λ hit. if hit then some (some walker) else rest)
    else some none

-- The loops of `find_pat_r` and `find_pcr_r`; `above` is one packet above the walker.
unfoldable pub scan_back : (ℕ → Option Bool) → ℕ → ℕ → ℕ → Option (Option ℕ)
scan_back test zero above start = none
scan_back test (suc rounds) above start =
    let rest = scan_back test rounds (above - packet_size) start in
    if leb (start + packet_size) above
    then (test (above - packet_size) >>= λ hit.
        if hit then some (some (above - packet_size)) else rest)
    else some none

unfoldable pub find_pid : List ℕ → ℕ → ℕ → ℕ → Option (Option ℕ)
unfolding scan
find_pid buf ts_ptr ts_end pid = scan (λ w. is_pid buf w pid) (ts_end - ts_ptr + 1) ts_ptr ts_end

unfoldable pub find_pat : List ℕ → ℕ → ℕ → Option (Option ℕ)
unfolding scan
find_pat buf ts_ptr ts_end = scan (is_pat buf) (ts_end - ts_ptr + 1) ts_ptr ts_end

unfoldable pub find_pcr : List ℕ → ℕ → ℕ → ℕ → Option (Option ℕ)
unfolding scan
find_pcr buf ts_ptr ts_end pid = scan (λ w. is_pcr buf w pid) (ts_end - ts_ptr + 1) ts_ptr ts_end

unfoldable pub find_pat_r : List ℕ → ℕ → ℕ → Option (Option ℕ)
unfolding scan_back
find_pat_r buf ts_ptr ts_start = scan_back (is_pat buf) (ts_ptr + 1) ts_ptr ts_start

unfoldable pub find_pcr_r : List ℕ → ℕ → ℕ → ℕ → Option (Option ℕ)
unfolding scan_back
find_pcr_r buf ts_ptr ts_start pid = scan_back (λ w. is_pcr buf w pid) (ts_ptr + 1) ts_ptr ts_start

-- The clock reference of a packet. The shifts are done in `int`, and what goes beyond 32 bits is lost.
unfoldable pub get_pcr : List ℕ → ℕ → Option ℕ
get_pcr buf p = do
  b6 ← get_elem? buf (p + 6)
  b7 ← get_elem? buf (p + 7)
  b8 ← get_elem? buf (p + 8)
  b9 ← get_elem? buf (p + 9)
  b10 ← get_elem? buf (p + 10)
  some (
      u32 (
        bit_or (bit_or (bit_or (bit_or (b6 <<< 25) (b7 <<< 17)) (b8 <<< 9)) (b9 <<< 1))
          (b10 >>> 7)))

-- `ts_header_t`
pub record Header : Type 0 where
  pub sync_byte : ℕ
  pub transport_error_indicator : ℕ
  pub payload_unit_start_indicator : ℕ
  pub transport_priority : ℕ
  pub pid : ℕ
  pub transport_scrambling_control : ℕ
  pub adaptation_field_control : ℕ
  pub continuity_counter : ℕ

-- In `walker[3] & 0x30 >> 4` the shift binds tighter.
unfoldable pub parse_ts : List ℕ → ℕ → Option Header
parse_ts buf p = do
  b0 ← get_elem? buf p
  b1 ← get_elem? buf (p + 1)
  b2 ← get_elem? buf (p + 2)
  b3 ← get_elem? buf (p + 3)
  some (record {
    sync_byte = b0;
    transport_error_indicator = b1 >>> 7;
    payload_unit_start_indicator = bit_and b1 0x40 >>> 6;
    transport_priority = bit_and b1 0x20 >>> 5;
    pid = pid_of b1 b2;
    transport_scrambling_control = b3 >>> 6;
    adaptation_field_control = bit_and b3 (0x30 >>> 4);
    continuity_counter = bit_and b3 0x0f;
  })
