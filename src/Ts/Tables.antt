-- ===== src/Ts/Tables.antt =====
-- lib_src/media/ts.c, parse_pat and parse_pmt: the program association table and the program map
-- table. The lists begin at the table; `mem` says of each call of rns_malloc whether it succeeds.
-- A list of the C code is the List of its nodes, in the order of rns_list_for_each.
use yclib.Base.{
  ℕ, zero, suc, ◌+◌, ◌-◌, ◌/◌, ◌^◌, bit_and, bit_or, Bool, true, false, Option, none, some, List,
  [], ◌∷◌, ltb, u32, ◌<<<◌, ◌>>=◌, get_elem?, drop,
}
use yclib.Ts.{pid_of}

-- `ts_pat_program_t`
pub record Program : Type 0 where
  pub program_number : ℕ
  pub program_map_pid : ℕ

-- `ts_pat_t`
pub record Pat : Type 0 where
  pub table_id : ℕ
  pub section_length : ℕ
  pub programs : List Program

-- The loop over the programs; a program for which there is no memory is left out.
unfoldable pub pat_loop : (ℕ → Bool) → ℕ → List ℕ → ℕ → Option (List Program)
pat_loop mem zero walker call = some []
pat_loop mem (suc rounds) walker call = elim (mem call) [
  | true ↦ (do
    w0 ← get_elem? walker 0
    w1 ← get_elem? walker 1
    w2 ← get_elem? walker 2
    w3 ← get_elem? walker 3
    rest ← pat_loop mem rounds (drop 4 walker) (suc call)
    some (record { program_number = bit_or (w0 <<< 8) w1; program_map_pid = pid_of w2 w3 } ∷ rest))
  | false ↦ pat_loop mem rounds (drop 4 walker) (suc call)
]

-- `(section_length - 9) / 4`: the division is that of `int`, the result is stored in uint32_t.
unfoldable pub program_num : ℕ → ℕ
program_num section_length = elim (ltb section_length 9) [
  | true ↦ u32 (2 ^ 32 - (9 - section_length) / 4)
  | false ↦ (section_length - 9) / 4
]

-- In `pat_ptr[1] & 0x0F << 8 | pat_ptr[2]` the shift binds tightest.
unfoldable pub parse_pat : (ℕ → Bool) → List ℕ → Option (Option Pat)
unfolding pat_loop program_num
parse_pat mem pat_ptr = elim (mem 0) [
  | false ↦ some none
  | true ↦ (do
    b0 ← get_elem? pat_ptr 0
    b1 ← get_elem? pat_ptr 1
    b2 ← get_elem? pat_ptr 2
    let length12 = bit_or (bit_and b1 (0x0f <<< 8)) b2
    programs ← pat_loop mem (program_num length12) (drop 8 pat_ptr) 1
    some (some (record { table_id = b0; section_length = length12; programs = programs })))
]

abbrev pub parse_pat2 : (ℕ → Bool) → List ℕ → Option (Option Pat)
parse_pat2 mem pat_ptr = parse_pat mem (drop 5 pat_ptr)

-- `ts_pmt_stream_t`
pub record Stream : Type 0 where
  pub stream_type : ℕ
  pub stream_pid : ℕ

-- `ts_pmt_t`
pub record Pmt : Type 0 where
  pub table_id : ℕ
  pub section_length : ℕ
  pub pcr_pid : ℕ
  pub streams : List Stream

-- The loop over the streams: `from` is the list of the bytes from `walker` on. It skips the
-- descriptors of a stream by the low byte of their length, as
-- `(walker[3] & 0x0F << 8) | walker[4]` has it.
unfoldable pub pmt_loop : (ℕ → Bool) → ℕ → List ℕ → ℕ → ℕ → ℕ → Option (List Stream)
pmt_loop mem zero from walker end call = none
pmt_loop mem (suc rounds) from walker end call = elim (ltb walker end) [
  | false ↦ some []
  | true ↦ elim (mem call) [
    | false ↦ pmt_loop mem rounds (drop 5 from) (walker + 5) end (suc call)
    | true ↦ (do
      w0 ← get_elem? from 0
      w1 ← get_elem? from 1
      w2 ← get_elem? from 2
      w3 ← get_elem? from 3
      w4 ← get_elem? from 4
      let skip = bit_or (bit_and w3 (0x0f <<< 8)) w4
      rest ← pmt_loop mem rounds (drop skip (drop 5 from)) (walker + skip + 5) end (suc call)
      some (record { stream_type = w0; stream_pid = pid_of w1 w2 } ∷ rest))
  ]
]

unfoldable pub parse_pmt : (ℕ → Bool) → List ℕ → Option (Option Pmt)
unfolding pmt_loop
parse_pmt mem pmt_ptr = elim (mem 0) [
  | false ↦ some none
  | true ↦ (do
    b0 ← get_elem? pmt_ptr 0
    b1 ← get_elem? pmt_ptr 1
    b2 ← get_elem? pmt_ptr 2
    b8 ← get_elem? pmt_ptr 8
    b9 ← get_elem? pmt_ptr 9
    let length12 = bit_or (bit_and b1 0x0f <<< 8) b2
    let end = 3 + length12 - 4
    streams ← pmt_loop mem (end + 1) (drop 12 pmt_ptr) 12 end 1
    some (
        some (record {
          table_id = b0;
          section_length = length12;
          pcr_pid = pid_of b8 b9;
          streams = streams;
        })))
]

abbrev pub parse_pmt2 : (ℕ → Bool) → List ℕ → Option (Option Pmt)
parse_pmt2 mem pmt_ptr = parse_pmt mem (drop 5 pmt_ptr)
