-- ===== src/Ts/Sections.antt =====
-- What parse_pat and parse_pmt of lib_src/media/ts.c read from a section that is written as the
-- standard has it.
use yclib.Base.{
  ℕ, zero, suc, ◌+◌, ◌-◌, ◌*◌, ◌/◌, ◌%◌, ◌^◌, ◌<◌, ◌≤◌, ◌≡◌, refl, ◌∙◌, bit_and, bit_or, Bool, true,
  false, some, List, [], ◌∷◌, ◌++◌, map, ltb, ◌<<<◌, drop, take, length, All, arith, bit_or-shl,
  bit_and_ones, eq_of_check,
}
use yclib.Ts.{pid_of}
use yclib.Ts.Bytes.{pid_of_lem}
use yclib.Ts.Tables.{Program, pat_loop, program_num, parse_pat, Stream, pmt_loop, parse_pmt}

-- No call of rns_malloc fails.
abbrev pub enough : ℕ → Bool
enough call = true

-- A program of a section: its 16-bit number and its 13-bit pid behind three set bits.
abbrev pub write_program : Program → List ℕ → List ℕ
write_program p rest =
    (p.program_number / 256)
    ∷ (p.program_number % 256)
    ∷ (0xe0 + p.program_map_pid / 256)
    ∷ (p.program_map_pid % 256)
    ∷ rest

abbrev pub write_programs : List Program → List ℕ → List ℕ
write_programs [] rest = rest
write_programs (p ∷ ps) rest = write_program p (write_programs ps rest)

abbrev pub ProgramFits : Program → Type 0
ProgramFits p = (p.program_number < 2 ^ 16) × (p.program_map_pid < 2 ^ 13)

-- A section: table, length (12 bits behind 1011), five bytes, the programs, and what follows.
abbrev pub write_pat : ℕ → List Program → List ℕ → List ℕ
write_pat table ps rest =
    let size = 9 + 4 * length ps in
    table ∷ (0xb0 + size / 256) ∷ (size % 256) ∷ 0 ∷ 1 ∷ 0xc1 ∷ 0 ∷ 0 ∷ write_programs ps rest

low_half : (b : ℕ) → b < 256 → bit_and b (0x0f <<< 8) ≡ 0
low_half b h = eq_of_check (λ y. bit_and y (0x0f <<< 8)) (λ y. 0) b refl h

low_byte : (b low : ℕ) → b < 256 → low < 256 → bit_or (bit_and b (0x0f <<< 8)) low ≡ low
low_byte b low h k = rw (low_half b h) (bit_or-shl 8 0 low k ∙ omega arith)

written_pid : (pid : ℕ) → pid < 2 ^ 13 → pid_of (0xe0 + pid / 256) (pid % 256) ≡ pid
written_pid pid h = pid_of_lem (0xe0 + pid / 256) (pid % 256) (omega arith) ∙ omega arith

written_number : (n : ℕ) → n < 2 ^ 16 → bit_or (n / 256 <<< 8) (n % 256) ≡ n
written_number n h = bit_or-shl 8 (n / 256) (n % 256) (omega arith) ∙ omega arith

pat_loop-write :
    (k : ℕ) (ps : List Program) (rest : List ℕ) (call : ℕ)
    → k ≤ length ps
    → All ProgramFits ps
    → pat_loop enough k (write_programs ps rest) call ≡ some (take k ps)
unfolding pat_loop
pat_loop-write zero ps rest call h fits = refl
pat_loop-write (suc k) [] rest call h fits = absurd (omega arith)
pat_loop-write (suc k) (p ∷ ps) rest call h (fit, fits) =
    rw
      (
        written_number p.program_number fit.0,
        written_pid p.program_map_pid fit.1,
        pat_loop-write k ps rest (suc call) (omega arith) fits,
      )
      refl

-- `parse_pat` of a section with up to 1,021 bytes behind its length reads the programs back in
-- their order, but only as many as the low byte of the length leaves room for: all of them up to 61,
-- and fewer from there on. The low byte is taken to be 9 at least, where no wrap occurs.
pub parse_pat-write :
    (table : ℕ) (ps : List Program) (rest : List ℕ)
    → All ProgramFits ps
    → 9 + 4 * length ps ≤ 1021
    → 9 ≤ (9 + 4 * length ps) % 256
    → parse_pat enough (write_pat table ps rest)
      ≡ some (
          some (record {
            table_id = table;
            section_length = (9 + 4 * length ps) % 256;
            programs = take (((9 + 4 * length ps) % 256 - 9) / 4) ps;
          }))
unfolding parse_pat program_num
parse_pat-write table ps rest fits small wide =
    let size = 9 + 4 * length ps in
    let number : program_num (size % 256) ≡ (size % 256 - 9) / 4 = ground arith in
    rw
      (
        low_byte (0xb0 + size / 256) (size % 256) (omega arith) (omega arith),
        number,
        pat_loop-write ((size % 256 - 9) / 4) ps rest 1 (omega arith) fits,
      )
      refl

-- A stream of a section: its type, its pid, and its descriptors behind their length.
pub record Entry : Type 0 where
  pub stream : Stream
  pub descriptors : List ℕ

abbrev pub write_entry : Entry → List ℕ → List ℕ
write_entry e rest =
    e.stream.stream_type
    ∷ (0xe0 + e.stream.stream_pid / 256)
    ∷ (e.stream.stream_pid % 256)
    ∷ 0xf0
    ∷ length e.descriptors
    ∷ (e.descriptors ++ rest)

abbrev pub write_entries : List Entry → List ℕ → List ℕ
write_entries [] rest = rest
write_entries (e ∷ es) rest = write_entry e (write_entries es rest)

abbrev pub entries_size : List Entry → ℕ
entries_size [] = 0
entries_size (e ∷ es) = 5 + length e.descriptors + entries_size es

abbrev pub EntryFits : Entry → Type 0
EntryFits e = (e.stream.stream_pid < 2 ^ 13) × (length e.descriptors < 256)

-- A section: table, length, five bytes, the clock's pid, no descriptors of the program, the streams.
abbrev pub write_pmt : ℕ → ℕ → List Entry → List ℕ → List ℕ
write_pmt table clock es rest =
    let size = 13 + entries_size es in
    table
    ∷ (0xb0 + size / 256)
    ∷ (size % 256)
    ∷ 0
    ∷ 1
    ∷ 0xc1
    ∷ 0
    ∷ 0
    ∷ (0xe0 + clock / 256)
    ∷ (clock % 256)
    ∷ 0xf0
    ∷ 0
    ∷ write_entries es rest

drop-append : (xs ys : List ℕ) → drop (length xs) (xs ++ ys) ≡ ys
drop-append [] ys = refl
drop-append (x ∷ xs) ys = drop-append xs ys

pmt_loop-write :
    (rounds : ℕ) (es : List Entry) (rest : List ℕ) (walker call : ℕ)
    → entries_size es < rounds
    → All EntryFits es
    → pmt_loop enough rounds (write_entries es rest) walker (walker + entries_size es) call
      ≡ some (map (λ e. e.stream) es)
unfolding pmt_loop
pmt_loop-write zero es rest walker call fuel fits = absurd (omega arith)
pmt_loop-write (suc rounds) [] rest walker call fuel fits =
    let done : ltb walker (walker + 0) ≡ false = ground arith in rw (pmt_loop, done) refl
pmt_loop-write (suc rounds) (e ∷ es) rest walker call fuel (fit, fits) =
    let size = length e.descriptors in
    let on : ltb walker (walker + (5 + size + entries_size es)) ≡ true = ground arith in
    let same : walker + (5 + size + entries_size es) ≡ walker + size + 5 + entries_size es =
      omega arith in
    rw
      (
        pmt_loop,
        on,
        low_byte 0xf0 size (omega arith) (omega arith),
        written_pid e.stream.stream_pid fit.0,
        drop-append e.descriptors (write_entries es rest),
        same,
        pmt_loop-write rounds es rest (walker + size + 5) (suc call) (omega arith) fits,
      )
      refl

-- `parse_pmt` of a section without descriptors of the program, with up to 4,095 bytes behind its
-- length and fewer than 256 bytes of descriptors in each stream, ends, and reads the length, the
-- clock's pid and the streams back in their order.
pub parse_pmt-write :
    (table clock : ℕ) (es : List Entry) (rest : List ℕ)
    → clock < 2 ^ 13
    → All EntryFits es
    → 13 + entries_size es < 4096
    → parse_pmt enough (write_pmt table clock es rest)
      ≡ some (
          some (record {
            table_id = table;
            section_length = 13 + entries_size es;
            pcr_pid = clock;
            streams = map (λ e. e.stream) es;
          }))
unfolding parse_pmt
parse_pmt-write table clock es rest fit fits small =
    let size = 13 + entries_size es in
    let twelve : bit_or (bit_and (0xb0 + size / 256) 0x0f <<< 8) (size % 256) ≡ size =
      rw (bit_and_ones 4 (0xb0 + size / 256))
        (bit_or-shl 8 ((0xb0 + size / 256) % 2 ^ 4) (size % 256) (omega arith) ∙ omega arith) in
    let end : 3 + size - 4 ≡ 12 + entries_size es = omega arith in
    rw
      (
        twelve,
        written_pid clock fit,
        end,
        pmt_loop-write (12 + entries_size es + 1) es rest 12 1 (omega arith) fits,
      )
      refl
