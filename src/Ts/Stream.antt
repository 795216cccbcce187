-- ===== src/Ts/Stream.antt =====
-- From the first packet of a stream to the pid of its clock: find_first_pmt and find_pcr_pid of
-- lib_src/media/ts.c on a stream that begins with its tables.
use yclib.Base.{
  ℕ, zero, suc, ◌+◌, ◌-◌, ◌*◌, ◌/◌, ◌%◌, ◌^◌, ◌<◌, ◌≡◌, refl, ap, sym, ◌∙◌, Bool, true, Option,
  some, List, [], ◌∷◌, ◌++◌, ltb, get_elem?, drop, take, length, All, arith,
}
use yclib.Ts.{pid_of, is_pat, is_pid, scan, find_pid, find_pat}
use yclib.Ts.Bytes.{pid_of_lem}
use yclib.Ts.Tables.{Program, parse_pat}
use yclib.Ts.Sections.{
  enough, write_programs, write_pat, ProgramFits, parse_pat-write, Entry, EntryFits, entries_size,
  write_pmt, parse_pmt-write,
}
use yclib.Ts.Seek.{pmt_pid, find_first_pmt, find_pcr_pid}

-- A packet that starts a section: sync byte, start bit, pid, payload only, pointer 0, and the section.
abbrev pub write_packet : ℕ → List ℕ → List ℕ
write_packet pid section = 0x47 ∷ (0x40 + pid / 256) ∷ (pid % 256) ∷ 0x10 ∷ 0 ∷ section

get_elem?-append : (xs ys : List ℕ) (i : ℕ) → get_elem? (xs ++ ys) (length xs + i) ≡ get_elem? ys i
get_elem?-append [] ys i = ap (get_elem? ys) (omega arith)
get_elem?-append (x ∷ xs) ys i =
    let next : suc (length xs) + i ≡ suc (length xs + i) = omega arith in
    rw next (get_elem?-append xs ys i)

drop-append_more : (xs ys : List ℕ) (i : ℕ) → drop (length xs + i) (xs ++ ys) ≡ drop i ys
drop-append_more [] ys i = ap (λ k. drop k ys) (omega arith)
drop-append_more (x ∷ xs) ys i =
    let next : suc (length xs) + i ≡ suc (length xs + i) = omega arith in
    rw next (drop-append_more xs ys i)

write_programs-append :
    (ps : List Program) (xs ys : List ℕ) → write_programs ps xs ++ ys ≡ write_programs ps (xs ++ ys)
write_programs-append [] xs ys = refl
write_programs-append (p ∷ ps) xs ys =
    ap
      (λ t.
        (p.program_number / 256)
        ∷ (p.program_number % 256)
        ∷ (0xe0 + p.program_map_pid / 256)
        ∷ (p.program_map_pid % 256)
        ∷ t)
      (write_programs-append ps xs ys)

length-write_programs :
    (ps : List Program) (xs : List ℕ) → length (write_programs ps xs) ≡ 4 * length ps + length xs
length-write_programs [] xs = omega arith
length-write_programs (p ∷ ps) xs = omega (arith, length-write_programs ps xs)

take_programs : (ps : List Program) → take (length ps) ps ≡ ps
take_programs [] = refl
take_programs (p ∷ ps) = ap (λ t. p ∷ t) (take_programs ps)

scan_hit :
    (test : ℕ → Option Bool) (rounds start end : ℕ)
    → test start ≡ some true
    → start < end
    → 0 < rounds
    → scan test rounds start end ≡ some (some start)
unfolding scan
scan_hit test zero start end hit less fuel = absurd (omega arith)
scan_hit test (suc rounds) start end hit less fuel =
    let on : ltb start end ≡ true = ground arith in rw (on, hit) refl

-- The packet behind the first one.
module _ (xs : List ℕ) (whole : length xs ≡ 188) (pid : ℕ) (section : List ℕ) where
  second_byte :
      (i : ℕ)
      → get_elem? (xs ++ write_packet pid section) (188 + i)
        ≡ get_elem? (write_packet pid section) i
  second_byte i =
      ap (λ k. get_elem? (xs ++ write_packet pid section) (k + i)) (sym whole)
      ∙ get_elem?-append xs (write_packet pid section) i

  is_pid-second : pid < 2 ^ 13 → is_pid (xs ++ write_packet pid section) 188 pid ≡ some true
  unfolding is_pid
  is_pid-second fits =
      let b0 : get_elem? (xs ++ write_packet pid section) 188 ≡ some 0x47 = second_byte 0 in
      let b1 : get_elem? (xs ++ write_packet pid section) 189 ≡ some (0x40 + pid / 256) =
        second_byte 1 in
      let b2 : get_elem? (xs ++ write_packet pid section) 190 ≡ some (pid % 256) = second_byte 2 in
      let same : pid_of (0x40 + pid / 256) (pid % 256) ≡ pid =
        pid_of_lem (0x40 + pid / 256) (pid % 256) (omega arith) ∙ omega arith in
      rw (b0, b1, b2, same) (ground arith)

  section-second : drop 193 (xs ++ write_packet pid section) ≡ section
  section-second =
      ap (λ k. drop (k + 5) (xs ++ write_packet pid section)) (sym whole)
      ∙ drop-append_more xs (write_packet pid section) 5

  find_pid-second :
      (end : ℕ)
      → pid < 2 ^ 13
      → 188 < end
      → find_pid (xs ++ write_packet pid section) 188 end pid ≡ some (some 188)
  unfolding find_pid
  find_pid-second end fits less =
      scan_hit (λ w. is_pid (xs ++ write_packet pid section) w pid) (end - 188 + 1) 188 end
        (is_pid-second fits) less (omega arith)

-- The first packet, with the program association table, filled up to its size.
abbrev pub first_packet : List Program → List ℕ → List ℕ
first_packet ps fill = write_packet 0 (write_pat 0 ps fill)

module _ (ps : List Program) (fits : All ProgramFits ps) (fill : List ℕ)
    (whole : length fill + (13 + 4 * length ps) ≡ 188) (pid : ℕ) (last_first : pmt_pid 0 ps ≡ pid)
    (small : pid < 2 ^ 13) (section : List ℕ) (end : ℕ) (two : 188 < end) where
  abbrev stream : List ℕ
  stream = first_packet ps fill ++ write_packet pid section

  find_pat-stream : find_pat stream 0 end ≡ some (some 0)
  unfolding find_pat is_pat
  find_pat-stream = scan_hit (is_pat stream) (end - 0 + 1) 0 end refl (omega arith) (omega arith)

  parse_pat-stream :
      parse_pat enough (drop 5 stream)
      ≡ some (some (record { table_id = 0; section_length = 9 + 4 * length ps; programs = ps }))
  parse_pat-stream =
      let tail = write_packet pid section in
      let size : (9 + 4 * length ps) % 256 ≡ 9 + 4 * length ps = omega arith in
      let count : (9 + 4 * length ps - 9) / 4 ≡ length ps = omega arith in
      let read = parse_pat-write 0 ps (fill ++ tail) fits (omega arith) (omega arith) in
      ap
        (λ t. parse_pat enough (
          0
          ∷ (0xb0 + (9 + 4 * length ps) / 256)
          ∷ ((9 + 4 * length ps) % 256)
          ∷ 0
          ∷ 1
          ∷ 0xc1
          ∷ 0
          ∷ 0
          ∷ t))
        (write_programs-append ps fill tail)
      ∙ read
      ∙ rw (size, count, take_programs ps) refl

  find_first_pmt-stream : find_first_pmt enough stream 0 end ≡ some (some 188)
  unfolding find_first_pmt
  find_first_pmt-stream =
      let length_first : length (first_packet ps fill) ≡ 188 =
        omega (arith, length-write_programs ps fill) in
      rw (find_pat-stream, parse_pat-stream, last_first)
        (find_pid-second (first_packet ps fill) length_first pid section end small two)

-- On a stream whose first packet holds the program association table and whose second one holds the
-- program map table of program 1, `find_pcr_pid` returns the pid of the clock that this table
-- names. Both tables are as the standard has them, fit their packets' bounds, and memory suffices.
pub find_pcr_pid-stream :
    (ps : List Program) (es : List Entry) (fill rest : List ℕ) (pid clock end : ℕ)
    → All ProgramFits ps
    → length fill + (13 + 4 * length ps) ≡ 188
    → pmt_pid 0 ps ≡ pid
    → pid < 2 ^ 13
    → clock < 2 ^ 13
    → All EntryFits es
    → 13 + entries_size es < 4096
    → 188 < end
    → find_pcr_pid enough enough
        (first_packet ps fill ++ write_packet pid (write_pmt 2 clock es rest))
        0
        end
      ≡ some clock
unfolding find_pcr_pid
find_pcr_pid-stream ps es fill rest pid clock end fits whole last_first small clock_small es_fit
      es_small two =
    let section = write_pmt 2 clock es rest in
    let length_first : length (first_packet ps fill) ≡ 188 =
      omega (arith, length-write_programs ps fill) in
    rw
      (
        find_first_pmt-stream ps fits fill whole pid last_first small section end two,
        section-second (first_packet ps fill) length_first pid section,
        parse_pmt-write 2 clock es rest clock_small es_fit es_small,
      )
      refl
