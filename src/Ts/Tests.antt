-- ===== src/Ts/Tests.antt =====
-- lib_src/media/ts.c on packets and sections.
use yclib.Base.{ℕ, zero, suc, ◌≡◌, refl, some, List, [], ◌∷◌, ◌++◌, arith}
use yclib.Ts.Tables.{Program, parse_pat, Stream, parse_pmt}
use yclib.Ts.Sections.{enough, write_pat, write_pmt, Entry, parse_pat-write, parse_pmt-write}
use yclib.Ts.Seek.{pmt_pid, find_pcr_pid}
use yclib.Ts.Stream.{write_packet, first_packet, find_pcr_pid-stream}

abbrev repeat : ℕ → List ℕ
repeat zero = []
repeat (suc n) = 0 ∷ repeat n

-- a packet that starts a program association table, and one of the pid 256 with a clock reference
abbrev pat_packet : List ℕ
pat_packet = 0x47 ∷ 0x40 ∷ 0 ∷ 0x10 ∷ repeat 184

abbrev pcr_packet : List ℕ
pcr_packet = 0x47 ∷ 0x01 ∷ 0 ∷ 0x20 ∷ 183 ∷ 0x10 ∷ 0 ∷ 0 ∷ 0 ∷ 1 ∷ 0x80 ∷ repeat 177

abbrev stream : List ℕ
stream = pat_packet ++ pcr_packet ++ pcr_packet

abbrev programs : List Program
programs =
    record { program_number = 1; program_map_pid = 256 }
    ∷ record { program_number = 2; program_map_pid = 512 }
    ∷ []

parse_pat-write_example :
    parse_pat enough (write_pat 0 programs (1 ∷ 2 ∷ 3 ∷ 4 ∷ []))
    ≡ some (some (record { table_id = 0; section_length = 17; programs = programs }))
parse_pat-write_example =
    parse_pat-write 0 programs (1 ∷ 2 ∷ 3 ∷ 4 ∷ [])
      ((omega arith, omega arith), ((omega arith, omega arith), tt)) (omega arith) (omega arith)

abbrev video : Stream
video = record { stream_type = 27; stream_pid = 257 }

abbrev audio : Stream
audio = record { stream_type = 15; stream_pid = 258 }

abbrev entries : List Entry
entries =
    record { stream = video; descriptors = [] }
    ∷ record { stream = audio; descriptors = 10 ∷ 0 ∷ [] }
    ∷ []

parse_pmt-write_example :
    parse_pmt enough (write_pmt 2 257 entries [])
    ≡ some (
        some (record {
          table_id = 2;
          section_length = 25;
          pcr_pid = 257;
          streams = video ∷ audio ∷ [];
        }))
parse_pmt-write_example =
    parse_pmt-write 2 257 entries [] (omega arith)
      ((omega arith, omega arith), ((omega arith, omega arith), tt)) (omega arith)

-- a stream of two packets: program 2 on pid 512 and program 1 on pid 256, with its clock on pid 257
abbrev two_programs : List Program
two_programs =
    record { program_number = 2; program_map_pid = 512 }
    ∷ record { program_number = 1; program_map_pid = 256 }
    ∷ []

two_programs-first : pmt_pid 0 two_programs ≡ 256
unfolding pmt_pid
two_programs-first = refl

find_pcr_pid-stream_example :
    find_pcr_pid enough enough
      (first_packet two_programs (repeat 167)
        ++ write_packet 256 (write_pmt 2 257 entries (repeat 155)))
      0
      376
    ≡ some 257
find_pcr_pid-stream_example =
    find_pcr_pid-stream two_programs entries (repeat 167) (repeat 155) 256 257 376
      ((omega arith, omega arith), ((omega arith, omega arith), tt)) refl two_programs-first
      (omega arith) (omega arith) ((omega arith, omega arith), ((omega arith, omega arith), tt))
      (omega arith) (omega arith)
