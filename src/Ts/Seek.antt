-- ===== src/Ts/Seek.antt =====
-- lib_src/media/ts.c, is_idr and the searches that parse the tables first. A call of rns_malloc
-- succeeds as `pat_mem` and `pmt_mem` say, for the one table and the other.
use yclib.Base.{
  ℕ, zero, suc, ◌+◌, ◌-◌, ◌/◌, bit_and, Bool, true, false, Option, none, some, List, [], ◌∷◌, ltb,
  ◌==◌, if◌then◌else◌, u32, sub32, ◌>>=◌, get_elem?, drop,
}
use yclib.Ts.{packet_size, is_pid, scan, find_pid, find_pat, find_pcr, find_pcr_r, get_pcr}
use yclib.Ts.Tables.{Program, parse_pat, parse_pmt}

-- The condition in the loop of `is_idr`, whose reads stop at the first byte that differs.
unfoldable pub idr_code : List ℕ → ℕ → Option Bool
idr_code buf q = do
  c0 ← get_elem? buf q
  if c0 == 0x00
      then (do
        c1 ← get_elem? buf (q + 1)
        if c1 == 0x00
            then (do
              c2 ← get_elem? buf (q + 2)
              if c2 == 0x01
                  then (do c3 ← get_elem? buf (q + 3); some (bit_and c3 0x1f == 0x05))
                  else some false)
            else some false)
      else some false

-- The loop of `is_idr`, `count` rounds of it left
unfoldable pub idr_loop : List ℕ → ℕ → ℕ → Option Bool
idr_loop buf zero q = some false
idr_loop buf (suc count) q =
    let rest = idr_loop buf count (suc q) in
    idr_code buf q >>= λ hit. if hit then some true else rest

unfoldable pub is_idr : List ℕ → ℕ → Option Bool
unfolding idr_code idr_loop
is_idr buf p = do
  b1 ← get_elem? buf (p + 1)
  if bit_and b1 0x40 == 0 then some false else idr_loop buf 184 p

unfoldable pub find_idr : List ℕ → ℕ → ℕ → ℕ → Option (Option ℕ)
unfolding is_idr
find_idr buf ts_ptr ts_end pid =
    scan (λ w. is_pid buf w pid >>= λ same. if same then is_idr buf w else some false)
      (ts_end - ts_ptr + 1) ts_ptr ts_end

-- The loop over the programs of a table: the last one with number 1 decides.
unfoldable pub pmt_pid : ℕ → List Program → ℕ
pmt_pid found [] = found
pmt_pid found (p ∷ ps) = pmt_pid (if p.program_number == 1 then p.program_map_pid else found) ps

unfoldable pub find_first_pmt : (ℕ → Bool) → List ℕ → ℕ → ℕ → Option (Option ℕ)
unfolding pmt_pid
find_first_pmt pat_mem buf ts_ptr ts_end = do
  found ← find_pat buf ts_ptr ts_end
  elim found [
    | none ↦ some none
    | some pat_offset ↦ (do
      parsed ← parse_pat pat_mem (drop (pat_offset + 5) buf)
      pat ← parsed
      find_pid buf (ts_ptr + packet_size) ts_end (pmt_pid 0 pat.programs))
  ]

unfoldable pub find_pcr_pid : (ℕ → Bool) → (ℕ → Bool) → List ℕ → ℕ → ℕ → Option ℕ
unfolding find_first_pmt
find_pcr_pid pat_mem pmt_mem buf ts_ptr ts_end = do
  found ← find_first_pmt pat_mem buf ts_ptr ts_end
  elim found [
    | none ↦ some 0
    | some pmt_offset ↦ (do
      parsed ← parse_pmt pmt_mem (drop (pmt_offset + 5) buf)
      pmt ← parsed
      some (pmt.pcr_pid))
  ]

-- The loop of `find_ts_by_pcr`; the inner `none` says that the rounds have run out.
unfoldable pub seek_loop : ℕ → List ℕ → ℕ → ℕ → ℕ → ℕ → ℕ → Option (Option ℕ)
seek_loop zero buf tick ts_end pid first last = some none
seek_loop (suc rounds) buf tick ts_end pid first last = elim (ltb first last) [
  | false ↦ some (some first)
  | true ↦ (do
    found_first ← find_pcr buf first ts_end pid
    pcr_start_offset ← found_first
    pcr_start ← get_pcr buf pcr_start_offset
    found_last ← find_pcr_r buf last ts_end pid
    pcr_end_offset ← found_last
    pcr_end ← get_pcr buf pcr_end_offset
    let middle = pcr_start_offset + (pcr_end_offset - pcr_start_offset) / 2
    elim (ltb tick (u32 (pcr_start + pcr_end) / 2)) [
      | true ↦ seek_loop rounds buf tick ts_end pid pcr_start_offset middle
      | false ↦ seek_loop rounds buf tick ts_end pid middle pcr_end_offset
    ])
]

unfoldable pub find_ts_by_pcr : ℕ → (ℕ → Bool) → (ℕ → Bool) → List ℕ → ℕ → ℕ → ℕ → Option (Option ℕ)
unfolding find_pcr_pid seek_loop
find_ts_by_pcr rounds pat_mem pmt_mem buf ts_ptr ts_end tick = do
  pid ← find_pcr_pid pat_mem pmt_mem buf ts_ptr ts_end
  seek_loop rounds buf tick ts_end pid ts_ptr ts_end

unfoldable pub find_duration_by_offset : (ℕ → Bool) → (ℕ → Bool) → List ℕ → ℕ → ℕ → ℕ → ℕ → Option ℕ
unfolding find_pcr_pid
find_duration_by_offset pat_mem pmt_mem buf ts_ptr ts_end start_offset end_offset = do
  pid ← find_pcr_pid pat_mem pmt_mem buf ts_ptr ts_end
  found_first ← find_pcr buf start_offset ts_end pid
  found_last ← find_pcr_r buf end_offset ts_ptr pid
  pcr_start_offset ← found_first
  pcr_start ← get_pcr buf pcr_start_offset
  pcr_end_offset ← found_last
  pcr_end ← get_pcr buf pcr_end_offset
  some (sub32 pcr_end pcr_start)
