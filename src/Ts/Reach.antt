-- ===== src/Ts/Reach.antt =====
-- What the searches of lib_src/media/ts.c that go through the tables reach.
use yclib.Base.{
  ℕ, zero, suc, ◌+◌, ◌<◌, ◌≤◌, ◌≡◌, refl, Bool, true, false, Option, none, some, List, ltb, leb,
  ◌>>=◌, arith,
}
use yclib.Ts.{packet_size, is_pcr, scan_back, find_pcr, find_pcr_r, get_pcr}
use yclib.Ts.Seek.{seek_loop, find_pcr_pid, find_ts_by_pcr}

nothing_behind :
    (test : ℕ → Option Bool) (rounds last ts_end : ℕ)
    → last ≤ ts_end
    → 0 < rounds
    → scan_back test rounds last ts_end ≡ some none
unfolding scan_back
nothing_behind test zero last ts_end h fuel = absurd (omega arith)
nothing_behind test (suc rounds) last ts_end h fuel =
    let done : leb (ts_end + packet_size) last ≡ false = ground arith in rw done refl

find_pcr_r-none :
    (buf : List ℕ) (last ts_end pid : ℕ)
    → last ≤ ts_end
    → find_pcr_r buf last ts_end pid ≡ some none
unfolding find_pcr_r
find_pcr_r-none buf last ts_end pid h =
    nothing_behind (λ w. is_pcr buf w pid) (last + 1) last ts_end h (omega arith)

bind-none :
    {A B : Type 0} (o : Option A) (f : A → Option B) → ((a : A) → f a ≡ none) → (o >>= f) ≡ none
bind-none none f h = refl
bind-none (some a) f h = h a

seek_loop-none :
    (rounds : ℕ) (buf : List ℕ) (tick first last pid : ℕ)
    → first < last
    → 0 < rounds
    → seek_loop rounds buf tick last pid first last ≡ none
unfolding seek_loop
seek_loop-none zero buf tick first last pid h fuel = absurd (omega arith)
seek_loop-none (suc rounds) buf tick first last pid h fuel =
    let on : ltb first last ≡ true = ground arith in
    rw (seek_loop, on)
      (bind-none (find_pcr buf first last pid) _ (λ found. bind-none found _ (λ p.
        bind-none (get_pcr buf p) _
          (λ clock. rw (find_pcr_r-none buf last last pid (omega arith)) refl))))

-- `find_ts_by_pcr` never returns: on every stream that is not empty its first round has
-- `find_pcr_r` search behind the end of the stream, gets NULL and reads a clock from it, unless a
-- read before is outside the buffer.
pub find_ts_by_pcr-none :
    (rounds : ℕ) (pat_mem pmt_mem : ℕ → Bool) (buf : List ℕ) (ts_ptr ts_end tick : ℕ)
    → ts_ptr < ts_end
    → 0 < rounds
    → find_ts_by_pcr rounds pat_mem pmt_mem buf ts_ptr ts_end tick ≡ none
unfolding find_ts_by_pcr
find_ts_by_pcr-none rounds pat_mem pmt_mem buf ts_ptr ts_end tick h fuel =
    bind-none (find_pcr_pid pat_mem pmt_mem buf ts_ptr ts_end) _
      (λ pid. seek_loop-none rounds buf tick ts_ptr ts_end pid h fuel)
