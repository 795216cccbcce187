-- ===== src/Ts/Find.antt =====
-- The searches for a packet in a whole number of packets that lie in the buffer.
use yclib.Base.{
  ℕ, ◌+◌, ◌-◌, ◌<◌, ◌≤◌, ◌≡◌, refl, Bool, true, false, ◌||◌, Option, some, List, ◌>>=◌, arith,
  bit_and, ◌==◌, if◌then◌else◌, length, get_elem?,
}
use yclib.Ts.{
  packet_size, is_pat, is_pid, is_pcr, find_pid, find_pat, find_pcr, find_pat_r, find_pcr_r,
}
use yclib.Ts.Bytes.{get_elem?-inside}
use yclib.Ts.Scan.{packet, FirstAt, LastAt, scan-FirstAt, scan_back-LastAt}

abbrev Decided : Option Bool → Type 0
Decided o = (b : Bool) × (o ≡ some b)

if-Decided : (c : Bool) {x y : Option Bool} → Decided x → Decided y → Decided (if c then x else y)
if-Decided true first second = first
if-Decided false first second = second

bind-Decided :
    {A : Type 0} {o : Option A} {f : A → Option Bool}
    → (a : A) × (o ≡ some a)
    → ((a : A) → Decided (f a))
    → Decided (o >>= f)
bind-Decided {A} {o} {f} (a, e) later = rw e (later a)

module _ (buf : List ℕ) (p : ℕ) (inside : p + packet_size ≤ length buf) where
  byte : (i : ℕ) → i < packet_size → (b : ℕ) × (get_elem? buf (p + i) ≡ some b)
  byte i h = get_elem?-inside buf (p + i) (omega arith)

  first_byte : (b : ℕ) × (get_elem? buf p ≡ some b)
  first_byte = get_elem?-inside buf p (omega arith)

  is_pat-Decided : Decided (is_pat buf p)
  unfolding is_pat
  is_pat-Decided = bind-Decided first_byte (λ b0.
      if-Decided (b0 == 0x47)
        (bind-Decided (byte 1 (omega arith)) (λ b1.
          if-Decided (bit_and b1 0x40 == 0x40)
            (bind-Decided (byte 2 (omega arith)) (λ b2. (_, refl))) (_, refl)))
        (_, refl))

  is_pid-Decided : (pid : ℕ) → Decided (is_pid buf p pid)
  unfolding is_pid
  is_pid-Decided pid = bind-Decided first_byte (λ b0.
      if-Decided (b0 == 0x47)
        (bind-Decided (byte 1 (omega arith))
          (λ b1. bind-Decided (byte 2 (omega arith)) (λ b2. (_, refl))))
        (_, refl))

  is_pcr-Decided : (pid : ℕ) → Decided (is_pcr buf p pid)
  unfolding is_pcr
  is_pcr-Decided pid = bind-Decided (is_pid-Decided pid) (λ same.
      if-Decided same
        (bind-Decided (byte 3 (omega arith)) (λ b3.
          if-Decided (bit_and b3 0x30 == 0x20 || bit_and b3 0x30 == 0x30)
            (bind-Decided (byte 5 (omega arith)) (λ b5. (_, refl))) (_, refl)))
        (_, refl))

module _ (buf : List ℕ) (start n : ℕ) (inside : packet start n ≤ length buf) where
  readable : (j : ℕ) → j < n → packet start j + packet_size ≤ length buf
  readable j h = omega arith

  -- Forward, `find_pat` returns the first packet between its pointers that starts a program
  -- association table, and NULL where none does.
  pub find_pat-FirstAt :
      (r : Option ℕ) × (find_pat buf start (packet start n) ≡ some r)
      × FirstAt (is_pat buf) start n r
  unfolding find_pat
  find_pat-FirstAt =
      scan-FirstAt (is_pat buf) n (packet start n - start + 1) start
        (λ j h. is_pat-Decided buf (packet start j) (readable j h)) (omega arith)

  -- Likewise `find_pid` for the packets of a pid.
  pub find_pid-FirstAt :
      (pid : ℕ)
      → (r : Option ℕ) × (find_pid buf start (packet start n) pid ≡ some r)
        × FirstAt (λ w. is_pid buf w pid) start n r
  unfolding find_pid
  find_pid-FirstAt pid =
      scan-FirstAt (λ w. is_pid buf w pid) n (packet start n - start + 1) start
        (λ j h. is_pid-Decided buf (packet start j) (readable j h) pid) (omega arith)

  -- `find_pcr` returns the first packet of a pid that carries a clock reference, and NULL where
  -- none does; the packets between its pointers are whole and lie in the buffer.
  pub find_pcr-FirstAt :
      (pid : ℕ)
      → (r : Option ℕ) × (find_pcr buf start (packet start n) pid ≡ some r)
        × FirstAt (λ w. is_pcr buf w pid) start n r
  unfolding find_pcr
  find_pcr-FirstAt pid =
      scan-FirstAt (λ w. is_pcr buf w pid) n (packet start n - start + 1) start
        (λ j h. is_pcr-Decided buf (packet start j) (readable j h) pid) (omega arith)

  -- `find_pat_r`, from the end: the last such packet.
  pub find_pat_r-LastAt :
      (r : Option ℕ) × (find_pat_r buf (packet start n) start ≡ some r)
      × LastAt (is_pat buf) start n r
  unfolding find_pat_r
  find_pat_r-LastAt =
      scan_back-LastAt (is_pat buf) n (packet start n + 1) start
        (λ j h. is_pat-Decided buf (packet start j) (readable j h)) (omega arith)

  -- `find_pcr_r` goes backward from the end of the same packets and returns the last of a pid that
  -- carries a clock reference, and NULL where none does.
  pub find_pcr_r-LastAt :
      (pid : ℕ)
      → (r : Option ℕ) × (find_pcr_r buf (packet start n) start pid ≡ some r)
        × LastAt (λ w. is_pcr buf w pid) start n r
  unfolding find_pcr_r
  find_pcr_r-LastAt pid =
      scan_back-LastAt (λ w. is_pcr buf w pid) n (packet start n + 1) start
        (λ j h. is_pcr-Decided buf (packet start j) (readable j h) pid) (omega arith)
