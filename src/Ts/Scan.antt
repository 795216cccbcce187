-- ===== src/Ts/Scan.antt =====
-- The loops over the packets between two pointers.
use yclib.Base.{
  ℕ, zero, suc, ◌+◌, ◌-◌, ◌*◌, ◌<◌, ◌≡◌, refl, ap, sym, ◌∙◌, Bool, true, false, Option, none, some,
  arith, ltb, leb, ◌⊎◌, inl, inr,
}
use yclib.Ts.{packet_size, scan, scan_back}

-- `packet start k` is the offset of the packet number `k`.
abbrev pub packet : ℕ → ℕ → ℕ
packet start k = start + k * packet_size

-- the first of `n` packets that passes the test, or NULL where none does
abbrev pub FirstAt : (ℕ → Option Bool) → ℕ → ℕ → Option ℕ → Type 0
FirstAt test start n none = (j : ℕ) → j < n → test (packet start j) ≡ some false
FirstAt test start n (some p) =
    (k : ℕ) × (k < n)
    × (p ≡ packet start k)
    × (test (packet start k) ≡ some true)
    × ((j : ℕ) → j < k → test (packet start j) ≡ some false)

-- the last of them
abbrev pub LastAt : (ℕ → Option Bool) → ℕ → ℕ → Option ℕ → Type 0
LastAt test start n none = (j : ℕ) → j < n → test (packet start j) ≡ some false
LastAt test start n (some p) =
    (k : ℕ) × (k < n)
    × (p ≡ packet start k)
    × (test (packet start k) ≡ some true)
    × ((j : ℕ) → k < j → j < n → test (packet start j) ≡ some false)

-- the test can read each of `n` packets
abbrev pub Decides : (ℕ → Option Bool) → ℕ → ℕ → Type 0
Decides test start n = (j : ℕ) → j < n → (b : Bool) × (test (packet start j) ≡ some b)

Decides-later :
    (test : ℕ → Option Bool) (start n : ℕ)
    → Decides test start (suc n)
    → Decides test (start + packet_size) n
Decides-later test start n d j h =
    let (b, e) = d (suc j) (omega arith) in
    let same : packet (start + packet_size) j ≡ packet start (suc j) = omega arith in
    (b, ap test same ∙ e)

none_before :
    (test : ℕ → Option Bool) (start n : ℕ)
    → test start ≡ some false
    → ((j : ℕ) → j < n → test (packet (start + packet_size) j) ≡ some false)
    → (j : ℕ) → j < suc n
    → test (packet start j) ≡ some false
none_before test start n first later zero h = ap test (omega arith) ∙ first
none_before test start n first later (suc j) h =
    let same : packet start (suc j) ≡ packet (start + packet_size) j = omega arith in
    ap test same ∙ later j (omega arith)

FirstAt-later :
    (test : ℕ → Option Bool) (start n : ℕ) (r : Option ℕ)
    → test start ≡ some false
    → FirstAt test (start + packet_size) n r
    → FirstAt test start (suc n) r
FirstAt-later test start n none first later = none_before test start n first later
FirstAt-later test start n (some p) first (k, below, at, hit, before) =
    let same : packet start (suc k) ≡ packet (start + packet_size) k = omega arith in
    (suc k, omega arith, at ∙ sym same, ap test same ∙ hit, none_before test start k first before)

-- The loop forward finds the first packet that passes the test.
pub scan-FirstAt :
    (test : ℕ → Option Bool) (n rounds start : ℕ)
    → Decides test start n
    → n < rounds
    → (r : Option ℕ) × (scan test rounds start (packet start n) ≡ some r) × FirstAt test start n r
unfolding scan
scan-FirstAt test n zero start d fuel = absurd (omega arith)
scan-FirstAt test zero (suc rounds) start d fuel =
    let done : ltb start (packet start 0) ≡ false = ground arith in
    (none, rw done refl, λ j h. absurd (omega arith))
scan-FirstAt test (suc n) (suc rounds) start d fuel =
    let (b, e) = d 0 (omega arith) in
    let here : test start ≡ some b = ap test (omega arith) ∙ e in
    let (r, found, first) =
      scan-FirstAt test n rounds (start + packet_size) (Decides-later test start n d)
        (omega arith) in
    let same : packet (start + packet_size) n ≡ packet start (suc n) = omega arith in
    step b here r (ap (λ end. scan test rounds (start + packet_size) end) (sym same) ∙ found) first
  where
    on : ltb start (packet start (suc n)) ≡ true
    on = ground arith

    step :
        (b : Bool)
        → test start ≡ some b
        → (r : Option ℕ) → scan test rounds (start + packet_size) (packet start (suc n)) ≡ some r
        → FirstAt test (start + packet_size) n r
        → (s : Option ℕ) × (scan test (suc rounds) start (packet start (suc n)) ≡ some s)
          × FirstAt test start (suc n) s
    step true here r found first = (
      some start,
      rw (on, here) refl,
      (0, omega arith, omega arith, ap test (omega arith) ∙ here, λ j h. absurd (omega arith)),
    )
    step false here r found first =
        (r, rw (on, here) found, FirstAt-later test start n r here first)

before_or_last : (j n : ℕ) → j < suc n → (j < n) ⊎ (j ≡ n)
before_or_last j n h = ground arith

LastAt-earlier :
    (test : ℕ → Option Bool) (start n : ℕ) (r : Option ℕ)
    → test (packet start n) ≡ some false
    → LastAt test start n r
    → LastAt test start (suc n) r
LastAt-earlier test start n none last earlier = λ j h. elim (before_or_last j n h) [
  | inl less ↦ earlier j less
  | inr same ↦ ap (λ i. test (packet start i)) same ∙ last
]
LastAt-earlier test start n (some p) last (k, below, at, hit, after) = (
  k,
  omega arith,
  at,
  hit,
  λ j above h. elim (before_or_last j n h) [
    | inl less ↦ after j above less
    | inr same ↦ ap (λ i. test (packet start i)) same ∙ last
  ],
)

-- The loop backward finds the last one.
pub scan_back-LastAt :
    (test : ℕ → Option Bool) (n rounds start : ℕ)
    → Decides test start n
    → n < rounds
    → (r : Option ℕ) × (scan_back test rounds (packet start n) start ≡ some r)
      × LastAt test start n r
unfolding scan_back
scan_back-LastAt test n zero start d fuel = absurd (omega arith)
scan_back-LastAt test zero (suc rounds) start d fuel =
    let done : leb (start + packet_size) (packet start 0) ≡ false = ground arith in
    (none, rw done refl, λ j h. absurd (omega arith))
scan_back-LastAt test (suc n) (suc rounds) start d fuel =
    let (b, here) = d n (omega arith) in
    let (r, found, last) =
      scan_back-LastAt test n rounds start (λ j h. d j (omega arith)) (omega arith) in
    step b here r found last
  where
    below : packet start (suc n) - packet_size ≡ packet start n
    below = omega arith

    on : leb (start + packet_size) (packet start (suc n)) ≡ true
    on = ground arith

    step :
        (b : Bool)
        → test (packet start n) ≡ some b
        → (r : Option ℕ) → scan_back test rounds (packet start n) start ≡ some r
        → LastAt test start n r
        → (s : Option ℕ) × (scan_back test (suc rounds) (packet start (suc n)) start ≡ some s)
          × LastAt test start (suc n) s
    step true here r found last = (
      some (packet start n),
      rw (on, below, here) refl,
      (n, omega arith, refl, here, λ j above h. absurd (omega arith)),
    )
    step false here r found last =
        (r, rw (on, below, here) found, LastAt-earlier test start n r here last)
