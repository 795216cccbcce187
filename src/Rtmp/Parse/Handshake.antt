-- ===== src/Rtmp/Parse/Handshake.antt =====
-- lib_src/transport/rns_rtmp.c: the handshake of rtmp_parse on the side that accepts a connection.
use yclib.Base.{
  ℕ, zero, suc, ◌+◌, ◌≤◌, ◌≡◌, refl, ap, sym, ◌∙◌, Bool, true, false, some, List, [], ◌∷◌, ◌++◌,
  ltb, length, take, drop, arith, length-append, drop-append_length, take_all, length-drop,
  take-append_le, drop-append_le,
}
use yclib.Network.{htob32}
use yclib.Rtmp.Connection.{Conn, Phase, handshake_c0, handshake_c1, handshake_c2, chunk_fmt, send}
use yclib.Rtmp.Parse.Header.{one-Leads}
use yclib.Rtmp.Parse.Chunks.{rtmp_parse-early}
use yclib.Rtmp.Incoming.{same_bytes, Handlers}
use yclib.Rtmp.Parse.{
  goes, returned, out_of_rounds, parse_step, parse_loop, rtmp_parse, beyond_channel,
}

same_bytes_refl : (xs : List ℕ) → same_bytes xs xs ≡ true
same_bytes_refl [] = refl
same_bytes_refl (x ∷ xs) = ground (arith, same_bytes_refl xs)

-- The two parts that the code compares
abbrev pub Echoes : List ℕ → List ℕ → Type 0
Echoes answer greeting =
    (length answer ≡ 1536)
    × (take 4 answer ≡ take 4 greeting)
    × (take 1528 (drop 8 answer) ≡ take 1528 (drop 8 greeting))

-- What `rtmp_send_S1` and `rtmp_send_S2` send
abbrev pub greeting : List ℕ → List ℕ
greeting noise = htob32 0 ++ (htob32 0 ++ (take 1527 (drop 8 noise) ++ 0 ∷ []))

abbrev pub echo : List ℕ → List ℕ
echo c1 = take 4 c1 ++ 0 ∷ 0 ∷ 0 ∷ 0 ∷ take 1528 (drop 8 c1)

module _ (handlers : Handlers) (noise : List ℕ) (c : Conn) where
  abbrev start : Conn
  start = record c { state = handshake_c0; memory = [] }

  abbrev greeted : Conn
  greeted = record c {
    state = handshake_c1;
    memory = [];
    cs1 = greeting noise;
    tasks = (c.tasks ++ send (c.cs0 ∷ []) false ∷ []) ++ send (greeting noise) false ∷ [];
  }

  c0_step :
      (b : ℕ) (walker : List ℕ)
      → parse_step handlers noise handshake_c0 start (b ∷ walker) ≡ some (goes greeted 1)
  unfolding parse_step
  c0_step b walker =
      let long : ltb (length (b ∷ walker)) 1 ≡ false = ground arith in rw (parse_step, long) refl

  abbrev answered : List ℕ → Conn
  answered c1 = record greeted {
    state = handshake_c2;
    cs2 = echo c1;
    tasks = greeted.tasks ++ send (echo c1) false ∷ [];
  }

  c1_step :
      (walker : List ℕ)
      → 1536 ≤ length walker
      → parse_step handlers noise handshake_c1 greeted walker ≡ some (goes (answered walker) 1536)
  unfolding parse_step
  c1_step walker enough =
      let long : ltb (length walker) 1536 ≡ false = ground arith in rw (parse_step, long) refl

  c2_step :
      (d : Conn) (answer : List ℕ)
      → Echoes answer d.cs1
      → parse_step handlers noise handshake_c2 d answer
        ≡ some (goes (record d { state = chunk_fmt }) 1536)
  unfolding parse_step
  c2_step d answer (size, head, tail) =
      let long : ltb (length answer) 1536 ≡ false = ground arith in
      rw
        (
          parse_step,
          long,
          head,
          same_bytes_refl (take 4 d.cs1),
          tail,
          same_bytes_refl (take 1528 (drop 8 d.cs1)),
        )
        refl

  abbrev ready : List ℕ → Conn
  ready c1 = record (answered c1) { state = chunk_fmt }

  quiet_run :
      (rounds b : ℕ) (c1 answer : List ℕ)
      → length c1 ≡ 1536
      → Echoes answer (greeting noise)
      → parse_loop handlers noise (suc (suc (suc (suc rounds)))) 0 start (b ∷ (c1 ++ answer))
        ≡ returned 3073 (ready (c1 ++ answer))
  unfolding parse_loop
  quiet_run rounds b c1 answer size echoes =
      let walker = c1 ++ answer in
      let both = length-append c1 answer in
      let behind : drop 1536 walker ≡ answer =
        ap (λ n. drop n walker) (sym size) ∙ drop-append_length c1 answer in
      let first =
        one-Leads handlers noise start greeted (b ∷ walker) walker 1 (omega arith)
          (c0_step b walker) refl in
      let second =
        one-Leads handlers noise greeted (answered walker) walker answer 1536 (omega arith)
          (c1_step walker (omega arith)) behind in
      let third =
        one-Leads handlers noise (answered walker) (ready walker) answer [] 1536 (omega arith)
          (c2_step (answered walker) answer echoes) (take_all 1536 answer (omega arith)).1 in
      first (suc (suc (suc rounds))) 0 ∙ second (suc (suc rounds)) 1 ∙ third (suc rounds) 1537

  echo-append : (c1 answer : List ℕ) → length c1 ≡ 1536 → echo (c1 ++ answer) ≡ echo c1
  echo-append c1 answer size =
      let tail = length-drop 8 c1 (omega arith) in
      rw
        (
          take-append_le 4 c1 answer (omega arith),
          drop-append_le 8 c1 answer (omega arith),
          take-append_le 1528 (drop 8 c1) answer (omega arith),
        )
        refl

-- The whole handshake, with allocations that succeed: from its start, one byte, 1536 bytes and an
-- answer that echoes the greeting bring the connection, within four rounds, to where it reads
-- chunks; all the bytes are taken; and what was queued is the version, the greeting and the echo
-- of the 1536 bytes.
pub rtmp_parse-handshake :
    (handlers : Handlers) (noise : List ℕ) (rounds : ℕ) (c : Conn) (b : ℕ) (c1 answer : List ℕ)
    → c.state ≡ handshake_c0
    → c.memory ≡ []
    → length c1 ≡ 1536
    → Echoes answer (greeting noise)
    → (d : Conn) × (rtmp_parse handlers noise (suc (suc (suc (suc rounds)))) c (b ∷ (c1 ++ answer))
        ≡ returned 3073 d)
      × (d.state ≡ chunk_fmt)
      × (d.tasks
          ≡ ((c.tasks ++ send (c.cs0 ∷ []) false ∷ []) ++ send (greeting noise) false ∷ [])
            ++ send (echo c1) false ∷ [])
rtmp_parse-handshake handlers noise rounds c b c1 answer at calm size echoes =
    let walker = c1 ++ answer in
    let e = ready handlers noise c walker in
    let same : c ≡ start handlers noise c =
      ap (λ (p : Phase). record c { state = p; memory = c.memory }) at
      ∙ ap (λ (m : List Bool). record c { state = handshake_c0; memory = m }) calm in
    (
      e,
      rtmp_parse-early handlers noise (suc (suc (suc (suc rounds)))) c (b ∷ walker)
            (ap beyond_channel at)
          ∙ ap (λ d. parse_loop handlers noise (suc (suc (suc (suc rounds)))) 0 d (b ∷ walker)) same
          ∙ quiet_run handlers noise c rounds b c1 answer size echoes,
      refl,
      ap
          (λ t.
            ((c.tasks ++ send (c.cs0 ∷ []) false ∷ []) ++ send (greeting noise) false ∷ [])
            ++ send t false ∷ [])
          (echo-append handlers noise c c1 answer size),
    )

-- The round in which the answer is wrong comes again and again.
wrong_echo_loop :
    (handlers : Handlers) (noise : List ℕ) (rounds walked : ℕ) (c : Conn) (buf : List ℕ)
    → c.state ≡ handshake_c2
    → 1536 ≤ length buf
    → same_bytes (take 4 c.cs1) (take 4 buf) ≡ false
    → parse_loop handlers noise rounds walked c buf ≡ out_of_rounds
unfolding parse_loop parse_step
wrong_echo_loop handlers noise zero walked c buf at enough differs = refl
wrong_echo_loop handlers noise (suc rounds) walked c buf at enough differs =
    let long : ltb (length buf) 1536 ≡ false = ground arith in
    let again : parse_step handlers noise c.state c buf ≡ some (goes c 0) =
      ap (λ p. parse_step handlers noise p c buf) at ∙ rw (parse_step, long, differs) refl in
    one-Leads handlers noise c c buf buf 0 (omega arith) again refl rounds walked
    ∙ wrong_echo_loop handlers noise rounds (walked + 0) c buf at enough differs

-- A peer whose answer differs from the greeting in its first four bytes keeps `rtmp_parse` in its loop:
-- once 1536 bytes are there, the round changes nothing, and no number of rounds is enough.
pub rtmp_parse-wrong_echo :
    (handlers : Handlers) (noise : List ℕ) (rounds : ℕ) (c : Conn) (buf : List ℕ)
    → c.state ≡ handshake_c2
    → 1536 ≤ length buf
    → same_bytes (take 4 c.cs1) (take 4 buf) ≡ false
    → rtmp_parse handlers noise rounds c buf ≡ out_of_rounds
rtmp_parse-wrong_echo handlers noise rounds c buf at enough differs =
    rtmp_parse-early handlers noise rounds c buf (ap beyond_channel at)
    ∙ wrong_echo_loop handlers noise rounds 0 c buf at enough differs
