-- ===== src/Rtmp/Parse/Separator.antt =====
-- lib_src/transport/rns_rtmp.c: rtmp_parse on the byte that rtmp_data_send puts between two chunks.
use yclib.Base.{
  ℕ, suc, ◌%◌, ◌<◌, ◌≤◌, ◌≡◌, refl, ap, sym, ◌∙◌, bit_and, false, some, List, ◌∷◌, ltb, ◌==◌, ◌>>>◌,
  length, arith, eq_of_check,
}
use yclib.Rtmp.Chunk.{Chunk}
use yclib.Rtmp.Connection.{
  separator, Conn, chunk_fmt, chunk_channel_1, chunk_channel, chunk_payload,
}
use yclib.Rtmp.Incoming.{find, assign, Handlers}
use yclib.Rtmp.Parse.{goes, parse_step, open_channel, parse_loop, rtmp_parse, beyond_channel}
use yclib.Rtmp.Parse.Header.{Leads, one-Leads, then-Leads}
use yclib.Rtmp.Parse.Chunks.{rtmp_parse-early}

separator_bits :
    (b : ℕ) → b < 64 → (bit_and (separator b) 0xc0 >>> 6 ≡ 3) × (bit_and (separator b) 0x3f ≡ b)
separator_bits b small =
    let same : b % 64 ≡ b = omega arith in
    (
      ap (λ y. bit_and (separator y) 0xc0 >>> 6) (sym same)
          ∙ eq_of_check (λ y. bit_and (separator (y % 64)) 0xc0 >>> 6) (λ y. 3) b refl
              (omega arith),
      ap (λ y. bit_and (separator y) 0x3f) (sym same)
          ∙ eq_of_check (λ y. bit_and (separator (y % 64)) 0x3f) (λ y. y % 64) b refl (omega arith)
          ∙ same,
    )

some_left : (b r : ℕ) (rest : List ℕ) → ltb (length (b ∷ r ∷ rest)) 1 ≡ false
some_left b r rest = ground arith

-- The connection behind the byte: the payload follows, on the chunk stream of the channel.
abbrev pub continued : ℕ → Chunk → Conn → Conn
continued chunkid chunk c = record c {
  curfmt = 3;
  curchunk = chunkid;
  chunkstreams = assign chunkid (record chunk { fmt = 3; channel = chunkid }) c.chunkstreams;
  state = chunk_payload;
}

separator-Leads :
    (handlers : Handlers) (noise : List ℕ) (c : Conn) (chunk : Chunk) (chunkid r : ℕ)
    (rest : List ℕ)
    → c.state ≡ chunk_fmt
    → 2 ≤ chunkid
    → chunkid < 64
    → find chunkid c.chunkstreams ≡ some chunk
    → Leads handlers noise 3 c
        (separator chunkid ∷ r ∷ rest)
        1
        (continued chunkid chunk c)
        (r ∷ rest)
unfolding parse_step
separator-Leads handlers noise c chunk chunkid r rest at high small found =
    let (fmt, low) = separator_bits chunkid small in
    let buf = separator chunkid ∷ r ∷ rest in
    let c1 = record c { curfmt = 3; state = chunk_channel_1 } in
    let c2 = record c1 { curchunk = chunkid; state = chunk_channel } in
    let d = continued chunkid chunk c in
    let left = some_left (separator chunkid) r rest in
    let known : ((chunkid == 0) ≡ false) × ((chunkid == 1) ≡ false) =
      (ground arith, ground arith) in
    let first : parse_step handlers noise c.state c buf ≡ some (goes c1 0) =
      ap (λ p. parse_step handlers noise p c buf) at ∙ rw (parse_step, left, fmt) refl in
    let second : parse_step handlers noise chunk_channel_1 c1 buf ≡ some (goes c2 1) =
      rw (parse_step, left, low, known.0, known.1) refl in
    let third : parse_step handlers noise chunk_channel c2 (r ∷ rest) ≡ some (goes d 0) =
      rw (parse_step, open_channel, found) refl in
    then-Leads handlers noise 2 c c1 d buf buf (r ∷ rest) 0 1
      (one-Leads handlers noise c c1 buf buf 0 (omega arith) first refl)
      (then-Leads handlers noise 1 c1 c2 d buf (r ∷ rest) (r ∷ rest) 1 0
        (one-Leads handlers noise c1 c2 buf (r ∷ rest) 1 (omega arith) second refl)
        (one-Leads handlers noise c2 d (r ∷ rest) (r ∷ rest) 0 (omega arith) third refl))

-- The byte that rtmp_data_send puts between two chunks of a message on a channel from 2 to 63: where the
-- channel has a chunk stream, rtmp_parse reads it in three rounds and goes on with the payload of
-- that message.
pub rtmp_parse-separator :
    (handlers : Handlers) (noise : List ℕ) (rounds : ℕ) (c : Conn) (chunk : Chunk) (chunkid r : ℕ)
    (rest : List ℕ)
    → c.state ≡ chunk_fmt
    → 2 ≤ chunkid
    → chunkid < 64
    → find chunkid c.chunkstreams ≡ some chunk
    → rtmp_parse handlers noise (suc (suc (suc rounds))) c (separator chunkid ∷ r ∷ rest)
      ≡ parse_loop handlers noise rounds 1 (continued chunkid chunk c) (r ∷ rest)
rtmp_parse-separator handlers noise rounds c chunk chunkid r rest at high small found =
    rtmp_parse-early handlers noise (suc (suc (suc rounds))) c (separator chunkid ∷ r ∷ rest)
      (ap beyond_channel at)
    ∙ separator-Leads handlers noise c chunk chunkid r rest at high small found rounds 0
