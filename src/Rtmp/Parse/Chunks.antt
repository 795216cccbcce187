-- ===== src/Rtmp/Parse/Chunks.antt =====
-- lib_src/transport/rns_rtmp.c: rtmp_parse on the header of a chunk, and on whole control messages.
use mathlib.Core.List.{append_assoc}
use yclib.Base.{
  ℕ, zero, suc, ◌+◌, ◌-◌, ◌*◌, ◌^◌, ◌/◌, ◌<◌, ◌≤◌, ◌≡◌, refl, ap, sym, ◌∙◌, bit_and, false, some,
  List, [], ◌∷◌, ◌++◌, ltb, ◌==◌, u8, ◌>>>◌, length, drop, arith, eq_of_check, bit_and_ones,
  Bool-cases, Option-cases, inl, inr, length-append,
}
use yclib.Network.{htob24, htol32}
use yclib.Rtmp.Chunk.{Chunk}
use yclib.Rtmp.Chunk.Layout.{layout, basic, message, extra}
use yclib.Rtmp.Connection.{
  Conn, chunk_fmt, chunk_channel_1, chunk_channel_2, chunk_channel, chunk_timestamp, chunk_msg_len,
  chunk_msg_type, chunk_msg_streamid, chunk_extra_timestamp, chunk_payload,
}
use yclib.Rtmp.Incoming.{current, set_chunk, zero_chunk, Handlers}
use yclib.Rtmp.Parse.{goes, parse_step, open_channel, parse_loop, rtmp_parse, beyond_channel}
use yclib.Rtmp.Parse.Header.{
  find-append, Kept, Kept-trans, more, Leads, one-Leads, then-Leads, Stands, assigned, stamp_step,
  len_step, type_step, streamid_step, extra_round,
}

-- A full header: the chunk has format 0, and its fields fit the widths of the header.
pub record IsFull (chunk : Chunk) : Type 0 where
  pub full : chunk.fmt ≡ 0
  pub channel_fits : (2 ≤ chunk.channel) × (chunk.channel < 320)
  pub stamp_fits : chunk.timestamp < 2 ^ 24
  pub len_fits : chunk.msglen < 2 ^ 24
  pub type_fits : chunk.msgtype < 256
  pub streamid_fits : chunk.streamid < 2 ^ 32

message_front :
    (chunk : Chunk) (rest : List ℕ)
    → chunk.fmt ≡ 0
    → chunk.msgtype < 256
    → (message chunk ++ rest
        ≡ htob24 chunk.timestamp
          ++ (htob24 chunk.msglen
              ++ chunk.msgtype ∷ (htol32 chunk.streamid ++ (extra chunk ++ rest))))
      × (length (message chunk) ≡ 3 + (3 + (1 + (4 + length (extra chunk)))))
unfolding htob24 htol32
message_front chunk rest full small =
    let byte : u8 chunk.msgtype ≡ chunk.msgtype = omega arith in rw (full, byte) (refl, omega arith)

front24 :
    (d : ℕ) (rest : List ℕ) → (drop 3 (htob24 d ++ rest) ≡ rest) × (0 < length (htob24 d ++ rest))
unfolding htob24
front24 d rest = (refl, omega arith)

front32 :
    (d : ℕ) (rest : List ℕ) → (drop 4 (htol32 d ++ rest) ≡ rest) × (0 < length (htol32 d ++ rest))
unfolding htol32
front32 d rest = (refl, omega arith)

pub more_add : (k rounds : ℕ) → more k rounds ≡ k + rounds
more_add zero rounds = omega arith
more_add (suc k) rounds = omega (arith, more_add k rounds)

same_chunk :
    (chunk : Chunk) (f n : ℕ)
    → f ≡ chunk.fmt
    → n ≡ chunk.channel
    → some (record chunk { fmt = f; channel = n }) ≡ some chunk
same_chunk chunk f n p q = rw (p, q) refl

some_byte : (b : ℕ) (rest : List ℕ) → ltb (length (b ∷ rest)) 1 ≡ false
some_byte b rest = ground arith

module _ (handlers : Handlers) (noise : List ℕ) where
  message-Leads :
      (c : Conn) (old chunk : Chunk) (r : ℕ) (rest : List ℕ)
      → c.state ≡ chunk_timestamp
      → current c ≡ some old
      → old.fmt ≡ 0
      → IsFull chunk
      → (d : Conn) × Leads handlers noise 5 c
          (message chunk ++ r ∷ rest)
          (length (message chunk))
          d
          (r ∷ rest)
        × Stands handlers noise chunk_payload c d (record old {
          timestamp = chunk.timestamp;
          msglen = chunk.msglen;
          msgtype = chunk.msgtype;
          streamid = chunk.streamid;
        })
  message-Leads c old chunk r rest at found full good =
      let old1 = record old { timestamp = chunk.timestamp } in
      let old2 = record old1 { msglen = chunk.msglen } in
      let old3 = record old2 { msgtype = chunk.msgtype } in
      let old4 = record old3 { streamid = chunk.streamid } in
      let behind4 = extra chunk ++ r ∷ rest in
      let behind3 = htol32 chunk.streamid ++ behind4 in
      let behind2 = chunk.msgtype ∷ behind3 in
      let behind1 = htob24 chunk.msglen ++ behind2 in
      let c1 = record (set_chunk old1 c) { state = chunk_msg_len } in
      let c2 = record (set_chunk old2 c1) { state = chunk_msg_type } in
      let c3 = record (set_chunk old3 c2) { state = chunk_msg_streamid } in
      let c4 = record (set_chunk old4 c3) { state = chunk_extra_timestamp } in
      let s1 = assigned handlers noise chunk_msg_len c old old1 found in
      let s2 = assigned handlers noise chunk_msg_type c1 old1 old2 s1.chunk_is in
      let s3 = assigned handlers noise chunk_msg_streamid c2 old2 old3 s2.chunk_is in
      let s4 = assigned handlers noise chunk_extra_timestamp c3 old3 old4 s3.chunk_is in
      let (d, last, stands) =
        extra_round handlers noise c4 old4 (r ∷ rest) s4.chunk_is full r rest refl refl
          good.stamp_fits in
      let (bytes, size) = message_front chunk (r ∷ rest) good.full good.type_fits in
      let f1 = front24 chunk.timestamp behind1 in
      let f2 = front24 chunk.msglen behind2 in
      let f4 = front32 chunk.streamid behind4 in
      let by4 =
        one-Leads handlers noise c3 c4 behind3 behind4 4 f4.1
          (streamid_step handlers noise c3 old3 behind4 s3.chunk_is full chunk.streamid
            good.streamid_fits)
          f4.0 in
      let by3 =
        one-Leads handlers noise c2 c3 behind2 behind3 1 (omega arith)
          (type_step handlers noise c2 old2 behind3 s2.chunk_is full chunk.msgtype) refl in
      let by2 =
        one-Leads handlers noise c1 c2 behind1 behind2 3 f2.1
          (len_step handlers noise c1 old1 behind2 s1.chunk_is full chunk.msglen good.len_fits)
          f2.0 in
      let by1 =
        one-Leads handlers noise c c1 (htob24 chunk.timestamp ++ behind1) behind1 3 f1.1
          (ap (λ p. parse_step handlers noise p c (htob24 chunk.timestamp ++ behind1)) at
            ∙ stamp_step handlers noise c old behind1 found full chunk.timestamp good.stamp_fits)
          f1.0 in
      let all = then-Leads handlers noise 4 c c1 d _ behind1 (r ∷ rest) 3 _ by1 (
        then-Leads handlers noise 3 c1 c2 d behind1 behind2 (r ∷ rest) 3 _ by2 (
          then-Leads handlers noise 2 c2 c3 d behind2 behind3 (r ∷ rest) 1 _ by3
            (then-Leads handlers noise 1 c3 c4 d behind3 behind4 (r ∷ rest) 4 _ by4 last))) in
      (
        d,
        λ rounds walked.
            ap (parse_loop handlers noise (more 5 rounds) walked c) bytes
            ∙ all rounds walked
            ∙ ap (λ n. parse_loop handlers noise rounds (walked + n) d (r ∷ rest)) (sym size),
        record {
          state_is = stands.state_is;
          chunk_is = stands.chunk_is;
          kept =
              Kept-trans s1.kept
                (Kept-trans s2.kept (Kept-trans s3.kept (Kept-trans s4.kept stands.kept)));
        },
      )

  -- The chunk stream of the channel is found, or made.
  channel_round :
      (c : Conn) (buf : List ℕ)
      → 0 < length buf
      → c.state ≡ chunk_channel
      → c.curfmt ≡ 0
      → c.memory ≡ []
      → (d : Conn) × (old : Chunk) × Leads handlers noise 1 c buf 0 d buf
        × Stands handlers noise chunk_timestamp c d old
        × (old.fmt ≡ 0)
        × (old.channel ≡ c.curchunk)
  unfolding parse_step
  channel_round c buf left at full calm = elim (Option-cases (current c)) [
    | inl missing ↦
        let old = record zero_chunk { fmt = 0; channel = c.curchunk } in
        let d = record c {
          memory = [];
          chunkstreams = c.chunkstreams ++ (c.curchunk, old) ∷ [];
          state = chunk_timestamp;
        } in
        let goes_on : parse_step handlers noise chunk_channel c buf ≡ some (goes d 0) =
          rw (parse_step, open_channel, missing, calm, full) refl in
        (
          d,
          old,
          one-Leads handlers noise c d buf buf 0 left
              (ap (λ p. parse_step handlers noise p c buf) at ∙ goes_on) refl,
          record {
            state_is = refl;
            chunk_is = find-append c.curchunk old c.chunkstreams missing;
            kept = record {
              ichunksize_kept = refl;
              ochunksize_kept = refl;
              curlen_kept = refl;
              cbuf_kept = refl;
              tasks_kept = refl;
              memory_kept = sym calm;
            };
          },
          refl,
          refl,
        )
    | inr (first, found) ↦
        let old = record first { fmt = 0; channel = c.curchunk } in
        let d = record (set_chunk old c) { state = chunk_timestamp } in
        let goes_on : parse_step handlers noise chunk_channel c buf ≡ some (goes d 0) =
          rw (parse_step, open_channel, found, full) refl in
        (
          d,
          old,
          one-Leads handlers noise c d buf buf 0 left
              (ap (λ p. parse_step handlers noise p c buf) at ∙ goes_on) refl,
          assigned handlers noise chunk_timestamp c first old found,
          refl,
          refl,
        )
  ]

  -- Where the channel of a header has been read.
  record AtChannel (c d : Conn) (channel : ℕ) : Type 0 where
    state_is : d.state ≡ chunk_channel
    curfmt_is : d.curfmt ≡ 0
    curchunk_is : d.curchunk ≡ channel
    kept : Kept c d

  at_channel :
      (c d : Conn) (channel : ℕ)
      → d.state ≡ chunk_channel
      → d.curfmt ≡ 0
      → d.curchunk ≡ channel
      → d.ichunksize ≡ c.ichunksize
      → d.ochunksize ≡ c.ochunksize
      → d.curlen ≡ c.curlen
      → d.cbuf ≡ c.cbuf
      → d.tasks ≡ c.tasks
      → d.memory ≡ c.memory
      → AtChannel c d channel
  at_channel c d channel s f n i o l b t m = record {
    state_is = s;
    curfmt_is = f;
    curchunk_is = n;
    kept = record {
      ichunksize_kept = i;
      ochunksize_kept = o;
      curlen_kept = l;
      cbuf_kept = b;
      tasks_kept = t;
      memory_kept = m;
    };
  }

  fmt_step :
      (c : Conn) (b : ℕ) (rest : List ℕ)
      → c.state ≡ chunk_fmt
      → b < 64
      → parse_step handlers noise c.state c (b ∷ rest)
        ≡ some (goes (record c { curfmt = 0; state = chunk_channel_1 }) 0)
  unfolding parse_step
  fmt_step c b rest at small =
      let high : bit_and b 0xc0 >>> 6 ≡ 0 =
        eq_of_check (λ y. bit_and y 0xc0 >>> 6) (λ y. y / 64) b refl (omega arith) ∙ omega arith in
      ap (λ p. parse_step handlers noise p c (b ∷ rest)) at
      ∙ rw (parse_step, some_byte b rest, high) refl

  basic-Leads :
      (c : Conn) (chunk : Chunk) (rest : List ℕ)
      → c.state ≡ chunk_fmt
      → IsFull chunk
      → (k : ℕ) × (d : Conn) × (k ≤ 3)
        × Leads handlers noise k c (basic chunk ++ rest) (length (basic chunk)) d rest
        × AtChannel c d chunk.channel
  unfolding parse_step
  basic-Leads c chunk rest at good = elim (Bool-cases (ltb chunk.channel 64)) [
    | inl one ↦
        let b = chunk.channel in
        let c1 = record c { curfmt = 0; state = chunk_channel_1 } in
        let d = record c1 { curchunk = b; state = chunk_channel } in
        let byte : chunk.fmt * 64 + chunk.channel ≡ b = omega (arith, good.full) in
        let low : bit_and b 0x3f ≡ b = bit_and_ones 6 b ∙ ground arith in
        let known : ((b == 0) ≡ false) × ((b == 1) ≡ false) =
          (ground (arith, good.channel_fits), ground (arith, good.channel_fits)) in
        let second : parse_step handlers noise chunk_channel_1 c1 (b ∷ rest) ≡ some (goes d 1) =
          rw (parse_step, low, known.0, known.1, some_byte b rest) refl in
        let leads =
          then-Leads handlers noise 1 c c1 d (b ∷ rest) (b ∷ rest) rest 0 1
            (one-Leads handlers noise c c1 _ _ 0 (omega arith) (fmt_step c b rest at (ground arith))
              refl)
            (one-Leads handlers noise c1 d _ _ 1 (omega arith) second refl) in
        rw (one, byte)
          (
            2,
            d,
            omega arith,
            leads,
            at_channel c (record c { curfmt = 0; state = chunk_channel; curchunk = b }) b refl refl
                refl refl refl refl refl refl refl,
          )
    | inr two ↦
        let b = chunk.channel - 64 in
        let c1 = record c { curfmt = 0; state = chunk_channel_1 } in
        let c2 = record c1 { curchunk = 0; state = chunk_channel_2 } in
        let d = record c2 { curchunk = b + 64; state = chunk_channel } in
        let byte : chunk.fmt * 64 ≡ 0 = omega (arith, good.full) in
        let sum : b + 64 ≡ chunk.channel = ground arith in
        let second : parse_step handlers noise chunk_channel_1 c1 (0 ∷ b ∷ rest)
            ≡ some (goes c2 1) =
          rw (parse_step, some_byte 0 (b ∷ rest)) refl in
        let third : parse_step handlers noise chunk_channel_2 c2 (b ∷ rest) ≡ some (goes d 1) =
          rw (parse_step, some_byte b rest) refl in
        let leads =
          then-Leads handlers noise 2 c c1 d _ (0 ∷ b ∷ rest) rest 0 2
            (one-Leads handlers noise c c1 _ _ 0 (omega arith)
              (fmt_step c 0 (b ∷ rest) at (omega arith)) refl)
            (then-Leads handlers noise 1 c1 c2 d _ (b ∷ rest) rest 1 1
              (one-Leads handlers noise c1 c2 _ _ 1 (omega arith) second refl)
              (one-Leads handlers noise c2 d _ _ 1 (omega arith) third refl)) in
        rw (two, byte)
          (
            3,
            d,
            omega arith,
            leads,
            at_channel c d chunk.channel refl refl sum refl refl refl refl refl refl,
          )
  ]

  pub header_Leads :
      (c : Conn) (chunk : Chunk) (r : ℕ) (rest : List ℕ)
      → c.state ≡ chunk_fmt
      → c.memory ≡ []
      → IsFull chunk
      → (k : ℕ) × (d : Conn) × (k ≤ 9)
        × Leads handlers noise k c (layout chunk ++ r ∷ rest) (length (layout chunk)) d (r ∷ rest)
        × Stands handlers noise chunk_payload c d chunk
  header_Leads c chunk r rest at calm good =
      let tail = message chunk ++ r ∷ rest in
      let (k, d, few, first, there) = basic-Leads c chunk tail at good in
      let left : 0 < length tail = omega (arith, length-append (message chunk) (r ∷ rest)) in
      let (e, old, second, stands, full, named) =
        channel_round d tail left there.state_is there.curfmt_is (there.kept.memory_kept ∙ calm) in
      let (f, third, finally) =
        message-Leads e old chunk r rest stands.state_is stands.chunk_is full good in
      let same : old.channel ≡ chunk.channel = named ∙ there.curchunk_is in
      (
        k + 6,
        f,
        omega arith,
        λ rounds walked.
            ap (λ n. parse_loop handlers noise n walked c (layout chunk ++ r ∷ rest))
              (omega (arith, more_add (k + 6) rounds, more_add k (more 6 rounds)))
            ∙ ap (parse_loop handlers noise (more k (more 6 rounds)) walked c)
                (append_assoc (basic chunk) (message chunk) (r ∷ rest))
            ∙ first (more 6 rounds) walked
            ∙ second (more 5 rounds) (walked + length (basic chunk))
            ∙ third rounds (walked + length (basic chunk) + 0)
            ∙ ap (λ n. parse_loop handlers noise rounds n f (r ∷ rest))
                (omega (arith, length-append (basic chunk) (message chunk))),
        record {
          state_is = finally.state_is;
          chunk_is =
              finally.chunk_is ∙ same_chunk chunk old.fmt old.channel (full ∙ sym good.full) same;
          kept = Kept-trans there.kept (Kept-trans stands.kept finally.kept);
        },
      )

-- Up to the channel of a chunk the call needs no chunk stream.
pub rtmp_parse-early :
    (handlers : Handlers) (noise : List ℕ) (rounds : ℕ) (c : Conn) (buf : List ℕ)
    → beyond_channel c.state ≡ false
    → rtmp_parse handlers noise rounds c buf ≡ parse_loop handlers noise rounds 0 c buf
unfolding rtmp_parse
rtmp_parse-early handlers noise rounds c buf early = elim (Option-cases (current c)) [
  | inl missing ↦ rw (rtmp_parse, missing, early) refl
  | inr (chunk, found) ↦ rw (rtmp_parse, found) refl
]

-- `rtmp_parse`, between two chunks and with allocations that succeed, of a full header as
-- `rtmp_chunk_write` lays it out and at least one byte behind it: within nine rounds the loop stands
-- behind the header, before the payload; the chunk stream of the channel holds the chunk that was
-- written; and what else the connection keeps is as it was.
pub rtmp_parse-layout :
    (handlers : Handlers) (noise : List ℕ) (c : Conn) (chunk : Chunk) (r : ℕ) (rest : List ℕ)
    → c.state ≡ chunk_fmt
    → c.memory ≡ []
    → IsFull chunk
    → (k : ℕ) × (d : Conn) × (k ≤ 9)
      × ((rounds : ℕ)
          → rtmp_parse handlers noise (k + rounds) c (layout chunk ++ r ∷ rest)
            ≡ parse_loop handlers noise rounds (length (layout chunk)) d (r ∷ rest))
      × (d.state ≡ chunk_payload)
      × (current d ≡ some chunk)
      × Kept c d
rtmp_parse-layout handlers noise c chunk r rest at calm good =
    let (k, d, few, leads, stands) = header_Leads handlers noise c chunk r rest at calm good in
    (
      k,
      d,
      few,
      λ rounds.
          rtmp_parse-early handlers noise (k + rounds) c (layout chunk ++ r ∷ rest)
            (ap beyond_channel at)
          ∙ ap (λ n. parse_loop handlers noise n 0 c (layout chunk ++ r ∷ rest))
              (sym (more_add k rounds))
          ∙ leads rounds 0
          ∙ ap (λ n. parse_loop handlers noise rounds n d (r ∷ rest)) (omega arith),
      stands.state_is,
      stands.chunk_is,
      stands.kept,
    )
