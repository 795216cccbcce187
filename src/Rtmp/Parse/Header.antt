-- ===== src/Rtmp/Parse/Header.antt =====
-- lib_src/transport/rns_rtmp.c: the rounds by which rtmp_parse reads the header of a chunk as
-- rtmp_chunk_write lays it out.
use yclib.Base.{
  ℕ, zero, suc, ◌+◌, ◌^◌, ◌<◌, ◌≡◌, refl, ap, ◌∙◌, false, none, some, List, [], ◌∷◌, ◌++◌, ltb,
  ◌==◌, length, drop, arith, Bool-cases, inl, inr,
}
use yclib.Network.{htob24, htob32, htol32}
use yclib.Network.Order.{btoh-htob, ltoh-htol}
use yclib.Rtmp.Chunk.{Chunk}
use yclib.Rtmp.Chunk.Layout.{extra}
use yclib.Rtmp.Connection.{
  Conn, Phase, chunk_timestamp, chunk_msg_len, chunk_msg_type, chunk_msg_streamid,
  chunk_extra_timestamp, chunk_payload,
}
use yclib.Rtmp.Incoming.{find, assign, current, set_chunk, Handlers}
use yclib.Rtmp.Parse.{goes, parse_step, parse_loop}

pub find-assign {ℓ} :
    {A : Type ℓ} (key : ℕ) (old chunk : A) (m : List (ℕ × A))
    → find key m ≡ some old
    → find key (assign key chunk m) ≡ some chunk
find-assign key old chunk [] found = absurd (ground arith)
find-assign key old chunk ((k, first) ∷ m) found = ground (arith, find-assign key old chunk m)

pub find-append {ℓ} :
    {A : Type ℓ} (key : ℕ) (chunk : A) (m : List (ℕ × A))
    → find key m ≡ none
    → find key (m ++ (key, chunk) ∷ []) ≡ some chunk
find-append key chunk [] missing = ground arith
find-append key chunk ((k, first) ∷ m) missing = ground (arith, find-append key chunk m)

-- What the reading of a header leaves as it is.
pub record Kept (c d : Conn) : Type 0 where
  pub ichunksize_kept : d.ichunksize ≡ c.ichunksize
  pub ochunksize_kept : d.ochunksize ≡ c.ochunksize
  pub curlen_kept : d.curlen ≡ c.curlen
  pub cbuf_kept : d.cbuf ≡ c.cbuf
  pub tasks_kept : d.tasks ≡ c.tasks
  pub memory_kept : d.memory ≡ c.memory

pub Kept-trans : {c d e : Conn} → Kept c d → Kept d e → Kept c e
Kept-trans p q = record {
  ichunksize_kept = q.ichunksize_kept ∙ p.ichunksize_kept;
  ochunksize_kept = q.ochunksize_kept ∙ p.ochunksize_kept;
  curlen_kept = q.curlen_kept ∙ p.curlen_kept;
  cbuf_kept = q.cbuf_kept ∙ p.cbuf_kept;
  tasks_kept = q.tasks_kept ∙ p.tasks_kept;
  memory_kept = q.memory_kept ∙ p.memory_kept;
}

-- `k + rounds`, counted down from `k`
abbrev pub more : ℕ → ℕ → ℕ
more zero rounds = rounds
more (suc k) rounds = suc (more k rounds)

module _ (handlers : Handlers) (noise : List ℕ) where
  -- In `k` rounds the loop takes `n` bytes, which brings it from `c` and `buf` to `d` and `rest`.
  abbrev pub Leads : ℕ → Conn → List ℕ → ℕ → Conn → List ℕ → Type 0
  Leads k c buf n d rest =
      (rounds walked : ℕ)
      → parse_loop handlers noise (more k rounds) walked c buf
        ≡ parse_loop handlers noise rounds (walked + n) d rest

  pub one-Leads :
      (c d : Conn) (buf rest : List ℕ) (n : ℕ)
      → 0 < length buf
      → parse_step handlers noise c.state c buf ≡ some (goes d n)
      → drop n buf ≡ rest
      → Leads 1 c buf n d rest
  unfolding parse_loop
  one-Leads c d [] rest n some_left goes_on left rounds walked = absurd (omega arith)
  one-Leads c d (b ∷ buf) rest n some_left goes_on left rounds walked =
      rw (parse_loop, goes_on, ← left) refl

  pub then-Leads :
      (k : ℕ) (c d e : Conn) (buf mid rest : List ℕ) (n p : ℕ)
      → Leads 1 c buf n d mid
      → Leads k d mid p e rest
      → Leads (suc k) c buf (n + p) e rest
  then-Leads k c d e buf mid rest n p first others rounds walked =
      first (more k rounds) walked
      ∙ others rounds (walked + n)
      ∙ ap (λ w. parse_loop handlers noise rounds w e rest) (omega arith)

  -- a state in which the chunk stream in hand holds `chunk`
  pub record Stands (phase : Phase) (c d : Conn) (chunk : Chunk) : Type 0 where
    pub state_is : d.state ≡ phase
    pub chunk_is : current d ≡ some chunk
    pub kept : Kept c d

  pub assigned :
      (phase : Phase) (c : Conn) (old chunk : Chunk)
      → current c ≡ some old
      → Stands phase c (record (set_chunk chunk c) { state = phase }) chunk
  assigned phase c old chunk found = record {
    state_is = refl;
    chunk_is = find-assign c.curchunk old chunk c.chunkstreams found;
    kept = record {
      ichunksize_kept = refl;
      ochunksize_kept = refl;
      curlen_kept = refl;
      cbuf_kept = refl;
      tasks_kept = refl;
      memory_kept = refl;
    };
  }

  -- The rounds that read a field of the chunk, of which each leads to the next.
  module _ (c : Conn) (old : Chunk) (rest : List ℕ) (found : current c ≡ some old)
      (full : old.fmt ≡ 0) where
    pub stamp_step :
        (t : ℕ)
        → t < 2 ^ 24
        → parse_step handlers noise chunk_timestamp c (htob24 t ++ rest)
          ≡ some (
              goes
                (record (set_chunk (record old { timestamp = t }) c) { state = chunk_msg_len })
                3)
    unfolding parse_step
    stamp_step t small =
        let long : ltb (length (htob24 t ++ rest)) 3 ≡ false = unfold htob24 in ground arith in
        let reads = (btoh-htob t rest).1 small in rw (long, reads, found, full) refl

    pub len_step :
        (n : ℕ)
        → n < 2 ^ 24
        → parse_step handlers noise chunk_msg_len c (htob24 n ++ rest)
          ≡ some
              (goes (record (set_chunk (record old { msglen = n }) c) { state = chunk_msg_type }) 3)
    unfolding parse_step
    len_step n small =
        let long : ltb (length (htob24 n ++ rest)) 3 ≡ false = unfold htob24 in ground arith in
        let reads = (btoh-htob n rest).1 small in rw (long, reads, found) refl

    pub type_step :
        (b : ℕ)
        → parse_step handlers noise chunk_msg_type c (b ∷ rest)
          ≡ some (
              goes
                (record (set_chunk (record old { msgtype = b }) c) { state = chunk_msg_streamid })
                1)
    unfolding parse_step
    type_step b =
        let long : ltb (length (b ∷ rest)) 1 ≡ false = ground arith in rw (long, found, full) refl

    pub streamid_step :
        (n : ℕ)
        → n < 2 ^ 32
        → parse_step handlers noise chunk_msg_streamid c (htol32 n ++ rest)
          ≡ some (
              goes
                (record (set_chunk (record old { streamid = n }) c) {
                  state = chunk_extra_timestamp;
                })
                4)
    unfolding parse_step
    streamid_step n small =
        let long : ltb (length (htol32 n ++ rest)) 4 ≡ false = unfold htol32 in ground arith in
        let reads = (ltoh-htol n rest).0 small in rw (long, reads, found) refl

    pub extra_round :
        (r : ℕ) (behind : List ℕ)
        → rest ≡ r ∷ behind
        → c.state ≡ chunk_extra_timestamp
        → old.timestamp < 2 ^ 24
        → (d : Conn) × Leads 1 c (extra old ++ rest) (length (extra old)) d rest
          × Stands chunk_payload c d old
    unfolding parse_step
    extra_round r behind more_left at small = elim (Bool-cases (old.timestamp == 0xffffff)) [
      | inl long ↦
          let t = old.timestamp in
          let d = record (set_chunk old c) { state = chunk_payload } in
          let room : ltb (length (htob32 t ++ rest)) 4 ≡ false = unfold htob32 in ground arith in
          let reads = (btoh-htob t rest).0 (omega arith) in
          let goes_on : parse_step handlers noise c.state c (htob32 t ++ rest) ≡ some (goes d 4) =
            rw (at, found, long, room, reads) refl in
          rw long (
            d,
            unfold htob32 in one-Leads c d (htob32 t ++ rest) rest 4 (omega arith) goes_on refl,
            assigned chunk_payload c old old found,
          )
      | inr short ↦
          let d = record c { state = chunk_payload } in
          let goes_on : parse_step handlers noise c.state c rest ≡ some (goes d 0) =
            rw (at, found, short) refl in
          let some_left : 0 < length rest = rw more_left (omega arith) in
          rw short (
            d,
            one-Leads c d rest rest 0 some_left goes_on refl,
            record {
              state_is = refl;
              chunk_is = found;
              kept = record {
                ichunksize_kept = refl;
                ochunksize_kept = refl;
                curlen_kept = refl;
                cbuf_kept = refl;
                tasks_kept = refl;
                memory_kept = refl;
              };
            },
          )
    ]
