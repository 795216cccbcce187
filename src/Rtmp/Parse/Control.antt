-- ===== src/Rtmp/Parse/Control.antt =====
-- lib_src/transport/rns_rtmp.c: the control messages that one side queues and the other parses.
use yclib.Base.{
  ℕ, suc, ◌+◌, ◌^◌, ◌<◌, ◌≤◌, ◌≡◌, refl, ap, sym, ◌∙◌, true, false, some, List, [], ◌∷◌, ◌++◌, ltb,
  length, arith,
}
use yclib.Network.{htob32, htol32, htob24, btoh32}
use yclib.Network.Order.{btoh-htob}
use yclib.Rtmp.Chunk.{Chunk}
use yclib.Rtmp.Chunk.Layout.{layout}
use yclib.Rtmp.Connection.{Conn, chunk_fmt, chunk_payload, send, done, control, chunkctrl_chunksize}
use yclib.Rtmp.Incoming.{current, Handlers, msg_parse}
use yclib.Rtmp.Parse.{goes, returned, parse_step, parse_loop, rtmp_parse}
use yclib.Rtmp.Parse.Chunks.{rtmp_parse-layout, IsFull}

abbrev size_header : List ℕ
size_header = layout (control 4 1)

size_control-IsFull : IsFull (control 4 1)
size_control-IsFull = record {
  full = refl;
  channel_fits = (omega arith, omega arith);
  stamp_fits = omega arith;
  len_fits = omega arith;
  type_fits = omega arith;
  streamid_fits = omega arith;
}

size_bytes : (n : ℕ) → (b : ℕ) × (behind : List ℕ) × (htob32 n ≡ b ∷ behind)
unfolding htob32
size_bytes n = (_, _, refl)

message_size : (n : ℕ) → length size_header + 4 ≡ length (size_header ++ htob32 n)
unfolding htob32 htob24 htol32
message_size n = refl

size_facts :
    (n : ℕ) → n < 2 ^ 32 → (ltb (length (htob32 n)) 4 ≡ false) × (btoh32 (htob32 n) ≡ some n)
unfolding htob32
size_facts n small = (refl, (btoh-htob n []).0 small)

-- What `rtmp_chunkctrl_chunksize` queues, where its allocations succeed.
pub chunkctrl_chunksize_lem :
    (n : ℕ) (c : Conn)
    → c.memory ≡ []
    → chunkctrl_chunksize n c ≡ (
      done,
      record c { ochunksize = n; tasks = c.tasks ++ send (size_header ++ htob32 n) true ∷ [] },
    )
unfolding chunkctrl_chunksize htob24 htol32
chunkctrl_chunksize_lem n c calm = rw (chunkctrl_chunksize, calm) refl

msg_parse-size :
    (handlers : Handlers) (c : Conn) (chunk : Chunk) (n : ℕ)
    → current c ≡ some chunk
    → chunk.msgtype ≡ 1
    → n < 2 ^ 32
    → msg_parse handlers c (htob32 n) ≡ some (4, record c { ichunksize = n })
unfolding msg_parse
msg_parse-size handlers c chunk n found size_message small =
    let (long, reads) = size_facts n small in rw (msg_parse, found, size_message, long, reads) refl

payload_step :
    (handlers : Handlers) (noise : List ℕ) (c : Conn) (chunk : Chunk) (n : ℕ)
    → current c ≡ some chunk
    → chunk.msgtype ≡ 1
    → n < 2 ^ 32
    → 4 ≤ c.ichunksize
    → parse_step handlers noise chunk_payload c (htob32 n)
      ≡ some (goes (record c { ichunksize = n; curlen = 0; state = chunk_fmt }) 4)
unfolding parse_step htob32
payload_step handlers noise c chunk n found size_message small room =
    let whole : ltb c.ichunksize 4 ≡ false = ground arith in
    rw (parse_step, whole, msg_parse-size handlers c chunk n found size_message small) refl

-- The two rounds behind the header: the payload, and the end of the buffer.
last_rounds :
    (handlers : Handlers) (noise : List ℕ) (rounds walked n : ℕ) (c : Conn) (chunk : Chunk)
    → c.state ≡ chunk_payload
    → current c ≡ some chunk
    → chunk.msgtype ≡ 1
    → n < 2 ^ 32
    → 4 ≤ c.ichunksize
    → parse_loop handlers noise (suc (suc rounds)) walked c (htob32 n)
      ≡ returned (walked + 4) (record c { ichunksize = n; curlen = 0; state = chunk_fmt })
unfolding parse_loop htob32
last_rounds handlers noise rounds walked n c chunk at found size_message small room =
    let goes_on =
      ap (λ p. parse_step handlers noise p c (htob32 n)) at
      ∙ payload_step handlers noise c chunk n found size_message small room in
    rw (parse_loop, goes_on) refl

-- One side announces a chunk size by `rtmp_chunkctrl_chunksize`, with allocations that succeed; the
-- other, between two chunks and with a chunk size of at least 4, parses the message that was
-- queued: within eleven rounds `rtmp_parse` takes all of it, is between two chunks again, and reads
-- chunks of the size that the first side writes from now on.
pub chunksize_agreed :
    (handlers : Handlers) (noise : List ℕ) (n : ℕ) (sender receiver : Conn)
    → sender.memory ≡ []
    → receiver.memory ≡ []
    → receiver.state ≡ chunk_fmt
    → 4 ≤ receiver.ichunksize
    → n < 2 ^ 32
    → (message : List ℕ) × (k : ℕ) × (d : Conn) × ((chunkctrl_chunksize n sender).1.tasks
        ≡ sender.tasks ++ send message true ∷ [])
      × (k ≤ 11)
      × ((rounds : ℕ)
          → rtmp_parse handlers noise (k + rounds) receiver message ≡ returned (length message) d)
      × (d.state ≡ chunk_fmt)
      × (d.ichunksize ≡ (chunkctrl_chunksize n sender).1.ochunksize)
chunksize_agreed handlers noise n sender receiver calm quiet at room small =
    let sent = chunkctrl_chunksize_lem n sender calm in
    let (b, behind, split) = size_bytes n in
    let (k, d, few, runs, stands, found, kept) =
      rtmp_parse-layout handlers noise receiver (control 4 1) b behind at quiet
        size_control-IsFull in
    let e = record d { ichunksize = n; curlen = 0; state = chunk_fmt } in
    (
      size_header ++ htob32 n,
      k + 2,
      e,
      ap (λ r. r.1.tasks) sent,
      omega arith,
      λ rounds.
          ap (λ m. rtmp_parse handlers noise m receiver (size_header ++ htob32 n)) (omega arith)
          ∙ ap (λ t. rtmp_parse handlers noise (k + suc (suc rounds)) receiver (size_header ++ t))
              split
          ∙ runs (suc (suc rounds))
          ∙ ap (parse_loop handlers noise (suc (suc rounds)) (length size_header) d) (sym split)
          ∙ last_rounds handlers noise rounds (length size_header) n d (control 4 1) stands found
              refl small (omega (arith, kept.ichunksize_kept))
          ∙ ap (λ m. returned m e) (message_size n),
      refl,
      sym (ap (λ r. r.1.ochunksize) sent),
    )
