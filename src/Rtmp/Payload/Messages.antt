-- ===== src/Rtmp/Payload/Messages.antt =====
-- rtmp_msg_payload of lib_src/transport/rns_rtmp.c: the messages of a stream that is published.
use mathlib.Core.Path.{subst}
use yclib.Base.{
  allocated, rest_of, ℕ, suc, ◌+◌, ◌-◌, ◌*◌, ◌<◌, ◌≤◌, ◌≡◌, refl, ap, sym, ◌∙◌, Bool, true, false,
  ◌&&◌, some, none, Option, List, [], ◌∷◌, ◌++◌, ◌%◌, leb, ltb, ◌==◌, if◌then◌else◌, length, take,
  arith, length-drop, Bool-cases, Option-cases, inl, inr,
}
use yclib.Rtmp.Chunk.{Chunk}
use yclib.Rtmp.Connection.{Conn}
use yclib.Rtmp.Incoming.{find, assign, current}
use yclib.Rtmp.Parse.Header.{find-assign}
use yclib.Rtmp.Media.{block_size, Msg, smaller}
use yclib.Rtmp.Media.Sending.{Hold, smaller_le}
use yclib.Rtmp.Payload.{
  MsgStream, Source, Writing, PayloadState, msg_init, msg_write, serve, passed_list, passed_on,
  made_msg, new_msg, payload_loop, msg_payload,
}
use yclib.Rtmp.Payload.Storing.{Stores, free, store_loop-Wrote}

-- From `old` to `new`, the stream has got the next `n` bytes of `buf` for `msg`, its latest message.
pub record Extends (log buf : List ℕ) (n : ℕ) (msg : Msg) (others : List Msg) (old new : MsgStream)
    : Type 0 where
  pub stored : Stores new (log ++ take n buf)
  pub msgs_are : new.msgs ≡ record msg { len = msg.len + n } ∷ others
  pub players_same : new.players ≡ old.players
  pub videometa_same : new.videometa ≡ old.videometa
  pub free_less : free new + n ≡ free old

-- How many bytes of `buf` belong to the message
abbrev pub share : Msg → List ℕ → ℕ
share msg buf = smaller (length buf) (msg.size - msg.len)

-- What `rtmp_msg_payload` gives: 0 as long as the message is not complete
abbrev pub answer : Msg → List ℕ → ℕ
answer msg buf = if ltb (msg.len + share msg buf) msg.size then 0 else share msg buf

module _ (inner : ℕ) (chunk : Chunk) (buf : List ℕ) (stream : MsgStream) (c : Conn) (log : List ℕ)
    (stores : Stores stream log) (calm : c.memory ≡ []) where
  abbrev Adds : ℕ → PayloadState → Msg → List Msg → Type 0
  Adds rounds s msg others =
      (new : MsgStream) × (payload_loop rounds inner s chunk buf stream c
        ≡ some (some (answer msg buf, new, c)))
      × Extends log buf (share msg buf) msg others stream new

  write_Adds :
      (rounds : ℕ) (msg : Msg) (others : List Msg)
      → stream.msgs ≡ msg ∷ others
      → msg.len < msg.size
      → share msg buf ≤ free stream
      → share msg buf < inner
      → Adds (suc rounds) msg_write msg others
  unfolding payload_loop
  write_Adds rounds msg others latest more room enough =
      let w : Writing = record { left = buf; msg = msg; stream = stream; conn = c } in
      let n = share msg buf in
      let (v, runs, wrote) =
        store_loop-Wrote inner log n w stores calm (omega arith) refl room enough in
      let goes : ltb msg.len msg.size ≡ true = ground arith in
      let new = record v.stream { msgs = v.msg ∷ others } in
      let least = smaller_le (length buf) (msg.size - msg.len) in
      let left = length-drop n buf least.0 in
      let test : ℕ → ℕ = λ k. if ltb (msg.len + n) msg.size then 0 else k in
      let taken : (if ltb v.msg.len v.msg.size then 0 else length buf - length v.left)
          ≡ answer msg buf =
        ap (λ m. if ltb m.len m.size then 0 else length buf - length v.left) wrote.msg_is
        ∙ ap (λ t. test (length buf - length t)) wrote.left_is
        ∙ ap test (omega (arith, left)) in
      (
        new,
        rw (payload_loop, latest, goes, runs)
            (ap (λ k. some (some (k, new, v.conn))) taken
              ∙ ap (λ d. some (some (answer msg buf, new, d))) wrote.conn_is),
        record {
          stored = record {
            bytes_held = wrote.stores.bytes_held;
            offset_is = wrote.stores.offset_is;
          };
          msgs_are = ap (λ m. m ∷ others) wrote.msg_is;
          players_same = wrote.players_kept;
          videometa_same = wrote.videometa_kept;
          free_less = wrote.free_is;
        },
      )

-- The source `s` publishes `stream`, in messages of `chunk`, and all allocations succeed.
pub record Publishes (s : Source) (chunk : Chunk) (stream : MsgStream) (log : List ℕ) : Type 0 where
  pub chunk_is : current s.conn ≡ some chunk
  pub stream_is : find chunk.streamid s.nstreams ≡ some stream
  pub stores : Stores stream log
  pub quiet : s.conn.memory ≡ []

-- What passing on a message leaves as it is
record Keeps (old new : MsgStream) : Type 0 where
  blocks_kept : new.blocks ≡ old.blocks
  offset_kept : new.offset ≡ old.offset
  pool_kept : new.pool ≡ old.pool

passed_list-Keeps :
    (inner : ℕ) (stream served : MsgStream) (msgs : List Msg)
    → passed_list inner stream msgs ≡ some served
    → Keeps stream served
passed_list-Keeps inner stream served [] h =
    let same : stream ≡ served = cc in
    subst (Keeps stream) same (record { blocks_kept = refl; offset_kept = refl; pool_kept = refl })
passed_list-Keeps inner stream served (msg ∷ others) h =
    elim (Bool-cases (msg.key && msg.packettype == 0)) [
      | inl seq ↦
          let x = record stream { videometa = some msg; msgs = others } in
          let is : passed_list inner stream (msg ∷ others) ≡ some x = rw (passed_list, seq) refl in
          let same : x ≡ served = cc in
          subst (Keeps stream) same
            (record { blocks_kept = refl; offset_kept = refl; pool_kept = refl })
      | inr other ↦ elim (Option-cases (serve inner stream.blocks msg stream.players)) [
        | inl missing ↦
            let is : passed_list inner stream (msg ∷ others) ≡ none =
              rw (passed_list, other, missing) refl in
            absurd (cc)
        | inr (players, there) ↦
            let x = record stream { players = players } in
            let is : passed_list inner stream (msg ∷ others) ≡ some x =
              rw (passed_list, other, there) refl in
            let same : x ≡ served = cc in
            subst (Keeps stream) same
              (record { blocks_kept = refl; offset_kept = refl; pool_kept = refl })
      ]
    ]

pub passed_on-free :
    (inner : ℕ) (stream served : MsgStream)
    → passed_on inner stream ≡ some served
    → free served ≡ free stream
passed_on-free inner stream served passed =
    let kept = passed_list-Keeps inner stream served stream.msgs passed in
    ap (λ k. k * block_size + (block_size - served.offset % block_size) % block_size) kept.pool_kept
    ∙ ap (λ k. stream.pool * block_size + (block_size - k % block_size) % block_size)
        kept.offset_kept

pub passed_on-offset :
    (inner : ℕ) (stream served : MsgStream)
    → passed_on inner stream ≡ some served
    → served.offset ≡ stream.offset
passed_on-offset inner stream served passed =
    (passed_list-Keeps inner stream served stream.msgs passed).offset_kept

abbrev pub Fresh : Chunk → ℕ → Msg → Type 0
Fresh chunk offset msg = (msg.len ≡ 0) × (msg.offset ≡ offset) × (msg.size ≡ chunk.msglen)

if_Fresh :
    (chunk : Chunk) (offset : ℕ) (test key : Bool) (packettype : ℕ) (other : Option Msg) (msg : Msg)
    → (other ≡ some msg → Fresh chunk offset msg)
    → (if test then other else some (made_msg chunk offset key packettype)) ≡ some msg
    → Fresh chunk offset msg
if_Fresh chunk offset true key packettype other msg next h = next h
if_Fresh chunk offset false key packettype other msg next h =
    let same : made_msg chunk offset key packettype ≡ msg = cc in
    subst (Fresh chunk offset) same (refl, refl, refl)

pub new_msg-Fresh :
    (chunk : Chunk) (offset : ℕ) (buf : List ℕ) (msg : Msg)
    → new_msg chunk offset buf ≡ some msg
    → Fresh chunk offset msg
new_msg-Fresh chunk offset [] msg =
    if_Fresh chunk offset (chunk.msgtype == 9) false 1 none msg λ h. absurd (cc)
new_msg-Fresh chunk offset (b ∷ []) msg =
    if_Fresh chunk offset (chunk.msgtype == 9 && b == 0x17) false 1 none msg λ h. absurd (cc)
new_msg-Fresh chunk offset (b ∷ e ∷ more) msg =
    let packettype = if e == 0 then 0 else 1 in
    if_Fresh chunk offset (chunk.msgtype == 9 && b == 0x17) false 1
      (some (made_msg chunk offset true packettype)) msg
      λ h. if_Fresh chunk offset false true packettype none msg (λ k. absurd (cc)) h

pub init_step :
    (rounds inner : ℕ) (chunk : Chunk) (buf : List ℕ) (stream served : MsgStream) (c : Conn)
    (msg : Msg)
    → c.memory ≡ []
    → passed_on inner stream ≡ some served
    → new_msg chunk served.offset buf ≡ some msg
    → payload_loop (suc rounds) inner msg_init chunk buf stream c
      ≡ payload_loop rounds inner msg_write chunk buf (record served { msgs = msg ∷ served.msgs }) c
unfolding payload_loop
init_step rounds inner chunk buf stream served c msg calm passed starts =
    let room : allocated c.memory ≡ true = ap allocated calm in
    let quiet : rest_of c.memory ≡ c.memory = ap rest_of calm ∙ sym calm in
    let opened = record served { msgs = msg ∷ served.msgs } in
    rw (payload_loop, passed, room, starts)
      (ap (λ m. payload_loop rounds inner msg_write chunk buf opened (record c { memory = m }))
        quiet)

-- No message is under way.
abbrev pub ended : List Msg → Bool
ended [] = true
ended (msg ∷ others) = leb msg.size msg.len

pub ended_step :
    (rounds inner : ℕ) (chunk : Chunk) (buf : List ℕ) (stream : MsgStream) (c : Conn)
    (msgs : List Msg)
    → ended msgs ≡ true
    → let with_msgs = record stream { msgs = msgs } in
      payload_loop (suc rounds) inner msg_write chunk buf with_msgs c
      ≡ payload_loop rounds inner msg_init chunk buf with_msgs c
unfolding payload_loop
ended_step rounds inner chunk buf stream c [] ends = refl
ended_step rounds inner chunk buf stream c (msg ∷ others) ends =
    let over : ltb msg.len msg.size ≡ false = ground arith in rw (payload_loop, over) refl

-- The next message starts: the one before it is passed on.
starts_Adds :
    (rounds inner : ℕ) (chunk : Chunk) (buf : List ℕ) (stream served : MsgStream) (c : Conn)
    (log : List ℕ) (msg : Msg)
    → Stores stream log
    → c.memory ≡ []
    → ended stream.msgs ≡ true
    → passed_on inner stream ≡ some served
    → new_msg chunk served.offset buf ≡ some msg
    → 0 < msg.size
    → share msg buf ≤ free stream
    → share msg buf < inner
    → (new : MsgStream) × (payload_loop (suc (suc (suc rounds))) inner msg_write chunk buf stream c
        ≡ some (some (answer msg buf, new, c)))
      × Extends log buf (share msg buf) msg served.msgs served new
starts_Adds rounds inner chunk buf stream served c log msg stores calm ends passed starts some_size
      room enough =
    let kept = passed_list-Keeps inner stream served stream.msgs passed in
    let opened = record served { msgs = msg ∷ served.msgs } in
    let opened_stores : Stores opened log = record {
      bytes_held = subst (λ b. Hold b log) (sym kept.blocks_kept) stores.bytes_held;
      offset_is = kept.offset_kept ∙ stores.offset_is;
    } in
    let same_free : free opened ≡ free stream = passed_on-free inner stream served passed in
    let (fresh, at, size) = new_msg-Fresh chunk served.offset buf msg starts in
    let (new, runs, extends) =
      write_Adds inner chunk buf opened c log opened_stores calm rounds msg served.msgs refl
        (omega (arith, fresh)) (omega (arith, same_free)) enough in
    (
      new,
      ended_step (suc (suc rounds)) inner chunk buf stream c stream.msgs ends
          ∙ init_step (suc rounds) inner chunk buf stream served c msg calm passed starts
          ∙ runs,
      record {
        stored = extends.stored;
        msgs_are = extends.msgs_are;
        players_same = extends.players_same;
        videometa_same = extends.videometa_same;
        free_less = extends.free_less;
      },
    )

-- The source with the stream as it is after a call
abbrev pub published : Source → ℕ → MsgStream → Source
published s streamid new = record s { nstreams = assign streamid new s.nstreams }

payload_runs :
    (rounds inner k : ℕ) (s : Source) (chunk : Chunk) (buf log : List ℕ) (stream new : MsgStream)
    → Publishes s chunk stream log
    → payload_loop rounds inner msg_write chunk buf stream s.conn ≡ some (some (k, new, s.conn))
    → msg_payload rounds inner s buf ≡ some (some (k, published s chunk.streamid new))
unfolding msg_payload
payload_runs rounds inner k s chunk buf log stream new publishes runs =
    rw (msg_payload, publishes.chunk_is, publishes.stream_is, runs) refl

published-Publishes :
    (s : Source) (chunk : Chunk) (log more : List ℕ) (stream new : MsgStream)
    → Publishes s chunk stream log
    → Stores new more
    → Publishes (published s chunk.streamid new) chunk new more
published-Publishes s chunk log more stream new publishes stores = record {
  chunk_is = publishes.chunk_is;
  stream_is = find-assign chunk.streamid stream new s.nstreams publishes.stream_is;
  stores = stores;
  quiet = publishes.quiet;
}

-- What a call of `rtmp_msg_payload` does with the next bytes of `msg`
abbrev pub Takes : ℕ → ℕ → Source → Chunk → List ℕ → List ℕ → Msg → List Msg → MsgStream → Type 0
Takes rounds inner s chunk log buf msg others before =
    (new : MsgStream) × (msg_payload rounds inner s buf
      ≡ some (some (answer msg buf, published s chunk.streamid new)))
    × Publishes (published s chunk.streamid new) chunk new (log ++ take (share msg buf) buf)
    × Extends log buf (share msg buf) msg others before new

-- While a message is under way
pub msg_payload-continues :
    (rounds inner : ℕ) (s : Source) (chunk : Chunk) (stream : MsgStream) (log buf : List ℕ)
    (msg : Msg) (others : List Msg)
    → Publishes s chunk stream log
    → stream.msgs ≡ msg ∷ others
    → msg.len < msg.size
    → share msg buf ≤ free stream
    → share msg buf < inner
    → Takes (suc rounds) inner s chunk log buf msg others stream
msg_payload-continues rounds inner s chunk stream log buf msg others publishes latest more room
      enough =
    let (new, runs, extends) =
      write_Adds inner chunk buf stream s.conn log publishes.stores publishes.quiet rounds msg
        others latest more room enough in
    (
      new,
      payload_runs (suc rounds) inner (answer msg buf) s chunk buf log stream new publishes runs,
      published-Publishes s chunk log (log ++ take (share msg buf) buf) stream new publishes
          extends.stored,
      extends,
    )

-- At the start of a message
pub msg_payload-starts :
    (rounds inner : ℕ) (s : Source) (chunk : Chunk) (stream served : MsgStream) (log buf : List ℕ)
    (msg : Msg)
    → Publishes s chunk stream log
    → ended stream.msgs ≡ true
    → passed_on inner stream ≡ some served
    → new_msg chunk served.offset buf ≡ some msg
    → 0 < msg.size
    → share msg buf ≤ free stream
    → share msg buf < inner
    → Takes (suc (suc (suc rounds))) inner s chunk log buf msg served.msgs served
msg_payload-starts rounds inner s chunk stream served log buf msg publishes ends passed starts
      some_size room enough =
    let (new, runs, extends) =
      starts_Adds rounds inner chunk buf stream served s.conn log msg publishes.stores
        publishes.quiet ends passed starts some_size room enough in
    (
      new,
      payload_runs (suc (suc (suc rounds))) inner (answer msg buf) s chunk buf log stream new
          publishes runs,
      published-Publishes s chunk log (log ++ take (share msg buf) buf) stream new publishes
          extends.stored,
      extends,
    )
