-- ===== src/Rtmp/Payload.antt =====
-- lib_src/transport/rns_rtmp.c, rtmp_msg_payload: how the bytes of audio and video get into the blocks
-- of a stream, and from there to its players.
pub mod Growing
pub mod Storing
pub mod Messages
pub mod Relay
pub mod Players
pub mod Endless
use yclib.Base.{
  allocated, rest_of, ℕ, zero, suc, ◌+◌, ◌-◌, Bool, true, false, ◌&&◌, Option, none, some, List, [],
  ◌∷◌, ◌++◌, ltb, ◌==◌, if◌then◌else◌, u32, ◌>>=◌, length, take, drop,
}
use yclib.Rtmp.Chunk.{Chunk}
use yclib.Rtmp.Connection.{Conn, Ret, done, failed}
use yclib.Rtmp.Incoming.{find, assign, current, set_chunk, zero_chunk}
use yclib.Rtmp.Media.{Msg, Player, Blocks, block_size, aligned, smaller, msg_send}

-- `rns_rtmp_msg_stream_t`, with the messages from the newest on; `pool` is how many blocks its pool
-- still hands out, and `players` are in the order in which they are served.
pub record MsgStream : Type 0 where
  pub msgs : List Msg
  pub blocks : Blocks
  pub pool : ℕ
  pub offset : ℕ
  pub videometa : Option Msg
  pub players : List Player

-- The connection that publishes, and the streams of the server by their number
pub record Source : Type 0 where
  pub conn : Conn
  pub cindex : ℕ
  pub nstreams : List (ℕ × MsgStream)

-- RTMP_MSG_
pub data PayloadState : Type 0 where
  msg_init msg_write msg_error : PayloadState

-- A message under way: what is left of the input, and what it changes
pub record Writing : Type 0 where
  pub left : List ℕ
  pub msg : Msg
  pub stream : MsgStream
  pub conn : Conn

-- The block at that offset, made where there is none
abbrev pub block_at : ℕ → Writing → Option (List ℕ × Writing)
block_at offset w = elim (find offset w.stream.blocks) [
  | some content ↦ some (content, w)
  | none ↦
      let memory = rest_of w.conn.memory in
      let v = record w { conn = record w.conn { memory = memory } } in
      if allocated w.conn.memory
      then elim w.stream.pool [
        | zero ↦ none
        | suc more ↦
            let stream = record w.stream {
              pool = more;
              blocks = w.stream.blocks ++ (offset, []) ∷ [];
            } in
            some ([], record v { stream = stream })
      ]
      else none
]

-- `len` bytes of the input into the block
abbrev pub copied : ℕ → ℕ → List ℕ → Writing → Writing
copied offset len content w = record {
  left = drop len w.left;
  msg = record w.msg { len = w.msg.len + len };
  stream = record w.stream {
    offset = w.stream.offset + len;
    blocks = assign offset (content ++ take len w.left) w.stream.blocks;
  };
  conn = w.conn;
}

-- The inner loop; it ends where a block cannot be had.
unfoldable pub store_loop : ℕ → Writing → Option Writing
store_loop zero w = none
store_loop (suc rounds) w = elim (ltb 0 (length w.left) && ltb w.msg.len w.msg.size) [
  | false ↦ some w
  | true ↦
      let offset = aligned w.stream.offset in
      elim (block_at offset w) [
        | none ↦ some (record w { conn = record w.conn { memory = rest_of w.conn.memory } })
        | some r ↦
            let (content, v) = r in
            let len = smaller (block_size - length content) (length v.left) in
            store_loop rounds (copied offset (smaller len (v.msg.size - v.msg.len)) content v)
      ]
]

-- The connection of a player to whom a message went is put on the list `rconns` of the server, where
-- it is not yet (in what order is no part of the state); one to whom it did not go stays where it is.
abbrev pub noted : Ret → Player → Player
noted done q = record q { listed = true }
noted (failed n) q = q

-- Sends a message to all players, one after the other, also behind one to whom it cannot be sent.
abbrev pub serve : ℕ → Blocks → Msg → List Player → Option (List Player)
serve rounds blocks msg [] = some []
serve rounds blocks msg (p ∷ players) = msg_send rounds (some blocks) msg p >>= λ (ret, q).
    serve rounds blocks msg players >>= λ others. some (noted ret q ∷ others)

-- What happens to the message that is complete, if there is one
abbrev pub passed_list : ℕ → MsgStream → List Msg → Option MsgStream
passed_list rounds stream [] = some stream
passed_list rounds stream (msg ∷ others) =
    if msg.key && msg.packettype == 0
    then some (record stream { videometa = some msg; msgs = others })
    else serve rounds stream.blocks msg stream.players >>= λ players.
        some (record stream { players = players })

abbrev pub passed_on : ℕ → MsgStream → Option MsgStream
passed_on rounds stream = passed_list rounds stream stream.msgs

abbrev pub made_msg : Chunk → ℕ → Bool → ℕ → Msg
made_msg chunk offset key packettype = record {
  type = chunk.msgtype;
  size = chunk.msglen;
  timestamp = if chunk.fmt == 3 then u32 (chunk.timestamp + 10) else chunk.timestamp;
  streamid = chunk.streamid;
  offset = offset;
  len = 0;
  key = key;
  packettype = packettype;
}

-- The message that starts with `walker`; `none` is a read outside the input.
abbrev pub new_msg : Chunk → ℕ → List ℕ → Option Msg
new_msg chunk offset [] = if chunk.msgtype == 9 then none else some (made_msg chunk offset false 1)
new_msg chunk offset (b ∷ []) =
    if chunk.msgtype == 9 && b == 0x17 then none else some (made_msg chunk offset false 1)
new_msg chunk offset (b ∷ e ∷ more) =
    if chunk.msgtype == 9 && b == 0x17
    then some (made_msg chunk offset true (if e == 0 then 0 else 1))
    else some (made_msg chunk offset false 1)

-- The states; the result is the bytes taken, the stream and the connection. `some none` says that the
-- rounds of this loop did not suffice; `none` is an access that C leaves undefined, or a want of rounds
-- in a loop that it calls.
unfoldable pub payload_loop :
    ℕ
    → ℕ
    → PayloadState
    → Chunk
    → List ℕ
    → MsgStream
    → Conn
    → Option (Option (ℕ × MsgStream × Conn))
unfolding msg_send store_loop
payload_loop zero inner s chunk buf stream c = some none
payload_loop (suc rounds) inner msg_init chunk buf stream c = passed_on inner stream >>= λ served.
    let d = record c { memory = rest_of c.memory } in
    let made = new_msg chunk served.offset buf >>= λ msg.
    payload_loop rounds inner msg_write chunk buf (record served { msgs = msg ∷ served.msgs }) d in
    let lost = payload_loop rounds inner msg_error chunk buf served d in
    if allocated c.memory then made else lost
payload_loop (suc rounds) inner msg_write chunk buf stream c = elim stream.msgs [
  | [] ↦ payload_loop rounds inner msg_init chunk buf stream c
  | msg ∷ others ↦ elim (ltb msg.len msg.size) [
    | false ↦ payload_loop rounds inner msg_init chunk buf stream c
    | true ↦ store_loop inner (record { left = buf; msg = msg; stream = stream; conn = c }) >>= λ w.
        let taken = if ltb w.msg.len w.msg.size then 0 else length buf - length w.left in
        some (some (taken, record w.stream { msgs = w.msg ∷ others }, w.conn))
  ]
]
payload_loop (suc rounds) inner msg_error chunk buf stream c = some (some (length buf, stream, c))

-- Without a chunk stream in hand the code makes one, of stream 0, under the number `cindex`.
abbrev pub chunk_of : Source → Option (Chunk × Source)
chunk_of s = elim (current s.conn) [
  | some chunk ↦ some (chunk, s)
  | none ↦
      let d = record s.conn {
        memory = rest_of s.conn.memory;
        chunkstreams = s.conn.chunkstreams ++ (s.cindex, zero_chunk) ∷ [];
      } in
      if allocated s.conn.memory
      then some (zero_chunk, record s { conn = d; cindex = u32 (s.cindex + 1) })
      else none
]

unfoldable pub msg_payload : ℕ → ℕ → Source → List ℕ → Option (Option (ℕ × Source))
unfolding payload_loop
msg_payload rounds inner s buf = elim (chunk_of s) [
  | none ↦
      let d = record s.conn { memory = rest_of s.conn.memory } in
      some (some (length buf, record s { conn = d }))
  | some r ↦
      let (chunk, t) = r in
      elim (find chunk.streamid t.nstreams) [
        | none ↦ some (some (length buf, t))
        | some stream ↦ payload_loop rounds inner msg_write chunk buf stream t.conn >>= λ run.
            some (
              run >>= λ (n, new, c).
              some (n, record t { conn = c; nstreams = assign chunk.streamid new t.nstreams }))
      ]
]

-- The header of a chunk that goes on with a message has the format 3.
abbrev pub headed : Source → Source
headed s = elim (current s.conn) [
  | none ↦ s
  | some chunk ↦ record s { conn = set_chunk (record chunk { fmt = 3 }) s.conn }
]

-- The calls for the parts of a message, which come in one chunk after the other; `none` where one of
-- them does not return.
abbrev pub receive_rest : ℕ → ℕ → Source → List (List ℕ) → Option Source
receive_rest rounds inner s [] = some s
receive_rest rounds inner s (part ∷ parts) = msg_payload rounds inner (headed s) part >>= λ run.
    run >>= λ (n, t). receive_rest rounds inner t parts

abbrev pub receive : ℕ → ℕ → Source → List (List ℕ) → Option Source
receive rounds inner s [] = some s
receive rounds inner s (part ∷ parts) =
    msg_payload rounds inner s part >>= λ run. run >>= λ (n, t). receive_rest rounds inner t parts
