-- ===== src/Rtmp/Media.antt =====
-- lib_src/transport/rns_rtmp.c: how a message of audio or video is sent to a player. Its bytes lie in
-- the blocks of the stream that it belongs to.
pub mod Interleaved
pub mod Sending
pub mod Headers
pub mod Delivery
pub mod Receiving
use yclib.Base.{
  allocated, rest_of, ℕ, zero, suc, ◌+◌, ◌-◌, ◌%◌, ◌^◌, bit_or, Bool, true, false, ◌&&◌, ◌||◌,
  Option, none, some, List, [], ◌∷◌, ◌++◌, ltb, leb, ◌==◌, not, if◌then◌else◌, u8, u32, sub32,
  ◌<<<◌, ◌>>>◌, ◌>>=◌, length, take, drop,
}
use yclib.Network.{htob24, htob32, htol32}
use yclib.Rtmp.Chunk.{
  Chunk, State, chunk_fmt, chunk_channel, chunk_timestamp, chunk_msg_len, chunk_msg_type,
  chunk_msg_streamid, chunk_extra_timestamp, chunk_done, Cursor, Round, goes_on, error, finished,
  put,
}
use yclib.Rtmp.Connection.{Conn, Ret, done, failed, allocating, then_round, attach_buffer}
use yclib.Rtmp.Incoming.{find, assign}

-- `rns_rtmp_msg_t`; `offset` is where the message starts in its stream, and `len` what is there of it.
pub record Msg : Type 0 where
  pub type : ℕ
  pub size : ℕ
  pub timestamp : ℕ
  pub streamid : ℕ
  pub offset : ℕ
  pub len : ℕ
  pub key : Bool
  pub packettype : ℕ

-- RNS_RTMP_STREAM_PSTATE_, what a player waits for
pub data PlayState : Type 0 where
  datamsg spspps keyframe frame : PlayState

abbrev pub is_keyframe : PlayState → Bool
is_keyframe keyframe = true
is_keyframe _ = false

-- A connection that plays, with the fields that sending reads and sets; `listed` says whether it is on the
-- list `rconns` of the server.
pub record Player : Type 0 where
  pub conn : Conn
  pub videochunk : ℕ
  pub audiochunk : ℕ
  pub pstate : PlayState
  pub netstream : ℕ
  pub listed : Bool

-- RTMP_BLOCK_SIZE, 2 ^ 19
abbrev pub block_size : ℕ
block_size = 524288

-- `offset & RTMP_BLOCK_MASK`, which clears the 19 low bits
abbrev pub aligned : ℕ → ℕ
aligned offset = offset - offset % block_size

-- The format that the chunk gets once a header of format `fmt` is started
abbrev pub next_fmt : ℕ → ℕ → ℕ
next_fmt fmt type =
    if fmt == 0 then (if type == 9 then 1 else if type == 8 then 2 else fmt) else fmt

-- The states of `rtmp_msg_header`; `none` is a write outside the buffer, for the time stamp is written
-- without a look at the room.
unfoldable pub header_step : ℕ → Chunk → Msg → ℕ → State → Cursor → Option Round
header_step fmt chunk msg stamp chunk_fmt c =
    some (goes_on chunk_channel (record c { byte = u8 (fmt <<< 6) }))
header_step fmt chunk msg stamp chunk_channel c =
    let next = if fmt == 3 then chunk_done else chunk_timestamp in
    if ltb chunk.channel 64
    then some (put (u8 (bit_or c.byte chunk.channel) ∷ []) next c)
    else if ltb chunk.channel (256 + 64)
    then some (put (c.byte ∷ u8 (chunk.channel - 64) ∷ []) next c)
    else if ltb (256 + 64) chunk.channel
    then some (put (u8 (c.byte + 1) ∷ 255 ∷ u8 ((chunk.channel - 256 - 64) >>> 8) ∷ []) next c)
    else some (goes_on next c)
header_step fmt chunk msg stamp chunk_timestamp c =
    let next = if fmt == 2 then chunk_done else chunk_msg_len in
    let value = if leb 16777215 stamp then 16777215 else stamp in
    if ltb c.left 3 then none else some (put (htob24 value) next c)
header_step fmt chunk msg stamp chunk_msg_len c = some (put (htob24 msg.len) chunk_msg_type c)
header_step fmt chunk msg stamp chunk_msg_type c =
    let next = if fmt == 0 then chunk_msg_streamid else chunk_extra_timestamp in
    some (put (u8 msg.type ∷ []) next c)
header_step fmt chunk msg stamp chunk_msg_streamid c =
    some (put (htol32 chunk.streamid) chunk_extra_timestamp c)
header_step fmt chunk msg stamp chunk_extra_timestamp c =
    if leb 0xffffff stamp
    then some (put (htob32 stamp) chunk_done c)
    else some (goes_on chunk_done c)
header_step fmt chunk msg stamp chunk_done c = some finished

-- The loop, up to the end of the buffer; `none` says also that the rounds have run out.
unfoldable pub header_loop : ℕ → ℕ → Chunk → Msg → ℕ → State → Cursor → Option (ℕ × List ℕ)
unfolding header_step
header_loop zero fmt chunk msg stamp s c = none
header_loop (suc rounds) fmt chunk msg stamp s c = elim (ltb 0 c.left) [
  | false ↦ some (length c.out, c.out)
  | true ↦ elim (header_step fmt chunk msg stamp s c) [
    | none ↦ none
    | some r ↦ elim r [
      | goes_on next d ↦ header_loop rounds fmt chunk msg stamp next d
      | error ↦ some (0, c.out)
      | finished ↦ some (length c.out, c.out)
    ]
  ]
]

-- `rtmp_msg_header` into a buffer of `size` bytes: the result, the bytes, and the chunk. Eight states
-- follow one another.
unfoldable pub msg_header : Chunk → Msg → ℕ → ℕ → Option (ℕ × List ℕ × Chunk)
unfolding header_loop
msg_header chunk msg stamp size =
    header_loop 9 chunk.fmt chunk msg stamp chunk_fmt (record { out = []; byte = 0; left = size })
    >>= λ (n, bytes).
        some (
          n,
          bytes,
          if ltb 0 size then record chunk { fmt = next_fmt chunk.fmt msg.type } else chunk,
        )

-- The bytes for the channel in `rtmp_mid_header`; `none` says that there is no room for them.
abbrev pub mid_channel : ℕ → ℕ → Option (List ℕ)
mid_channel chunkid size =
    let byte = u8 (3 <<< 6) in
    if ltb chunkid 64
    then (if ltb size 1 then none else some (u8 (bit_or byte chunkid) ∷ []))
    else if ltb chunkid (256 + 64)
    then (if ltb size 2 then none else some (byte ∷ u8 (chunkid - 64) ∷ []))
    else if ltb (256 + 64) chunkid
    then (if ltb size 3
        then none
        else some (u8 (byte + 1) ∷ 255 ∷ u8 ((chunkid - 256 - 64) >>> 8) ∷ []))
    else some []

-- `rtmp_mid_header`: the bytes before `walker`, of which there are none where the result is 0. `none`
-- is a write outside the buffer, whose first byte is set in any case.
unfoldable pub mid_header : ℕ → ℕ → ℕ → Option (List ℕ)
mid_header chunkid stamp size = if size == 0 then none else elim (mid_channel chunkid size) [
  | none ↦ some []
  | some bytes ↦
      if leb 0xffffff stamp
      then (if ltb (size - length bytes) 4 then some [] else some (bytes ++ htob32 stamp))
      else some bytes
]

-- Where the loop of `rtmp_msg_send` stands
pub record Position : Type 0 where
  pub offset : ℕ
  pub sendbytes : ℕ
  pub ochunklen : ℕ

abbrev pub smaller : ℕ → ℕ → ℕ
smaller a b = if ltb a b then a else b

abbrev pub round_len : ℕ → ℕ → Position → ℕ
round_len size ochunksize at =
    let rest = smaller (size - at.sendbytes) ochunksize in
    let inside = smaller rest (block_size - at.offset % block_size) in
    smaller inside (sub32 ochunksize at.ochunklen)

-- `len` bytes from there on, out of what has been written to the block
abbrev pub slice : ℕ → ℕ → List ℕ → Option (List ℕ)
slice from len bytes =
    if ltb (length bytes) (from + len) then none else some (take len (drop from bytes))

abbrev pub moved : ℕ → Position → Position
moved len at = record {
  offset = at.offset + len;
  sendbytes = at.sendbytes + len;
  ochunklen = at.ochunklen + len;
}

-- Between two chunks: the header of the next, whose buffer is not tested for NULL
abbrev pub between : ℕ → ℕ → Conn → (Conn → Option (Ret × Conn)) → Option (Ret × Conn)
between chunkid stamp c next =
    let d = record c { memory = rest_of c.memory } in
    if not (allocated c.memory)
    then none
    else mid_header chunkid stamp 16 >>= λ bytes. elim bytes [
      | [] ↦ some (failed 51, d)
      | b ∷ more ↦ then_round (attach_buffer (b ∷ more) true d) 6 next
    ]

-- The test says that the chunk ends and more is to come.
abbrev pub behind_piece :
    ℕ
    → ℕ
    → Bool
    → (Conn → Option (Ret × Conn))
    → (Conn → Option (Ret × Conn))
    → Conn
    → Option (Ret × Conn)
behind_piece chunkid stamp false same new c = same c
behind_piece chunkid stamp true same new c = between chunkid stamp c new

unfoldable pub block_loop :
    ℕ → ℕ → ℕ → List (ℕ × List ℕ) → ℕ → Position → Conn → Option (Ret × Conn)
unfolding attach_buffer mid_header
block_loop zero chunkid stamp blocks size at c = none
block_loop (suc rounds) chunkid stamp blocks size at c = elim (ltb at.sendbytes size) [
  | false ↦ some (done, c)
  | true ↦ elim (find (aligned at.offset) blocks) [
    | none ↦ some (failed 5, c)
    | some content ↦
        let len = round_len size c.ochunksize at in
        let on = moved len at in
        slice (at.offset - aligned at.offset) len content >>= λ bytes.
        then_round (attach_buffer bytes false c) 5 λ d.
          behind_piece chunkid stamp (ltb on.sendbytes size && leb d.ochunksize on.ochunklen)
            (block_loop rounds chunkid stamp blocks size on)
            (block_loop rounds chunkid stamp blocks size (record on { ochunklen = 0 })) d
  ]
]

-- The blocks of a stream, by the offset at which each starts
abbrev pub Blocks : Type 0
Blocks = List (ℕ × List ℕ)

abbrev pub new_chunk : ℕ → ℕ → Msg → Chunk
new_chunk chunkid netstream msg = record {
  fmt = 0;
  channel = chunkid;
  timestamp = msg.timestamp;
  msglen = msg.size;
  msgtype = msg.type;
  streamid = netstream;
}

-- The chunk stream on which a player gets the message, made where the search gives none
abbrev pub opened_for : Option Chunk → ℕ → ℕ → Msg → Conn → Ret × Conn
opened_for (some chunk) chunkid netstream msg c = (done, c)
opened_for none chunkid netstream msg c = allocating 3 c λ d.
    let chunk = new_chunk chunkid netstream msg in
    (done, record d { chunkstreams = d.chunkstreams ++ (chunkid, chunk) ∷ [] })

abbrev pub opened : ℕ → ℕ → Msg → Conn → Ret × Conn
opened chunkid netstream msg c = opened_for (find chunkid c.chunkstreams) chunkid netstream msg c

-- A message that starts anew has a full header.
abbrev pub restarted : PlayState → Msg → Chunk → Chunk
restarted pstate msg chunk =
    if (chunk.fmt == 0 && msg.type == 8) || is_keyframe pstate
    then record chunk { timestamp = msg.timestamp; fmt = 0 }
    else chunk

abbrev pub set_stream : ℕ → Chunk → Conn → Conn
set_stream chunkid chunk c = record c { chunkstreams = assign chunkid chunk c.chunkstreams }

abbrev pub start : Msg → Position
start msg = record { offset = msg.offset; sendbytes = 0; ochunklen = 0 }

-- What follows once the chunk stream is there
abbrev pub send_message :
    ℕ → Option Blocks → Msg → PlayState → ℕ → Chunk → Conn → Option (Ret × Conn)
send_message rounds found msg pstate chunkid old c =
    let chunk = restarted pstate msg old in
    let d = set_stream chunkid chunk c in
    let stamp = sub32 msg.timestamp chunk.timestamp in
    elim found [
      | none ↦ some (failed 31, d)
      | some blocks ↦ msg_header chunk msg stamp 32 >>= λ (n, bytes, changed).
          then_round (attach_buffer (take n bytes) false (set_stream chunkid changed d)) 4 λ e.
            block_loop rounds chunkid stamp blocks msg.size (start msg)
              (set_stream chunkid (record changed { timestamp = msg.timestamp }) e)
    ]

abbrev pub with_conn :
    Player → Option (Ret × Conn) → (Ret → Player → Player) → Option (Ret × Player)
with_conn p none f = none
with_conn p (some (ret, c)) f = some (ret, f ret (record p { conn = c }))

-- A keyframe that has been sent ends the wait for one.
abbrev pub sent_message : Msg → Ret → Player → Player
sent_message msg (failed n) p = p
sent_message msg done p = if is_keyframe p.pstate && msg.key then record p { pstate = frame } else p

-- `rtmp_msg_send`, where `found` is what the search for the stream of the message gives.
unfoldable pub msg_send : ℕ → Option Blocks → Msg → Player → Option (Ret × Player)
unfolding msg_header block_loop
msg_send rounds found msg p =
    let chunkid = if msg.type == 8 then p.audiochunk else p.videochunk in
    let waits = is_keyframe p.pstate && not msg.key in
    with_conn p
      (then_round (allocating 2 p.conn λ c. (done, c)) 2 λ c.
        if waits
        then some (done, c)
        else then_round (opened chunkid p.netstream msg c) 3 λ d.
          find chunkid d.chunkstreams >>= λ chunk.
          send_message rounds found msg p.pstate chunkid chunk d)
      (λ ret q. if waits then q else sent_message msg ret q)
