-- ===== src/Rtmp/Chunk.antt =====
-- lib_src/transport/rns_rtmp.c, rtmp_chunk_write: the state machine that writes the header of a chunk
-- into a buffer of limited size.
pub mod Layout
use yclib.Base.{
  ℕ, zero, suc, ◌+◌, ◌-◌, ◌*◌, ◌/◌, ◌%◌, ◌^◌, bit_or, Option, none, some, List, [], ◌∷◌, ◌++◌, ltb,
  ◌==◌, if◌then◌else◌, u8, ◌<<<◌, ◌>>>◌, length,
}
use yclib.Network.{htob24, htob32, htol32}

-- `rns_rtmp_chunk_t`
pub record Chunk : Type 0 where
  pub fmt : ℕ
  pub channel : ℕ
  pub timestamp : ℕ
  pub msglen : ℕ
  pub msgtype : ℕ
  pub streamid : ℕ

-- The constants RNS_RTMP_CHUNK_ that the function goes through
pub data State : Type 0 where
  chunk_fmt : State
  chunk_channel : State
  chunk_timestamp : State
  chunk_msg_len : State
  chunk_msg_type : State
  chunk_msg_streamid : State
  chunk_extra_timestamp : State
  chunk_done : State

-- The bytes from `buf` to `walker`, the byte at `walker` once it has been set, and `end - walker`
pub record Cursor : Type 0 where
  pub out : List ℕ
  pub byte : ℕ
  pub left : ℕ

-- A round goes on in a state, leaves by ERR_EXIT, or is the last.
pub data Round : Type 0 where
  goes_on : State → Cursor → Round
  error : Round
  finished : Round

-- Where there is room for `bytes`, write them and go on.
abbrev pub put : List ℕ → State → Cursor → Round
put bytes next c =
    if ltb c.left (length bytes)
    then error
    else goes_on next (record { out = c.out ++ bytes; byte = c.byte; left = c.left - length bytes })

unfoldable pub step : Chunk → State → Cursor → Round
step chunk chunk_fmt c =
    if ltb c.left 1
    then error
    else goes_on chunk_channel (record { out = c.out; byte = u8 (chunk.fmt <<< 6); left = c.left })
step chunk chunk_channel c =
    let next = if chunk.fmt == 3 then chunk_done else chunk_timestamp in
    if ltb chunk.channel 64
    then put (u8 (bit_or c.byte chunk.channel) ∷ []) next c
    else if ltb chunk.channel (256 + 64)
    then put (c.byte ∷ u8 (chunk.channel - 64) ∷ []) next c
    else if ltb (256 + 64) chunk.channel
    then put (u8 (c.byte + 1) ∷ 255 ∷ u8 ((chunk.channel - 256 - 64) >>> 8) ∷ []) next c
    else goes_on next c
step chunk chunk_timestamp c =
    put (htob24 chunk.timestamp) (if chunk.fmt == 2 then chunk_extra_timestamp else chunk_msg_len) c
step chunk chunk_msg_len c = put (htob24 chunk.msglen) chunk_msg_type c
step chunk chunk_msg_type c =
    put (u8 chunk.msgtype ∷ [])
      (if chunk.fmt == 0 then chunk_msg_streamid else chunk_extra_timestamp) c
step chunk chunk_msg_streamid c = put (htol32 chunk.streamid) chunk_extra_timestamp c
step chunk chunk_extra_timestamp c =
    if chunk.timestamp == 0xffffff
    then put (htob32 chunk.timestamp) chunk_done c
    else goes_on chunk_done c
step chunk chunk_done c = finished

-- The loop, which gives what the function returns and the bytes before `walker`; `none` says that the
-- rounds have run out.
unfoldable pub chunk_loop : ℕ → Chunk → State → Cursor → Option (ℕ × List ℕ)
unfolding step
chunk_loop zero chunk s c = none
chunk_loop (suc rounds) chunk s c = elim (step chunk s c) [
  | goes_on next d ↦ chunk_loop rounds chunk next d
  | error ↦ some (0, c.out)
  | finished ↦ some (length c.out, c.out)
]

unfoldable pub chunk_write : ℕ → Chunk → ℕ → Option (ℕ × List ℕ)
unfolding chunk_loop
chunk_write rounds chunk size =
    chunk_loop rounds chunk chunk_fmt (record { out = []; byte = 0; left = size })
