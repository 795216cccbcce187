-- ===== src/Rtmp/Parse.antt =====
-- lib_src/transport/rns_rtmp.c, rtmp_parse: the state machine by which a connection reads the handshake
-- and the chunks.
pub mod Header
pub mod Chunks
pub mod Control
pub mod Handshake
pub mod Separator
use yclib.Base.{
  allocated, rest_of, ℕ, zero, suc, ◌+◌, ◌-◌, ◌*◌, ◌/◌, ◌%◌, ◌^◌, bit_and, Bool, true, false, ◌&&◌,
  Option, none, some, List, [], ◌∷◌, ◌++◌, ltb, ◌==◌, if◌then◌else◌, u32, ◌<<<◌, ◌>>>◌, sub32,
  ◌>>=◌, length, take, drop,
}
use yclib.Network.{btoh16, btoh24, btoh32, ltoh32}
use yclib.Rtmp.Chunk.{Chunk}
use yclib.Rtmp.Connection.{
  Conn, Phase, handshake_c0, handshake_c1, handshake_c2, handshake_s0, handshake_s1, handshake_s2,
  chunk_fmt, chunk_channel_1, chunk_channel_2, chunk_channel_3, chunk_channel, chunk_timestamp,
  chunk_msg_len, chunk_msg_type, chunk_msg_streamid, chunk_extra_timestamp, chunk_payload, send_s0,
  send_s1, send_s2,
}
use yclib.Rtmp.Incoming.{
  find, assign, current, set_chunk, zero_chunk, same_bytes, Handlers, msg_parse,
}

-- A round of `rtmp_parse` moves the walker and goes on, or leaves the loop.
pub data Round : Type 0 where
  goes : Conn → ℕ → Round
  leaves : Conn → ℕ → Round

-- Leaves the loop where fewer than `size` bytes are left, and otherwise reads a number.
abbrev pub reading : ℕ → Conn → List ℕ → Option ℕ → (ℕ → Option Round) → Option Round
reading size c walker number next =
    if ltb (length walker) size then some (leaves c 0) else number >>= next

abbrev pub first_byte : List ℕ → Option ℕ
first_byte [] = none
first_byte (b ∷ walker) = some b

abbrev pub second_byte : List ℕ → Option ℕ
second_byte (a ∷ b ∷ walker) = some b
second_byte _ = none

-- What a call comes to: its result, an access outside a buffer, or a loop that needs more rounds.
pub data Parsed : Type 0 where
  returned : ℕ → Conn → Parsed
  undefined out_of_rounds : Parsed

-- `state > RNS_RTMP_CHUNK_CHANNEL`
abbrev pub beyond_channel : Phase → Bool
beyond_channel chunk_timestamp = true
beyond_channel chunk_msg_len = true
beyond_channel chunk_msg_type = true
beyond_channel chunk_msg_streamid = true
beyond_channel chunk_extra_timestamp = true
beyond_channel chunk_payload = true
beyond_channel _ = false

-- `noise` is what the array of `rtmp_send_S1` holds.
module _ (handlers : Handlers) (noise : List ℕ) where
  -- What each state does
  abbrev read_c0 : Conn → List ℕ → Option Round
  read_c0 c walker =
      if ltb (length walker) 1
      then some (leaves c 0)
      else some (goes (record (send_s1 noise (send_s0 c)) { state = handshake_c1 }) 1)

  abbrev read_c1 : Conn → List ℕ → Option Round
  read_c1 c walker =
      let cs2 = take 4 walker ++ 0 ∷ 0 ∷ 0 ∷ 0 ∷ take 1528 (drop 8 walker) in
      if ltb (length walker) 1536
      then some (leaves c 0)
      else some (goes (record (send_s2 (record c { cs2 = cs2 })) { state = handshake_c2 }) 1536)

  abbrev read_c2 : Conn → List ℕ → Option Round
  read_c2 c walker =
      if ltb (length walker) 1536
      then some (leaves c 0)
      else if same_bytes (take 4 c.cs1) (take 4 walker)
      then (if same_bytes (take 1528 (drop 8 c.cs1)) (take 1528 (drop 8 walker))
          then some (goes (record c { state = chunk_fmt }) 1536)
          else some (goes c 8))
      else some (goes c 0)

  abbrev read_fmt : Conn → List ℕ → Option Round
  read_fmt c walker =
      reading 1 c walker (first_byte walker)
        λ b. some (goes (record c { curfmt = bit_and b 0xc0 >>> 6; state = chunk_channel_1 }) 0)

  abbrev read_channel_1 : Conn → List ℕ → Option Round
  read_channel_1 c walker = reading 1 c walker (first_byte walker) λ b.
      let curchunk = bit_and b 0x3f in
      let next =
        if curchunk == 0
        then chunk_channel_2
        else if curchunk == 1
        then chunk_channel_3
        else chunk_channel in
      some (goes (record c { curchunk = curchunk; state = next }) 1)

  abbrev read_channel_2 : Conn → List ℕ → Option Round
  read_channel_2 c walker =
      reading 1 c walker (first_byte walker)
        λ b. some (goes (record c { curchunk = b + 64; state = chunk_channel }) 1)

  abbrev read_channel_3 : Conn → List ℕ → Option Round
  read_channel_3 c walker = reading 1 c walker (first_byte walker) λ a. second_byte walker >>= λ b.
      some (goes (record c { curchunk = b <<< 8 + a + 64; state = chunk_channel }) 2)

  abbrev pub open_channel : Conn → List ℕ → Option Round
  open_channel c walker =
      let next : ℕ → Phase = λ f. if f == 3 then chunk_payload else chunk_timestamp in
      let opened : Chunk → Chunk = λ chunk. record chunk { fmt = c.curfmt; channel = c.curchunk } in
      elim (current c) [
        | some chunk ↦ some (goes (record (set_chunk (opened chunk) c) { state = next c.curfmt }) 0)
        | none ↦
            let d = record c { memory = rest_of c.memory } in
            if allocated c.memory
            then some (
                goes
                  (record d {
                    chunkstreams = d.chunkstreams ++ (c.curchunk, opened zero_chunk) ∷ [];
                    state = next c.curfmt;
                  })
                  0)
            else some (leaves (record d { state = chunk_fmt }) (length walker))
      ]

  abbrev read_timestamp : Conn → List ℕ → Option Round
  read_timestamp c walker = reading 3 c walker (btoh24 walker) λ t. current c >>= λ chunk.
      let stamp = if chunk.fmt == 0 then t else u32 (chunk.timestamp + t) in
      let next = if chunk.fmt == 2 then chunk_extra_timestamp else chunk_msg_len in
      some (goes (record (set_chunk (record chunk { timestamp = stamp }) c) { state = next }) 3)

  abbrev read_msg_len : Conn → List ℕ → Option Round
  read_msg_len c walker = reading 3 c walker (btoh24 walker) λ n. current c >>= λ chunk.
      some (goes (record (set_chunk (record chunk { msglen = n }) c) { state = chunk_msg_type }) 3)

  abbrev read_msg_type : Conn → List ℕ → Option Round
  read_msg_type c walker = reading 1 c walker (first_byte walker) λ b. current c >>= λ chunk.
      let next = if chunk.fmt == 0 then chunk_msg_streamid else chunk_extra_timestamp in
      some (goes (record (set_chunk (record chunk { msgtype = b }) c) { state = next }) 1)

  abbrev read_msg_streamid : Conn → List ℕ → Option Round
  read_msg_streamid c walker = reading 4 c walker (ltoh32 walker) λ n. current c >>= λ chunk. some (
      goes (record (set_chunk (record chunk { streamid = n }) c) { state = chunk_extra_timestamp })
        4)

  abbrev read_extra_timestamp : Conn → List ℕ → Option Round
  read_extra_timestamp c walker = current c >>= λ chunk.
      if chunk.timestamp == 0xffffff
      then (reading 4 c walker (btoh32 walker) λ t. some (
          goes (record (set_chunk (record chunk { timestamp = t }) c) { state = chunk_payload }) 4))
      else some (goes (record c { state = chunk_payload }) 0)

  abbrev read_payload : Conn → List ℕ → Option Round
  read_payload c walker =
      let len = if ltb c.ichunksize (length walker) then c.ichunksize else length walker in
      msg_parse handlers c (take len walker) >>= λ (s, d).
      let curlen = u32 (d.curlen + s) in
      let moved = if s == 0 then len else s in
      if s == 0 && ltb len d.ichunksize && ltb curlen d.ichunksize
      then some (goes (record d { curlen = curlen }) moved)
      else some (goes (record d { curlen = 0; state = chunk_fmt }) moved)

  unfoldable pub parse_step : Phase → Conn → List ℕ → Option Round
  unfolding send_s0 send_s1 send_s2 msg_parse
  parse_step handshake_c0 c walker = read_c0 c walker
  parse_step handshake_c1 c walker = read_c1 c walker
  parse_step handshake_c2 c walker = read_c2 c walker
  parse_step handshake_s0 c walker = some (goes (record c { state = handshake_s1 }) 0)
  parse_step handshake_s1 c walker = some (goes (record c { state = handshake_s2 }) 0)
  parse_step handshake_s2 c walker = some (goes (record c { state = chunk_fmt }) 0)
  parse_step chunk_fmt c walker = read_fmt c walker
  parse_step chunk_channel_1 c walker = read_channel_1 c walker
  parse_step chunk_channel_2 c walker = read_channel_2 c walker
  parse_step chunk_channel_3 c walker = read_channel_3 c walker
  parse_step chunk_channel c walker = open_channel c walker
  parse_step chunk_timestamp c walker = read_timestamp c walker
  parse_step chunk_msg_len c walker = read_msg_len c walker
  parse_step chunk_msg_type c walker = read_msg_type c walker
  parse_step chunk_msg_streamid c walker = read_msg_streamid c walker
  parse_step chunk_extra_timestamp c walker = read_extra_timestamp c walker
  parse_step chunk_payload c walker = read_payload c walker

  -- The loop, with the bytes that the walker has passed.
  unfoldable pub parse_loop : ℕ → ℕ → Conn → List ℕ → Parsed
  unfolding parse_step
  parse_loop zero walked c walker = out_of_rounds
  parse_loop (suc rounds) walked c [] = returned walked c
  parse_loop (suc rounds) walked c (b ∷ behind) =
      let walker = b ∷ behind in
      elim (parse_step c.state c walker) [
        | none ↦ undefined
        | some r ↦ elim r [
          | goes d n ↦ parse_loop rounds (walked + n) d (drop n walker)
          | leaves d n ↦ returned (walked + n) d
        ]
      ]

  unfoldable pub rtmp_parse : ℕ → Conn → List ℕ → Parsed
  unfolding parse_loop
  rtmp_parse rounds c buf =
      let run = parse_loop rounds 0 c buf in
      elim (current c) [
        | none ↦ if beyond_channel c.state then returned (length buf) c else run
        | some chunk ↦ run
      ]
