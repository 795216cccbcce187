-- ===== src/Rtmp/Incoming.antt =====
-- lib_src/transport/rns_rtmp.c, rtmp_msg_parse: what a connection does with the messages it receives.
use yclib.Base.{
  ℕ, ◌+◌, Bool, true, false, ◌&&◌, Option, none, some, List, [], ◌∷◌, ◌++◌, ltb, ◌==◌,
  if◌then◌else◌, u32, sub32, ◌>>=◌, length, drop,
}
use yclib.Network.{btoh16, btoh32}
use yclib.Rtmp.Chunk.{Chunk}
use yclib.Rtmp.Connection.{Conn}

-- `rbt_search_int` of a tree, such as the chunk streams, and the assignment to the one that it gives.
abbrev pub find {ℓ} : {A : Type ℓ} → ℕ → List (ℕ × A) → Option A
find key [] = none
find key ((k, a) ∷ rest) = if k == key then some a else find key rest

abbrev pub assign {ℓ} : {A : Type ℓ} → ℕ → A → List (ℕ × A) → List (ℕ × A)
assign key a [] = []
assign key a ((k, old) ∷ rest) = if k == key then (k, a) ∷ rest else (k, old) ∷ assign key a rest

abbrev pub current : Conn → Option Chunk
current c = find c.curchunk c.chunkstreams

-- `chunkstream->chunk` takes a new value.
abbrev pub set_chunk : Chunk → Conn → Conn
set_chunk chunk c = record c { chunkstreams = assign c.curchunk chunk c.chunkstreams }

-- The chunk that `calloc` gives
abbrev pub zero_chunk : Chunk
zero_chunk = record { fmt = 0; channel = 0; timestamp = 0; msglen = 0; msgtype = 0; streamid = 0 }

abbrev pub same_bytes : List ℕ → List ℕ → Bool
same_bytes [] [] = true
same_bytes (a ∷ left) (b ∷ right) = a == b && same_bytes left right
same_bytes _ _ = false

-- `none` is an access outside a buffer. A parser gives the bytes that it takes, 0 where some are missing.
abbrev pub Parser : Type 0
Parser = Conn → List ℕ → Option (ℕ × Conn)

-- The user control messages, of which nothing is kept.
unfoldable pub uc_parse : Parser
uc_parse c buf = elim (current c) [
  | none ↦ some (length buf, c)
  | some chunk ↦
      let len = sub32 chunk.msglen 2 in
      if ltb (length buf) 2
      then some (0, c)
      else btoh16 buf >>= λ type.
          if ltb (length (drop 2 buf)) len
          then some (0, c)
          else if type == 0
          then some (u32 (2 + len), c)
          else if type == 3
          then some (u32 (2 + 4 + sub32 len 4), c)
          else some (2, c)
]

-- A message that may come in parts is gathered in `cbuf`, an array of 1024 bytes, and parsed there. The C
-- code makes no test: `none` stands for its `memcpy` behind the end of the array, which is undefined.
abbrev pub gathered : Parser → Parser
gathered parse c walker =
    let o = length c.cbuf in
    let all = c.cbuf ++ walker in
    if ltb 1024 (length all)
    then none
    else parse (record c { cbuf = all }) all >>= λ (s, d).
        some (if ltb 0 s then (sub32 s o, record d { cbuf = [] }) else (0, d))

-- Passes over a first byte, which the code does not test for.
abbrev pub behind_first : Parser → Parser
behind_first parse c [] = none
behind_first parse c (b ∷ walker) = parse c walker >>= λ (s, d). some (u32 (1 + s), d)

-- `rtmp_command_parse`, `rtmp_datamsg_parse` and `rtmp_msg_payload`, by what they take and how they
-- change the connection.
pub record Handlers : Type 0 where
  pub command : Parser
  pub datamsg : Parser
  pub media : Parser

module _ (handlers : Handlers) where
  -- by the type of the message
  unfoldable pub dispatch : ℕ → Parser
  unfolding uc_parse
  dispatch msgtype c walker =
      if msgtype == 1
      then (if ltb (length walker) 4
          then some (0, c)
          else btoh32 walker >>= λ size. some (4, record c { ichunksize = size }))
      else if msgtype == 3
      then (if ltb (length walker) 4 then some (0, c) else some (4, c))
      else if msgtype == 4
      then gathered uc_parse c walker
      else if msgtype == 5
      then (if ltb (length walker) 4 then some (0, c) else some (4, c))
      else if msgtype == 6
      then (if ltb (length walker) 4
          then some (0, c)
          else btoh32 walker >>= λ bw. some (4, record c { bw = bw }))
      else if msgtype == 8
      then handlers.media c walker
      else if msgtype == 9
      then handlers.media c walker
      else if msgtype == 18
      then gathered handlers.datamsg c walker
      else if msgtype == 17
      then behind_first (gathered handlers.command) c walker
      else if msgtype == 20
      then gathered handlers.command c walker
      else some (0, c)

  unfoldable pub msg_parse : Parser
  unfolding dispatch
  msg_parse c walker = elim (current c) [
    | none ↦ some (length walker, c)
    | some chunk ↦ dispatch chunk.msgtype c walker
  ]
