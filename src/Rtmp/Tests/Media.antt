-- ===== src/Rtmp/Tests/Media.antt =====
-- Messages of audio and video of lib_src/transport/rns_rtmp.c at concrete inputs.
use yclib.Base.{ℕ, zero, suc, ◌≡◌, refl, false, none, some, List, [], ◌∷◌, arith, length, inl}
use yclib.Rtmp.Chunk.{Chunk}
use yclib.Rtmp.Chunk.Layout.{layout}
use yclib.Rtmp.Connection.{Conn, Task, done, chunk_payload}
use yclib.Rtmp.Connection.Sending.{sent}
use yclib.Rtmp.Incoming.{find}
use yclib.Rtmp.Media.{Msg, Player, Blocks, frame, is_keyframe, msg_header, msg_send}
use yclib.Rtmp.Media.Headers.{header_chunk, msg_header-layout}
use yclib.Rtmp.Media.Sending.{Hold}
use yclib.Rtmp.Media.Receiving.{received, msg_send-received}
use yclib.Rtmp.Payload.{MsgStream, Source, made_msg, msg_payload, receive}
use yclib.Rtmp.Payload.Storing.{Stores}
use yclib.Rtmp.Payload.Messages.{Publishes}
use yclib.Rtmp.Payload.Relay.{receive-Holds, Gets}
use yclib.Rtmp.Payload.Players.{Takable, Plays, Each, under_header, relay}
use yclib.Rtmp.Payload.Endless.{msg_payload-endless}

abbrev audio : ℕ → Chunk
audio len = record { fmt = 0; channel = 4; timestamp = 7; msglen = len; msgtype = 8; streamid = 1 }

abbrev fresh : ℕ → List (ℕ × Chunk) → Conn
fresh ochunksize chunkstreams = record {
  state = chunk_payload;
  curfmt = 0;
  curchunk = 4;
  curlen = 0;
  ichunksize = 128;
  ochunksize = ochunksize;
  bw = 0;
  cs0 = 3;
  cs1 = [];
  cs2 = [];
  cbuf = [];
  chunkstreams = chunkstreams;
  tasks = [];
  memory = [];
}

-- A player who takes chunks of two bytes
abbrev listener : Player
listener = record {
  conn = fresh 2 [];
  videochunk = 6;
  audiochunk = 5;
  pstate = frame;
  netstream = 1;
  listed = false;
}

abbrev empty_stream : List Player → MsgStream
empty_stream players = record {
  msgs = [];
  blocks = [];
  pool = 2;
  offset = 0;
  videometa = none;
  players = players;
}

abbrev source : ℕ → List Player → Source
source len players = record {
  conn = fresh 128 ((4, audio len) ∷ []);
  cindex = 8;
  nstreams = (1, empty_stream players) ∷ [];
}

empty-Stores : (players : List Player) → Stores (empty_stream players) []
empty-Stores players = record {
  bytes_held = λ k. (λ under. absurd (omega arith), λ over. refl);
  offset_is = refl;
}

source-Publishes :
    (len : ℕ) (players : List Player)
    → Publishes (source len players) (audio len) (empty_stream players) []
source-Publishes len players = record {
  chunk_is = refl;
  stream_is = refl;
  stores = empty-Stores players;
  quiet = refl;
}

abbrev sound : ℕ → Msg
sound offset = made_msg (audio 3) offset false 1

-- The message once it is complete
abbrev complete : Msg
complete = record (sound 0) { len = 3 }

listener-Takable : Takable complete listener
listener-Takable = record {
  all_allocated = refl;
  some_size = omega arith;
  size_wide = omega arith;
  no_wait = refl;
  one_byte = omega arith;
  fmt_is = omega arith;
  channel_is = omega arith;
  stamp_short = omega arith;
}

abbrev sound_bytes : List ℕ
sound_bytes = 175 ∷ 1 ∷ 33 ∷ []

relay_example :
    (t v : Source) × (new : MsgStream) × (receive 3 9
        (source 3 (listener ∷ []))
        ((175 ∷ []) ∷ (1 ∷ 33 ∷ []) ∷ [])
      ≡ some t)
    × (msg_payload 3 9 (under_header (audio 1) t) (60 ∷ []) ≡ some (some (1, v)))
    × (find 1 v.nstreams ≡ some new)
    × Each (Plays sound_bytes complete) (listener ∷ []) new.players
relay_example =
    relay 0 9 (175 ∷ []) ((1 ∷ 33 ∷ []) ∷ []) (60 ∷ []) (source 3 (listener ∷ [])) (audio 3)
      (audio 1) (empty_stream (listener ∷ [])) (empty_stream (listener ∷ [])) [] (sound 0)
      (made_msg (audio 1) 3 false 1) (source-Publishes 3 (listener ∷ [])) refl refl refl refl refl
      (omega arith, (omega arith, tt)) (omega arith) (listener-Takable, tt) refl refl (omega arith)
      (omega arith) (omega arith)

receive-Holds_example :
    Gets 1
      (receive 3 9 (source 3 []) ((175 ∷ []) ∷ (1 ∷ 33 ∷ []) ∷ []))
      sound_bytes
      []
      (sound 0)
      []
      (empty_stream [])
receive-Holds_example =
    receive-Holds 0 9 (175 ∷ []) ((1 ∷ 33 ∷ []) ∷ []) (source 3 []) (audio 3) (empty_stream [])
      (empty_stream []) [] (sound 0) (source-Publishes 3 []) refl refl refl refl
      (omega arith, (omega arith, tt)) (omega arith) (omega arith)

-- One block, with the bytes of the message
abbrev one_block : Blocks
one_block = (0, sound_bytes) ∷ []

one_block-Hold : Hold one_block sound_bytes
one_block-Hold zero = (λ under. refl, λ over. absurd (omega arith))
one_block-Hold (suc k) = (λ under. absurd (omega arith), λ over. ground arith)

msg_send-received_example :
    (tasks : List Task) × (q : Player) × (msg_send 4 (some one_block) complete listener
      ≡ some (done, q))
    × (q.conn.tasks ≡ tasks)
    × (received 5 2 0 (sent tasks) ≡ some sound_bytes)
    × (is_keyframe q.pstate ≡ false)
msg_send-received_example =
    msg_send-received 4 0 one_block sound_bytes complete listener one_block-Hold (omega arith)
      (omega arith) refl (omega arith) refl (omega arith) (omega arith) refl (omega arith)
      (omega arith) (omega arith) refl (omega arith) (inl (omega arith))

msg_header-layout_example :
    let h = layout (header_chunk 0 4 1 complete 0) in
    msg_header (audio 3) complete 0 32 ≡ some (length h, h, record (audio 3) { fmt = 2 })
msg_header-layout_example =
    msg_header-layout (audio 3) complete 0 (omega arith) (omega arith) (omega arith)

msg_payload-endless_example : msg_payload 100 9 (source 0 []) [] ≡ some none
msg_payload-endless_example =
    msg_payload-endless 100 9 (source 0 []) (audio 0) (empty_stream []) [] refl refl refl refl refl
      refl refl
