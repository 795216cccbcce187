-- ===== src/Rtmp/Tests/Connection.antt =====
-- Connections of lib_src/transport/rns_rtmp.c at concrete inputs.
use yclib.Base.{
  ℕ, zero, suc, ◌+◌, ◌≡◌, ◌≤◌, refl, true, false, some, List, [], ◌∷◌, ◌++◌, arith, length, inr,
}
use yclib.Network.{htob32}
use yclib.Rtmp.Chunk.{Chunk}
use yclib.Rtmp.Chunk.Layout.{layout}
use yclib.Rtmp.Connection.{
  Conn, Phase, handshake_c0, handshake_c2, chunk_fmt, chunk_payload, Task, send, done,
  chunkctrl_chunksize, data_send, separator,
}
use yclib.Rtmp.Connection.Sending.{sent, unchunk, with_tasks}
use yclib.Rtmp.Connection.Message.{data_send-unchunk, message_chunk, freed}
use yclib.Rtmp.Incoming.{current, Handlers}
use yclib.Rtmp.Parse.{returned, out_of_rounds, parse_loop, rtmp_parse}
use yclib.Rtmp.Parse.Header.{Kept}
use yclib.Rtmp.Parse.Chunks.{rtmp_parse-layout, IsFull}
use yclib.Rtmp.Parse.Separator.{continued, rtmp_parse-separator}
use yclib.Rtmp.Parse.Control.{chunksize_agreed}
use yclib.Rtmp.Parse.Handshake.{rtmp_parse-handshake, rtmp_parse-wrong_echo, greeting, echo}

-- Handlers that take what they are given
abbrev taking : Handlers
taking = record {
  command = λ c buf. some (length buf, c);
  datamsg = λ c buf. some (length buf, c);
  media = λ c buf. some (length buf, c);
}

abbrev fresh : Phase → List (ℕ × Chunk) → List ℕ → Conn
fresh state chunkstreams cbuf = record {
  state = state;
  curfmt = 0;
  curchunk = 3;
  curlen = 0;
  ichunksize = 128;
  ochunksize = 128;
  bw = 0;
  cs0 = 3;
  cs1 = [];
  cs2 = [];
  cbuf = cbuf;
  chunkstreams = chunkstreams;
  tasks = [];
  memory = [];
}

abbrev command : Chunk
command = record { fmt = 0; channel = 3; timestamp = 0; msglen = 300; msgtype = 20; streamid = 1 }

command-IsFull : IsFull command
command-IsFull = record {
  full = refl;
  channel_fits = (omega arith, omega arith);
  stamp_fits = omega arith;
  len_fits = omega arith;
  type_fits = omega arith;
  streamid_fits = omega arith;
}

rtmp_parse-layout_example :
    (k : ℕ) × (d : Conn) × (k ≤ 9)
    × ((rounds : ℕ)
        → rtmp_parse taking [] (k + rounds) (fresh chunk_fmt [] []) (layout command ++ 2 ∷ [])
          ≡ parse_loop taking [] rounds (length (layout command)) d (2 ∷ []))
    × (d.state ≡ chunk_payload)
    × (current d ≡ some command)
    × Kept (fresh chunk_fmt [] []) d
rtmp_parse-layout_example =
    rtmp_parse-layout taking [] (fresh chunk_fmt [] []) command 2 [] refl refl command-IsFull

chunksize_agreed_example :
    (message : List ℕ) × (k : ℕ) × (d : Conn) × ((chunkctrl_chunksize 1024
        (fresh chunk_fmt [] [])).1.tasks
      ≡ send message true ∷ [])
    × (k ≤ 11)
    × ((rounds : ℕ)
        → rtmp_parse taking [] (k + rounds) (fresh chunk_fmt [] []) message
          ≡ returned (length message) d)
    × (d.state ≡ chunk_fmt)
    × (d.ichunksize ≡ (chunkctrl_chunksize 1024 (fresh chunk_fmt [] [])).1.ochunksize)
chunksize_agreed_example =
    chunksize_agreed taking [] 1024 (fresh chunk_fmt [] []) (fresh chunk_fmt [] []) refl refl refl
      (omega arith) (omega arith)

-- Seven bytes in chunks of three
abbrev narrow : Conn
narrow = record (fresh chunk_fmt [] []) { ochunksize = 3 }

abbrev seven : List ℕ
seven = 1 ∷ 2 ∷ 3 ∷ 4 ∷ 5 ∷ 6 ∷ 7 ∷ []

data_send-unchunk_example :
    (pieces : List Task) × (data_send 9 4 1 20 seven true narrow
      ≡ some (
        done,
        with_tasks narrow
            (send (layout (message_chunk 4 1 20 7)) true ∷ (pieces ++ freed true seven)),
      ))
    × (unchunk 8 4 3 (sent pieces) ≡ seven)
data_send-unchunk_example =
    data_send-unchunk 9 4 1 20 seven true narrow refl (omega arith) (omega arith)
      (inr (omega arith, omega arith)) (omega arith)

abbrev zeros : ℕ → List ℕ
zeros zero = []
zeros (suc n) = 0 ∷ zeros n

rtmp_parse-handshake_example :
    (d : Conn) × (rtmp_parse taking
        (zeros 1536)
        9
        (fresh handshake_c0 [] [])
        (3 ∷ (zeros 1536 ++ zeros 1536))
      ≡ returned 3073 d)
    × (d.state ≡ chunk_fmt)
    × (d.tasks
        ≡ send (3 ∷ []) false
          ∷ send (greeting (zeros 1536)) false
          ∷ send (echo (zeros 1536)) false
          ∷ [])
unfolding htob32
rtmp_parse-handshake_example =
    rtmp_parse-handshake taking (zeros 1536) 5 (fresh handshake_c0 [] []) 3 (zeros 1536)
      (zeros 1536) refl refl refl (refl, refl, refl)

-- A connection that waits for the answer to a greeting of ones
abbrev waiting : Conn
waiting = record (fresh handshake_c2 [] []) { cs1 = 1 ∷ 1 ∷ 1 ∷ 1 ∷ [] }

rtmp_parse-wrong_echo_example : rtmp_parse taking [] 100 waiting (zeros 1536) ≡ out_of_rounds
rtmp_parse-wrong_echo_example =
    rtmp_parse-wrong_echo taking [] 100 waiting (zeros 1536) refl (omega arith) refl

rtmp_parse-separator_example :
    rtmp_parse taking [] 7 (fresh chunk_fmt ((3, command) ∷ []) []) (separator 3 ∷ 9 ∷ 8 ∷ [])
    ≡ parse_loop taking [] 4 1
        (continued 3 command (fresh chunk_fmt ((3, command) ∷ []) []))
        (9 ∷ 8 ∷ [])
rtmp_parse-separator_example =
    rtmp_parse-separator taking [] 4 (fresh chunk_fmt ((3, command) ∷ []) []) command 3 9 (8 ∷ [])
      refl (omega arith) (omega arith) refl
