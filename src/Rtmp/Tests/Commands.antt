-- ===== src/Rtmp/Tests/Commands.antt =====
-- Commands of lib_src/transport/rns_rtmp.c at concrete inputs.
use yclib.Base.{ℕ, ◌≡◌, refl, Bool, true, some, List, [], ◌∷◌, ◌++◌, take, arith, inr}
use yclib.Rtmp.Amf.{Site}
use yclib.Rtmp.Amf.Encoding.{encode, encode_str}
use yclib.Rtmp.Connection.{Conn, done}
use yclib.Rtmp.Building.{codes, result_name}
use yclib.Rtmp.Replies.Writing.{encode_parts, Sends}
use yclib.Rtmp.Replies.Streams.{number_parts}
use yclib.Rtmp.Commands.{Peer, Command, finished, taken, Streams, command_parse}
use yclib.Rtmp.Commands.Serving.{
  id_value, command_parse-create_stream, command_parse-connect_prefix,
}
use yclib.Rtmp.Tests.Replies.{zero_double, asking, asked}

abbrev enough_memory : Site → ℕ → Bool
enough_memory site left = true

abbrev low_byte : List ℕ → ℕ
low_byte bytes = 0

abbrev peer : Peer
peer = record {
  conn = asked;
  sindex = 6;
  netstream = 0;
  playseek = zero_double 0;
  rvideo = 0;
  raudio = 0;
  pause = 0;
  ptime = zero_double 0;
}

abbrev taking_two : Command
taking_two p buf = finished 2 p

abbrev streams : Streams
streams = record {
  connect = taking_two;
  play = taking_two;
  delete_stream = taking_two;
  close_stream = taking_two;
  publish = taking_two;
}

command_parse-create_stream_example :
    (c : Conn) × (command_parse enough_memory 45 zero_double low_byte streams peer (
        2
        ∷ (encode_str (codes "createStream") ++ (encode (id_value (zero_double 2)) ++ 5 ∷ 9 ∷ [])))
      ≡ finished 25 (record peer { conn = c; sindex = 7; netstream = 7 }))
    × Sends 3 1
        (encode_parts (number_parts (result_name true) (zero_double 2) (zero_double 7)))
        asked
        (some (done, c))
command_parse-create_stream_example =
    command_parse-create_stream enough_memory 45 zero_double low_byte streams peer asking
      (zero_double 2) (9 ∷ []) (λ site left. refl) (omega arith) refl refl refl (omega arith) refl
      (omega arith) (inr (omega arith, omega arith))

-- "co"
command_parse-connect_prefix_example :
    command_parse enough_memory 45 zero_double low_byte streams peer
      (2 ∷ (encode_str (take 2 (codes "connect")) ++ 5 ∷ 5 ∷ []))
    ≡ taken 5 (finished 2 peer)
command_parse-connect_prefix_example =
    command_parse-connect_prefix enough_memory 45 zero_double low_byte streams peer 2 (5 ∷ 5 ∷ [])
      (λ site left. refl) (omega arith)
