-- ===== src/Rtmp/Payload/Endless.antt =====
-- rtmp_msg_payload of lib_src/transport/rns_rtmp.c: a message of no bytes.
use yclib.Base.{
  ℕ, zero, suc, ◌≡◌, refl, ◌∙◌, true, false, ◌&&◌, some, none, List, [], ◌∷◌, ◌==◌, arith,
  Bool-cases, inl, inr,
}
use yclib.Rtmp.Chunk.{Chunk}
use yclib.Rtmp.Connection.{Conn}
use yclib.Rtmp.Incoming.{find, current}
use yclib.Rtmp.Media.{Msg}
use yclib.Rtmp.Payload.{
  MsgStream, Source, msg_init, msg_write, passed_list, new_msg, made_msg, payload_loop, msg_payload,
}
use yclib.Rtmp.Payload.Messages.{ended, init_step, ended_step}

-- Without players there is nothing to send.
unheard :
    (inner : ℕ) (stream : MsgStream) (msgs : List Msg)
    → stream.players ≡ []
    → (served : MsgStream) × (passed_list inner stream msgs ≡ some served) × (served.players ≡ [])
unheard inner stream [] nobody = (stream, refl, nobody)
unheard inner stream (msg ∷ others) nobody = elim (Bool-cases (msg.key && msg.packettype == 0)) [
  | inl seq ↦
      (record stream { videometa = some msg; msgs = others }, rw (passed_list, seq) refl, nobody)
  | inr other ↦ (record stream { players = [] }, rw (passed_list, other, nobody) refl, refl)
]

module _ (inner : ℕ) (chunk : Chunk) (buf : List ℕ) (c : Conn) (calm : c.memory ≡ [])
    (audio : chunk.msgtype ≡ 8) (empty : chunk.msglen ≡ 0) where
  other : (chunk.msgtype == 9) ≡ false
  other = ground arith

  starts :
      (offset : ℕ) (walker : List ℕ)
      → new_msg chunk offset walker ≡ some (made_msg chunk offset false 1)
  starts offset [] = rw (new_msg, other) refl
  starts offset (b ∷ []) = rw (new_msg, other) refl
  starts offset (b ∷ e ∷ more) = rw (new_msg, other) refl

  goes_on :
      (rounds : ℕ) (stream : MsgStream)
      → stream.players ≡ []
      → (payload_loop rounds inner msg_init chunk buf stream c ≡ some none)
        × (ended stream.msgs ≡ true
            → payload_loop rounds inner msg_write chunk buf stream c ≡ some none)
  unfolding payload_loop
  goes_on zero stream nobody = (refl, λ ends. refl)
  goes_on (suc rounds) stream nobody =
      let (served, passed, still) = unheard inner stream stream.msgs nobody in
      let msg = made_msg chunk served.offset false 1 in
      (
        init_step rounds inner chunk buf stream served c msg calm passed (starts served.offset buf)
            ∙ (goes_on rounds (record served { msgs = msg ∷ served.msgs }) still).1 (ground arith),
        λ ends.
            ended_step rounds inner chunk buf stream c stream.msgs ends
            ∙ (goes_on rounds stream nobody).0,
      )

-- A message of audio of no bytes, for a stream that nobody plays and on which no message is under way,
-- where all allocations succeed: `rtmp_msg_payload` makes one message after the other, and no number of
-- rounds is enough for it to return.
pub msg_payload-endless :
    (rounds inner : ℕ) (s : Source) (chunk : Chunk) (stream : MsgStream) (buf : List ℕ)
    → current s.conn ≡ some chunk
    → find chunk.streamid s.nstreams ≡ some stream
    → s.conn.memory ≡ []
    → ended stream.msgs ≡ true
    → stream.players ≡ []
    → chunk.msgtype ≡ 8
    → chunk.msglen ≡ 0
    → msg_payload rounds inner s buf ≡ some none
unfolding msg_payload
msg_payload-endless rounds inner s chunk stream buf chunk_is stream_is calm ends nobody audio
      empty =
    let endless = (goes_on inner chunk buf s.conn calm audio empty rounds stream nobody).1 ends in
    rw (msg_payload, chunk_is, stream_is, endless) refl
