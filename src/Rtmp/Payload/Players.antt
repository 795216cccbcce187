-- ===== src/Rtmp/Payload/Players.antt =====
-- rtmp_msg_payload and rtmp_msg_send of lib_src/transport/rns_rtmp.c: what the players of a stream get.
use mathlib.Core.Path.{subst}
use yclib.Base.{
  ℕ, suc, ◌+◌, ◌^◌, ◌<◌, ◌≤◌, ◌≡◌, refl, ap, sym, ◌∙◌, true, false, ◌&&◌, not, some, List, [], ◌∷◌,
  ◌++◌, ◌==◌, ◌>>=◌, if◌then◌else◌, length, take, drop, arith, length-append, take_all,
  drop-append_length, All,
}
use yclib.Rtmp.Chunk.{Chunk}
use yclib.Rtmp.Connection.{Task, send, done}
use yclib.Rtmp.Connection.Sending.{sent, unchunk}
use yclib.Rtmp.Incoming.{find, set_chunk}
use yclib.Rtmp.Parse.Header.{find-assign}
use yclib.Rtmp.Media.{Msg, Player, Blocks, is_keyframe}
use yclib.Rtmp.Media.Sending.{Hold}
use yclib.Rtmp.Media.Delivery.{stream_chunk, stamp_of, header_of, msg_send-unchunk}
use yclib.Rtmp.Payload.{
  MsgStream, Source, noted, serve, passed_list, passed_on, new_msg, msg_payload, receive,
}
use yclib.Rtmp.Payload.Storing.{free}
use yclib.Rtmp.Payload.Messages.{
  Publishes, share, answer, published, ended, new_msg-Fresh, passed_on-free, passed_on-offset,
  msg_payload-starts,
}
use yclib.Rtmp.Payload.Relay.{joined, receive-Holds}

-- Two lists of the same length, whose members are related one by one
pub data Each {ℓ κ} {A : Type ℓ} (R : A → A → Type κ) : List A → List A → Type (ℓ ⊔ κ) where
  no_more : Each R [] []
  one_more :
      {a b : A} {left right : List A} → R a b → Each R left right → Each R (a ∷ left) (b ∷ right)

abbrev pub chunkid_of : Msg → Player → ℕ
chunkid_of msg p = if msg.type == 8 then p.audiochunk else p.videochunk

-- The chunk on which the player gets the message
abbrev pub old_chunk : Msg → Player → Chunk
old_chunk msg p = stream_chunk (chunkid_of msg p) p.netstream msg p.conn

-- The player is in a state in which the message can be sent.
pub record Takable (msg : Msg) (p : Player) : Type 0 where
  pub all_allocated : p.conn.memory ≡ []
  pub some_size : 0 < p.conn.ochunksize
  pub size_wide : p.conn.ochunksize < 2 ^ 32
  pub no_wait : (is_keyframe p.pstate && not msg.key) ≡ false
  pub one_byte : chunkid_of msg p < 64
  pub fmt_is : (old_chunk msg p).fmt < 4
  pub channel_is : (old_chunk msg p).channel < 320
  pub stamp_short : stamp_of p.pstate msg (old_chunk msg p) < 0xffffff

-- The player has got a header and pieces that the other side puts together to `bytes`, and its
-- connection is on the list of those with something to send.
abbrev pub Plays : List ℕ → Msg → Player → Player → Type 0
Plays bytes msg p q =
    (pieces : List Task) × (q.conn.tasks
      ≡ p.conn.tasks ++ send (header_of p.pstate msg (old_chunk msg p)) false ∷ pieces)
    × (unchunk (suc (length bytes)) (chunkid_of msg p) p.conn.ochunksize (sent pieces) ≡ bytes)
    × (is_keyframe q.pstate ≡ false)
    × (q.listed ≡ true)

serve-Plays :
    (rounds : ℕ) (blocks : Blocks) (log : List ℕ) (msg : Msg) (players : List Player)
    → Hold blocks log
    → msg.offset + msg.size ≤ length log
    → msg.size < rounds
    → All (Takable msg) players
    → (after : List Player) × (serve rounds blocks msg players ≡ some after)
      × Each (Plays (take msg.size (drop msg.offset log)) msg) players after
serve-Plays rounds blocks log msg [] held inside enough all = ([], refl, no_more)
serve-Plays rounds blocks log msg (p ∷ players) held inside enough all =
    let t = all.0 in
    let (pieces, q, runs, queue, got, goes_on) =
      msg_send-unchunk rounds blocks log msg p held inside enough t.all_allocated t.some_size
        t.size_wide t.no_wait t.one_byte t.fmt_is t.channel_is t.stamp_short in
    let (after, rest, each) = serve-Plays rounds blocks log msg players held inside enough all.1 in
    (
      noted done q ∷ after,
      ap
            (λ r. r >>= λ (ret, x).
              serve rounds blocks msg players >>= λ others. some (noted ret x ∷ others))
            runs
          ∙ ap (λ r. r >>= λ others. some (noted done q ∷ others)) rest,
      one_more (pieces, queue, got, goes_on, refl) each,
    )

passed_list-Plays :
    (inner : ℕ) (stream : MsgStream) (log : List ℕ) (msg : Msg) (others : List Msg)
    → Hold stream.blocks log
    → (msg.key && msg.packettype == 0) ≡ false
    → msg.offset + msg.size ≤ length log
    → msg.size < inner
    → All (Takable msg) stream.players
    → (after : List Player) × (passed_list inner stream (msg ∷ others)
        ≡ some (record stream { players = after }))
      × Each (Plays (take msg.size (drop msg.offset log)) msg) stream.players after
passed_list-Plays inner stream log msg others held plain inside enough all =
    let (after, runs, each) =
      serve-Plays inner stream.blocks log msg stream.players held inside enough all in
    (after, rw (passed_list, plain, runs) refl, each)

-- The source once the header of the next chunk is read
abbrev pub under_header : Chunk → Source → Source
under_header chunk s = record s { conn = set_chunk chunk s.conn }

-- A complete message of a stream, not a sequence header, whose players are all in a state in which it can
-- be sent: when the next message starts, with memory and room for its first part, `rtmp_msg_payload`
-- gives every player, in their order, a header and pieces that are the message.
pub msg_payload-Plays :
    (rounds inner : ℕ) (s : Source) (chunk : Chunk) (stream : MsgStream) (log buf : List ℕ)
    (msg next : Msg) (others : List Msg)
    → Publishes s chunk stream log
    → stream.msgs ≡ msg ∷ others
    → msg.size ≤ msg.len
    → (msg.key && msg.packettype == 0) ≡ false
    → msg.offset + msg.size ≤ length log
    → msg.size < inner
    → All (Takable msg) stream.players
    → new_msg chunk stream.offset buf ≡ some next
    → 0 < next.size
    → share next buf ≤ free stream
    → share next buf < inner
    → (new : MsgStream) × (msg_payload (suc (suc (suc rounds))) inner s buf
        ≡ some (some (answer next buf, published s chunk.streamid new)))
      × Publishes (published s chunk.streamid new) chunk new (log ++ take (share next buf) buf)
      × Each (Plays (take msg.size (drop msg.offset log)) msg) stream.players new.players
msg_payload-Plays rounds inner s chunk stream log buf msg next others publishes latest whole plain
      inside enough all starts some_size room more =
    let (after, serves, each) =
      passed_list-Plays inner stream log msg others publishes.stores.bytes_held plain inside enough
        all in
    let served = record stream { players = after } in
    let passed : passed_on inner stream ≡ some served =
      ap (passed_list inner stream) latest ∙ serves in
    let ends : ended stream.msgs ≡ true = ap ended latest ∙ ground arith in
    let (new, runs, then_publishes, extends) =
      msg_payload-starts rounds inner s chunk stream served log buf next publishes ends passed
        starts some_size room more in
    (
      new,
      runs,
      then_publishes,
      subst (Each (Plays (take msg.size (drop msg.offset log)) msg) stream.players)
          (sym extends.players_same) each,
    )

-- From the one who publishes to those who play: a message comes in parts, and then the first part of the
-- next one on the same stream. Where all allocations succeed, the pool has blocks for the bytes, the
-- message is not a sequence header and every player can take it, each player has a header and pieces
-- on its queue that are the bytes of the parts, and is on the list of connections to write to.
pub relay :
    (rounds inner : ℕ) (part : List ℕ) (parts : List (List ℕ)) (buf : List ℕ) (s : Source)
    (chunk header : Chunk) (stream served : MsgStream) (log : List ℕ) (msg next : Msg)
    → Publishes s chunk stream log
    → ended stream.msgs ≡ true
    → passed_on inner stream ≡ some served
    → new_msg chunk served.offset part ≡ some msg
    → (msg.key && msg.packettype == 0) ≡ false
    → length (joined (part ∷ parts)) ≡ chunk.msglen
    → All (λ p. 0 < length p) (part ∷ parts)
    → length (joined (part ∷ parts)) < inner
    → All (Takable (record msg { len = msg.size })) served.players
    → header.streamid ≡ chunk.streamid
    → new_msg header (served.offset + msg.size) buf ≡ some next
    → 0 < next.size
    → length (joined (part ∷ parts)) + share next buf ≤ free stream
    → share next buf < inner
    → (t v : Source) × (new : MsgStream) × (receive (suc (suc (suc rounds))) inner s (part ∷ parts)
        ≡ some t)
      × (msg_payload (suc (suc (suc rounds))) inner (under_header header t) buf
          ≡ some (some (answer next buf, v)))
      × (find header.streamid v.nstreams ≡ some new)
      × Each
          (Plays (joined (part ∷ parts)) (record msg { len = msg.size }))
          served.players
          new.players
relay rounds inner part parts buf s chunk header stream served log msg next publishes ends passed
      starts plain whole all enough takable same_stream starts_next some_size room more =
    let bytes = joined (part ∷ parts) in
    let (fresh, at, size) = new_msg-Fresh chunk served.offset part msg starts in
    let same = passed_on-free inner stream served passed in
    let (t, last, mid, receives, is, then_publishes, holds) =
      receive-Holds rounds inner part parts s chunk stream served log msg publishes ends passed
        starts whole all (omega arith) enough in
    let u = under_header header t in
    let u_publishes : Publishes u header mid (log ++ bytes) = record {
      chunk_is =
          find-assign t.conn.curchunk last header t.conn.chunkstreams then_publishes.chunk_is;
      stream_is = ap (λ k. find k t.nstreams) (same_stream ∙ sym is) ∙ then_publishes.stream_is;
      stores = then_publishes.stores;
      quiet = then_publishes.quiet;
    } in
    let w = record msg { len = msg.size } in
    let from : w.offset ≡ length log =
      at ∙ passed_on-offset inner stream served passed ∙ publishes.stores.offset_is in
    let long = length-append log bytes in
    let end : mid.offset ≡ served.offset + msg.size =
      omega (arith, then_publishes.stores.offset_is, long, whole, size, from, at) in
    let content : take w.size (drop w.offset (log ++ bytes)) ≡ bytes =
      ap (λ k. take w.size (drop k (log ++ bytes))) from
      ∙ ap (take w.size) (drop-append_length log bytes)
      ∙ (take_all w.size bytes (omega (arith, whole, size))).0 in
    let (new, runs, v_publishes, each) =
      msg_payload-Plays rounds inner u header mid (log ++ bytes) buf w next served.msgs u_publishes
        holds.complete (omega arith) plain (omega (arith, from, long, whole, size))
        (omega (arith, whole, size)) (subst (All (Takable w)) (sym holds.same_players) takable)
        (ap (λ k. new_msg header k buf) end ∙ starts_next) some_size
        (omega (arith, holds.free_left, same)) more in
    (
      t,
      published u header.streamid new,
      new,
      receives,
      runs,
      v_publishes.stream_is,
      subst (λ ps. Each (Plays bytes w) ps new.players) holds.same_players
          (subst (λ m. Each (Plays m w) mid.players new.players) content each),
    )
