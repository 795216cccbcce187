-- ===== src/Rtmp/Media/Delivery.antt =====
-- rtmp_msg_send of lib_src/transport/rns_rtmp.c as a whole: a message out of the blocks of a stream, on
-- its way to a player.
use mathlib.Core.List.{append_assoc}
use yclib.Base.{
  allocated, rest_of, ℕ, suc, ◌+◌, ◌-◌, ◌^◌, ◌<◌, ◌≤◌, ◌≡◌, refl, ap, sym, ◌∙◌, Bool, true, false,
  ◌&&◌, ◌||◌, not, Option, none, some, List, [], ◌∷◌, ◌++◌, ◌==◌, if◌then◌else◌, ◌>>=◌, sub32,
  length, take, drop, arith, take_all, Option-cases, Bool-cases, inl, inr,
}
use yclib.Rtmp.Chunk.{Chunk}
use yclib.Rtmp.Chunk.Layout.{layout}
use yclib.Rtmp.Connection.{Conn, Ret, Task, send, done, separator, then_round}
use yclib.Rtmp.Connection.Sending.{
  sent, unchunk, separator_is, queued, attach_buffer-queued, with_tasks,
}
use yclib.Rtmp.Incoming.{find}
use yclib.Rtmp.Parse.Header.{find-append}
use yclib.Rtmp.Media.{
  with_conn, Msg, Player, PlayState, is_keyframe, Blocks, next_fmt, block_loop, start, set_stream,
  new_chunk, opened, opened_for, restarted, send_message, sent_message, msg_send,
}
use yclib.Rtmp.Media.Headers.{header_chunk, msg_header-layout, mid_header-separator}
use yclib.Rtmp.Media.Interleaved.{interleaved, unchunk-interleaved}
use yclib.Rtmp.Media.Sending.{Hold, block_loop-interleaved}

-- The chunk that the message goes out on
abbrev pub stream_chunk : ℕ → ℕ → Msg → Conn → Chunk
stream_chunk chunkid netstream msg c = elim (find chunkid c.chunkstreams) [
  | some chunk ↦ chunk
  | none ↦ new_chunk chunkid netstream msg
]

-- The header of the message, and the time that it tells
abbrev pub stamp_of : PlayState → Msg → Chunk → ℕ
stamp_of pstate msg old = sub32 msg.timestamp (restarted pstate msg old).timestamp

abbrev pub header_of : PlayState → Msg → Chunk → List ℕ
header_of pstate msg old =
    let chunk = restarted pstate msg old in
    layout (header_chunk chunk.fmt chunk.channel chunk.streamid msg (stamp_of pstate msg old))

-- What the player gets: a header and pieces that the other side puts together to `message`
abbrev pub Delivers : ℕ → List ℕ → List ℕ → Conn → Option (Ret × Conn) → Type 0
Delivers channel header message c result =
    (pieces : List Task) × (d : Conn) × (result ≡ some (done, d))
    × (d.tasks ≡ c.tasks ++ send header false ∷ pieces)
    × (unchunk (suc (length message)) channel c.ochunksize (sent pieces) ≡ message)

module _ (rounds : ℕ) (blocks : Blocks) (log : List ℕ) (msg : Msg) (chunkid : ℕ)
    (held : Hold blocks log) (inside : msg.offset + msg.size ≤ length log)
    (enough : msg.size < rounds) (channel : chunkid < 64) where
  abbrev message : List ℕ
  message = take msg.size (drop msg.offset log)

  blocks_Delivers :
      (stamp : ℕ) (c : Conn)
      → stamp < 0xffffff
      → c.memory ≡ []
      → 0 < c.ochunksize
      → c.ochunksize < 2 ^ 32
      → (pieces : List Task) × (block_loop rounds chunkid stamp blocks msg.size (start msg) c
          ≡ some (done, with_tasks c pieces))
        × (unchunk (suc (length message)) chunkid c.ochunksize (sent pieces) ≡ message)
  blocks_Delivers stamp c small calm some_size wide =
      let between = mid_header-separator chunkid stamp channel small in
      let (pieces, runs, joined) =
        block_loop-interleaved chunkid stamp msg.size (separator chunkid) [] blocks log held between
          rounds (start msg) c calm wide (omega arith) (omega arith) (omega arith) (omega arith) in
      let whole : msg.size - 0 ≡ msg.size = omega arith in
      let room : c.ochunksize - 0 ≡ c.ochunksize = omega arith in
      let bytes : sent pieces
          ≡ interleaved (separator chunkid ∷ []) c.ochunksize c.ochunksize message =
        joined
        ∙ ap
            (λ r.
              interleaved (separator chunkid ∷ []) c.ochunksize r
                (take (msg.size - 0) (drop msg.offset log)))
            room
        ∙ ap
            (λ n.
              interleaved (separator chunkid ∷ []) c.ochunksize c.ochunksize
                (take n (drop msg.offset log)))
            whole in
      (
        pieces,
        runs,
        ap (unchunk (suc (length message)) chunkid c.ochunksize) bytes
            ∙ unchunk-interleaved (suc (length message)) chunkid c.ochunksize (separator chunkid)
                message some_size (separator_is chunkid channel) (omega arith),
      )

  message-Delivers :
      (pstate : PlayState) (old : Chunk) (c : Conn)
      → (restarted pstate msg old).fmt < 4
      → (restarted pstate msg old).channel < 320
      → stamp_of pstate msg old < 0xffffff
      → c.memory ≡ []
      → 0 < c.ochunksize
      → c.ochunksize < 2 ^ 32
      → Delivers chunkid
          (header_of pstate msg old)
          message
          c
          (send_message rounds (some blocks) msg pstate chunkid old c)
  message-Delivers pstate old c four low small calm some_size wide =
      let chunk = restarted pstate msg old in
      let stamp = stamp_of pstate msg old in
      let h = header_of pstate msg old in
      let changed = record chunk { fmt = next_fmt chunk.fmt msg.type } in
      let written = msg_header-layout chunk msg stamp four low small in
      let whole = (take_all (length h) h (omega arith)).0 in
      let e = set_stream chunkid changed (set_stream chunkid chunk c) in
      let attached = attach_buffer-queued h false e calm in
      let last =
        set_stream chunkid (record changed { timestamp = msg.timestamp }) (queued h false e) in
      let (pieces, runs, joined) = blocks_Delivers stamp last small calm some_size wide in
      (
        pieces,
        with_tasks last pieces,
        rw (written, whole, attached) runs,
        append_assoc c.tasks (send h false ∷ []) pieces,
        joined,
      )

pub restarted_facts :
    (pstate : PlayState) (msg : Msg) (old : Chunk)
    → old.fmt < 4
    → ((restarted pstate msg old).fmt < 4) × ((restarted pstate msg old).channel ≡ old.channel)
restarted_facts pstate msg old four =
    elim (Bool-cases ((old.fmt == 0 && msg.type == 8) || is_keyframe pstate)) [
      | inl anew ↦ rw anew (omega arith, refl)
      | inr on ↦ rw on (four, refl)
    ]

-- `rtmp_msg_send` behind the test for a keyframe
abbrev sending : ℕ → Option Blocks → Msg → PlayState → ℕ → ℕ → Conn → Option (Ret × Conn)
sending rounds found msg pstate chunkid netstream c =
    then_round (opened chunkid netstream msg c) 3 λ d.
      find chunkid d.chunkstreams >>= λ chunk. send_message rounds found msg pstate chunkid chunk d

sending_on :
    (rounds : ℕ) (found : Option Blocks) (msg : Msg) (pstate : PlayState) (chunkid netstream : ℕ)
    (c d : Conn) (chunk : Chunk)
    → opened chunkid netstream msg c ≡ (done, d)
    → find chunkid d.chunkstreams ≡ some chunk
    → stream_chunk chunkid netstream msg c ≡ chunk
    → sending rounds found msg pstate chunkid netstream c
      ≡ send_message rounds found msg pstate chunkid (stream_chunk chunkid netstream msg c) d
sending_on rounds found msg pstate chunkid netstream c d chunk opens there same =
    let go : Chunk → Option (Ret × Conn) = λ k. send_message rounds found msg pstate chunkid k d in
    ap
      (λ r.
        then_round r 3 λ e.
          find chunkid e.chunkstreams >>= λ k. send_message rounds found msg pstate chunkid k e)
      opens
    ∙ ap (λ m. m >>= go) there
    ∙ ap go (sym same)

opened_chunk :
    (rounds : ℕ) (found : Option Blocks) (msg : Msg) (pstate : PlayState) (chunkid netstream : ℕ)
    (c : Conn)
    → c.memory ≡ []
    → (d : Conn) × (sending rounds found msg pstate chunkid netstream c
        ≡ send_message rounds found msg pstate chunkid (stream_chunk chunkid netstream msg c) d)
      × (d.memory ≡ [])
      × (d.tasks ≡ c.tasks)
      × (d.ochunksize ≡ c.ochunksize)
opened_chunk rounds found msg pstate chunkid netstream c calm =
    elim (Option-cases (find chunkid c.chunkstreams)) [
      | inr (chunk, there) ↦ (
        c,
        sending_on rounds found msg pstate chunkid netstream c c chunk
            (ap (λ m. opened_for m chunkid netstream msg c) there) there
            (rw (stream_chunk, there) refl),
        calm,
        refl,
        refl,
      )
      | inl missing ↦
          let chunk = new_chunk chunkid netstream msg in
          let d = record c {
            memory = rest_of c.memory;
            chunkstreams = c.chunkstreams ++ (chunkid, chunk) ∷ [];
          } in
          let room : allocated c.memory ≡ true = ap allocated calm in
          (
            d,
            sending_on rounds found msg pstate chunkid netstream c d chunk
                (ap (λ m. opened_for m chunkid netstream msg c) missing ∙ rw room refl)
                (find-append chunkid chunk c.chunkstreams missing)
                (rw (stream_chunk, missing) refl),
            ap rest_of calm,
            refl,
            refl,
          )
    ]

-- A message that has been sent leaves the connection as it is, and the wait for a keyframe is over
-- where there was none or the message is one.
sent_message_facts :
    (msg : Msg) (p : Player)
    → (is_keyframe p.pstate && not msg.key) ≡ false
    → let q = sent_message msg done p in (q.conn ≡ p.conn) × (is_keyframe q.pstate ≡ false)
sent_message_facts msg p ready = elim (Bool-cases (is_keyframe p.pstate)) [
  | inr on ↦ rw on (refl, on)
  | inl waits ↦ elim (Bool-cases msg.key) [
    | inl key ↦ rw (waits, key) (refl, refl)
    | inr other ↦ absurd (cc)
  ]
]

-- A message whose bytes lie in the blocks of its stream, sent to a player who does not wait for a
-- keyframe or gets one, on a channel below 64, with a difference of time below 0xFFFFFF, where all
-- allocations succeed and the chunk size is not 0: `rtmp_msg_send` returns 0 within one round more
-- than the message has bytes; it queues the header and pieces that the other side puts together to
-- the message; and the player does not wait for a keyframe any more.
pub msg_send-unchunk :
    (rounds : ℕ) (blocks : Blocks) (log : List ℕ) (msg : Msg) (p : Player)
    → Hold blocks log
    → msg.offset + msg.size ≤ length log
    → msg.size < rounds
    → p.conn.memory ≡ []
    → 0 < p.conn.ochunksize
    → p.conn.ochunksize < 2 ^ 32
    → (is_keyframe p.pstate && not msg.key) ≡ false
    → let chunkid = if msg.type == 8 then p.audiochunk else p.videochunk in
      let old = stream_chunk chunkid p.netstream msg p.conn in
      let message = take msg.size (drop msg.offset log) in
      chunkid < 64
      → old.fmt < 4
      → old.channel < 320
      → stamp_of p.pstate msg old < 0xffffff
      → (pieces : List Task) × (q : Player) × (msg_send rounds (some blocks) msg p ≡ some (done, q))
        × (q.conn.tasks ≡ p.conn.tasks ++ send (header_of p.pstate msg old) false ∷ pieces)
        × (unchunk (suc (length message)) chunkid p.conn.ochunksize (sent pieces) ≡ message)
        × (is_keyframe q.pstate ≡ false)
unfolding msg_send
msg_send-unchunk rounds blocks log msg p held inside enough calm some_size wide ready channel four
      low small =
    let chunkid = if msg.type == 8 then p.audiochunk else p.videochunk in
    let old = stream_chunk chunkid p.netstream msg p.conn in
    let c = record p.conn { memory = [] } in
    let same : p.conn ≡ c = ap (λ m. record p.conn { memory = m }) calm in
    let (d, opens, quiet, tasks, sizes) =
      opened_chunk rounds (some blocks) msg p.pstate chunkid p.netstream c refl in
    let (fmt, kept) = restarted_facts p.pstate msg old four in
    let (pieces, e, runs, queue, joined) =
      message-Delivers rounds blocks log msg chunkid held inside enough channel p.pstate old d fmt
        (omega (arith, kept)) small quiet (omega (arith, sizes)) (omega (arith, sizes)) in
    let q = sent_message msg done (record p { conn = e }) in
    let (sent_conn, goes_on) = sent_message_facts msg (record p { conn = e }) ready in
    let result : Bool → Option (Ret × Player) = λ waits.
      with_conn p
        (if waits
          then some (done, c)
          else sending rounds (some blocks) msg p.pstate chunkid p.netstream c)
        (λ ret r. if waits then r else sent_message msg ret r) in
    (
      pieces,
      q,
      ap (λ x. msg_send rounds (some blocks) msg (record p { conn = x })) same
          ∙ ap result ready
          ∙ ap (λ r. with_conn p r (sent_message msg)) (opens ∙ runs),
      ap (λ x. x.tasks) sent_conn
          ∙ queue
          ∙ ap (λ t. t ++ send (header_of p.pstate msg old) false ∷ pieces) tasks,
      ap (λ n. unchunk (suc (length (take msg.size (drop msg.offset log)))) chunkid n (sent pieces))
            (sym sizes)
          ∙ joined,
      goes_on,
    )
