-- ===== src/Rtmp/Media/Receiving.antt =====
-- rtmp_msg_send of lib_src/transport/rns_rtmp.c and the one who gets the message: the length of a message
-- stands in its header, or is that of the message before.
use yclib.Base.{
  ℕ, zero, suc, ◌+◌, ◌*◌, ◌/◌, ◌%◌, ◌^◌, ◌<◌, ◌≤◌, ◌≡◌, ◌⊎◌, inl, inr, refl, ap, sym, ◌∙◌, true,
  false, ◌&&◌, not, Option, none, some, List, [], ◌∷◌, ◌++◌, ltb, u8, ◌==◌, if◌then◌else◌, ◌>>=◌,
  length, take, drop, arith, length-take, length-drop,
}
use yclib.Network.{btoh24, htob24, htol32}
use yclib.Network.Order.{btoh-htob}
use yclib.Rtmp.Chunk.Layout.{layout}
use yclib.Rtmp.Connection.{Task, send, done}
use yclib.Rtmp.Connection.Sending.{sent, unchunk}
use yclib.Rtmp.Media.{Msg, Player, Blocks, is_keyframe, restarted, msg_send}
use yclib.Rtmp.Media.Headers.{header_chunk}
use yclib.Rtmp.Media.Sending.{Hold}
use yclib.Rtmp.Media.Delivery.{stream_chunk, stamp_of, header_of, restarted_facts, msg_send-unchunk}

-- The bytes of a header of one of the four formats, with a channel of one byte and a short time
abbrev header_size : ℕ → ℕ
header_size format =
    if format == 0 then 12 else if format == 1 then 8 else if format == 2 then 4 else 1

-- The length that the header tells, or the one that is known from the message before
abbrev announced : ℕ → ℕ → List ℕ → Option ℕ
announced format known bytes = if ltb format 2 then btoh24 (drop 4 bytes) else some known

abbrev complete : ℕ → List ℕ → Option (List ℕ)
complete n message = if length message == n then some message else none

-- What comes on a channel of 2 to 63 in chunks of `size` bytes: the header, and then the message, which
-- must have the length that was announced.
abbrev pub received : ℕ → ℕ → ℕ → List ℕ → Option (List ℕ)
received channel size known [] = none
received channel size known (b ∷ bytes) =
    let format = b / 64 in
    if b % 64 == channel
    then (announced format known (b ∷ bytes) >>= λ n.
        complete n (unchunk (suc n) channel size (drop (header_size format) (b ∷ bytes))))
    else none

received_as :
    (channel size known format b : ℕ) (bytes rest message : List ℕ)
    → b % 64 ≡ channel
    → b / 64 ≡ format
    → announced format known (b ∷ bytes) ≡ some (length message)
    → drop (header_size format) (b ∷ bytes) ≡ rest
    → unchunk (suc (length message)) channel size rest ≡ message
    → received channel size known (b ∷ bytes) ≡ some message
received_as channel size known format b bytes rest message low high tells behind joined =
    let here : (b % 64 == channel) ≡ true = ground arith in
    let whole : (length message == length message) ≡ true = ground arith in
    let n = length message in
    rw (received, here, high)
      (ap
          (λ m. m >>= λ k.
            complete k (unchunk (suc k) channel size (drop (header_size format) (b ∷ bytes))))
          tells
        ∙ ap (λ t. complete n (unchunk (suc n) channel size t)) behind
        ∙ ap (complete n) joined
        ∙ rw whole refl)

received-layout :
    (fmt channel streamid stamp known size : ℕ) (msg : Msg) (rest message : List ℕ)
    → fmt < 4
    → channel < 64
    → stamp < 0xffffff
    → length message ≡ msg.len
    → length message < 2 ^ 24
    → (fmt < 2) ⊎ (known ≡ length message)
    → unchunk (suc (length message)) channel size rest ≡ message
    → received channel size known (layout (header_chunk fmt channel streamid msg stamp) ++ rest)
      ≡ some message
unfolding htob24 htol32
received-layout zero channel streamid stamp known size msg rest message four low small is fits told
      joined =
    let one : ltb channel 64 ≡ true = ground arith in
    let plain : (stamp == 0xffffff) ≡ false = ground arith in
    let tells : (tail : List ℕ) → btoh24 (htob24 msg.len ++ tail) ≡ some (length message) =
      λ tail. (btoh-htob msg.len tail).1 (omega (arith, is)) ∙ ap some (sym is) in
    rw (one, plain)
      (received_as channel size known 0 (0 * 64 + channel)
        ((htob24 stamp ++ (htob24 msg.len ++ (u8 msg.type ∷ (htol32 streamid ++ [])))) ++ rest) rest
        message (omega arith) (omega arith)
        (tells ((u8 msg.type ∷ (htol32 streamid ++ [])) ++ rest)) refl joined)
received-layout (suc zero) channel streamid stamp known size msg rest message four low small is fits
      told joined =
    let one : ltb channel 64 ≡ true = ground arith in
    let plain : (stamp == 0xffffff) ≡ false = ground arith in
    let tells : (tail : List ℕ) → btoh24 (htob24 msg.len ++ tail) ≡ some (length message) =
      λ tail. (btoh-htob msg.len tail).1 (omega (arith, is)) ∙ ap some (sym is) in
    rw (one, plain)
      (received_as channel size known 1 (1 * 64 + channel)
        ((htob24 stamp ++ (htob24 msg.len ++ (u8 msg.type ∷ []))) ++ rest) rest message
        (omega arith) (omega arith) (tells ((u8 msg.type ∷ []) ++ rest)) refl joined)
received-layout (suc (suc zero)) channel streamid stamp known size msg rest message four low small
      is fits told joined =
    let one : ltb channel 64 ≡ true = ground arith in
    let plain : (stamp == 0xffffff) ≡ false = ground arith in
    let same : known ≡ length message = elim told [
      | inl less ↦ absurd (omega arith)
      | inr same ↦ same
    ] in
    rw (one, plain)
      (received_as channel size known 2 (2 * 64 + channel) ((htob24 stamp ++ []) ++ rest) rest
        message (omega arith) (omega arith) (ap some same) refl joined)
received-layout (suc (suc (suc zero))) channel streamid stamp known size msg rest message four low
      small is fits told joined =
    let one : ltb channel 64 ≡ true = ground arith in
    let same : known ≡ length message = elim told [
      | inl less ↦ absurd (omega arith)
      | inr same ↦ same
    ] in
    rw one (
      received_as channel size known 3 (3 * 64 + channel) ([] ++ rest) rest message (omega arith)
        (omega arith) (ap some same) refl joined)
received-layout (suc (suc (suc (suc fmt)))) channel streamid stamp known size msg rest message four
      low small is fits told joined =
    absurd (omega arith)

-- A complete message of less than 2^24 bytes, which lie in the blocks of its stream, sent to a player who
-- does not wait for a keyframe or gets one, on a channel of 2 to 63, with a difference of time below
-- 0xFFFFFF, where all allocations succeed and the chunk size is not 0: `rtmp_msg_send` returns 0 within
-- one round more than the message has bytes; from the bytes that it queues the other side reads the
-- header and puts the message together, if the header has its length, in the formats 0 and 1, or
-- the message before had the same; and the player does not wait for a keyframe any more.
pub msg_send-received :
    (rounds known : ℕ) (blocks : Blocks) (log : List ℕ) (msg : Msg) (p : Player)
    → Hold blocks log
    → msg.offset + msg.size ≤ length log
    → msg.size < rounds
    → msg.len ≡ msg.size
    → msg.size < 2 ^ 24
    → p.conn.memory ≡ []
    → 0 < p.conn.ochunksize
    → p.conn.ochunksize < 2 ^ 32
    → (is_keyframe p.pstate && not msg.key) ≡ false
    → let chunkid = if msg.type == 8 then p.audiochunk else p.videochunk in
      let old = stream_chunk chunkid p.netstream msg p.conn in
      let message = take msg.size (drop msg.offset log) in
      2 ≤ chunkid
      → chunkid < 64
      → old.fmt < 4
      → old.channel ≡ chunkid
      → stamp_of p.pstate msg old < 0xffffff
      → ((restarted p.pstate msg old).fmt < 2) ⊎ (known ≡ msg.size)
      → (tasks : List Task) × (q : Player) × (msg_send rounds (some blocks) msg p ≡ some (done, q))
        × (q.conn.tasks ≡ p.conn.tasks ++ tasks)
        × (received chunkid p.conn.ochunksize known (sent tasks) ≡ some message)
        × (is_keyframe q.pstate ≡ false)
msg_send-received rounds known blocks log msg p held inside enough whole short calm some_size wide
      ready high channel four same_channel small told =
    let chunkid = if msg.type == 8 then p.audiochunk else p.videochunk in
    let old = stream_chunk chunkid p.netstream msg p.conn in
    let chunk = restarted p.pstate msg old in
    let message = take msg.size (drop msg.offset log) in
    let (fmt, kept) = restarted_facts p.pstate msg old four in
    let (pieces, q, runs, tasks, joined, goes_on) =
      msg_send-unchunk rounds blocks log msg p held inside enough calm some_size wide ready channel
        four (omega (arith, same_channel)) small in
    let left = length-drop msg.offset log (omega arith) in
    let long : length message ≡ msg.size =
      length-take msg.size (drop msg.offset log) (omega (arith, left)) in
    let header : ℕ → List ℕ =
      λ c. layout (header_chunk chunk.fmt c chunk.streamid msg (stamp_of p.pstate msg old)) in
    (
      send (header_of p.pstate msg old) false ∷ pieces,
      q,
      runs,
      tasks,
      ap (λ c. received chunkid p.conn.ochunksize known (header c ++ sent pieces))
            (kept ∙ same_channel)
          ∙ received-layout chunk.fmt chunkid chunk.streamid (stamp_of p.pstate msg old) known
              p.conn.ochunksize msg (sent pieces) message fmt channel small (long ∙ sym whole)
              (omega (arith, long)) (elim told [ inl two ↦ inl two | inr is ↦ inr (is ∙ sym long) ])
              joined,
      goes_on,
    )
