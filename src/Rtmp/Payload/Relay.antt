-- ===== src/Rtmp/Payload/Relay.antt =====
-- rtmp_msg_payload and rtmp_msg_send of lib_src/transport/rns_rtmp.c: a message on its way from the one
-- who publishes it to those who play it.
use mathlib.Core.List.{append_assoc, append-nil}
use mathlib.Core.Path.{subst}
use yclib.Base.{
  ℕ, suc, ◌+◌, ◌<◌, ◌≤◌, ◌≡◌, refl, ap, sym, ◌∙◌, true, some, Option, List, [], ◌∷◌, ◌++◌, ◌>>=◌,
  length, take, arith, length-append, take_all, All,
}
use yclib.Rtmp.Chunk.{Chunk}
use yclib.Rtmp.Incoming.{set_chunk}
use yclib.Rtmp.Parse.Header.{find-assign}
use yclib.Rtmp.Media.{Msg}
use yclib.Rtmp.Payload.{MsgStream, Source, passed_on, new_msg, headed, receive_rest, receive}
use yclib.Rtmp.Payload.Storing.{Stores, free}
use yclib.Rtmp.Payload.Messages.{
  Extends, Publishes, share, published, ended, passed_on-free, new_msg-Fresh, msg_payload-continues,
  msg_payload-starts,
}

-- The bytes of all parts
abbrev pub joined : List (List ℕ) → List ℕ
joined [] = []
joined (part ∷ parts) = part ++ joined parts

-- The stream after a message has come: it stores the bytes, and the message is complete.
pub record Holds (bytes log : List ℕ) (msg : Msg) (others : List Msg) (old new : MsgStream)
    : Type 0 where
  pub bytes_stored : Stores new (log ++ bytes)
  pub complete : new.msgs ≡ record msg { len = msg.size } ∷ others
  pub free_left : free new + length bytes ≡ free old
  pub same_players : new.players ≡ old.players
  pub same_videometa : new.videometa ≡ old.videometa

headed-Publishes :
    (s : Source) (chunk : Chunk) (stream : MsgStream) (log : List ℕ)
    → Publishes s chunk stream log
    → Publishes (headed s) (record chunk { fmt = 3 }) stream log
headed-Publishes s chunk stream log publishes =
    let next = record chunk { fmt = 3 } in
    let t = record s { conn = set_chunk next s.conn } in
    let is : headed s ≡ t = rw (headed, publishes.chunk_is) refl in
    subst (λ r. Publishes r next stream log) (sym is)
      (record {
        chunk_is = find-assign s.conn.curchunk chunk next s.conn.chunkstreams publishes.chunk_is;
        stream_is = publishes.stream_is;
        stores = publishes.stores;
        quiet = publishes.quiet;
      })

all_is : (n : ℕ) (xs : List ℕ) → n ≡ length xs → take n xs ≡ xs
all_is n xs is = (take_all n xs (omega (arith, is))).0

nothing-Holds :
    (stream : MsgStream) (log : List ℕ) (msg : Msg) (others : List Msg)
    → Stores stream log
    → stream.msgs ≡ msg ∷ others
    → msg.len ≡ msg.size
    → Holds [] log msg others stream stream
nothing-Holds stream log msg others stores latest whole = record {
  bytes_stored = subst (Stores stream) (sym (append-nil log)) stores;
  complete = latest ∙ ap (λ n. record msg { len = n } ∷ others) whole;
  free_left = omega arith;
  same_players = refl;
  same_videometa = refl;
}

-- A part, and the parts behind it
then-Holds :
    (part rest log : List ℕ) (msg : Msg) (others : List Msg) (old mid new : MsgStream)
    → share msg part ≡ length part
    → Extends log part (share msg part) msg others old mid
    → Holds rest
        (log ++ take (share msg part) part)
        (record msg { len = msg.len + share msg part })
        others
        mid
        new
    → Holds (part ++ rest) log msg others old new
then-Holds part rest log msg others old mid new n extends holds = record {
  bytes_stored =
      subst (Stores new)
        (append_assoc log (take (share msg part) part) rest
          ∙ ap (λ t. log ++ (t ++ rest)) (all_is (share msg part) part n))
        holds.bytes_stored;
  complete = holds.complete;
  free_left = omega (arith, holds.free_left, extends.free_less, n, length-append part rest);
  same_players = holds.same_players ∙ extends.players_same;
  same_videometa = holds.same_videometa ∙ extends.videometa_same;
}

-- What is to hold behind the calls for a message
abbrev pub Gets : ℕ → Option Source → List ℕ → List ℕ → Msg → List Msg → MsgStream → Type 0
Gets streamid result bytes log msg others old =
    (t : Source) × (last : Chunk) × (new : MsgStream) × (result ≡ some t)
    × (last.streamid ≡ streamid)
    × Publishes t last new (log ++ bytes)
    × Holds bytes log msg others old new

module _ (rounds inner : ℕ) where
  receive_rest-Holds :
      (parts : List (List ℕ)) (s : Source) (chunk : Chunk) (stream : MsgStream) (log : List ℕ)
      (msg : Msg) (others : List Msg)
      → Publishes s chunk stream log
      → stream.msgs ≡ msg ∷ others
      → msg.len + length (joined parts) ≡ msg.size
      → All (λ part. 0 < length part) parts
      → length (joined parts) ≤ free stream
      → length (joined parts) < inner
      → Gets chunk.streamid
          (receive_rest (suc rounds) inner s parts)
          (joined parts)
          log
          msg
          others
          stream
  receive_rest-Holds [] s chunk stream log msg others publishes latest whole all room enough =
      let holds = nothing-Holds stream log msg others publishes.stores latest (omega arith) in
      (
        s,
        chunk,
        stream,
        refl,
        refl,
        record {
          chunk_is = publishes.chunk_is;
          stream_is = publishes.stream_is;
          stores = holds.bytes_stored;
          quiet = publishes.quiet;
        },
        holds,
      )
  receive_rest-Holds (part ∷ parts) s chunk stream log msg others publishes latest whole all room
        enough =
      let long = length-append part (joined parts) in
      let n : share msg part ≡ length part = ground arith in
      let next = record chunk { fmt = 3 } in
      let (mid, runs, then_publishes, extends) =
        msg_payload-continues rounds inner (headed s) next stream log part msg others
          (headed-Publishes s chunk stream log publishes) latest (omega (arith, all.0, long))
          (omega (arith, n, long)) (omega (arith, n, long)) in
      let now = record msg { len = msg.len + share msg part } in
      let (t, last, new, rest, same_stream, ends, holds) =
        receive_rest-Holds parts (published (headed s) chunk.streamid mid) next mid
          (log ++ take (share msg part) part) now others then_publishes extends.msgs_are
          (omega (arith, n, long)) all.1 (omega (arith, n, long, extends.free_less))
          (omega (arith, long)) in
      let whole_holds =
        then-Holds part (joined parts) log msg others stream mid new n extends holds in
      (
        t,
        last,
        new,
        ap (λ r. r >>= λ run. run >>= λ (k, u). receive_rest (suc rounds) inner u parts) runs
            ∙ rest,
        same_stream,
        record {
          chunk_is = ends.chunk_is;
          stream_is = ends.stream_is;
          stores = whole_holds.bytes_stored;
          quiet = ends.quiet;
        },
        whole_holds,
      )

-- A message that comes in parts, the first of which starts it: after the calls of `rtmp_msg_payload` for
-- them, where all allocations succeed and there is room for its bytes, the stream stores them behind
-- those that it had, and the message is complete.
pub receive-Holds :
    (rounds inner : ℕ) (part : List ℕ) (parts : List (List ℕ)) (s : Source) (chunk : Chunk)
    (stream served : MsgStream) (log : List ℕ) (msg : Msg)
    → Publishes s chunk stream log
    → ended stream.msgs ≡ true
    → passed_on inner stream ≡ some served
    → new_msg chunk served.offset part ≡ some msg
    → length (joined (part ∷ parts)) ≡ chunk.msglen
    → All (λ p. 0 < length p) (part ∷ parts)
    → length (joined (part ∷ parts)) ≤ free stream
    → length (joined (part ∷ parts)) < inner
    → Gets chunk.streamid
        (receive (suc (suc (suc rounds))) inner s (part ∷ parts))
        (joined (part ∷ parts))
        log
        msg
        served.msgs
        served
receive-Holds rounds inner part parts s chunk stream served log msg publishes ends passed starts
      whole all room enough =
    let (fresh, at, size) = new_msg-Fresh chunk served.offset part msg starts in
    let long = length-append part (joined parts) in
    let n : share msg part ≡ length part = ground (arith, whole, fresh, size) in
    let same = passed_on-free inner stream served passed in
    let (mid, runs, then_publishes, extends) =
      msg_payload-starts rounds inner s chunk stream served log part msg publishes ends passed
        starts (omega (arith, all.0, long, whole, size)) (omega (arith, n, long))
        (omega (arith, n, long)) in
    let now = record msg { len = msg.len + share msg part } in
    let (t, last, new, rest, same_stream, then_ends, holds) =
      receive_rest-Holds (suc (suc rounds)) inner parts (published s chunk.streamid mid) chunk mid
        (log ++ take (share msg part) part) now served.msgs then_publishes extends.msgs_are
        (omega (arith, n, long, fresh, size, whole)) all.1
        (omega (arith, n, long, extends.free_less, same)) (omega (arith, long)) in
    let whole_holds =
      then-Holds part (joined parts) log msg served.msgs served mid new n extends holds in
    (
      t,
      last,
      new,
      ap (λ r. r >>= λ run. run >>= λ (k, u). receive_rest (suc (suc (suc rounds))) inner u parts)
            runs
          ∙ rest,
      same_stream,
      record {
        chunk_is = then_ends.chunk_is;
        stream_is = then_ends.stream_is;
        stores = whole_holds.bytes_stored;
        quiet = then_ends.quiet;
      },
      whole_holds,
    )
