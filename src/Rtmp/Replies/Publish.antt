-- ===== src/Rtmp/Replies/Publish.antt =====
-- rtmp_resp_onstatus and rtmp_resp_publish of lib_src/transport/rns_rtmp.c where all allocations succeed.
use mathlib.Core.Path.{subst}
use yclib.Base.{
  ℕ, suc, ◌+◌, ◌%◌, ◌<◌, ◌≤◌, ◌^◌, ◌≡◌, refl, ap, sym, ◌∙◌, true, Option, none, some, List, [], ◌∷◌,
  ◌++◌, arith, length, take, take_all, inr,
}
use yclib.Network.{htob16, htob32}
use yclib.Network.Reverse.{rns_reverse}
use yclib.Rtmp.Amf.{Value, value, dbl, str}
use yclib.Rtmp.Amf.Encoding.{encode, encode_properties, IsValue, length-append_bytes}
use yclib.Rtmp.Amf.Reading.{reverse_twice}
use yclib.Rtmp.Chunk.{Chunk}
use yclib.Rtmp.Chunk.Layout.{layout}
use yclib.Rtmp.Connection.{Conn, Ret, Task, send, release, done, failed, control}
use yclib.Rtmp.Connection.Sending.{sent, unchunk, with_tasks}
use yclib.Rtmp.Connection.Message.{message_chunk}
use yclib.Rtmp.Incoming.{current}
use yclib.Rtmp.Parse.Control.{chunkctrl_chunksize_lem}
use yclib.Rtmp.Building.{text, codes, properties, object, head_fields, client_fields}
use yclib.Rtmp.Replies.{Part, written, byte, send_reply, void, resp_onstatus, resp_publish}
use yclib.Rtmp.Replies.Writing.{encode_parts, AreValues, Sends, send_reply-Sends}

abbrev pub status_parts : List ℕ → Value → List Part
status_parts tid ovalue =
    written (text (codes "onStatus")) ∷ written (value 0 (dbl tid)) ∷ byte 5 ∷ written ovalue ∷ []

-- The connection behind a reply: the message is queued in chunks that the other side puts together.
abbrev pub Queues : ℕ → ℕ → List ℕ → Conn → Option Conn → Type 0
Queues channel streamid message c result =
    (pieces : List Task) × (result
      ≡ some (
          with_tasks c (
            send (layout (message_chunk channel streamid 20 (length message))) true
            ∷ (pieces ++ release message ∷ []))))
    × (unchunk (suc (length message)) channel c.ochunksize (sent pieces) ≡ message)

void-Queues :
    (channel streamid : ℕ) (message : List ℕ) (c : Conn) (result : Option (Ret × Conn))
    → Sends channel streamid message c result
    → Queues channel streamid message c (void result)
void-Queues channel streamid message c result (pieces, runs, joined) =
    (pieces, ap void runs, joined)

onstatus_sends :
    (double : ℕ → List ℕ) (tid : ℕ) (ovalue : Value) (c : Conn) (chunk : Chunk)
    → c.memory ≡ []
    → current c ≡ some chunk
    → resp_onstatus double tid ovalue c
      ≡ void (send_reply 5 chunk.streamid (status_parts (double tid) ovalue) c)
unfolding resp_onstatus
onstatus_sends double tid ovalue c chunk calm found =
    let quiet = record c { memory = [] } in
    let same : c ≡ quiet = ap (λ m. record c { memory = m }) calm in
    let runs : resp_onstatus double tid ovalue quiet
        ≡ void (send_reply 5 chunk.streamid (status_parts (double tid) ovalue) quiet) =
      ap
        (λ m. void (elim m [
          | none ↦ some (failed 1, quiet)
          | some k ↦ send_reply 5 k.streamid (status_parts (double tid) ovalue) quiet
        ]))
        found in
    ap (resp_onstatus double tid ovalue) same
    ∙ runs
    ∙ ap (λ d. void (send_reply 5 chunk.streamid (status_parts (double tid) ovalue) d)) (sym same)

length-status_parts :
    (tid : List ℕ) (ovalue : Value)
    → length tid ≡ 8
    → length (encode_parts (status_parts tid ovalue)) ≡ 21 + length (encode ovalue)
unfolding encode htob16
length-status_parts tid ovalue tid8 = omega (
  arith,
  length-append_bytes (rns_reverse tid) (5 ∷ (encode ovalue ++ [])),
  length-append_bytes (encode ovalue) [],
  (reverse_twice tid [] tid8).1,
)

-- Where all allocations succeed, rtmp_resp_onstatus queues its message on channel 5 if the value has at
-- most 1003 bytes; of a longer value it writes past the end of its buffer of 1024 bytes.
pub resp_onstatus-Queues :
    (double : ℕ → List ℕ) (tid : ℕ) (ovalue : Value) (c : Conn) (chunk : Chunk)
    → IsValue ovalue
    → length (double tid) ≡ 8
    → c.memory ≡ []
    → 0 < c.ochunksize
    → current c ≡ some chunk
    → (length (encode ovalue) ≤ 1003
        → Queues 5 chunk.streamid
            (encode_parts (status_parts (double tid) ovalue))
            c
            (resp_onstatus double tid ovalue c))
      × (1003 < length (encode ovalue) → resp_onstatus double tid ovalue c ≡ none)
unfolding AreValues IsValue
resp_onstatus-Queues double tid ovalue c chunk good tid8 calm some_size found =
    let parts = status_parts (double tid) ovalue in
    let size = length-status_parts (double tid) ovalue tid8 in
    let runs = onstatus_sends double tid ovalue c chunk calm found in
    let sends =
      send_reply-Sends 5 chunk.streamid parts c ((refl, omega arith), ((refl, tid8), (good, tt)))
        calm some_size (omega arith) (inr (omega arith, omega arith)) in
    (
      λ fits.
          let (pieces, queues, joined) =
            void-Queues 5 chunk.streamid (encode_parts parts) c _ (sends.0 (omega (arith, size))) in
          (pieces, runs ∙ queues, joined),
      λ long. runs ∙ ap void (sends.1 (omega (arith, size))),
    )

text_whole : (s : List ℕ) → length s < 2 ^ 16 → text s ≡ value 2 (str s)
text_whole s small =
    let whole : length s % 2 ^ 16 ≡ length s = omega arith in
    ap (λ n. value 2 (str (take n s))) whole
    ∙ ap (λ t. value 2 (str t)) (take_all (length s) s (omega arith)).0

-- The value that tells of the start of a publication, with its description
abbrev described : Value → Value
described v =
    object
      (head_fields (codes "NetStream.Publish.Start") ++ (codes "description", v) ∷ client_fields)

described_size :
    (s : List ℕ)
    → length s < 2 ^ 16
    → IsValue (described (value 2 (str s)))
      × (length (encode (described (value 2 (str s)))) ≡ 89 + length s)
unfolding IsValue encode htob16
described_size s small = (
  ground arith,
  omega (arith, length-append_bytes s (encode_properties (properties client_fields))),
)

abbrev pub published : List ℕ → Value
published name = described (text (name ++ codes " is now published."))

published_size :
    (name : List ℕ)
    → length name + 18 < 2 ^ 16
    → IsValue (published name) × (length (encode (published name)) ≡ 107 + length name)
published_size name small =
    let s = name ++ codes " is now published." in
    let long : length s ≡ length name + 18 =
      omega (arith, length-append_bytes name (codes " is now published.")) in
    let whole = text_whole s (omega (arith, long)) in
    let (good, size) = described_size s (omega (arith, long)) in
    (
      subst (λ v. IsValue (described v)) (sym whole) good,
      ap (λ v. length (encode (described v))) whole ∙ omega (arith, size, long),
    )

-- Where all allocations succeed, rtmp_resp_publish announces chunks of 1024 bytes, and queues on channel 5,
-- in such chunks, the message that the name is published, if the name has at most 896 bytes. With
-- a longer name, of less than 2 ^ 16 - 18 bytes, it writes past the end of the buffer of the message.
pub resp_publish-Queues :
    (double : ℕ → List ℕ) (tid : ℕ) (name : List ℕ) (c : Conn) (chunk : Chunk)
    → length (double tid) ≡ 8
    → length name + 18 < 2 ^ 16
    → c.memory ≡ []
    → current c ≡ some chunk
    → let agreed = record c {
      ochunksize = 1024;
      tasks = c.tasks ++ send (layout (control 4 1) ++ htob32 1024) true ∷ [];
    } in
      (length name ≤ 896
        → Queues 5 chunk.streamid
            (encode_parts (status_parts (double tid) (published name)))
            agreed
            (resp_publish double tid name c))
      × (896 < length name → resp_publish double tid name c ≡ none)
unfolding resp_publish
resp_publish-Queues double tid name c chunk tid8 small calm found =
    let quiet = record c { memory = [] } in
    let same : c ≡ quiet = ap (λ m. record c { memory = m }) calm in
    let agreed : Conn → Conn = λ d. record d {
      ochunksize = 1024;
      tasks = d.tasks ++ send (layout (control 4 1) ++ htob32 1024) true ∷ [];
    } in
    let (good, size) = published_size name small in
    let reply =
      resp_onstatus-Queues double tid (published name) (agreed c) chunk good tid8 calm (omega arith)
        found in
    let runs : resp_publish double tid name quiet
        ≡ resp_onstatus double tid (published name) (agreed quiet) =
      ap
        (λ r. elim r.0 [
          | failed n ↦ some r.1
          | done ↦ resp_onstatus double tid (published name) r.1
        ])
        (chunkctrl_chunksize_lem 1024 quiet refl) in
    let whole =
      ap (resp_publish double tid name) same
      ∙ runs
      ∙ ap (λ d. resp_onstatus double tid (published name) (agreed d)) (sym same) in
    (
      λ fits.
          let (pieces, queues, joined) = reply.0 (omega (arith, size)) in
          (pieces, whole ∙ queues, joined),
      λ long. whole ∙ reply.1 (omega (arith, size)),
    )
