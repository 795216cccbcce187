-- ===== src/Rtmp/Replies/Streams.antt =====
-- rtmp_resp_createStream and rtmp_resp_getStreamLength of lib_src/transport/rns_rtmp.c where all
-- allocations succeed.
use yclib.Base.{
  ℕ, ◌<◌, ◌≤◌, ◌≡◌, refl, ap, sym, ◌∙◌, Bool, true, false, Option, some, List, [], ◌∷◌, ◌++◌, arith,
  length,
}
use yclib.Network.{htob16}
use yclib.Network.Reverse.{rns_reverse}
use yclib.Rtmp.Amf.{Value, value, dbl}
use yclib.Rtmp.Amf.Encoding.{encode, IsValue, length-append_bytes}
use yclib.Rtmp.Amf.Reading.{reverse_twice}
use yclib.Rtmp.Chunk.{Chunk}
use yclib.Rtmp.Connection.{Conn, Ret, done}
use yclib.Rtmp.Connection.Sending.{Separable}
use yclib.Rtmp.Incoming.{current}
use yclib.Rtmp.Building.{result_name}
use yclib.Rtmp.Replies.{Part, written, byte, send_reply, and_then, resp_create_stream}
use yclib.Rtmp.Replies.Writing.{encode_parts, AreValues, Sends, send_reply-Sends}

abbrev pub number_parts : Value → List ℕ → List ℕ → List Part
number_parts name tid n =
    written name ∷ written (value 0 (dbl tid)) ∷ byte 5 ∷ written (value 0 (dbl n)) ∷ []

-- What `and_then` passes on
returned-Sends :
    (channel streamid : ℕ) (message : List ℕ) (c : Conn) (result : Option (Ret × Conn))
    → Sends channel streamid message c result
    → Sends channel streamid message c (and_then result λ h. some (done, h))
returned-Sends channel streamid message c result (pieces, runs, joined) =
    (pieces, ap (λ r. and_then r λ h. some (done, h)) runs, joined)

short_names : (type : Bool) → IsValue (result_name type) × (length (encode (result_name type)) ≤ 10)
unfolding IsValue encode htob16
short_names true = ((refl, omega arith), omega arith)
short_names false = ((refl, omega arith), omega arith)

-- The reply, with a name of at most ten bytes, fits its buffer.
number_parts-Sends :
    (channel streamid : ℕ) (name : Value) (tid n : List ℕ) (c : Conn)
    → IsValue name
    → length (encode name) ≤ 10
    → length tid ≡ 8
    → length n ≡ 8
    → c.memory ≡ []
    → 0 < c.ochunksize
    → channel < 320
    → Separable channel c.ochunksize (length (encode_parts (number_parts name tid n)))
    → Sends channel streamid
        (encode_parts (number_parts name tid n))
        c
        (send_reply channel streamid (number_parts name tid n) c)
unfolding IsValue encode AreValues
number_parts-Sends channel streamid name tid n c good short tid8 n8 calm some_size small apart =
    (send_reply-Sends channel streamid (number_parts name tid n) c
        (good, ((refl, tid8), ((refl, n8), tt))) calm some_size small apart).0
      (let left = (reverse_twice tid [] tid8).1 in
        let right = (reverse_twice n [] n8).1 in
        omega (
          arith,
          length-append_bytes (encode name)
              (0 ∷ (rns_reverse tid ++ 5 ∷ 0 ∷ (rns_reverse n ++ []))),
          length-append_bytes (rns_reverse tid) (5 ∷ 0 ∷ (rns_reverse n ++ [])),
          length-append_bytes (rns_reverse n) [],
          left,
          right,
        ))

-- From the connection whose allocations are written out to one that is known to have none to come
number_reply_lem :
    (c : Conn)
    → c.memory ≡ []
    → (reply : Conn → Option (Ret × Conn)) (channel streamid : ℕ) (parts : List Part)
    → let next : Conn → Option (Ret × Conn) =
        λ d. and_then (send_reply channel streamid parts d) λ h. some (done, h) in
      reply (record c { memory = [] }) ≡ next (record c { memory = [] }) → reply c ≡ next c
number_reply_lem c calm reply channel streamid parts runs =
    let same : c ≡ record c { memory = [] } = ap (λ m. record c { memory = m }) calm in
    ap reply same
    ∙ runs
    ∙ ap (λ d. and_then (send_reply channel streamid parts d) λ h. some (done, h)) (sym same)

-- Where all allocations succeed, the chunk size is not 0 and the command came on a channel of 2 to 63,
-- or on one below 320 where the message fits one chunk, rtmp_resp_createStream returns 0, and queues a message on that channel that the other side puts
-- together to the name of the result, the number of the command, null and the number of the stream.
pub resp_create_stream-Sends :
    (double : ℕ → List ℕ) (tid : List ℕ) (type : Bool) (streamid : ℕ) (c : Conn) (chunk : Chunk)
    → length tid ≡ 8
    → length (double streamid) ≡ 8
    → c.memory ≡ []
    → 0 < c.ochunksize
    → current c ≡ some chunk
    → chunk.channel < 320
    → Separable chunk.channel c.ochunksize
        (length (encode_parts (number_parts (result_name type) tid (double streamid))))
    → Sends chunk.channel chunk.streamid
        (encode_parts (number_parts (result_name type) tid (double streamid)))
        c
        (resp_create_stream double tid type streamid c)
unfolding resp_create_stream
resp_create_stream-Sends double tid type streamid c chunk tid8 n8 calm some_size found small apart =
    let (good, short) = short_names type in
    let parts = number_parts (result_name type) tid (double streamid) in
    let (pieces, runs, joined) = returned-Sends _ _ _ c _ (
      number_parts-Sends chunk.channel chunk.streamid (result_name type) tid (double streamid) c
        good short tid8 n8 calm some_size small apart) in
    (
      pieces,
      number_reply_lem c calm (resp_create_stream double tid type streamid) chunk.channel
            chunk.streamid parts (rw found refl)
          ∙ runs,
      joined,
    )
