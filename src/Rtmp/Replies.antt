-- ===== src/Rtmp/Replies.antt =====
-- lib_src/transport/rns_rtmp.c, the rtmp_resp_ functions: the answers to the commands of a peer. They
-- build script data values, write them to a buffer of 1024 bytes and send it.
pub mod Writing
pub mod Streams
pub mod Publish
use Prim.Native.Char.{code}
use Prim.Native.String.{String}
use yclib.Base.{
  allocated, rest_of, ℕ, zero, suc, ◌+◌, ◌&&◌, ◌%◌, ◌^◌, Bool, true, false, Option, none, some,
  List, [], ◌∷◌, ◌++◌, if◌then◌else◌, ◌>>=◌, length, take,
}
use yclib.Rtmp.Amf.{
  Value, Pointee, Properties, value, null_pointer, dbl, ui8, str, obj, ecma, no_properties,
  property, Written, store, after, value_write,
}
use yclib.Rtmp.Chunk.{Chunk}
use yclib.Rtmp.Connection.{
  Conn, Ret, done, failed, allocating, then_round, command_send, chunkctrl_acksize, chunkctrl_bw,
  chunkctrl_chunksize,
}
use yclib.Rtmp.Incoming.{current}
use yclib.Rtmp.Building.{
  codes, str_create, allocate, proceed, one, make_str, make_pointee, make_pair, make_property,
  make_properties, properties, object, text, result_name, head_fields, make_description,
  make_status, status, client_fields, detail_fields, server_version, version_fields,
}

-- What a reply consists of: values, and a type without a value
pub data Part : Type 0 where
  written : Value → Part
  byte : ℕ → Part

unfoldable pub write_parts : List Part → List ℕ → Written
unfolding value_write
write_parts [] buf = some ([], buf)
write_parts (written v ∷ parts) buf = after (value_write v buf) λ walker. write_parts parts walker
write_parts (byte b ∷ parts) buf = after (store (b ∷ []) buf) λ walker. write_parts parts walker

abbrev pub blank : ℕ → List ℕ
blank zero = []
blank (suc n) = 0 ∷ blank n

-- Writes the reply and sends it; `none` is a write outside the buffer, or a loop of sending that does
-- not end. The loop gets a round more than there are bytes.
unfoldable pub send_reply : ℕ → ℕ → List Part → Conn → Option (Ret × Conn)
unfolding write_parts command_send
send_reply channel streamid parts c = write_parts parts (blank 1024) >>= λ (bytes, rest).
    command_send (suc (length bytes)) channel streamid bytes true c

-- Goes on after a result of 0; any other makes the caller return -1.
abbrev pub and_then : Option (Ret × Conn) → (Conn → Option (Ret × Conn)) → Option (Ret × Conn)
and_then none next = none
and_then (some r) next = then_round r 1 next

-- A function without a result
abbrev pub void : Option (Ret × Conn) → Option Conn
void r = r >>= λ (ret, c). some c

-- The chunk stream of the command that is answered
abbrev pub with_chunk :
    Conn → Option (Ret × Conn) → (Chunk → Option (Ret × Conn)) → Option (Ret × Conn)
with_chunk c missing next = elim (current c) [ none ↦ missing | some chunk ↦ next chunk ]

-- `double` is the representation of an unsigned number as a double.
module _ (double : ℕ → List ℕ) where
  abbrev pub number : ℕ → Value
  number n = value 0 (dbl (double n))

  unfoldable pub resp_checkbw : Conn → Option Conn
  unfolding send_reply
  resp_checkbw c = void (
      then_round (allocate 6 c) 1 λ d.
        send_reply 3 0 (written (text (codes "onBWDone")) ∷ written (number 0) ∷ byte 5 ∷ []) d)

  abbrev pub server_fields : List (List ℕ × Value)
  server_fields = (codes "capabilities", number 31) ∷ (codes "mode", number 1) ∷ []

  abbrev pub server_object : Value
  server_object = object ((codes "fmsVer", server_version) ∷ server_fields)

  abbrev pub info_fields : List (List ℕ × Value)
  info_fields =
      (codes "level", text (codes "status"))
      ∷ (codes "code", text (codes "NetConnection.Connect.Success"))
      ∷ (codes "description", text (codes "Connection succeeded."))
      ∷ (codes "objectEncoding", number 0)
      ∷ []

  abbrev pub info_object : Value
  info_object = object (info_fields ++ (codes "data", object version_fields) ∷ [])

  -- The values of the reply to connect, after its buffer and its chunk stream
  abbrev pub make_connect : Conn → Ret × Conn
  make_connect c = proceed (allocate 6 c) λ d. proceed (make_property 6 server_version d) λ e.
      proceed (make_properties server_fields e) λ f. proceed (allocate 2 f) λ g.
        proceed (make_properties info_fields g) λ h. proceed (allocate 1 h) λ i.
          proceed (make_properties version_fields i)
            λ j. proceed (make_property 1 (object version_fields) j) λ k. allocate 1 k

  -- `tid` is the representation of the command's number.
  unfoldable pub resp_connect : List ℕ → Bool → Conn → Option (Ret × Conn)
  unfolding chunkctrl_acksize chunkctrl_bw send_reply resp_checkbw
  resp_connect tid type c = then_round (allocate 1 c) 1 λ d.
      with_chunk d (some (failed 1, d)) λ chunk.
        let (made, e) = make_connect d in
        elim made [
          | failed n ↦ some (failed n, e)
          | done ↦ then_round (chunkctrl_acksize 2500000 e) 1 λ f.
              then_round (chunkctrl_bw 2500000 f) 1 λ g.
                and_then
                  (send_reply chunk.channel chunk.streamid
                    (written (result_name type)
                      ∷ written (value 0 (dbl tid))
                      ∷ written server_object
                      ∷ written info_object
                      ∷ [])
                    g)
                  λ h. resp_checkbw h >>= λ z. some (done, z)
        ]

  -- The part that the answers to createStream and getStreamLength share. The last number is tested by
  -- the name of another, so that it may be NULL.
  abbrev number_reply : Value → List ℕ → ℕ → (Chunk → ℕ) → Conn → Option (Ret × Conn)
  number_reply name tid n channel_of c = then_round (allocate 1 c) 1 λ d.
      with_chunk d (some (failed 1, d)) λ chunk. then_round (allocate 5 d) 1 λ e.
        let (made, f) = one e in
        let last = if made then dbl (double n) else null_pointer in
        then_round (allocate 1 f) 1 λ g.
          and_then
            (send_reply (channel_of chunk) chunk.streamid
              (written name ∷ written (value 0 (dbl tid)) ∷ byte 5 ∷ written (value 0 last) ∷ []) g)
            λ h. some (done, h)

  unfoldable pub resp_create_stream : List ℕ → Bool → ℕ → Conn → Option (Ret × Conn)
  unfolding send_reply
  resp_create_stream tid type streamid c =
      number_reply (result_name type) tid streamid (λ chunk. chunk.channel) c

  unfoldable pub resp_get_stream_length : ℕ → ℕ → Conn → Option (Ret × Conn)
  unfolding send_reply
  resp_get_stream_length tid len c =
      number_reply (text (codes "_result")) (double tid) len (λ chunk. 3) c

  unfoldable pub resp_onstatus : ℕ → Value → Conn → Option Conn
  unfolding send_reply
  resp_onstatus tid ovalue c = void (
      with_chunk c (some (failed 1, c)) λ chunk. then_round (allocate 6 c) 1 λ d.
        send_reply 5 chunk.streamid
          (written (text (codes "onStatus")) ∷ written (number tid) ∷ byte 5 ∷ written ovalue ∷ [])
          d)

  -- `name` is the text up to its end.
  unfoldable pub resp_publish : ℕ → List ℕ → Conn → Option Conn
  unfolding chunkctrl_chunksize resp_onstatus
  resp_publish tid name c =
      let code = codes "NetStream.Publish.Start" in
      let ovalue = status code (name ++ codes " is now published.") client_fields in
      let (made, d) = proceed (make_status code client_fields c) λ e. chunkctrl_chunksize 1024 e in
      elim made [ failed n ↦ some d | done ↦ resp_onstatus tid ovalue d ]

  unfoldable pub resp_reset : ℕ → List ℕ → Conn → Option Conn
  unfolding resp_onstatus
  resp_reset tid name c =
      let code = codes "NetStream.Play.Reset" in
      let ovalue =
        status code (codes "Playing and resetting " ++ name ++ codes ".") detail_fields in
      let (made, d) = make_status code detail_fields c in
      elim made [ failed n ↦ some d | done ↦ resp_onstatus 0 ovalue d ]

  -- `datamsg` is `rtmp_datamsg_send`, whose result makes no difference.
  unfoldable pub resp_play : (List ℕ → Conn → Option Conn) → ℕ → List ℕ → Conn → Option Conn
  unfolding resp_onstatus
  resp_play datamsg tid name c =
      let code = codes "NetStream.Play.Start" in
      let ovalue = status code (codes "Started playing " ++ name ++ codes ".") detail_fields in
      let (made, d) = make_status code detail_fields c in
      elim made [ failed n ↦ some d | done ↦ resp_onstatus 0 ovalue d >>= datamsg name ]
