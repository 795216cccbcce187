-- ===== src/Rtmp/Connection.antt =====
-- lib_src/transport/rns_rtmp.c: the state of a connection and the queue of what it sends.
pub mod Sending
pub mod Message
use yclib.Base.{
  allocated, rest_of, ℕ, zero, suc, ◌+◌, ◌-◌, ◌^◌, bit_or, Bool, true, false, Option, none, some,
  List, [], ◌∷◌, ◌++◌, ltb, ◌==◌, if◌then◌else◌, u8, ◌>>=◌, length, take, drop,
}
use yclib.Network.{htob16, htob32}
use yclib.Rtmp.Chunk.{Chunk, chunk_write}

-- RNS_RTMP_HANDSHAKE_ and RNS_RTMP_CHUNK_, the values of `state`
pub data Phase : Type 0 where
  handshake_c0 handshake_c1 handshake_c2 handshake_s0 handshake_s1 handshake_s2 : Phase
  chunk_fmt chunk_channel_1 chunk_channel_2 chunk_channel_3 chunk_channel : Phase
  chunk_timestamp chunk_msg_len chunk_msg_type chunk_msg_streamid : Phase
  chunk_extra_timestamp chunk_payload : Phase

-- `rns_sock_task_t` as it is queued: bytes to send, with the flag that they are freed behind, or a
-- buffer that is only to be freed.
pub data Task : Type 0 where
  send : List ℕ → Bool → Task
  release : List ℕ → Task

-- `rns_rconn_t`, as far as reading and sending chunks goes. `chunkstreams` is the tree by channel,
-- `cbuf` the `cbuflen` bytes in use of the array of that name. `memory` says of the allocations to
-- come whether they succeed; those past its end do.
pub record Conn : Type 0 where
  pub state : Phase
  pub curfmt : ℕ
  pub curchunk : ℕ
  pub curlen : ℕ
  pub ichunksize : ℕ
  pub ochunksize : ℕ
  pub bw : ℕ
  pub cs0 : ℕ
  pub cs1 : List ℕ
  pub cs2 : List ℕ
  pub cbuf : List ℕ
  pub chunkstreams : List (ℕ × Chunk)
  pub tasks : List Task
  pub memory : List Bool

-- What a function returns: 0, or a negative number by its size.
pub data Ret : Type 0 where
  done : Ret
  failed : ℕ → Ret

-- One allocation: a failure returns `code`.
abbrev pub allocating : ℕ → Conn → (Conn → Ret × Conn) → Ret × Conn
allocating code c next =
    let d = record c { memory = rest_of c.memory } in
    if allocated c.memory then next d else (failed code, d)

-- Goes on after a call that returned 0; any other result returns `code`.
abbrev pub on_done : Ret × Conn → ℕ → (Conn → Ret × Conn) → Ret × Conn
on_done (done, c) code next = next c
on_done (failed n, c) code next = (failed code, c)

-- The same where the rounds of a loop may run out: any other result returns `code`.
abbrev pub then_round : Ret × Conn → ℕ → (Conn → Option (Ret × Conn)) → Option (Ret × Conn)
then_round (done, c) code next = next c
then_round (failed n, c) code next = some (failed code, c)

abbrev queue : Task → Conn → Ret × Conn
queue task c = (done, record c { tasks = c.tasks ++ task ∷ [] })

unfoldable pub attach_buffer : List ℕ → Bool → Conn → Ret × Conn
attach_buffer buf clean c = allocating 1 c λ d. allocating 2 d λ e. queue (send buf clean) e

unfoldable pub clean_buffer : List ℕ → Conn → Ret × Conn
clean_buffer buf c = allocating 1 c λ d. allocating 2 d λ e. queue (release buf) e

unfoldable pub send_c0 : Conn → Conn
unfolding attach_buffer
send_c0 c = let d = record c { cs0 = 3 } in (attach_buffer (d.cs0 ∷ []) false d).1

unfoldable pub send_s0 : Conn → Conn
unfolding attach_buffer
send_s0 c = (attach_buffer (c.cs0 ∷ []) false c).1

-- `noise` is the 1536 bytes of an array that is not initialised but for its last byte.
unfoldable pub send_s1 : List ℕ → Conn → Conn
unfolding attach_buffer htob32
send_s1 noise c =
    let cs1 = htob32 0 ++ (htob32 0 ++ (take 1527 (drop 8 noise) ++ 0 ∷ [])) in
    (attach_buffer cs1 false (record c { cs1 = cs1 })).1

unfoldable pub send_s2 : Conn → Conn
unfolding attach_buffer
send_s2 c = (attach_buffer c.cs2 false c).1

-- `rtmp_chunk_write` into a buffer of 32 bytes: nine rounds are enough for it.
abbrev pub write_header : Chunk → ℕ × List ℕ
write_header chunk = elim (chunk_write 9 chunk 32) [ none ↦ (0, []) | some r ↦ r ]

abbrev pub control : ℕ → ℕ → Chunk
control msglen msgtype = record {
  fmt = 0;
  channel = 2;
  timestamp = 0;
  msglen = msglen;
  msgtype = msgtype;
  streamid = 0;
}

-- The common part of the control messages: their header and their content in a buffer of their own.
abbrev send_control : ℕ → List ℕ → Conn → Ret × Conn
send_control msgtype content c = allocating 2 c λ d.
    let (s, header) = write_header (control (length content) msgtype) in
    if s == 0 then (failed 1, d) else attach_buffer (header ++ content) true d

unfoldable pub uc_sb : ℕ → Conn → Ret × Conn
unfolding attach_buffer chunk_write htob32
uc_sb streamid c = send_control 4 (0 ∷ 0 ∷ htob32 streamid) c

unfoldable pub uc_resetplay : ℕ → Conn → Ret × Conn
unfolding attach_buffer chunk_write htob16 htob32
uc_resetplay streamid c = send_control 4 (htob16 31 ++ htob32 streamid) c

unfoldable pub chunkctrl_acksize : ℕ → Conn → Ret × Conn
unfolding attach_buffer chunk_write htob32
chunkctrl_acksize size c = send_control 5 (htob32 size) c

unfoldable pub chunkctrl_bw : ℕ → Conn → Ret × Conn
unfolding attach_buffer chunk_write htob32
chunkctrl_bw size c = send_control 6 (htob32 size ++ 2 ∷ []) c

unfoldable pub chunkctrl_chunksize : ℕ → Conn → Ret × Conn
unfolding attach_buffer chunk_write htob32
chunkctrl_chunksize size c = allocating 2 c λ d.
    let (s, header) = write_header (control 4 1) in
    if s == 0
    then (failed 1, d)
    else attach_buffer (header ++ htob32 size) true (record d { ochunksize = size })

-- The byte between two chunks
abbrev pub separator : ℕ → ℕ
separator chunkid = bit_or 0xc0 (u8 chunkid)

-- The loop of `rtmp_data_send` on the bytes from `buf + sendbytes` on; `none` says that the rounds
-- have run out.
unfoldable pub send_loop : ℕ → ℕ → List ℕ → Conn → Option (Ret × Conn)
unfolding attach_buffer
send_loop zero chunkid buf c = none
send_loop (suc rounds) chunkid [] c = some (done, c)
send_loop (suc rounds) chunkid (b ∷ buf) c =
    let bytes = b ∷ buf in
    let len = if ltb (length bytes) c.ochunksize then length bytes else c.ochunksize in
    then_round (attach_buffer (take len bytes) false c) 3 λ d. elim (drop len bytes) [
      | [] ↦ some (done, d)
      | e ∷ more ↦ then_round (allocating 3 d λ a. (done, a)) 3 λ a.
          then_round (attach_buffer (separator chunkid ∷ []) true a) 4
            λ z. send_loop rounds chunkid (e ∷ more) z
    ]

unfoldable pub data_send : ℕ → ℕ → ℕ → ℕ → List ℕ → Bool → Conn → Option (Ret × Conn)
unfolding attach_buffer clean_buffer chunk_write send_loop
data_send rounds chunkid streamid msgtype buf clean c =
    then_round (allocating 1 c λ d. (done, d)) 1 λ d.
      let (s, header) = write_header (record {
        fmt = 0;
        channel = chunkid;
        timestamp = 0;
        msglen = length buf;
        msgtype = msgtype;
        streamid = streamid;
      }) in
      then_round (attach_buffer (take s header) true d) 2 λ e.
        send_loop rounds chunkid buf e >>= λ (ret, z). elim ret [
          | failed n ↦ some (failed n, z)
          | done ↦
              if clean
              then (then_round (clean_buffer buf z) 5 λ y. some (done, y))
              else some (done, z)
        ]

unfoldable pub command_send : ℕ → ℕ → ℕ → List ℕ → Bool → Conn → Option (Ret × Conn)
unfolding data_send
command_send rounds chunkid streamid buf clean c = data_send rounds chunkid streamid 20 buf clean c
