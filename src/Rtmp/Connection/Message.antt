-- ===== src/Rtmp/Connection/Message.antt =====
-- rtmp_data_send of lib_src/transport/rns_rtmp.c as a whole: header, chunks and the release of the buffer.
use mathlib.Core.List.{append_assoc, append-nil}
use yclib.Base.{
  ℕ, suc, ◌<◌, ◌≤◌, ◌≡◌, refl, ap, sym, ◌∙◌, Bool, true, Option, some, List, [], ◌∷◌, ◌++◌, ltb,
  if◌then◌else◌, length, arith, take_all, Bool-cases, inl, inr,
}
use yclib.Network.{htob24, htol32}
use yclib.Rtmp.Chunk.{Chunk}
use yclib.Rtmp.Chunk.Layout.{layout, chunk_write-layout}
use yclib.Rtmp.Connection.{
  Conn, Task, send, release, Ret, done, write_header, send_loop, data_send, clean_buffer,
}
use yclib.Rtmp.Connection.Sending.{sent, unchunk, Separable, loop-unchunk, queued, with_tasks}

abbrev pub message_chunk : ℕ → ℕ → ℕ → ℕ → Chunk
message_chunk chunkid streamid msgtype size = record {
  fmt = 0;
  channel = chunkid;
  timestamp = 0;
  msglen = size;
  msgtype = msgtype;
  streamid = streamid;
}

header_fits :
    (chunkid streamid msgtype size : ℕ)
    → length (layout (message_chunk chunkid streamid msgtype size)) ≤ 32
unfolding htob24 htol32
header_fits chunkid streamid msgtype size = elim (Bool-cases (ltb chunkid 64)) [
  | inl one ↦ rw one (omega arith)
  | inr two ↦ rw two (omega arith)
]

header_written :
    (chunkid streamid msgtype size : ℕ)
    → chunkid < 320
    → let header = layout (message_chunk chunkid streamid msgtype size) in
      write_header (message_chunk chunkid streamid msgtype size) ≡ (length header, header)
header_written chunkid streamid msgtype size small =
    let chunk = message_chunk chunkid streamid msgtype size in
    let written =
      (chunk_write-layout 9 chunk 32 (omega arith) (omega arith) small).0
        (header_fits chunkid streamid msgtype size) in
    rw (write_header, written) refl

clean_buffer-queued :
    (bytes : List ℕ) (c : Conn)
    → c.memory ≡ []
    → clean_buffer bytes c ≡ (done, with_tasks c (release bytes ∷ []))
unfolding clean_buffer
clean_buffer-queued bytes c calm = rw (clean_buffer, calm) refl

-- The buffer is freed behind its chunks if the caller says so.
abbrev pub freed : Bool → List ℕ → List Task
freed clean buf = if clean then release buf ∷ [] else []

quiet-data_send :
    (rounds chunkid streamid msgtype : ℕ) (buf : List ℕ) (clean : Bool) (c : Conn)
    (pieces : List Task)
    → chunkid < 320
    → let header = layout (message_chunk chunkid streamid msgtype (length buf)) in
      let quiet = record c { memory = [] } in
      send_loop rounds chunkid buf (queued header true quiet)
        ≡ some (done, with_tasks (queued header true quiet) pieces)
      → data_send rounds chunkid streamid msgtype buf clean quiet
        ≡ some (done, with_tasks quiet (send header true ∷ (pieces ++ freed clean buf)))
unfolding data_send
quiet-data_send rounds chunkid streamid msgtype buf clean c pieces small runs =
    let header = layout (message_chunk chunkid streamid msgtype (length buf)) in
    let quiet = record c { memory = [] } in
    let written = header_written chunkid streamid msgtype (length buf) small in
    let whole = (take_all (length header) header (omega arith)).0 in
    let sending = c.tasks ++ send header true ∷ [] in
    elim (Bool-cases clean) [
      | inl cleans ↦
          rw (data_send, written, whole, runs, cleans)
            (ap (λ t. some (done, record c { memory = []; tasks = t }))
              (append_assoc sending pieces (release buf ∷ [])
                ∙ append_assoc c.tasks (send header true ∷ []) (pieces ++ release buf ∷ [])))
      | inr keeps ↦
          rw (data_send, written, whole, runs, keeps)
            (ap (λ t. some (done, record c { memory = []; tasks = t }))
              (append_assoc c.tasks (send header true ∷ []) pieces
                ∙ ap (λ t. c.tasks ++ send header true ∷ t) (sym (append-nil pieces))))
    ]

-- `rtmp_data_send` of a message on a channel below 320, where all allocations succeed and the chunk
-- size is not 0: it returns 0 within one round more than the message has bytes; it queues the
-- header of the message, the pieces, and then the release of the buffer if it is told to; and
-- from the bytes of the pieces the other side, which takes chunks of the same size with a header of
-- the format 3 on that channel between them, puts the message together, if the channel is one of 2
-- to 63 or the message fits one chunk.
pub data_send-unchunk :
    (rounds chunkid streamid msgtype : ℕ) (buf : List ℕ) (clean : Bool) (c : Conn)
    → c.memory ≡ []
    → 0 < c.ochunksize
    → chunkid < 320
    → Separable chunkid c.ochunksize (length buf)
    → length buf < rounds
    → (pieces : List Task) × (data_send rounds chunkid streamid msgtype buf clean c
        ≡ some (
          done,
          with_tasks c (
              send (layout (message_chunk chunkid streamid msgtype (length buf))) true
              ∷ (pieces ++ freed clean buf)),
        ))
      × (unchunk (suc (length buf)) chunkid c.ochunksize (sent pieces) ≡ buf)
data_send-unchunk rounds chunkid streamid msgtype buf clean c calm some_size small apart enough =
    let header = layout (message_chunk chunkid streamid msgtype (length buf)) in
    let quiet = record c { memory = [] } in
    let (pieces, runs, joined) =
      loop-unchunk rounds chunkid buf (queued header true quiet) refl some_size apart enough in
    let same : c ≡ quiet = ap (λ m. record c { memory = m }) calm in
    let result : Conn → Option (Ret × Conn) =
      λ d. some (done, with_tasks d (send header true ∷ (pieces ++ freed clean buf))) in
    (
      pieces,
      ap (data_send rounds chunkid streamid msgtype buf clean) same
          ∙ quiet-data_send rounds chunkid streamid msgtype buf clean c pieces small runs
          ∙ ap result (sym same),
      joined (suc (length buf)) (omega arith),
    )
