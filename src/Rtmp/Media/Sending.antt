-- ===== src/Rtmp/Media/Sending.antt =====
-- rtmp_msg_send of lib_src/transport/rns_rtmp.c: the loop over the blocks of a stream.
use mathlib.Core.List.{append_assoc, append-nil}
use yclib.Base.{
  allocated, rest_of, ℕ, zero, suc, ◌+◌, ◌-◌, ◌*◌, ◌/◌, ◌%◌, ◌^◌, ◌<◌, ◌≤◌, ◌≡◌, refl, ap, sym, ◌∙◌,
  Bool, true, false, ◌&&◌, some, none, Option, List, [], ◌∷◌, ◌++◌, ltb, leb, sub32, length, take,
  drop, arith, length-take, length-drop, drop-drop, slice_take, drop-take, length-take_le,
  Bool-cases, inl, inr,
}
use yclib.Rtmp.Connection.{Conn, Ret, Task, send, done}
use yclib.Rtmp.Connection.Sending.{sent, queued, attach_buffer-queued, with_tasks}
use yclib.Rtmp.Incoming.{find}
use yclib.Rtmp.Media.{
  Blocks, Position, block_size, aligned, smaller, round_len, slice, moved, mid_header, behind_piece,
  block_loop,
}
use yclib.Rtmp.Media.Interleaved.{interleaved, interleaved_split, interleaved_full}

-- The blocks hold the bytes `log` of a stream, cut at the multiples of the block size.
abbrev pub Hold : Blocks → List ℕ → Type 0
Hold blocks log =
    (k : ℕ)
    → (k * block_size < length log
        → find (k * block_size) blocks ≡ some (take block_size (drop (k * block_size) log)))
      × (length log ≤ k * block_size → find (k * block_size) blocks ≡ none)

abbrev block_of : ℕ → ℕ
block_of offset = offset / block_size

pub aligned_is : (offset : ℕ) → aligned offset ≡ block_of offset * block_size
aligned_is offset = omega arith

pub aligned_parts :
    (offset : ℕ)
    → (aligned offset ≤ offset)
      × (offset - aligned offset ≡ offset % block_size)
      × (offset % block_size < block_size)
aligned_parts offset = (omega arith, omega arith, omega arith)

pub smaller_le :
    (a b : ℕ) → (smaller a b ≤ a) × (smaller a b ≤ b) × (0 < a → 0 < b → 0 < smaller a b)
smaller_le a b = (ground arith, ground arith, ground arith)

-- The piece of a round stays within the message, the block and the chunk, and is not empty.
round_facts :
    (size ochunksize : ℕ) (at : Position)
    → ochunksize < 2 ^ 32
    → at.sendbytes < size
    → at.ochunklen < ochunksize
    → let n = round_len size ochunksize at in
      (0 < n)
      × (n ≤ size - at.sendbytes)
      × (at.offset % block_size + n ≤ block_size)
      × (n ≤ ochunksize - at.ochunklen)
round_facts size ochunksize at wide more room =
    let left : sub32 ochunksize at.ochunklen ≡ ochunksize - at.ochunklen = omega arith in
    let rest = smaller (size - at.sendbytes) ochunksize in
    let inside = smaller rest (block_size - at.offset % block_size) in
    let a = smaller_le (size - at.sendbytes) ochunksize in
    let b = smaller_le rest (block_size - at.offset % block_size) in
    let c = smaller_le inside (sub32 ochunksize at.ochunklen) in
    let (low, off, within) = aligned_parts at.offset in
    (
      c.2 (b.2 (a.2 (omega arith) (omega arith)) (omega arith)) (omega (arith, left)),
      omega (arith, a.0, b.0, c.0),
      omega (arith, b.1, c.0),
      omega (arith, left, c.1),
    )

not_less : (a b : ℕ) → b ≤ a → ltb a b ≡ false
not_less a b h = ground arith

-- The bytes of a round, out of the block that holds them
slice_held :
    (blocks : Blocks) (log : List ℕ) (offset n : ℕ)
    → Hold blocks log
    → 0 < n
    → offset + n ≤ length log
    → offset % block_size + n ≤ block_size
    → (content : List ℕ) × (find (aligned offset) blocks ≡ some content)
      × (slice (offset - aligned offset) n content ≡ some (take n (drop offset log)))
slice_held blocks log offset n held some_bytes inside fits =
    let k = block_of offset in
    let base = k * block_size in
    let (low, off, within) = aligned_parts offset in
    let content = take block_size (drop base log) in
    let at = aligned_is offset in
    let there : find base blocks ≡ some content = (held k).0 (omega (arith, at)) in
    let from : offset - aligned offset ≡ offset % block_size = off in
    let rest = length-drop base log (omega (arith, at)) in
    let long : offset % block_size + n ≤ length content =
      length-take_le (offset % block_size + n) block_size (drop base log) fits
        (omega (arith, rest, at)) in
    let enough : ltb (length content) (offset % block_size + n) ≡ false = not_less _ _ long in
    let bytes : take n (drop (offset % block_size) content) ≡ take n (drop offset log) =
      slice_take (offset % block_size) n block_size (drop base log) fits
      ∙ ap (take n)
          (drop-drop base (offset % block_size) log ∙ ap (λ m. drop m log) (omega (arith, at))) in
    (content, ap (λ m. find m blocks) at ∙ there, rw from (rw enough (ap some bytes)))

with_tasks_first :
    (bytes : List ℕ) (clean : Bool) (c : Conn) (pieces : List Task)
    → with_tasks (queued bytes clean c) pieces ≡ with_tasks c (send bytes clean ∷ pieces)
with_tasks_first bytes clean c pieces =
    ap (λ t. record c { tasks = t }) (append_assoc c.tasks (send bytes clean ∷ []) pieces)

-- Where the loop stands, what is left of the message, and the queue that it leaves
module _ (chunkid stamp size head : ℕ) (more : List ℕ) (blocks : Blocks) (log : List ℕ)
    (held : Hold blocks log)
    (between_chunks : mid_header chunkid stamp 16 ≡ some (head ∷ more)) where
  abbrev rest : Position → List ℕ
  rest at = take (size - at.sendbytes) (drop at.offset log)

  abbrev Sends : ℕ → Position → Conn → Type 0
  Sends rounds at c =
      (pieces : List Task) × (block_loop rounds chunkid stamp blocks size at c
        ≡ some (done, with_tasks c pieces))
      × (sent pieces
          ≡ interleaved (head ∷ more) c.ochunksize (c.ochunksize - at.ochunklen) (rest at))

  rest_moved :
      (at : Position) (n : ℕ)
      → n ≤ size - at.sendbytes
      → drop n (rest at) ≡ take (size - (at.sendbytes + n)) (drop (at.offset + n) log)
  rest_moved at n fits =
      drop-take n (size - at.sendbytes) (drop at.offset log) fits
      ∙ ap (take (size - at.sendbytes - n)) (drop-drop at.offset n log)
      ∙ ap (λ m. take m (drop (at.offset + n) log)) (omega arith)

  ended :
      (rounds : ℕ) (at : Position) (c : Conn)
      → 0 < rounds
      → ltb at.sendbytes size ≡ false
      → block_loop rounds chunkid stamp blocks size at c ≡ some (done, c)
  unfolding block_loop
  ended zero at c some_rounds ends = absurd (omega arith)
  ended (suc rounds) at c some_rounds ends = rw (block_loop, ends) refl

  -- A piece inside a chunk, and what follows it
  piece_interleaved :
      (at : Position) (n och : ℕ) (behind : List ℕ)
      → n ≤ size - at.sendbytes
      → n ≤ och - at.ochunklen
      → behind
        ≡ interleaved
            (head ∷ more)
            och
            (och - (at.ochunklen + n))
            (take (size - (at.sendbytes + n)) (drop (at.offset + n) log))
      → take n (drop at.offset log) ++ behind
        ≡ interleaved (head ∷ more) och (och - at.ochunklen) (rest at)
  piece_interleaved at n och behind fits room joined =
      let first : take n (rest at) ≡ take n (drop at.offset log) =
        slice_take 0 n (size - at.sendbytes) (drop at.offset log) (omega arith) in
      let less : och - at.ochunklen - n ≡ och - (at.ochunklen + n) = omega arith in
      ap (λ t. take n (drop at.offset log) ++ t)
        (joined
          ∙ ap (interleaved (head ∷ more) och (och - (at.ochunklen + n)))
              (sym (rest_moved at n fits))
          ∙ ap (λ r. interleaved (head ∷ more) och r (drop n (rest at))) (sym less))
      ∙ ap (λ t. t ++ interleaved (head ∷ more) och (och - at.ochunklen - n) (drop n (rest at)))
          (sym first)
      ∙ sym (interleaved_split (head ∷ more) och n (och - at.ochunklen) (rest at) room)

  -- The header at the end of a chunk
  header_interleaved :
      (n och : ℕ) (at : Position) (behind : List ℕ)
      → 0 < och
      → och ≤ at.ochunklen + n
      → 0 < size - (at.sendbytes + n)
      → at.offset + (size - at.sendbytes) ≤ length log
      → let left = take (size - (at.sendbytes + n)) (drop (at.offset + n) log) in
        behind ≡ interleaved (head ∷ more) och (och - 0) left
        → (head ∷ more) ++ behind ≡ interleaved (head ∷ more) och (och - (at.ochunklen + n)) left
  header_interleaved n och at behind some_size full some_left inside joined =
      let left = take (size - (at.sendbytes + n)) (drop (at.offset + n) log) in
      let long = length-drop (at.offset + n) log (omega arith) in
      let whole =
        length-take (size - (at.sendbytes + n)) (drop (at.offset + n) log) (omega (arith, long)) in
      let none_left : och - (at.ochunklen + n) ≡ 0 = omega arith in
      let same : och - 0 ≡ och = omega arith in
      ap (λ t. (head ∷ more) ++ t) (joined ∙ ap (λ r. interleaved (head ∷ more) och r left) same)
      ∙ sym (interleaved_full (head ∷ more) och left some_size (omega (arith, whole)))
      ∙ ap (λ r. interleaved (head ∷ more) och r left) (sym none_left)

  -- A round that attaches `bytes`
  module _ (rounds : ℕ) (at : Position) (c : Conn) (content : List ℕ) (n : ℕ) (calm : c.memory ≡ [])
      (is : round_len size c.ochunksize at ≡ n) (left : at.sendbytes < size)
      (there : find (aligned at.offset) blocks ≡ some content)
      (cut : slice (at.offset - aligned at.offset) n content ≡ some (take n (drop at.offset log)))
      (fits : n ≤ size - at.sendbytes) (in_chunk : n ≤ c.ochunksize - at.ochunklen) where
    abbrev on : Position
    on = moved n at

    abbrev bytes : List ℕ
    bytes = take n (drop at.offset log)

    piece_round :
        block_loop (suc rounds) chunkid stamp blocks size at c
        ≡ behind_piece chunkid stamp
            (ltb on.sendbytes size && leb c.ochunksize on.ochunklen)
            (block_loop rounds chunkid stamp blocks size on)
            (block_loop rounds chunkid stamp blocks size (record on { ochunklen = 0 }))
            (queued bytes false c)
    unfolding block_loop
    piece_round =
        let more_left : ltb at.sendbytes size ≡ true = ground arith in
        let attached = attach_buffer-queued bytes false c calm in
        rw (block_loop, more_left, there, is, cut, attached) refl

    full_round :
        behind_piece chunkid stamp true
          (block_loop rounds chunkid stamp blocks size on)
          (block_loop rounds chunkid stamp blocks size (record on { ochunklen = 0 }))
          (queued bytes false c)
        ≡ block_loop rounds chunkid stamp blocks size
            (record on { ochunklen = 0 })
            (queued (head ∷ more) true (queued bytes false c))
    full_round =
        let d = queued bytes false c in
        let e = record d { memory = rest_of c.memory } in
        let again = block_loop rounds chunkid stamp blocks size (record on { ochunklen = 0 }) in
        let room : allocated c.memory ≡ true = ap allocated calm in
        let second = attach_buffer-queued (head ∷ more) true e (ap rest_of calm) in
        let same : e ≡ d = ap (λ m. record d { memory = m }) (ap rest_of calm ∙ sym calm) in
        rw (room, between_chunks, second) (ap (λ x. again (queued (head ∷ more) true x)) same)

    abbrev test : ℕ → Bool → Option (Ret × Conn)
    test och more_left =
        behind_piece chunkid stamp (more_left && leb och on.ochunklen)
          (block_loop rounds chunkid stamp blocks size on)
          (block_loop rounds chunkid stamp blocks size (record on { ochunklen = 0 }))
          (queued bytes false c)

    abbrev full_test : Bool → Option (Ret × Conn)
    full_test full =
        behind_piece chunkid stamp full (block_loop rounds chunkid stamp blocks size on)
          (block_loop rounds chunkid stamp blocks size (record on { ochunklen = 0 }))
          (queued bytes false c)

    over_runs :
        0 < rounds
        → ltb on.sendbytes size ≡ false
        → block_loop (suc rounds) chunkid stamp blocks size at c ≡ some (done, queued bytes false c)
    over_runs some_rounds over =
        piece_round
        ∙ ap (test c.ochunksize) over
        ∙ ended rounds on (queued bytes false c) some_rounds over

    under_runs :
        ltb on.sendbytes size ≡ true
        → leb c.ochunksize on.ochunklen ≡ false
        → block_loop (suc rounds) chunkid stamp blocks size at c
          ≡ block_loop rounds chunkid stamp blocks size on (queued bytes false c)
    under_runs further under = piece_round ∙ ap (test c.ochunksize) further ∙ ap full_test under

    full_runs :
        ltb on.sendbytes size ≡ true
        → leb c.ochunksize on.ochunklen ≡ true
        → block_loop (suc rounds) chunkid stamp blocks size at c
          ≡ block_loop rounds chunkid stamp blocks size
              (record on { ochunklen = 0 })
              (queued (head ∷ more) true (queued bytes false c))
    full_runs further full =
        piece_round ∙ ap (test c.ochunksize) further ∙ ap full_test full ∙ full_round

    over_Sends : 0 < rounds → ltb on.sendbytes size ≡ false → Sends (suc rounds) at c
    over_Sends some_rounds over =
        let none_left : size - (at.sendbytes + n) ≡ 0 = ground arith in
        (
          send bytes false ∷ [],
          over_runs some_rounds over,
          piece_interleaved at n c.ochunksize [] fits in_chunk (rw none_left refl),
        )

    under_Sends :
        ltb on.sendbytes size ≡ true
        → leb c.ochunksize on.ochunklen ≡ false
        → Sends rounds on (queued bytes false c)
        → Sends (suc rounds) at c
    under_Sends further under (pieces, runs, joined) = (
      send bytes false ∷ pieces,
      under_runs further under
          ∙ runs
          ∙ ap (λ x. some (done, x)) (with_tasks_first bytes false c pieces),
      piece_interleaved at n c.ochunksize (sent pieces) fits in_chunk joined,
    )

    full_Sends :
        0 < c.ochunksize
        → ltb on.sendbytes size ≡ true
        → leb c.ochunksize on.ochunklen ≡ true
        → at.offset + (size - at.sendbytes) ≤ length log
        → Sends rounds
            (record on { ochunklen = 0 })
            (queued (head ∷ more) true (queued bytes false c))
        → Sends (suc rounds) at c
    full_Sends some_size further full inside (pieces, runs, joined) =
        let d = queued bytes false c in
        (
          send bytes false ∷ send (head ∷ more) true ∷ pieces,
          full_runs further full
              ∙ runs
              ∙ ap (λ x. some (done, x))
                  (with_tasks_first (head ∷ more) true d pieces
                    ∙ with_tasks_first bytes false c (send (head ∷ more) true ∷ pieces)),
          piece_interleaved at n c.ochunksize ((head ∷ more) ++ sent pieces) fits in_chunk (
              header_interleaved n c.ochunksize at (sent pieces) some_size (ground arith)
                (ground arith) inside joined),
        )

  -- The loop queues pieces that are the rest of the message, with a header in front of each new chunk.
  pub block_loop-interleaved :
      (rounds : ℕ) (at : Position) (c : Conn)
      → c.memory ≡ []
      → c.ochunksize < 2 ^ 32
      → at.ochunklen < c.ochunksize
      → at.sendbytes ≤ size
      → at.offset + (size - at.sendbytes) ≤ length log
      → size - at.sendbytes < rounds
      → Sends rounds at c
  unfolding block_loop
  block_loop-interleaved zero at c calm wide room within inside enough = absurd (omega arith)
  block_loop-interleaved (suc rounds) at c calm wide room within inside enough =
      elim (Bool-cases (ltb at.sendbytes size)) [
        | inr ends ↦
            let none_left : size - at.sendbytes ≡ 0 = ground arith in
            (
              [],
              rw (block_loop, ends)
                  (ap (λ t. some (done, record c { tasks = t })) (sym (append-nil c.tasks))),
              rw none_left refl,
            )
        | inl goes ↦
            let left : at.sendbytes < size = ground arith in
            let och = c.ochunksize in
            let n = round_len size och at in
            let on = moved n at in
            let (some_bytes, fits, in_block, in_chunk) = round_facts size och at wide left room in
            let (content, there, cut) =
              slice_held blocks log at.offset n held some_bytes (omega arith) in_block in
            let d = queued (take n (drop at.offset log)) false c in
            let header = queued (head ∷ more) true d in
            elim (Bool-cases (ltb on.sendbytes size)) [
              | inr over ↦
                  over_Sends rounds at c content n calm refl left there cut fits in_chunk
                    (omega arith) over
              | inl further ↦
                  let on_left : at.sendbytes + n < size = ground arith in
                  elim (Bool-cases (leb och on.ochunklen)) [
                    | inr under ↦
                        let on_room : at.ochunklen + n < och = ground arith in
                        under_Sends rounds at c content n calm refl left there cut fits in_chunk
                          further under
                          (block_loop-interleaved rounds on d calm wide on_room (omega arith)
                            (omega arith) (omega arith))
                    | inl full ↦
                        full_Sends rounds at c content n calm refl left there cut fits in_chunk
                          (omega arith) further full inside
                          (block_loop-interleaved rounds (record on { ochunklen = 0 }) header calm
                            wide (omega arith) (omega arith) (omega arith) (omega arith))
                  ]
            ]
      ]
