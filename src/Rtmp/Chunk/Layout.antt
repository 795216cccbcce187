-- ===== src/Rtmp/Chunk/Layout.antt =====
-- The layout of the header that rtmp_chunk_write of lib_src/transport/rns_rtmp.c writes.
use mathlib.Core.List.{append_assoc}
use yclib.Base.{
  ℕ, zero, suc, ◌+◌, ◌-◌, ◌*◌, ◌<◌, ◌≤◌, ◌≡◌, refl, ap, ◌∙◌, bit_or, true, some, List, [], ◌∷◌,
  ◌++◌, ltb, ◌==◌, if◌then◌else◌, u8, ◌<<<◌, length, length-append, arith, bit_or-shl, Bool-cases,
  inl, inr,
}
use yclib.Network.{htob24, htob32, htol32}
use yclib.Rtmp.Chunk.{
  Chunk, State, chunk_fmt, chunk_channel, chunk_timestamp, chunk_msg_len, chunk_msg_type,
  chunk_msg_streamid, chunk_extra_timestamp, chunk_done, Cursor, goes_on, error, put, step,
  chunk_loop, chunk_write,
}

-- The format in the two high bits; the channel in the six low ones, or less 64 in a byte of its own.
abbrev pub basic : Chunk → List ℕ
basic chunk =
    if ltb chunk.channel 64
    then (chunk.fmt * 64 + chunk.channel) ∷ []
    else (chunk.fmt * 64) ∷ (chunk.channel - 64) ∷ []

abbrev pub extra : Chunk → List ℕ
extra chunk = if chunk.timestamp == 0xffffff then htob32 chunk.timestamp else []

-- Format 3 is the basic header alone, 2 has the time stamp, 1 also the length and the type of the
-- message, and 0 also its stream.
abbrev pub message : Chunk → List ℕ
message chunk =
    if chunk.fmt == 3
    then []
    else if chunk.fmt == 2
    then htob24 chunk.timestamp ++ extra chunk
    else htob24 chunk.timestamp
      ++ (htob24 chunk.msglen
          ++ (u8 chunk.msgtype
              ∷ (if chunk.fmt == 0 then htol32 chunk.streamid ++ extra chunk else extra chunk)))

abbrev pub layout : Chunk → List ℕ
layout chunk = basic chunk ++ message chunk

-- From a state the loop writes `bytes`, where there is room for them, and otherwise returns 0.
abbrev Writes : Chunk → ℕ → State → Cursor → List ℕ → Type 0
Writes chunk k s c bytes =
    (rounds : ℕ)
    → k ≤ rounds
    → (length bytes ≤ c.left
        → chunk_loop rounds chunk s c ≡ some (length (c.out ++ bytes), c.out ++ bytes))
      × (c.left < length bytes → (out : List ℕ) × (chunk_loop rounds chunk s c ≡ some (0, out)))

append_nil : (xs : List ℕ) → xs ++ [] ≡ xs
append_nil [] = refl
append_nil (x ∷ xs) = ap (λ t. x ∷ t) (append_nil xs)

done-Writes : (chunk : Chunk) (c : Cursor) → Writes chunk 1 chunk_done c []
unfolding chunk_loop step
done-Writes chunk c zero h = absurd (omega arith)
done-Writes chunk c (suc rounds) h =
    (λ room. rw (append_nil c.out) refl, λ tight. absurd (omega arith))

abbrev advanced : Cursor → List ℕ → Cursor
advanced c bytes = record { out = c.out ++ bytes; byte = c.byte; left = c.left - length bytes }

-- A round that writes `bytes`, and the rounds behind it that write `more`.
put-Writes :
    (chunk : Chunk) (k : ℕ) (s next : State) (c : Cursor) (bytes more : List ℕ)
    → step chunk s c ≡ put bytes next c
    → Writes chunk k next (advanced c bytes) more
    → Writes chunk (suc k) s c (bytes ++ more)
unfolding chunk_loop
put-Writes chunk k s next c bytes more goes behind zero h = absurd (omega arith)
put-Writes chunk k s next c bytes more goes behind (suc rounds) h =
    elim (Bool-cases (ltb c.left (length bytes))) [
      | inl tight ↦ (
        λ room. absurd (ground (arith, length-append bytes more)),
        λ short. (c.out, rw (chunk_loop, goes, tight) refl),
      )
      | inr fits ↦
          let rest = behind rounds (omega arith) in
          (
            λ room.
                rw (chunk_loop, goes, fits)
                  (rest.0 (ground (arith, length-append bytes more))
                    ∙ rw (append_assoc c.out bytes more) refl),
            λ short.
                rw (chunk_loop, goes, fits) (rest.1 (ground (arith, length-append bytes more))),
          )
    ]

Writes-later :
    (chunk : Chunk) (k m : ℕ) (s : State) (c : Cursor) (bytes : List ℕ)
    → k ≤ m
    → Writes chunk k s c bytes
    → Writes chunk m s c bytes
Writes-later chunk k m s c bytes le w rounds h = w rounds (omega arith)

skip-Writes :
    (chunk : Chunk) (k : ℕ) (s next : State) (c d : Cursor) (bytes : List ℕ)
    → step chunk s c ≡ goes_on next d
    → d.out ≡ c.out
    → d.left ≡ c.left
    → Writes chunk k next d bytes
    → Writes chunk (suc k) s c bytes
unfolding chunk_loop
skip-Writes chunk k s next c d bytes goes same_out same_left behind zero h = absurd (omega arith)
skip-Writes chunk k s next c d bytes goes same_out same_left behind (suc rounds) h =
    let rest = behind rounds (omega arith) in
    (
      λ room. rw (chunk_loop, goes, ← same_out) (rest.0 (omega (arith, same_left))),
      λ short. rw (chunk_loop, goes) (rest.1 (omega (arith, same_left))),
    )

module _ (chunk : Chunk) where
  extra-Writes : (c : Cursor) → Writes chunk 2 chunk_extra_timestamp c (extra chunk)
  unfolding step htob32
  extra-Writes c = elim (Bool-cases (chunk.timestamp == 0xffffff)) [
    | inl long ↦
        let bytes = htob32 chunk.timestamp in
        rw long (
          put-Writes chunk 1 chunk_extra_timestamp chunk_done c bytes [] (rw long refl)
            (done-Writes chunk (advanced c bytes)))
    | inr short ↦ rw short (
        skip-Writes chunk 1 chunk_extra_timestamp chunk_done c c [] (rw short refl) refl refl
          (done-Writes chunk c))
  ]

  -- the states from the type of the message on, in the formats 0 and 1
  type-Writes :
      (c : Cursor)
      → Writes chunk 4 chunk_msg_type c (
          u8 chunk.msgtype
          ∷ (if chunk.fmt == 0 then htol32 chunk.streamid ++ extra chunk else extra chunk))
  unfolding step
  type-Writes c =
      let one = u8 chunk.msgtype ∷ [] in
      elim (Bool-cases (chunk.fmt == 0)) [
        | inl stream ↦ rw stream (
            put-Writes chunk 3 chunk_msg_type chunk_msg_streamid c one
              (htol32 chunk.streamid ++ extra chunk) (rw stream refl)
              (put-Writes chunk 2 chunk_msg_streamid chunk_extra_timestamp (advanced c one)
                (htol32 chunk.streamid) (extra chunk) refl
                (extra-Writes (advanced (advanced c one) (htol32 chunk.streamid)))))
        | inr plain ↦ rw plain (
            Writes-later chunk 3 4 chunk_msg_type c (one ++ extra chunk) (omega arith) (
              put-Writes chunk 2 chunk_msg_type chunk_extra_timestamp c one (extra chunk)
                (rw plain refl) (extra-Writes (advanced c one))))
      ]

  message-Writes :
      (c : Cursor)
      → Writes chunk 6 (if chunk.fmt == 3 then chunk_done else chunk_timestamp) c (message chunk)
  unfolding step
  message-Writes c =
      let stamp = htob24 chunk.timestamp in
      let len = htob24 chunk.msglen in
      elim (Bool-cases (chunk.fmt == 3)) [
        | inl three ↦
            rw three (Writes-later chunk 1 6 chunk_done c [] (omega arith) (done-Writes chunk c))
        | inr other ↦ elim (Bool-cases (chunk.fmt == 2)) [
          | inl two ↦
              rw (other, two)
                (Writes-later chunk 3 6 chunk_timestamp c (stamp ++ extra chunk) (omega arith) (
                  put-Writes chunk 2 chunk_timestamp chunk_extra_timestamp c stamp (extra chunk)
                    (rw two refl) (extra-Writes (advanced c stamp))))
          | inr more ↦
              let behind =
                u8 chunk.msgtype
                ∷ (if chunk.fmt == 0 then htol32 chunk.streamid ++ extra chunk else extra chunk) in
              let all =
                put-Writes chunk 5 chunk_timestamp chunk_msg_len c stamp (len ++ behind)
                  (rw more refl)
                  (put-Writes chunk 4 chunk_msg_len chunk_msg_type (advanced c stamp) len behind
                    refl (type-Writes (advanced (advanced c stamp) len))) in
              rw (other, more) all
        ]
      ]

  channel-Writes :
      (c : Cursor)
      → chunk.fmt < 4
      → chunk.channel < 320
      → c.byte ≡ chunk.fmt * 64
      → Writes chunk 7 chunk_channel c (layout chunk)
  unfolding step
  channel-Writes c four small set =
      let next : State = if chunk.fmt == 3 then chunk_done else chunk_timestamp in
      elim (Bool-cases (ltb chunk.channel 64)) [
        | inl one ↦
            let bits : u8 (bit_or c.byte chunk.channel) ≡ chunk.fmt * 64 + chunk.channel =
              rw set (ap u8 (bit_or-shl 6 chunk.fmt chunk.channel (ground arith)) ∙ ground arith) in
            let bytes = (chunk.fmt * 64 + chunk.channel) ∷ [] in
            rw one (
              put-Writes chunk 6 chunk_channel next c bytes (message chunk) (rw (one, bits) refl)
                (message-Writes (advanced c bytes)))
        | inr two ↦
            let bytes = (chunk.fmt * 64) ∷ (chunk.channel - 64) ∷ [] in
            let within : ltb chunk.channel (256 + 64) ≡ true = ground arith in
            let byte : u8 (chunk.channel - 64) ≡ chunk.channel - 64 = ground arith in
            rw two (
              put-Writes chunk 6 chunk_channel next c bytes (message chunk)
                (rw (two, within, byte, set) refl) (message-Writes (advanced c bytes)))
      ]

error_returns :
    (rounds : ℕ) (chunk : Chunk) (s : State) (c : Cursor)
    → 0 < rounds
    → step chunk s c ≡ error
    → chunk_loop rounds chunk s c ≡ some (0, c.out)
unfolding chunk_loop
error_returns zero chunk s c h stops = absurd (omega arith)
error_returns (suc rounds) chunk s c h stops = rw (chunk_loop, stops) refl

some_bytes : (chunk : Chunk) → 0 < length (layout chunk)
some_bytes chunk = elim (Bool-cases (ltb chunk.channel 64)) [
  | inl one ↦ rw one (omega arith)
  | inr two ↦ rw two (omega arith)
]

-- `rtmp_chunk_write` of a chunk with a format from 0 to 3 and a channel below 320: where the header
-- fits the buffer, it is written as it is laid out and its size is returned; where it does not, the
-- result is 0. Nine rounds suffice.
pub chunk_write-layout :
    (rounds : ℕ) (chunk : Chunk) (size : ℕ)
    → 9 ≤ rounds
    → chunk.fmt < 4
    → chunk.channel < 320
    → (length (layout chunk) ≤ size
        → chunk_write rounds chunk size ≡ some (length (layout chunk), layout chunk))
      × (size < length (layout chunk)
          → (out : List ℕ) × (chunk_write rounds chunk size ≡ some (0, out)))
unfolding chunk_write step
chunk_write-layout rounds chunk size enough four small =
    let start : Cursor = record { out = []; byte = 0; left = size } in
    let set : Cursor = record { out = []; byte = u8 (chunk.fmt <<< 6); left = size } in
    let writes = channel-Writes chunk set four small (omega arith) in
    elim (Bool-cases (ltb size 1)) [
      | inl none_left ↦ (
        λ room. absurd (ground (arith, some_bytes chunk)),
        λ short. ([], error_returns rounds chunk chunk_fmt start (omega arith) (rw none_left refl)),
      )
      | inr some_left ↦
          skip-Writes chunk 7 chunk_fmt chunk_channel start set (layout chunk) (rw some_left refl)
            refl refl writes rounds (omega arith)
    ]
