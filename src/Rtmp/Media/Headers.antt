-- ===== src/Rtmp/Media/Headers.antt =====
-- rtmp_msg_header and rtmp_mid_header of lib_src/transport/rns_rtmp.c: the bytes that they write.
use yclib.Base.{
  ℕ, zero, suc, ◌+◌, ◌-◌, ◌*◌, ◌%◌, ◌<◌, ◌≡◌, refl, ap, sym, ◌∙◌, bit_or, true, false, some, List,
  [], ◌∷◌, ltb, leb, ◌==◌, u8, ◌<<<◌, length, arith, eq_of_check, bit_or-shl, Bool-cases, inl, inr,
}
use yclib.Network.{htob24, htob32, htol32}
use yclib.Rtmp.Chunk.{Chunk, chunk_fmt}
use yclib.Rtmp.Chunk.Layout.{layout}
use yclib.Rtmp.Connection.{separator}
use yclib.Rtmp.Media.{Msg, header_loop, next_fmt, msg_header, mid_header}

-- The header of a message as a chunk that `rtmp_chunk_write` could write
abbrev pub header_chunk : ℕ → ℕ → ℕ → Msg → ℕ → Chunk
header_chunk fmt channel streamid msg stamp = record {
  fmt = fmt;
  channel = channel;
  timestamp = stamp;
  msglen = msg.len;
  msgtype = msg.type;
  streamid = streamid;
}

low_channel :
    (fmt channel : ℕ)
    → fmt < 4
    → channel < 64
    → u8 (bit_or (u8 (fmt <<< 6)) channel) ≡ fmt * 64 + channel
low_channel fmt channel four small =
    let set : u8 (fmt <<< 6) ≡ fmt <<< 6 = omega arith in
    rw set (ap u8 (bit_or-shl 6 fmt channel small) ∙ omega arith)

module _ (chunk : Chunk) (msg : Msg) (stamp : ℕ) (small : stamp < 0xffffff) where
  abbrev Written : ℕ → Type 0
  Written fmt =
      let h = layout (header_chunk fmt chunk.channel chunk.streamid msg stamp) in
      header_loop 9 fmt chunk msg stamp chunk_fmt (record { out = []; byte = 0; left = 32 })
      ≡ some (length h, h)

  short : leb 16777215 stamp ≡ false
  short = ground arith

  plain : (stamp == 0xffffff) ≡ false
  plain = ground arith

  one_byte : (fmt : ℕ) → fmt < 4 → ltb chunk.channel 64 ≡ true → Written fmt
  unfolding header_loop htob24 htol32 htob32
  one_byte zero h one =
      rw (header_loop, one, low_channel 0 chunk.channel (omega arith) (ground arith), short, plain)
        refl
  one_byte (suc zero) h one =
      rw (header_loop, one, low_channel 1 chunk.channel (omega arith) (ground arith), short, plain)
        refl
  one_byte (suc (suc zero)) h one =
      rw (header_loop, one, low_channel 2 chunk.channel (omega arith) (ground arith), short, plain)
        refl
  one_byte (suc (suc (suc zero))) h one =
      rw (header_loop, one, low_channel 3 chunk.channel (omega arith) (ground arith)) refl
  one_byte (suc (suc (suc (suc k)))) h one = absurd (omega arith)

  two_bytes :
      (fmt : ℕ)
      → fmt < 4
      → ltb chunk.channel 64 ≡ false
      → ltb chunk.channel (256 + 64) ≡ true
      → u8 (chunk.channel - 64) ≡ chunk.channel - 64
      → Written fmt
  unfolding header_loop htob24 htol32 htob32
  two_bytes zero h two within byte = rw (header_loop, two, within, byte, short, plain) refl
  two_bytes (suc zero) h two within byte = rw (header_loop, two, within, byte, short, plain) refl
  two_bytes (suc (suc zero)) h two within byte =
      rw (header_loop, two, within, byte, short, plain) refl
  two_bytes (suc (suc (suc zero))) h two within byte = rw (header_loop, two, within, byte) refl
  two_bytes (suc (suc (suc (suc k)))) h two within byte = absurd (omega arith)

-- `rtmp_msg_header` of a chunk with a format from 0 to 3 on a channel below 320, with a time stamp below
-- 0xFFFFFF and a buffer of 32 bytes: it writes what `rtmp_chunk_write` writes for the length and the
-- type of the message, and prepares the format of the next header.
pub msg_header-layout :
    (chunk : Chunk) (msg : Msg) (stamp : ℕ)
    → chunk.fmt < 4
    → chunk.channel < 320
    → stamp < 0xffffff
    → let h = layout (header_chunk chunk.fmt chunk.channel chunk.streamid msg stamp) in
      msg_header chunk msg stamp 32
      ≡ some (length h, h, record chunk { fmt = next_fmt chunk.fmt msg.type })
unfolding msg_header
msg_header-layout chunk msg stamp four channel small =
    let written : Written chunk msg stamp small chunk.fmt =
      elim (Bool-cases (ltb chunk.channel 64)) [
        | inl one ↦ one_byte chunk msg stamp small chunk.fmt four one
        | inr two ↦ two_bytes chunk msg stamp small chunk.fmt four two (ground arith) (ground arith)
      ] in
    rw (msg_header, written) refl

-- Between the chunks of a message there is a header of its own.
pub mid_header-some :
    (chunkid stamp : ℕ)
    → chunkid < 320
    → (head : ℕ) × (more : List ℕ) × (mid_header chunkid stamp 16 ≡ some (head ∷ more))
unfolding mid_header htob32
mid_header-some chunkid stamp channel = elim (Bool-cases (ltb chunkid 64)) [
  | inl one ↦ elim (Bool-cases (leb 0xffffff stamp)) [
    | inl long ↦ (u8 (bit_or 192 chunkid), htob32 stamp, rw (mid_header, one, long) refl)
    | inr brief ↦ (u8 (bit_or 192 chunkid), [], rw (mid_header, one, brief) refl)
  ]
  | inr two ↦
      let within : ltb chunkid (256 + 64) ≡ true = ground arith in
      elim (Bool-cases (leb 0xffffff stamp)) [
        | inl long ↦
            (192, u8 (chunkid - 64) ∷ htob32 stamp, rw (mid_header, two, within, long) refl)
        | inr brief ↦ (192, u8 (chunkid - 64) ∷ [], rw (mid_header, two, within, brief) refl)
      ]
]

-- On the channels of one byte it is the byte that `rtmp_data_send` writes.
pub mid_header-separator :
    (chunkid stamp : ℕ)
    → chunkid < 64
    → stamp < 0xffffff
    → mid_header chunkid stamp 16 ≡ some (separator chunkid ∷ [])
unfolding mid_header
mid_header-separator chunkid stamp channel small =
    let one : ltb chunkid 64 ≡ true = ground arith in
    let short : leb 0xffffff stamp ≡ false = ground arith in
    let same : chunkid % 64 ≡ chunkid = omega arith in
    let byte : u8 (bit_or 192 chunkid) ≡ separator chunkid =
      ap (λ y. u8 (bit_or 192 y)) (sym same)
      ∙ eq_of_check (λ y. u8 (bit_or 192 (y % 64))) (λ y. separator (y % 64)) chunkid refl
          (omega arith)
      ∙ ap separator same in
    rw (mid_header, one, short) (ap (λ b. some (b ∷ [])) byte)
