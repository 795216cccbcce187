-- ===== src/Flv/Headers.antt =====
-- What the readers of lib_src/media/flv.c make of the headers that the writers write.
use yclib.Base.{
  ℕ, ◌+◌, ◌*◌, ◌/◌, ◌%◌, ◌^◌, ◌<◌, ◌≡◌, refl, ap, ◌∙◌, bit_and, bit_or, some, List, ◌∷◌, ◌++◌,
  arith, u8, u32, ◌<<<◌, ◌>>>◌, bit_or-shl, bit_and_ones, true, ltb, zero, suc, eq_of_check, masks,
}
use yclib.Network.{btoh32, btoh24, htob24}
use yclib.Network.Order.{btoh-htob}
use yclib.Flv.{Header, TagHeader, read_header, write_header, read_tag_header, write_tag_header}

filter_byte :
    (filter tag_type : ℕ)
    → filter < 2
    → tag_type < 32
    → u8 (bit_or (filter <<< 5) tag_type) ≡ filter * 32 + tag_type
filter_byte filter tag_type h k = ap u8 (bit_or-shl 5 filter tag_type k) ∙ omega arith

filter_bit : (b : ℕ) → b < 256 → bit_and b 0x20 ≡ b / 32 % 2 * 32
filter_bit b h = eq_of_check (λ y. bit_and y 0x20) (λ y. y / 32 % 2 * 32) b refl h

-- What the three bytes that `rns_htob24` writes are read back as, and as the first three of four.
three : ℕ → ℕ
three d = u32 (
    u32 (u32 (u32 (u32 (0 + bit_and (d >>> 16) 255) <<< 8) + bit_and (d >>> 8) 255) <<< 8)
    + bit_and (d >>> 0) 255)

three_lem : (d : ℕ) → three d ≡ d % 2 ^ 24
unfolding three
three_lem d = simp masks (omega arith)

-- A tag header that is written and read again: the type, the size of the data and all 32 bits of
-- the time stamp come back. The reader takes four bytes for the stream's number where three are
-- written, and with them the next byte, so it returns 12 where 11 bytes are written; and the filter
-- bit comes back in its place in the byte.
pub read-write_tag_header :
    (h : TagHeader) (next : ℕ) (rest : List ℕ)
    → h.filter < 2
    → h.tag_type < 32
    → h.data_size < 2 ^ 24
    → h.time_stamp < 2 ^ 32
    → h.stream_id < 2 ^ 24
    → next < 256
    → read_tag_header ((write_tag_header h).0 ++ next ∷ rest)
      ≡ some (
        record {
          filter = h.filter * 32;
          tag_type = h.tag_type;
          data_size = h.data_size;
          time_stamp = h.time_stamp;
          stream_id = h.stream_id * 256 + next;
        },
        12,
      )
unfolding read_tag_header write_tag_header btoh32 btoh24 htob24 three
read-write_tag_header h next rest hf ht hd hs hi hn =
    let byte = filter_byte h.filter h.tag_type hf ht in
    let byte_small : h.filter * 32 + h.tag_type < 256 = omega arith in
    let bit : bit_and (h.filter * 32 + h.tag_type) 0x20 ≡ h.filter * 32 =
      filter_bit (h.filter * 32 + h.tag_type) byte_small ∙ omega arith in
    let type : bit_and (h.filter * 32 + h.tag_type) 0x1f ≡ h.tag_type =
      bit_and_ones 5 (h.filter * 32 + h.tag_type) ∙ omega arith in
    let size : three h.data_size ≡ h.data_size = three_lem h.data_size ∙ omega arith in
    let stamp : u32 (three h.time_stamp + (u8 (h.time_stamp >>> 24) <<< 24)) ≡ h.time_stamp =
      omega (arith, three_lem h.time_stamp) in
    let id : u32 (u32 (three h.stream_id <<< 8) + next) ≡ h.stream_id * 256 + next =
      omega (arith, three_lem h.stream_id) in
    rw (byte, bit, type, size, stamp, id) refl

flags :
    (audio video : ℕ)
    → audio < 2
    → video < 2
    → (ltb 2 (bit_or (u8 (bit_or (audio <<< 2) video)) 4) ≡ true)
      × (u8 (bit_or (u8 (bit_or (audio <<< 2) video)) 1) ≡ audio * 4 + 1)
flags zero zero h k = (refl, refl)
flags zero (suc zero) h k = (refl, refl)
flags (suc zero) zero h k = (refl, refl)
flags (suc zero) (suc zero) h k = (refl, refl)
flags (suc (suc a)) v h k = absurd (omega arith)
flags zero (suc (suc v)) h k = absurd (omega arith)
flags (suc zero) (suc (suc v)) h k = absurd (omega arith)

-- A file header that is written and read again: the version and the offset of the first tag come
-- back, but the audio flag is always set, and the video flag takes in the audio bit and is never
-- clear.
pub read-write_header :
    (h : Header) (rest : List ℕ)
    → h.audio < 2
    → h.video < 2
    → h.data_offset < 2 ^ 32
    → read_header ((write_header h).0 ++ rest)
      ≡ some (
        record {
          version = h.version;
          audio = 1;
          video = h.audio * 4 + 1;
          data_offset = h.data_offset;
        },
        5,
      )
unfolding read_header write_header
read-write_header h rest ha hv ho =
    let (audio, video) = flags h.audio h.video ha hv in
    rw (audio, video, (btoh-htob h.data_offset rest).0 ho) refl
