-- ===== src/Flv/Emit.antt =====
-- lib_src/media/flv.c, flv_write_tag. What the rounds write is appended to the bytes written so
-- far; the C code does not test `end`.
use yclib.Base.{
  ℕ, zero, suc, ◌+◌, ◌%◌, bit_or, Option, none, some, List, [], ◌∷◌, ◌++◌, leb, ◌==◌, if◌then◌else◌,
  u8, u32, sub32, ◌<<<◌, ◌>>=◌, take, length,
}
use yclib.Network.{htob24}
use yclib.Flv.{write_tag_header}
use yclib.Flv.Tag.{
  State, buf_need, file_header, prev_size, tag_header, audio_header, audio_packet_type,
  video_header, video_packet_type, data_attr, payload, done, other, Tag, after_header, Outcome,
  running, returned,
}

-- The variables of `flv_write_tag`: the tag, the bytes from `buf` to `walker`, the sum that makes
-- up `walker - buf`, which is returned as a `uint32_t`, and `data_size`
pub record Writer : Type 0 where
  pub tag : Tag
  pub out : List ℕ
  pub walked : ℕ
  pub data_size : ℕ

-- A round that writes `bytes` and goes to the state `s`
abbrev pub emit : List ℕ → State → ℕ → Writer → Outcome Writer
emit bytes s size r = running (record {
  tag = record {
    header = r.tag.header;
    data_header = r.tag.data_header;
    data_bytes = r.tag.data_bytes;
    state = s;
  };
  out = r.out ++ bytes;
  walked = r.walked + length bytes;
  data_size = size;
})

-- One round of `flv_write_tag`
unfoldable pub write_step : State → Writer → Option (Outcome Writer)
unfolding after_header
write_step tag_header r = some (
    emit (write_tag_header r.tag.header).0 (after_header r.tag.header.tag_type)
      r.tag.header.data_size r)
write_step audio_header r =
    let d = r.tag.data_header in
    let byte =
      u8 (bit_or (bit_or (bit_or (d.byte0 <<< 4) (d.byte1 <<< 2)) (d.byte2 <<< 1)) d.byte3) in
    some (
      emit (byte ∷ []) (if d.byte0 == 10 then audio_packet_type else data_attr)
        (sub32 r.data_size 1) r)
write_step audio_packet_type r =
    some (emit (r.tag.data_header.last_word % 256 ∷ []) data_attr (sub32 r.data_size 1) r)
write_step video_header r =
    let d = r.tag.data_header in
    let byte = u8 (bit_or (d.byte0 <<< 4) d.byte1) in
    some (
      emit (byte ∷ []) (if d.byte1 == 7 then video_packet_type else data_attr) (sub32 r.data_size 1)
        r)
write_step video_packet_type r =
    let d = r.tag.data_header in
    some (emit (d.byte2 ∷ htob24 d.last_word) data_attr (sub32 r.data_size 4) r)
write_step data_attr r =
    some (emit [] (if r.tag.header.filter == 0 then payload else data_attr) r.data_size r)
write_step payload r =
    if leb r.data_size (length r.tag.data_bytes)
    then some (emit (take r.data_size r.tag.data_bytes) done r.data_size r)
    else none
write_step done r = some (returned r.tag (u32 r.walked))
write_step buf_need r = some (returned r.tag 0)
write_step file_header r = some (returned r.tag 0)
write_step prev_size r = some (returned r.tag 0)
write_step other r = some (returned r.tag 0)

-- With the number that is returned, the bytes that have been written.
unfoldable pub write_loop : ℕ → Writer → Option (Option (List ℕ × ℕ))
unfolding write_step
write_loop zero r = some none
write_loop (suc rounds) r = do
  outcome ← write_step r.tag.state r
  elim outcome [ running next ↦ write_loop rounds next | returned tag n ↦ some (some (r.out, n)) ]

unfoldable pub write_tag : ℕ → Tag → Option (Option (List ℕ × ℕ))
unfolding write_loop
write_tag rounds tag = write_loop rounds (record { tag = tag; out = []; walked = 0; data_size = 0 })
