-- ===== src/Flv.antt =====
-- lib_src/media/flv.c and flv.h: the headers of a file and of a tag. A reader takes the bytes from
-- its pointer on and gives what it fills in with the number it returns; a writer gives the bytes it
-- writes with that number. `none` is a read outside the buffer.
pub mod Tag
pub mod Emit
pub mod Headers
pub mod ReadRounds
pub mod Reading
pub mod WriteRounds
pub mod Writing
mod Tests
use yclib.Base.{
  ℕ, ◌+◌, ◌*◌, ◌/◌, ◌%◌, ◌^◌, bit_and, bit_or, Bool, Option, none, some, List, [], ◌∷◌, ◌++◌, ltb,
  if◌then◌else◌, u8, u32, ◌<<<◌, ◌>>>◌, ◌>>=◌, get_elem?, drop,
}
use yclib.Network.{btoh32, btoh24, htob32, htob24}

-- `flv_header_t`
pub record Header : Type 0 where
  pub version : ℕ
  pub audio : ℕ
  pub video : ℕ
  pub data_offset : ℕ

-- `flv_tag_header_t`
pub record TagHeader : Type 0 where
  pub filter : ℕ
  pub tag_type : ℕ
  pub data_size : ℕ
  pub time_stamp : ℕ
  pub stream_id : ℕ

-- The offset of the first tag is read, but the pointer stays before it.
unfoldable pub read_header : List ℕ → Option (Header × ℕ)
read_header buf = do
  b3 ← get_elem? buf 3
  b4 ← get_elem? buf 4
  offset ← btoh32 (drop 5 buf)
  some (
    record {
      version = b3;
      audio = if ltb 2 (bit_or b4 0x04) then 1 else 0;
      video = u8 (bit_or b4 0x01);
      data_offset = offset;
    },
    5,
  )

unfoldable pub write_header : Header → List ℕ × ℕ
write_header header = (
  0x46
      ∷ 0x4c
      ∷ 0x56
      ∷ header.version
      ∷ u8 (bit_or (header.audio <<< 2) header.video)
      ∷ htob32 header.data_offset,
  5,
)

unfoldable pub read_tag_header : List ℕ → Option (TagHeader × ℕ)
read_tag_header buf = do
  b0 ← get_elem? buf 0
  size ← btoh24 (drop 1 buf)
  stamp ← btoh24 (drop 4 buf)
  b7 ← get_elem? buf 7
  id ← btoh32 (drop 8 buf)
  some (
    record {
      filter = bit_and b0 0x20;
      tag_type = bit_and b0 0x1f;
      data_size = size;
      time_stamp = u32 (stamp + (b7 <<< 24));
      stream_id = id;
    },
    12,
  )

unfoldable pub write_tag_header : TagHeader → List ℕ × ℕ
write_tag_header h = (
  u8 (bit_or (h.filter <<< 5) h.tag_type)
      ∷ (htob24 h.data_size
          ++ (htob24 h.time_stamp ++ u8 (h.time_stamp >>> 24) ∷ htob24 h.stream_id)),
  11,
)
