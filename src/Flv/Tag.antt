-- ===== src/Flv/Tag.antt =====
-- lib_src/media/flv.c, flv_read_tag and flv_write_tag: the state machines that go through a tag.
-- A round of the loop is one step. The loops run on a number of rounds; an inner `none` says that
-- these are used up, and the outer one is an access that C leaves undefined.
use yclib.Base.{
  ℕ, zero, suc, ◌+◌, ◌*◌, ◌/◌, bit_and, Bool, Option, none, some, List, leb, ◌==◌, if◌then◌else◌,
  sub32, ◌>>=◌, get_elem?, drop, take, length,
}
use yclib.Network.{btoh24}
use yclib.Flv.{TagHeader, read_tag_header}

-- The states a tag can be in, the FLV_STATE_ constants, and what else its field can hold
pub data State : Type 0 where
  buf_need : State
  file_header : State
  prev_size : State
  tag_header : State
  audio_header : State
  audio_packet_type : State
  video_header : State
  video_packet_type : State
  data_attr : State
  payload : State
  done : State
  other : State

-- The union `flv_data_header_t`: four bytes and a little-endian word. The audio header has its
-- format, rate, sample size and type in the bytes and its packet type in the lowest byte of the
-- word; the video header has its frame type, codec and packet type in the first three bytes and its
-- composition time in the word.
pub record DataHeader : Type 0 where
  pub byte0 : ℕ
  pub byte1 : ℕ
  pub byte2 : ℕ
  pub byte3 : ℕ
  pub last_word : ℕ

-- `flv_tag_t`
pub record Tag : Type 0 where
  pub header : TagHeader
  pub data_header : DataHeader
  pub data_bytes : List ℕ
  pub state : State

-- The state that follows the tag header; another type leaves it as it is.
unfoldable pub after_header : ℕ → State
after_header tag_type =
    if tag_type == 8
    then audio_header
    else if tag_type == 9
    then video_header
    else if tag_type == 18
    then data_attr
    else tag_header

-- The variables of `flv_read_tag`: the tag, the bytes from `walker` on, `walker - buf`, `data_size`
pub record Reader : Type 0 where
  pub tag : Tag
  pub from : List ℕ
  pub walked : ℕ
  pub data_size : ℕ

-- A round goes on, or returns a tag and a number.
pub data Outcome (R : Type 0) : Type 0 where
  running : R → Outcome R
  returned : Tag → ℕ → Outcome R

abbrev to_state : State → Tag → Tag
to_state s tag = record {
  header = tag.header;
  data_header = tag.data_header;
  data_bytes = tag.data_bytes;
  state = s;
}

-- One round of `flv_read_tag`; `mem` says whether rns_malloc succeeds.
unfoldable pub read_step : Bool → State → Reader → Option (Outcome Reader)
unfolding after_header
read_step mem tag_header r = do
  (h, size) ← read_tag_header r.from
  some (
      running (record {
        tag = record {
          header = h;
          data_header = r.tag.data_header;
          data_bytes = r.tag.data_bytes;
          state = after_header h.tag_type;
        };
        from = drop size r.from;
        walked = r.walked + size;
        data_size = h.data_size;
      }))
read_step mem audio_header r = do
  w ← get_elem? r.from 0
  let d = r.tag.data_header
  some (
      running (record {
        tag = record {
          header = r.tag.header;
          data_header = record {
            byte0 = bit_and w 0xf0;
            byte1 = bit_and w 0x0c;
            byte2 = bit_and w 0x02;
            byte3 = bit_and w 0x01;
            last_word = d.last_word;
          };
          data_bytes = r.tag.data_bytes;
          state = if bit_and w 0xf0 == 10 then audio_packet_type else data_attr;
        };
        from = drop 1 r.from;
        walked = r.walked + 1;
        data_size = sub32 r.data_size 1;
      }))
read_step mem audio_packet_type r = do
  w ← get_elem? r.from 0
  let d = r.tag.data_header
  some (
      running (record {
        tag = record {
          header = r.tag.header;
          data_header = record {
            byte0 = d.byte0;
            byte1 = d.byte1;
            byte2 = d.byte2;
            byte3 = d.byte3;
            last_word = d.last_word / 256 * 256 + w;
          };
          data_bytes = r.tag.data_bytes;
          state = data_attr;
        };
        from = drop 1 r.from;
        walked = r.walked + 1;
        data_size = sub32 r.data_size 1;
      }))
read_step mem video_header r = do
  w ← get_elem? r.from 0
  let d = r.tag.data_header
  some (
      running (record {
        tag = record {
          header = r.tag.header;
          data_header = record {
            byte0 = bit_and w 0xf0;
            byte1 = bit_and w 0x0f;
            byte2 = d.byte2;
            byte3 = d.byte3;
            last_word = d.last_word;
          };
          data_bytes = r.tag.data_bytes;
          state = if bit_and w 0x0f == 7 then video_packet_type else data_attr;
        };
        from = drop 1 r.from;
        walked = r.walked + 1;
        data_size = sub32 r.data_size 1;
      }))
read_step mem video_packet_type r = do
  w ← get_elem? r.from 0
  time ← btoh24 (drop 1 r.from)
  let d = r.tag.data_header
  some (
      running (record {
        tag = record {
          header = r.tag.header;
          data_header = record {
            byte0 = d.byte0;
            byte1 = d.byte1;
            byte2 = w;
            byte3 = d.byte3;
            last_word = time;
          };
          data_bytes = r.tag.data_bytes;
          state = data_attr;
        };
        from = drop 4 r.from;
        walked = r.walked + 4;
        data_size = sub32 r.data_size 4;
      }))
read_step mem data_attr r = some (
    running (record {
      tag = if r.tag.header.filter == 0 then to_state payload r.tag else r.tag;
      from = r.from;
      walked = r.walked;
      data_size = r.data_size;
    }))
read_step mem payload r =
    if mem
    then (if leb r.data_size (length r.from)
        then some (
            running (record {
              tag = record {
                header = r.tag.header;
                data_header = r.tag.data_header;
                data_bytes = take r.data_size r.from;
                state = done;
              };
              from = drop r.data_size r.from;
              walked = r.walked + r.data_size;
              data_size = r.data_size;
            }))
        else none)
    else none
read_step mem done r = some (returned r.tag r.walked)
read_step mem buf_need r = some (returned r.tag 0)
read_step mem file_header r = some (returned r.tag 0)
read_step mem prev_size r = some (returned r.tag 0)
read_step mem other r = some (returned r.tag 0)

unfoldable pub read_loop : Bool → ℕ → Reader → Option (Option (Tag × ℕ))
unfolding read_step
read_loop mem zero r = some none
read_loop mem (suc rounds) r = do
  outcome ← read_step mem r.tag.state r
  elim outcome [ running next ↦ read_loop mem rounds next | returned tag n ↦ some (some (tag, n)) ]

unfoldable pub read_tag : ℕ → Bool → Tag → List ℕ → Option (Option (Tag × ℕ))
unfolding read_loop
read_tag rounds mem tag buf =
    read_loop mem rounds (record { tag = tag; from = buf; walked = 0; data_size = 0 })
