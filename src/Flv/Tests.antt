-- ===== src/Flv/Tests.antt =====
-- lib_src/media/flv.c on a tag of each kind.
use yclib.Base.{ℕ, ◌≡◌, refl, inl, true, some, List, [], ◌∷◌, ◌++◌, arith}
use yclib.Network.{btoh32, btoh24}
use yclib.Flv.{Header, TagHeader, read_tag_header, write_tag_header}
use yclib.Flv.Tag.{DataHeader, Tag, tag_header, done, read_tag}
use yclib.Flv.Emit.{write_tag}
use yclib.Flv.ReadRounds.{coded_picture}
use yclib.Flv.Reading.{read_tag-Codec}
use yclib.Flv.Writing.{write_tag-codec_bytes}

abbrev picture : TagHeader
picture = record { filter = 0; tag_type = 9; data_size = 7; time_stamp = 16777217; stream_id = 0 }

abbrev file : Header
file = record { version = 1; audio = 0; video = 1; data_offset = 9 }

abbrev blank : DataHeader
blank = record { byte0 = 0; byte1 = 0; byte2 = 0; byte3 = 0; last_word = 0 }

abbrev fresh : Tag
fresh = record { header = picture; data_header = blank; data_bytes = []; state = tag_header }

-- a picture with five bytes of codec 7 and two of data
abbrev bytes : List ℕ
bytes = 9 ∷ 0 ∷ 0 ∷ 7 ∷ 0 ∷ 0 ∷ 1 ∷ 1 ∷ 0 ∷ 0 ∷ 0 ∷ 0 ∷ 0x17 ∷ 1 ∷ 0 ∷ 0 ∷ 40 ∷ 11 ∷ 22 ∷ 33 ∷ []

abbrev seven_bytes : TagHeader
seven_bytes = record {
  filter = 0;
  tag_type = 9;
  data_size = 7;
  time_stamp = 16777217;
  stream_id = 0;
}

bytes-header : read_tag_header bytes ≡ some (seven_bytes, 12)
unfolding read_tag_header btoh24 btoh32
bytes-header = refl

read_tag-Codec_example :
    (t : Tag) × (read_tag 7 true fresh bytes ≡ some (some (t, 19)))
    × (t.header ≡ seven_bytes)
    × (t.data_bytes ≡ 11 ∷ 22 ∷ [])
    × (t.state ≡ done)
read_tag-Codec_example =
    read_tag-Codec 7 fresh bytes (0x17 ∷ 1 ∷ 0 ∷ 0 ∷ 40 ∷ []) (11 ∷ 22 ∷ []) (33 ∷ []) seven_bytes
      (omega arith) refl bytes-header refl refl (coded_picture 0x17 1 0 0 40 refl refl refl) refl
      (omega arith)

-- a script of four bytes behind a filter
abbrev filtered : List ℕ
filtered = 0x32 ∷ 0 ∷ 0 ∷ 4 ∷ 0 ∷ 0 ∷ 0 ∷ 0 ∷ 0 ∷ 0 ∷ 0 ∷ 0 ∷ 2 ∷ 3 ∷ 5 ∷ 7 ∷ []

abbrev filtered_script : TagHeader
filtered_script = record {
  filter = 0x20;
  tag_type = 18;
  data_size = 4;
  time_stamp = 0;
  stream_id = 0;
}

filtered-header : read_tag_header filtered ≡ some (filtered_script, 12)
unfolding read_tag_header btoh24 btoh32
filtered-header = refl

-- a sound of format 10 with one byte of data
abbrev sound : Tag
sound = record {
  header = record { filter = 0; tag_type = 8; data_size = 3; time_stamp = 0; stream_id = 0 };
  data_header = record { byte0 = 10; byte1 = 3; byte2 = 1; byte3 = 1; last_word = 1 };
  data_bytes = 77 ∷ [];
  state = tag_header;
}

write_tag-codec_bytes_example :
    write_tag 7 sound ≡ some (some ((write_tag_header sound.header).0 ++ 175 ∷ 1 ∷ 77 ∷ [], 14))
write_tag-codec_bytes_example =
    write_tag-codec_bytes 7 sound (omega arith) refl refl (inl refl) refl (omega arith)
