-- ===== src/Flv/ReadRounds.antt =====
-- The rounds of flv_read_tag in lib_src/media/flv.c, from the data backwards to the codec.
use yclib.Base.{
  ℕ, zero, suc, ◌+◌, ◌%◌, ◌^◌, ◌<◌, ◌≤◌, ◌≡◌, ◌≢◌, refl, ap, bit_and, true, false, some, List, [],
  ◌∷◌, ◌++◌, arith, length, length-append, take, drop, leb, ◌==◌, if◌then◌else◌, sub32, u32, ◌<<<◌,
  eq_of_check, bit_and_ones,
}
use yclib.Network.{btoh24}
use yclib.Flv.{TagHeader}
use yclib.Flv.Tag.{
  State, video_packet_type, data_attr, payload, done, DataHeader, Tag, Reader, after_header,
  running, returned, read_step, read_loop,
}

-- The bytes between the tag header and the data: none in a script, one in a sound, and in a
-- picture one, or five where the codec is number 7.
pub data Codec (tag_type : ℕ) (bytes : List ℕ) : Type 0 where
  script : tag_type ≡ 18 → bytes ≡ [] → Codec tag_type bytes
  sound : (b : ℕ) → tag_type ≡ 8 → b < 256 → bytes ≡ b ∷ [] → Codec tag_type bytes
  picture : (b : ℕ) → tag_type ≡ 9 → b % 16 ≢ 7 → bytes ≡ b ∷ [] → Codec tag_type bytes
  coded_picture :
      (b p c0 c1 c2 : ℕ)
      → tag_type ≡ 9
      → b % 16 ≡ 7
      → bytes ≡ b ∷ p ∷ c0 ∷ c1 ∷ c2 ∷ []
      → Codec tag_type bytes

-- From `r` the loop returns within `k` rounds.
abbrev Ends : Reader → ℕ → Tag × ℕ → Type 0
Ends r k x = (rounds : ℕ) → k ≤ rounds → read_loop true rounds r ≡ some (some x)

pub Ends-step :
    (r next : Reader) (k : ℕ) (x : Tag × ℕ)
    → read_step true r.tag.state r ≡ some (running next)
    → Ends next k x
    → Ends r (suc k) x
unfolding read_loop
Ends-step r next k x goes ends zero h = absurd (omega arith)
Ends-step r next k x goes ends (suc rounds) h = rw goes (ends rounds (omega arith))

Ends-returned :
    (r : Reader) (x : Tag × ℕ) → read_step true r.tag.state r ≡ some (returned x.0 x.1) → Ends r 1 x
unfolding read_loop
Ends-returned r x goes zero h = absurd (omega arith)
Ends-returned r x goes (suc rounds) h = rw goes refl

take-append : (xs ys : List ℕ) → take (length xs) (xs ++ ys) ≡ xs
take-append [] ys = refl
take-append (x ∷ xs) ys = ap (λ t. x ∷ t) (take-append xs ys)

-- The rounds that the attributes and the data take.
tail-Ends :
    (h : TagHeader) (d : DataHeader) (old content rest : List ℕ) (walked : ℕ)
    → h.filter ≡ 0
    → Ends
        (record {
          tag = record { header = h; data_header = d; data_bytes = old; state = data_attr };
          from = content ++ rest;
          walked = walked;
          data_size = length content;
        })
        3
        (
          record { header = h; data_header = d; data_bytes = content; state = done },
          walked + length content,
        )
unfolding read_step
tail-Ends h d old content rest walked no_filter =
    let room : leb (length content) (length (content ++ rest)) ≡ true =
      ground (arith, length-append content rest) in
    Ends-step _
      (record {
        tag = record { header = h; data_header = d; data_bytes = old; state = payload };
        from = content ++ rest;
        walked = walked;
        data_size = length content;
      })
      2 _ (rw no_filter refl)
      (Ends-step _
        (record {
          tag = record { header = h; data_header = d; data_bytes = content; state = done };
          from = drop (length content) (content ++ rest);
          walked = walked + length content;
          data_size = length content;
        })
        1 _ (rw (room, take-append content rest) refl) (Ends-returned _ _ refl))

pub Ends-later : (r : Reader) (k m : ℕ) (x : Tag × ℕ) → k ≤ m → Ends r k x → Ends r m x
Ends-later r k m x le ends rounds h = ends rounds (omega arith)

not_ten : (b : ℕ) → b < 256 → (bit_and b 0xf0 == 10) ≡ false
not_ten b h =
    ground (arith, eq_of_check (λ y. if bit_and y 0xf0 == 10 then 1 else 0) (λ y. 0) b refl h)

-- The same with the size of the data and the sum of the steps as they have been computed.
tail-Ends_at :
    (h : TagHeader) (d : DataHeader) (old content rest : List ℕ) (walked size total : ℕ)
    → h.filter ≡ 0
    → size ≡ length content
    → total ≡ walked + length content
    → Ends
        (record {
          tag = record { header = h; data_header = d; data_bytes = old; state = data_attr };
          from = content ++ rest;
          walked = walked;
          data_size = size;
        })
        3
        (record { header = h; data_header = d; data_bytes = content; state = done }, total)
tail-Ends_at h d old content rest walked size total no_filter e f =
    rw (e, f) (tail-Ends h d old content rest walked no_filter)

-- a reader, field by field
abbrev pub reader : TagHeader → DataHeader → List ℕ → State → List ℕ → ℕ → ℕ → Reader
reader h d old s from walked size = record {
  tag = record { header = h; data_header = d; data_bytes = old; state = s };
  from = from;
  walked = walked;
  data_size = size;
}

-- The rounds that the codec's bytes take, and those after them.
pub codec-Ends :
    (tag_type : ℕ) (h : TagHeader) (d : DataHeader) (old codec content rest : List ℕ) (walked : ℕ)
    → h.filter ≡ 0
    → Codec tag_type codec
    → length codec + length content < 2 ^ 32
    → (e : DataHeader) × Ends
        (record {
          tag = record {
            header = h;
            data_header = d;
            data_bytes = old;
            state = after_header tag_type;
          };
          from = codec ++ (content ++ rest);
          walked = walked;
          data_size = length codec + length content;
        })
        5
        (
          record { header = h; data_header = e; data_bytes = content; state = done },
          walked + (length codec + length content),
        )
unfolding after_header read_step btoh24
codec-Ends tag_type h d old codec content rest walked no_filter (script t e) fits =
    rw (t, e)
      (
        d,
        Ends-later _ 3 5 _ (omega arith)
            (tail-Ends_at h d old content rest walked _ _ no_filter (omega arith) (omega arith)),
      )
codec-Ends tag_type h d old codec content rest walked no_filter (sound b t small e) fits =
    let fits' : suc (length content) < 2 ^ 32 = omega (arith, ap length e) in
    let d' : DataHeader = record {
      byte0 = bit_and b 0xf0;
      byte1 = bit_and b 0x0c;
      byte2 = bit_and b 0x02;
      byte3 = bit_and b 0x01;
      last_word = d.last_word;
    } in
    let next =
      reader h d' old data_attr (content ++ rest) (walked + 1) (sub32 (1 + length content) 1) in
    rw (t, e)
      (
        d',
        Ends-later _ 4 5 _ (omega arith) (
            Ends-step _ next 3 _ (rw (not_ten b small) refl) (
              tail-Ends_at h d' old content rest (walked + 1) _ _ no_filter (omega arith)
                (omega arith))),
      )
codec-Ends tag_type h d old codec content rest walked no_filter (picture b t other_codec e) fits =
    let fits' : suc (length content) < 2 ^ 32 = omega (arith, ap length e) in
    let plain : (bit_and b 0x0f == 7) ≡ false = ground (arith, bit_and_ones 4 b) in
    let d' : DataHeader = record {
      byte0 = bit_and b 0xf0;
      byte1 = bit_and b 0x0f;
      byte2 = d.byte2;
      byte3 = d.byte3;
      last_word = d.last_word;
    } in
    let next =
      reader h d' old data_attr (content ++ rest) (walked + 1) (sub32 (1 + length content) 1) in
    rw (t, e)
      (
        d',
        Ends-later _ 4 5 _ (omega arith) (
            Ends-step _ next 3 _ (rw plain refl) (
              tail-Ends_at h d' old content rest (walked + 1) _ _ no_filter (omega arith)
                (omega arith))),
      )
codec-Ends tag_type h d old codec content rest walked no_filter
      (coded_picture b p c0 c1 c2 t seven e) fits =
    let fits' : 5 + length content < 2 ^ 32 = omega (arith, ap length e) in
    let coded : (bit_and b 0x0f == 7) ≡ true = ground (arith, bit_and_ones 4 b) in
    let time = u32 (u32 (u32 (u32 (u32 (0 + c0) <<< 8) + c1) <<< 8) + c2) in
    let d' : DataHeader = record {
      byte0 = bit_and b 0xf0;
      byte1 = bit_and b 0x0f;
      byte2 = d.byte2;
      byte3 = d.byte3;
      last_word = d.last_word;
    } in
    let d'' : DataHeader = record {
      byte0 = bit_and b 0xf0;
      byte1 = bit_and b 0x0f;
      byte2 = p;
      byte3 = d.byte3;
      last_word = time;
    } in
    let size = sub32 (5 + length content) 1 in
    let next =
      reader h d' old video_packet_type (p ∷ c0 ∷ c1 ∷ c2 ∷ (content ++ rest)) (walked + 1) size in
    let last = reader h d'' old data_attr (content ++ rest) (walked + 1 + 4) (sub32 size 4) in
    rw (t, e)
      (
        d'',
        Ends-step _ next 4 _ (rw coded refl) (
            Ends-step _ last 3 _ refl (
              tail-Ends_at h d'' old content rest (walked + 1 + 4) _ _ no_filter (omega arith)
                (omega arith))),
      )
