-- ===== src/Flv/WriteRounds.antt =====
-- The rounds of flv_write_tag in lib_src/media/flv.c, from the data backwards to the codec.
use mathlib.Core.List.{append_assoc}
use yclib.Base.{
  ℕ, zero, suc, ◌+◌, ◌%◌, ◌^◌, ◌<◌, ◌≤◌, ◌≡◌, ◌⊎◌, inl, inr, refl, ap, bit_or, true, some, List, [],
  ◌∷◌, ◌++◌, arith, length, take, leb, ◌==◌, if◌then◌else◌, u8, u32, sub32, ◌<<<◌, Bool-cases,
}
use yclib.Network.{htob24}
use yclib.Flv.{TagHeader}
use yclib.Flv.Tag.{
  State, audio_header, audio_packet_type, video_header, video_packet_type, data_attr, payload, done,
  DataHeader, after_header, running, returned,
}
use yclib.Flv.Emit.{Writer, emit, write_step, write_loop}

-- The bytes that stand for the codec: in a sound its format, rate, size and type, and the packet
-- type where the format is 10; in a picture its frame type and codec, and the packet type and three
-- bytes of time where the codec is 7; none in a script.
abbrev pub codec_bytes : ℕ → DataHeader → List ℕ
codec_bytes tag_type d =
    if tag_type == 8
    then u8 (bit_or (bit_or (bit_or (d.byte0 <<< 4) (d.byte1 <<< 2)) (d.byte2 <<< 1)) d.byte3)
      ∷ (if d.byte0 == 10 then d.last_word % 256 ∷ [] else [])
    else if tag_type == 9
    then u8 (bit_or (d.byte0 <<< 4) d.byte1)
      ∷ (if d.byte1 == 7 then d.byte2 ∷ htob24 d.last_word else [])
    else []

-- a writer, field by field
abbrev pub writer : TagHeader → DataHeader → List ℕ → State → List ℕ → ℕ → ℕ → Writer
writer h d content s out walked size = record {
  tag = record { header = h; data_header = d; data_bytes = content; state = s };
  out = out;
  walked = walked;
  data_size = size;
}

-- From `r` the loop returns within `k` rounds.
abbrev Ends : Writer → ℕ → List ℕ × ℕ → Type 0
Ends r k x = (rounds : ℕ) → k ≤ rounds → write_loop rounds r ≡ some (some x)

pub Ends-step :
    (r next : Writer) (k : ℕ) (x : List ℕ × ℕ)
    → write_step r.tag.state r ≡ some (running next)
    → Ends next k x
    → Ends r (suc k) x
unfolding write_loop
Ends-step r next k x goes ends zero h = absurd (omega arith)
Ends-step r next k x goes ends (suc rounds) h = rw goes (ends rounds (omega arith))

Ends-returned :
    (r : Writer) (n : ℕ) → write_step r.tag.state r ≡ some (returned r.tag n) → Ends r 1 (r.out, n)
unfolding write_loop
Ends-returned r n goes zero h = absurd (omega arith)
Ends-returned r n goes (suc rounds) h = rw goes refl

take_all : (xs : List ℕ) → take (length xs) xs ≡ xs
take_all [] = refl
take_all (x ∷ xs) = ap (λ t. x ∷ t) (take_all xs)

append_nil : (xs : List ℕ) → xs ++ [] ≡ xs
append_nil [] = refl
append_nil (x ∷ xs) = ap (λ t. x ∷ t) (append_nil xs)

-- The rounds that the attributes and the data take.
tail-Ends :
    (h : TagHeader) (d : DataHeader) (content out : List ℕ) (walked size : ℕ)
    → h.filter ≡ 0
    → size ≡ length content
    → Ends
        (writer h d content data_attr out walked size)
        3
        (out ++ content, u32 (walked + length content))
unfolding write_step
tail-Ends h d content out walked size no_filter e =
    let room : leb (length content) (length content) ≡ true = ground arith in
    let stays : walked + 0 ≡ walked = omega arith in
    let at_payload = writer h d content payload out walked (length content) in
    let at_done =
      writer h d content done (out ++ content) (walked + length content) (length content) in
    rw e (
      Ends-step _ at_payload 2 _ (rw (no_filter, append_nil out, stays) refl) (
        Ends-step at_payload at_done 1 _ (rw (room, take_all content) refl)
          (Ends-returned at_done _ refl)))

-- A round that writes `bytes`, and the rounds behind it that write `more`.
Ends-emit :
    (h : TagHeader) (d : DataHeader) (content out : List ℕ) (walked size : ℕ) (s : State)
    (bytes more : List ℕ) (next : State) (left k end total : ℕ)
    → write_step s (writer h d content s out walked size)
      ≡ some (emit bytes next left (writer h d content s out walked size))
    → end ≡ total
    → Ends
        (writer h d content next (out ++ bytes) (walked + length bytes) left)
        k
        ((out ++ bytes) ++ more, end)
    → Ends (writer h d content s out walked size) (suc k) (out ++ (bytes ++ more), total)
Ends-emit h d content out walked size s bytes more next left k end total goes same ends =
    Ends-step (writer h d content s out walked size)
      (writer h d content next (out ++ bytes) (walked + length bytes) left) k _ goes
      (rw (← append_assoc out bytes more, ← same) ends)

module _ (h : TagHeader) (d : DataHeader) (content : List ℕ) (no_filter : h.filter ≡ 0) where
  sound-Ends :
      (out : List ℕ) (walked : ℕ)
      → length (codec_bytes 8 d) + length content < 2 ^ 32
      → Ends
          (writer h d content audio_header out walked (length (codec_bytes 8 d) + length content))
          5
          (
            out ++ (codec_bytes 8 d ++ content),
            u32 (walked + (length (codec_bytes 8 d) + length content)),
          )
  unfolding write_step
  sound-Ends out walked fits =
      let byte =
        u8 (bit_or (bit_or (bit_or (d.byte0 <<< 4) (d.byte1 <<< 2)) (d.byte2 <<< 1)) d.byte3) in
      let one = byte ∷ [] in
      elim (Bool-cases (d.byte0 == 10)) [
        | inl ten ↦
            let two = d.last_word % 256 ∷ [] in
            let fits' = rw ten at fits in
            let left = sub32 (2 + length content) 1 in
            rw ten (
              Ends-emit h d content out walked (2 + length content) audio_header one
                (two ++ content) audio_packet_type left 4 _ _ (rw ten refl) refl
                (Ends-emit h d content (out ++ one) (walked + 1) left audio_packet_type two content
                  data_attr (sub32 left 1) 3 _ _ refl (omega arith)
                  (tail-Ends h d content ((out ++ one) ++ two) (walked + 1 + 1) (sub32 left 1)
                    no_filter (omega arith))))
        | inr plain ↦
            let fits' = rw plain at fits in
            let left = sub32 (1 + length content) 1 in
            rw plain (λ rounds le.
              Ends-emit h d content out walked (1 + length content) audio_header one content
                data_attr left 3 _ _ (rw plain refl) (omega arith)
                (tail-Ends h d content (out ++ one) (walked + 1) left no_filter (omega arith))
                rounds (omega arith))
      ]

  picture-Ends :
      (out : List ℕ) (walked : ℕ)
      → length (codec_bytes 9 d) + length content < 2 ^ 32
      → Ends
          (writer h d content video_header out walked (length (codec_bytes 9 d) + length content))
          5
          (
            out ++ (codec_bytes 9 d ++ content),
            u32 (walked + (length (codec_bytes 9 d) + length content)),
          )
  unfolding write_step htob24
  picture-Ends out walked fits =
      let one = u8 (bit_or (d.byte0 <<< 4) d.byte1) ∷ [] in
      elim (Bool-cases (d.byte1 == 7)) [
        | inl coded ↦
            let four = d.byte2 ∷ htob24 d.last_word in
            let fits' = rw coded at fits in
            let left = sub32 (5 + length content) 1 in
            rw coded (
              Ends-emit h d content out walked (5 + length content) video_header one
                (four ++ content) video_packet_type left 4 _ _ (rw coded refl) refl
                (Ends-emit h d content (out ++ one) (walked + 1) left video_packet_type four content
                  data_attr (sub32 left 4) 3 _ _ refl (omega arith)
                  (tail-Ends h d content ((out ++ one) ++ four) (walked + 1 + 4) (sub32 left 4)
                    no_filter (omega arith))))
        | inr plain ↦
            let fits' = rw plain at fits in
            let left = sub32 (1 + length content) 1 in
            rw plain (λ rounds le.
              Ends-emit h d content out walked (1 + length content) video_header one content
                data_attr left 3 _ _ (rw plain refl) (omega arith)
                (tail-Ends h d content (out ++ one) (walked + 1) left no_filter (omega arith))
                rounds (omega arith))
      ]

  script-Ends :
      (out : List ℕ) (walked : ℕ)
      → Ends
          (writer h d content data_attr out walked (length content))
          5
          (out ++ content, u32 (walked + length content))
  script-Ends out walked rounds le =
      tail-Ends h d content out walked (length content) no_filter refl rounds (omega arith)

-- The rounds of the codec's bytes behind `out`, and those after them.
pub codec-Ends :
    (tag_type : ℕ) (h : TagHeader) (d : DataHeader) (content out : List ℕ) (walked : ℕ)
    → h.filter ≡ 0
    → (tag_type ≡ 8) ⊎ ((tag_type ≡ 9) ⊎ (tag_type ≡ 18))
    → length (codec_bytes tag_type d) + length content < 2 ^ 32
    → Ends
        (writer h d content
          (after_header tag_type)
          out
          walked
          (length (codec_bytes tag_type d) + length content))
        5
        (
          out ++ (codec_bytes tag_type d ++ content),
          u32 (walked + (length (codec_bytes tag_type d) + length content)),
        )
unfolding after_header
codec-Ends tag_type h d content out walked no_filter (inl t) =
    rw t (sound-Ends h d content no_filter out walked)
codec-Ends tag_type h d content out walked no_filter (inr (inl t)) =
    rw t (picture-Ends h d content no_filter out walked)
codec-Ends tag_type h d content out walked no_filter (inr (inr t)) =
    let none_left : 0 + length content ≡ length content = omega arith in
    rw (t, none_left) (λ fits. script-Ends h d content no_filter out walked)
