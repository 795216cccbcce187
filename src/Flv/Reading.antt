-- ===== src/Flv/Reading.antt =====
-- What flv_read_tag of lib_src/media/flv.c reads: whole tags without a filter, and no tag with one.
use yclib.Base.{
  ℕ, zero, suc, ◌+◌, ◌^◌, ◌<◌, ◌≤◌, ◌≡◌, ◌≢◌, refl, ap, ◌∙◌, sym, Bool, true, false, some, none,
  List, ◌++◌, arith, length, drop, ◌==◌,
}
use yclib.Flv.{TagHeader, read_tag_header}
use yclib.Flv.Tag.{
  tag_header, data_attr, done, DataHeader, Tag, Reader, after_header, running, read_step, read_loop,
  read_tag,
}
use yclib.Flv.ReadRounds.{Codec, Ends-step, Ends-later, reader, codec-Ends}

-- `flv_read_tag` of a tag without a filter, with one of the three known types, whose header, codec
-- bytes and data lie in the buffer: it returns, within seven rounds, 12 and the size that the header
-- gives, the tag has this header and is done, and its data are the bytes behind the codec's.
pub read_tag-Codec :
    (rounds : ℕ) (tag : Tag) (buf codec content rest : List ℕ) (h : TagHeader)
    → 7 ≤ rounds
    → tag.state ≡ tag_header
    → read_tag_header buf ≡ some (h, 12)
    → drop 12 buf ≡ codec ++ (content ++ rest)
    → h.filter ≡ 0
    → Codec h.tag_type codec
    → h.data_size ≡ length codec + length content
    → h.data_size < 2 ^ 32
    → (t : Tag) × (read_tag rounds true tag buf ≡ some (some (t, 12 + h.data_size)))
      × (t.header ≡ h)
      × (t.data_bytes ≡ content)
      × (t.state ≡ done)
unfolding read_tag read_step
read_tag-Codec rounds tag buf codec content rest h enough starts reads behind no_filter known size
      fits =
    let (e, ends) =
      codec-Ends h.tag_type h tag.data_header tag.data_bytes codec content rest 12 no_filter known
        (omega arith) in
    let first : Reader = record { tag = tag; from = buf; walked = 0; data_size = 0 } in
    let next =
      reader h tag.data_header tag.data_bytes (after_header h.tag_type) (codec ++ (content ++ rest))
        12 (length codec + length content) in
    let goes : read_step true tag.state first ≡ some (running next) =
      rw (starts, reads, behind, size) refl in
    let t : Tag = record { header = h; data_header = e; data_bytes = content; state = done } in
    (
      t,
      Ends-later first 6 7 _ (omega arith) (Ends-step first next 5 _ goes ends) rounds enough
          ∙ ap (λ n. some (some (t, 12 + n))) (sym size),
      refl,
      refl,
      refl,
    )

-- The round in which a filter is seen comes again and again.
read_loop-filter :
    (mem : Bool) (rounds : ℕ) (h : TagHeader) (d : DataHeader) (old from : List ℕ) (walked size : ℕ)
    → h.filter ≢ 0
    → read_loop mem rounds (reader h d old data_attr from walked size) ≡ some none
unfolding read_loop read_step
read_loop-filter mem zero h d old from walked size filtered = refl
read_loop-filter mem (suc rounds) h d old from walked size filtered =
    let kept : (h.filter == 0) ≡ false = ground arith in
    rw kept (read_loop-filter mem rounds h d old from walked size filtered)

-- A script tag with the filter bit set keeps `flv_read_tag` in its loop: however many rounds it is
-- given, it does not return.
pub read_tag-filter :
    (rounds : ℕ) (mem : Bool) (tag : Tag) (buf : List ℕ) (h : TagHeader)
    → tag.state ≡ tag_header
    → read_tag_header buf ≡ some (h, 12)
    → h.tag_type ≡ 18
    → h.filter ≢ 0
    → read_tag rounds mem tag buf ≡ some none
unfolding read_tag read_loop read_step after_header
read_tag-filter zero mem tag buf h starts reads script_tag filtered = refl
read_tag-filter (suc rounds) mem tag buf h starts reads script_tag filtered =
    let first : Reader = record { tag = tag; from = buf; walked = 0; data_size = 0 } in
    let next =
      reader h tag.data_header tag.data_bytes (after_header h.tag_type) (drop 12 buf) 12
        h.data_size in
    let goes : read_step mem tag.state first ≡ some (running next) = rw (starts, reads) refl in
    let at : after_header h.tag_type ≡ data_attr = rw script_tag refl in
    let stays =
      read_loop-filter mem rounds h tag.data_header tag.data_bytes (drop 12 buf) 12 h.data_size
        filtered in
    rw goes (
      ap
        (λ s.
          read_loop mem rounds
            (reader h tag.data_header tag.data_bytes s (drop 12 buf) 12 h.data_size))
        at
      ∙ stays)
