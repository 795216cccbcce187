-- ===== src/Flv/Writing.antt =====
-- What flv_write_tag of lib_src/media/flv.c writes: the header, the codec's bytes and the data.
use yclib.Base.{
  ℕ, ◌+◌, ◌^◌, ◌<◌, ◌≤◌, ◌≡◌, ◌⊎◌, refl, ap, ◌∙◌, sym, some, [], ◌++◌, arith, length, u32,
}
use yclib.Network.{htob24}
use yclib.Flv.{write_tag_header}
use yclib.Flv.Tag.{tag_header, Tag, after_header, running}
use yclib.Flv.Emit.{Writer, write_step, write_tag}
use yclib.Flv.WriteRounds.{codec_bytes, writer, Ends-step, codec-Ends}

-- `flv_write_tag` of a tag of one of the three known types, without a filter, whose size counts the
-- codec's bytes and the data: within seven rounds it has written the tag header, the codec's bytes
-- and the data, and returns 11 and the size, cut to 32 bits.
pub write_tag-codec_bytes :
    (rounds : ℕ) (tag : Tag)
    → 7 ≤ rounds
    → tag.state ≡ tag_header
    → tag.header.filter ≡ 0
    → (tag.header.tag_type ≡ 8) ⊎ ((tag.header.tag_type ≡ 9) ⊎ (tag.header.tag_type ≡ 18))
    → tag.header.data_size
      ≡ length (codec_bytes tag.header.tag_type tag.data_header) + length tag.data_bytes
    → tag.header.data_size < 2 ^ 32
    → write_tag rounds tag
      ≡ some (
          some (
            (write_tag_header tag.header).0
                ++ (codec_bytes tag.header.tag_type tag.data_header ++ tag.data_bytes),
            u32 (11 + tag.header.data_size),
          ))
unfolding write_tag write_step write_tag_header htob24
write_tag-codec_bytes rounds tag enough starts no_filter known size fits =
    let h = tag.header in
    let d = tag.data_header in
    let content = tag.data_bytes in
    let out = (write_tag_header h).0 in
    let first : Writer = record { tag = tag; out = []; walked = 0; data_size = 0 } in
    let next =
      writer h d content (after_header h.tag_type) out 11
        (length (codec_bytes h.tag_type d) + length content) in
    let goes : write_step tag.state first ≡ some (running next) = rw (starts, ← size) refl in
    Ends-step first next 5 _ goes
      (codec-Ends h.tag_type h d content out 11 no_filter known (omega arith)) rounds (omega arith)
    ∙ ap (λ n. some (some (out ++ (codec_bytes h.tag_type d ++ content), u32 (11 + n)))) (sym size)
