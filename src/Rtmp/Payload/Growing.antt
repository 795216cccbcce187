-- ===== src/Rtmp/Payload/Growing.antt =====
-- rtmp_msg_payload of lib_src/transport/rns_rtmp.c: how the blocks of a stream grow.
use yclib.Base.{
  ℕ, ◌+◌, ◌*◌, ◌/◌, ◌%◌, ◌<◌, ◌≤◌, ◌≡◌, refl, ap, sym, ◌∙◌, some, none, List, [], ◌∷◌, ◌++◌, ◌==◌,
  length, take, drop, arith, length-append, length-drop, take_all, drop-append_le, take-append_le,
  Bool-cases, inl, inr,
}
use yclib.Rtmp.Incoming.{find, assign}
use yclib.Rtmp.Parse.Header.{find-assign, find-append}
use yclib.Rtmp.Media.{Blocks, block_size, aligned}
use yclib.Rtmp.Media.Sending.{Hold, aligned_is, aligned_parts}

module _ {ℓ} {A : Type ℓ} where
  find-assign_other :
      (key other : ℕ) (a : A) (m : List (ℕ × A))
      → ¬ (key ≡ other)
      → find key (assign other a m) ≡ find key m
  find-assign_other key other a [] apart = refl
  find-assign_other key other a ((k, old) ∷ m) apart =
      ground (arith, find-assign_other key other a m apart)

  find-append_other :
      (key other : ℕ) (a : A) (m : List (ℕ × A))
      → ¬ (key ≡ other)
      → find key (m ++ (other, a) ∷ []) ≡ find key m
  find-append_other key other a [] apart = ground arith
  find-append_other key other a ((k, old) ∷ m) apart =
      ground (arith, find-append_other key other a m apart)

-- `blocks` with the last block, at `base`, in hand: all others are those of `log`.
abbrev pub InHand : ℕ → Blocks → List ℕ → Type 0
InHand base blocks log =
    (find base blocks ≡ some (drop base log))
    × ((k : ℕ)
        → ¬ (k * block_size ≡ base)
        → (k * block_size < length log
            → find (k * block_size) blocks ≡ some (take block_size (drop (k * block_size) log)))
          × (length log ≤ k * block_size → find (k * block_size) blocks ≡ none))

-- A block that is there
pub held-InHand :
    (blocks : Blocks) (log : List ℕ)
    → Hold blocks log
    → aligned (length log) < length log
    → InHand (aligned (length log)) blocks log
held-InHand blocks log held more =
    let base = aligned (length log) in
    let at = aligned_is (length log) in
    let (low, off, within) = aligned_parts (length log) in
    let k = length log / block_size in
    let rest = length-drop base log low in
    let there : find (k * block_size) blocks ≡ some (take block_size (drop (k * block_size) log)) =
      (held k).0 (omega (arith, at)) in
    (
      ap (λ m. find m blocks) at
          ∙ there
          ∙ ap (λ m. some (take block_size (drop m log))) (sym at)
          ∙ ap some (take_all block_size (drop base log) (omega (arith, rest))).0,
      λ j apart. held j,
    )

pub no_block :
    (blocks : Blocks) (log : List ℕ)
    → Hold blocks log
    → aligned (length log) ≡ length log
    → find (aligned (length log)) blocks ≡ none
no_block blocks log held even =
    let at = aligned_is (length log) in
    ap (λ m. find m blocks) at ∙ (held (length log / block_size)).1 (omega (arith, at, even))

-- A block that is made
pub made-InHand :
    (blocks : Blocks) (log : List ℕ)
    → Hold blocks log
    → aligned (length log) ≡ length log
    → InHand (aligned (length log)) (blocks ++ (aligned (length log), []) ∷ []) log
made-InHand blocks log held even =
    let base = aligned (length log) in
    let empty : drop base log ≡ [] =
      ap (λ m. drop m log) even ∙ (take_all (length log) log (omega arith)).1 in
    (
      find-append base [] blocks (no_block blocks log held even) ∙ ap some (sym empty),
      λ j apart. (
        λ under. find-append_other (j * block_size) base [] blocks apart ∙ (held j).0 under,
        λ over. find-append_other (j * block_size) base [] blocks apart ∙ (held j).1 over,
      ),
    )

module _ (blocks : Blocks) (log bytes : List ℕ) (hand : InHand (aligned (length log)) blocks log)
    (some_bytes : 0 < length bytes)
    (fits : length log % block_size + length bytes ≤ block_size) where
  abbrev base : ℕ
  base = aligned (length log)

  abbrev grown : Blocks
  grown = assign base (drop base log ++ bytes) blocks

  last_block : find base grown ≡ some (take block_size (drop base (log ++ bytes)))
  last_block =
      let (low, off, within) = aligned_parts (length log) in
      let rest = length-drop base log low in
      let long = length-append (drop base log) bytes in
      let content : drop base (log ++ bytes) ≡ drop base log ++ bytes =
        drop-append_le base log bytes low in
      find-assign base (drop base log) (drop base log ++ bytes) blocks hand.0
      ∙ ap some
          (sym (take_all block_size (drop base log ++ bytes) (omega (arith, rest, long, off))).0)
      ∙ ap (λ t. some (take block_size t)) (sym content)

  full_block :
      (k : ℕ)
      → k * block_size < base
      → find (k * block_size) grown ≡ some (take block_size (drop (k * block_size) (log ++ bytes)))
  full_block k before =
      let (low, off, within) = aligned_parts (length log) in
      let at = aligned_is (length log) in
      let under : k * block_size < length log = omega (arith, low) in
      let rest = length-drop (k * block_size) log (omega arith) in
      let apart : ¬ (k * block_size ≡ base) = λ same. omega arith in
      let full : block_size ≤ length (drop (k * block_size) log) = omega (arith, rest, at) in
      find-assign_other (k * block_size) base (drop base log ++ bytes) blocks apart
      ∙ (hand.1 k apart).0 under
      ∙ ap some (sym (take-append_le block_size (drop (k * block_size) log) bytes full))
      ∙ ap (λ t. some (take block_size t))
          (sym (drop-append_le (k * block_size) log bytes (omega arith)))

  -- Bytes that are put behind what the last block has are bytes behind the log.
  pub grown-Hold : Hold grown (log ++ bytes)
  grown-Hold k =
      let (low, off, within) = aligned_parts (length log) in
      let at = aligned_is (length log) in
      let long = length-append log bytes in
      (
        λ under. elim (Bool-cases (k * block_size == base)) [
          | inl same ↦
              let here : k * block_size ≡ base = ground arith in
              ap (λ m. find m grown) here
              ∙ last_block
              ∙ ap (λ m. some (take block_size (drop m (log ++ bytes)))) (sym here)
          | inr other ↦
              let apart : ¬ (k * block_size ≡ base) = λ same. ground arith in
              full_block k (omega (arith, under, long, at, low, off))
        ],
        λ over.
            let apart : ¬ (k * block_size ≡ base) = λ same. omega (arith, over, long, low) in
            find-assign_other (k * block_size) base (drop base log ++ bytes) blocks apart
            ∙ (hand.1 k apart).1 (omega (arith, over, long)),
      )
