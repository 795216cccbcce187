-- ===== src/Rtmp/Media/Interleaved.antt =====
-- What a message looks like on the way to a player: its bytes, and a header in front of each chunk but
-- the first.
use yclib.Base.{
  ℕ, zero, suc, ◌+◌, ◌-◌, ◌<◌, ◌≤◌, ◌≡◌, refl, ap, ◌∙◌, List, [], ◌∷◌, ◌++◌, ltb, length, take,
  drop, arith, length-take, length-drop, take-append-drop, Bool-cases, inl, inr,
}
use yclib.Rtmp.Connection.Sending.{unchunk, unchunk-full, unchunk-last}

-- `room` is what is left of the chunk under way, and `size` the size of the others.
abbrev pub interleaved : List ℕ → ℕ → ℕ → List ℕ → List ℕ
interleaved header size room [] = []
interleaved header size zero (b ∷ bytes) = header ++ b ∷ interleaved header size (size - 1) bytes
interleaved header size (suc room) (b ∷ bytes) = b ∷ interleaved header size room bytes

module _ (header : List ℕ) (size : ℕ) where
  -- Inside a chunk
  pub interleaved_split :
      (n room : ℕ) (bytes : List ℕ)
      → n ≤ room
      → interleaved header size room bytes
        ≡ take n bytes ++ interleaved header size (room - n) (drop n bytes)
  interleaved_split zero room bytes fits = ap (λ r. interleaved header size r bytes) (omega arith)
  interleaved_split (suc n) zero bytes fits = absurd (omega arith)
  interleaved_split (suc n) (suc room) [] fits = refl
  interleaved_split (suc n) (suc room) (b ∷ bytes) fits =
      ap (λ t. b ∷ t) (interleaved_split n room bytes (omega arith))
      ∙ ap (λ r. b ∷ (take n bytes ++ interleaved header size r (drop n bytes))) (omega arith)

  pub interleaved_short :
      (room : ℕ) (bytes : List ℕ) → length bytes ≤ room → interleaved header size room bytes ≡ bytes
  interleaved_short room [] fits = refl
  interleaved_short zero (b ∷ bytes) fits = absurd (omega arith)
  interleaved_short (suc room) (b ∷ bytes) fits =
      ap (λ t. b ∷ t) (interleaved_short room bytes (omega arith))

  -- At the end of a chunk
  pub interleaved_full :
      (bytes : List ℕ)
      → 0 < size
      → 0 < length bytes
      → interleaved header size 0 bytes ≡ header ++ interleaved header size size bytes
  interleaved_full [] some_size some_left = absurd (omega arith)
  interleaved_full (b ∷ bytes) some_size some_left =
      let same : suc (size - 1) ≡ size = omega arith in
      ap (λ r. header ++ interleaved header size r (b ∷ bytes)) same

-- The other side, which takes chunks with the header of the format 3 on the channel between them, gets the
-- message.
pub unchunk-interleaved :
    (fuel channel size head : ℕ) (bytes : List ℕ)
    → 0 < size
    → head ≡ 192 + channel
    → length bytes < fuel
    → unchunk fuel channel size (interleaved (head ∷ []) size size bytes) ≡ bytes
unchunk-interleaved zero channel size head bytes some_size is enough = absurd (omega arith)
unchunk-interleaved (suc fuel) channel size head bytes some_size is enough =
    elim (Bool-cases (ltb size (length bytes))) [
      | inr short ↦
          ap (unchunk (suc fuel) channel size)
            (interleaved_short (head ∷ []) size size bytes (ground arith))
          ∙ unchunk-last (suc fuel) channel size bytes (omega arith) (ground arith)
      | inl long ↦
          let first = take size bytes in
          let rest = drop size bytes in
          let left = length-drop size bytes (ground arith) in
          let some_left : 0 < length rest = ground (arith, left) in
          let cut : interleaved (head ∷ []) size size bytes
              ≡ first ++ head ∷ interleaved (head ∷ []) size size rest =
            interleaved_split (head ∷ []) size size size bytes (omega arith)
            ∙ ap (λ r. first ++ interleaved (head ∷ []) size r rest) (omega arith)
            ∙ ap (λ t. first ++ t) (interleaved_full (head ∷ []) size rest some_size some_left) in
          ap (unchunk (suc fuel) channel size) cut
          ∙ unchunk-full (suc fuel) channel size head first (interleaved (head ∷ []) size size rest)
              (omega arith) (length-take size bytes (ground arith)) is
          ∙ ap (λ f. first ++ unchunk f channel size (interleaved (head ∷ []) size size rest))
              (omega arith)
          ∙ ap (λ t. first ++ t)
              (unchunk-interleaved fuel channel size head rest some_size is (ground (arith, left)))
          ∙ take-append-drop size bytes
    ]
