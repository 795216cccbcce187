-- ===== src/Http/Fields.antt =====
-- rns_hconn_header_range of lib_src/transport/rns_http.c and rns_split_key_value of
-- lib_src/util/rns_memory.c on texts that are put together from parts.
use yclib.Base.{
  ℕ, zero, suc, ◌+◌, ◌^◌, ◌<◌, ◌≡◌, refl, ap, ◌∙◌, true, false, ◌&&◌, some, List, [], ◌∷◌, ◌++◌,
  leb, ◌==◌, ◌>>=◌, length, take, drop, arith, length-append, take-append_length,
}
use yclib.Http.Text.{strchr, skip_blanks, atoi, decimal, AllDigits, Lacks}
use yclib.Http.{read_end, header_range, split_key_value}
use yclib.Http.Parts.{strchr-Lacks, atoi-decimal}

-- Behind a separator
drop-suc : (text behind : List ℕ) (c : ℕ) → drop (suc (length text)) (text ++ c ∷ behind) ≡ behind
drop-suc [] behind c = refl
drop-suc (b ∷ text) behind c = drop-suc text behind c

AllDigits-Lacks_dash : (figures : List ℕ) → AllDigits figures → Lacks 45 figures
AllDigits-Lacks_dash [] all = tt
AllDigits-Lacks_dash (a ∷ figures) all =
    let figure : (leb 48 a && leb a 57) ≡ true = all.0 in
    (ground arith, AllDigits-Lacks_dash figures all.1)

-- The end of a range without figures is the one that was there.
abbrev pub last_of : ℕ → List ℕ → ℕ
last_of end [] = end
last_of end (b ∷ figures) = decimal 0 (b ∷ figures)

read_end-last_of :
    (end first : ℕ) (figures : List ℕ)
    → AllDigits figures
    → decimal 0 figures < 2 ^ 31
    → read_end end figures first ≡ some (0, first, last_of end figures)
read_end-last_of end first [] all small = refl
read_end-last_of end first (b ∷ figures) all small =
    ap (λ m. m >>= λ last. some (0, first, last)) (atoi-decimal b figures 0 [] all refl small)

-- A range that is put together from a unit, `=`, the figures of its start, `-` and those of its end, or
-- none, where both numbers are below 2^31: with memory, `rns_hconn_header_range` returns 0 and both
-- numbers, and leaves the end as it was where it is not given.
pub header_range-decimal :
    (unit first last : List ℕ) (a start end : ℕ)
    → Lacks 61 unit
    → AllDigits (a ∷ first)
    → AllDigits last
    → decimal 0 (a ∷ first) < 2 ^ 31
    → decimal 0 last < 2 ^ 31
    → header_range [] (some (unit ++ 61 ∷ ((a ∷ first) ++ 45 ∷ last))) start end
      ≡ some (0, decimal 0 (a ∷ first), last_of end last)
unfolding header_range
header_range-decimal unit first last a start end no_equals all_first all_last small_first
      small_last =
    let range = (a ∷ first) ++ 45 ∷ last in
    let found = strchr-Lacks 61 unit range no_equals in
    let behind = drop-suc unit range 61 in
    let long = length-append unit (61 ∷ range) in
    let more : leb (length (unit ++ 61 ∷ range)) (length unit + 1) ≡ false = ground (arith, long) in
    let dash = strchr-Lacks 45 (a ∷ first) last (AllDigits-Lacks_dash (a ∷ first) all_first) in
    let dash_there : strchr 45 (drop (suc (length unit)) (unit ++ 61 ∷ range))
        ≡ some (length (a ∷ first)) =
      ap (strchr 45) behind ∙ dash in
    let n = length (a ∷ first) in
    let start_is = atoi-decimal a first 0 [] all_first refl small_first in
    rw (header_range, found, more, dash_there)
      (ap (λ t. atoi (take n t ++ 0 ∷ []) >>= read_end end (drop (suc n) t)) behind
        ∙ ap (λ t. atoi (t ++ 0 ∷ []) >>= read_end end (drop (suc n) range))
            (take-append_length (a ∷ first) (45 ∷ last))
        ∙ ap (λ m. m >>= read_end end (drop (suc n) range)) start_is
        ∙ ap (λ t. read_end end t (decimal 0 (a ∷ first))) (drop-suc (a ∷ first) last 45)
        ∙ read_end-last_of end (decimal 0 (a ∷ first)) last all_last small_last)

abbrev pub spaces : ℕ → List ℕ
spaces zero = []
spaces (suc n) = 32 ∷ spaces n

abbrev pub Starts : List ℕ → Type 0
Starts [] = Unit
Starts (b ∷ text) = (b == 32) ≡ false

skip_blanks-spaces : (n : ℕ) (text : List ℕ) → Starts text → skip_blanks (spaces n ++ text) ≡ text
skip_blanks-spaces zero [] starts = refl
skip_blanks-spaces zero (b ∷ text) starts = rw starts refl
skip_blanks-spaces (suc n) text starts = skip_blanks-spaces n text starts

-- A text of a key, the delimiter, spaces and a value: with memory, `rns_split_key_value` gives the key
-- and the value without the spaces in front of it.
pub split_key_value-parts :
    (key value : List ℕ) (delim n : ℕ)
    → Lacks delim key
    → Starts value
    → split_key_value [] (key ++ delim ∷ (spaces n ++ value)) delim ≡ some (some key, value)
unfolding split_key_value
split_key_value-parts key value delim n lacks starts =
    let found = strchr-Lacks delim key (spaces n ++ value) lacks in
    rw (split_key_value, found)
      (ap
          (λ t.
            some
              (some t, skip_blanks (drop (suc (length key)) (key ++ delim ∷ (spaces n ++ value)))))
          (take-append_length key (delim ∷ (spaces n ++ value)))
        ∙ ap (λ t. some (some key, skip_blanks t)) (drop-suc key (spaces n ++ value) delim)
        ∙ ap (λ t. some (some key, t)) (skip_blanks-spaces n value starts))
