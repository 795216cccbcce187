-- ===== src/Http/Info/Places.antt =====
-- rns_http_info_read of lib_src/transport/rns_http.c: where the searches in a text end that is put
-- together from parts.
use yclib.Base.{
  ℕ, suc, ◌≤◌, ◌≡◌, refl, false, none, some, List, [], ◌∷◌, ◌++◌, ◌==◌, length, arith, Option-cases,
  inl, inr,
}
use yclib.Http.Text.{strstr, Lacks}
use yclib.Http.Info.{text_of, crlf, blank, http}
use yclib.Http.Info.FirstLine.{trimmed}

pub text_of-Lacks : (text memory : List ℕ) → Lacks 0 text → text_of (text ++ 0 ∷ memory) ≡ some text
text_of-Lacks [] memory lacks = refl
text_of-Lacks (b ∷ text) memory lacks = rw (text_of-Lacks text memory lacks.1, lacks.0) refl

pub strstr-crlf :
    (text behind : List ℕ)
    → Lacks 13 text
    → strstr crlf (text ++ 13 ∷ 10 ∷ behind) ≡ some (length text)
strstr-crlf [] behind lacks = refl
strstr-crlf (b ∷ text) behind lacks =
    let other : (13 == b) ≡ false = ground (arith, lacks.0) in
    rw (other, strstr-crlf text behind lacks.1) refl

pub strstr-blank :
    (text behind : List ℕ) → Lacks 32 text → strstr blank (text ++ 32 ∷ behind) ≡ some (length text)
strstr-blank [] behind lacks = refl
strstr-blank (b ∷ text) behind lacks =
    let other : (32 == b) ≡ false = ground (arith, lacks.0) in
    rw (other, strstr-blank text behind lacks.1) refl

-- The version stands behind a text without an H.
pub strstr-http :
    (text behind : List ℕ)
    → Lacks 72 text
    → strstr http (text ++ 72 ∷ 84 ∷ 84 ∷ 80 ∷ behind) ≡ some (length text)
strstr-http [] behind lacks = refl
strstr-http (b ∷ text) behind lacks =
    let other : (72 == b) ≡ false = ground (arith, lacks.0) in
    rw (other, strstr-http text behind lacks.1) refl

-- A character that a text lacks is not found in it.
pub strstr-behind :
    (c n : ℕ) (text behind : List ℕ)
    → Lacks c text
    → strstr (c ∷ []) (text ++ behind) ≡ some n
    → length text ≤ n
strstr-behind c n [] behind lacks found = omega arith
strstr-behind c n (b ∷ text) behind lacks found =
    let other : (c == b) ≡ false = ground (arith, lacks.0) in
    elim (Option-cases (strstr (c ∷ []) (text ++ behind))) [
      | inl missing ↦
          let is : strstr (c ∷ []) (b ∷ (text ++ behind)) ≡ none = rw (other, missing) refl in
          absurd (cc)
      | inr (m, there) ↦
          let is : strstr (c ∷ []) (b ∷ (text ++ behind)) ≡ some (suc m) = rw (other, there) refl in
          let same : suc m ≡ n = cc in
          omega (arith, same, strstr-behind c m text behind lacks.1 there)
    ]

-- A blank behind a text without blanks is taken off.
pub trimmed-Lacks : (text : List ℕ) → Lacks 32 text → trimmed (text ++ 32 ∷ []) ≡ length text
trimmed-Lacks [] lacks = refl
trimmed-Lacks (b ∷ []) lacks = rw lacks.0 refl
trimmed-Lacks (b ∷ c ∷ text) lacks =
    let more : (length (c ∷ text) == 0) ≡ false = ground arith in
    rw (trimmed-Lacks (c ∷ text) lacks.1, more) refl
