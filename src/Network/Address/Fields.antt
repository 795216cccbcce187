-- ===== src/Network/Address/Fields.antt =====
-- rns_ip_type of lib_src/util/rns_network.c by the fields between the points of a text.
use yclib.Base.{
  ℕ, suc, ◌+◌, ◌≤◌, ◌≡◌, refl, Bool, true, ◌&&◌, some, List, [], ◌∷◌, ltb, leb, ◌==◌, if◌then◌else◌,
  arith, length, Bool-cases, inl, inr, ◌∙◌,
}
use yclib.Network.Address.{is_digit, ip_loop, ip_type, url_type_ip, url_type_domain}

-- The text up to its first point, and the fields behind.
abbrev pub fields : List ℕ → List ℕ × List (List ℕ)
fields [] = ([], [])
fields (c ∷ text) =
    let (first, others) = fields text in
    if c == 46 then ([], first ∷ others) else (c ∷ first, others)

abbrev pub all_digits : List ℕ → Bool
all_digits [] = true
all_digits (c ∷ cs) = is_digit c && all_digits cs

-- A field of digits, three at most together with `len` before it.
abbrev pub short_number : ℕ → List ℕ → Bool
short_number len cs = all_digits cs && leb (len + length cs) 3

abbrev pub short_numbers : List (List ℕ) → Bool
short_numbers [] = true
short_numbers (f ∷ fs) = short_number 0 f && short_numbers fs

ip_loop-fields :
    (text : List ℕ) (len count : ℕ)
    → len ≤ 3
    → count ≤ 3
    → ip_loop (length text) text len count
      ≡ some (
          if short_number len (fields text).0
            && short_numbers (fields text).1
            && leb (count + length (fields text).1) 3
          then url_type_ip
          else url_type_domain)
unfolding ip_loop
ip_loop-fields [] len count small few = ground arith
ip_loop-fields (c ∷ text) len count small few = elim (Bool-cases (c == 46)) [
  | inl point ↦ elim (Bool-cases (ltb 3 (suc count))) [
    | inl many ↦ rw point (ground arith)
    | inr some_left ↦
        rw point (ground (arith, ip_loop-fields text 0 (suc count) (omega arith) (ground arith)))
  ]
  | inr other ↦ elim (Bool-cases (ltb 3 (suc len))) [
    | inl long ↦ rw other (ground arith)
    | inr short ↦ rw other (ground (arith, ip_loop-fields text (suc len) count (ground arith) few))
  ]
]

-- `rns_ip_type` takes a text for an address in figures exactly when it has four fields at most, each
-- of three digits at most; fields may be empty, and their values are not bounded.
pub ip_type-fields :
    (text : List ℕ)
    → ip_type text (length text)
      ≡ some (
          if short_number 0 (fields text).0
            && short_numbers (fields text).1
            && leb (length (fields text).1) 3
          then url_type_ip
          else url_type_domain)
unfolding ip_type
ip_type-fields text =
    let none_before : 0 + length (fields text).1 ≡ length (fields text).1 = omega arith in
    ip_loop-fields text 0 0 (omega arith) (omega arith) ∙ rw none_before refl
