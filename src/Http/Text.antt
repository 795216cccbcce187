-- ===== src/Http/Text.antt =====
-- The functions of C on texts that lib_src/transport/rns_http.c calls by the macros of
-- lib_src/util/rns_memory.h. A text is the list of its bytes before the NUL; offsets stand for pointers.
use yclib.Base.{
  ℕ, suc, ◌+◌, ◌-◌, ◌*◌, ◌^◌, ◌≡◌, Bool, true, false, ◌&&◌, ◌||◌, Option, none, some, List, [], ◌∷◌,
  ltb, leb, ◌==◌, if◌then◌else◌, ◌>>=◌, All,
}
use yclib.Network.Address.{is_digit}

abbrev pub plus_one : Option ℕ → Option ℕ
plus_one none = none
plus_one (some n) = some (suc n)

-- `rns_strchr`, of a character that is not NUL
abbrev pub strchr : ℕ → List ℕ → Option ℕ
strchr c [] = none
strchr c (b ∷ text) = if b == c then some 0 else plus_one (strchr c text)

abbrev pub starts_with : List ℕ → List ℕ → Bool
starts_with [] text = true
starts_with (a ∷ sub) [] = false
starts_with (a ∷ sub) (b ∷ text) = a == b && starts_with sub text

-- `rns_strstr`
abbrev pub strstr : List ℕ → List ℕ → Option ℕ
strstr sub [] = if starts_with sub [] then some 0 else none
strstr sub (b ∷ text) = if starts_with sub (b ∷ text) then some 0 else plus_one (strstr sub text)

-- `while(*walker == ' ')++walker`
abbrev pub skip_blanks : List ℕ → List ℕ
skip_blanks [] = []
skip_blanks (b ∷ text) = if b == 32 then skip_blanks text else b ∷ text

abbrev pub is_space : ℕ → Bool
is_space b = b == 32 || (leb 9 b && leb b 13)

abbrev pub skip_space : List ℕ → List ℕ
skip_space [] = []
skip_space (b ∷ bytes) = if is_space b then skip_space bytes else b ∷ bytes

-- The number that the digits at the front make, behind `n`; `none` is a read outside the buffer.
abbrev pub digits : ℕ → List ℕ → Option ℕ
digits n [] = none
digits n (b ∷ bytes) = if is_digit b then digits (n * 10 + (b - 48)) bytes else some n

abbrev pub as_int : Bool → ℕ → Option ℕ
as_int true n = if ltb (2 ^ 31) n then none else some (if n == 0 then 0 else 2 ^ 32 - n)
as_int false n = if ltb n (2 ^ 31) then some n else none

abbrev pub behind_space : List ℕ → Option ℕ
behind_space [] = none
behind_space (b ∷ bytes) =
    if b == 45
    then digits 0 bytes >>= as_int true
    else if b == 43
    then digits 0 bytes >>= as_int false
    else digits 0 (b ∷ bytes) >>= as_int false

-- `rns_atoi` of a buffer, as an unsigned number of 32 bits; where the number is no int, C leaves it
-- undefined.
abbrev pub atoi : List ℕ → Option ℕ
atoi bytes = behind_space (skip_space bytes)

-- The number that figures stand for
abbrev pub decimal : ℕ → List ℕ → ℕ
decimal n [] = n
decimal n (b ∷ figures) = decimal (n * 10 + (b - 48)) figures

abbrev pub AllDigits : List ℕ → Type 0
AllDigits figures = All (λ b. is_digit b ≡ true) figures

-- No character of the text is `c`.
abbrev pub Lacks : ℕ → List ℕ → Type 0
Lacks c text = All (λ b. (b == c) ≡ false) text
