-- ===== src/Hash.antt =====
-- lib_src/util/rns_hash.c: the hash of a text.
mod Tests
use native.Mathlib.Nat.{
  mod-add-div, add-mul, mul_assoc, mul_left_comm, add-mul-mod_self_left, mod-lt,
}
use yclib.Base.{
  ℕ, zero, suc, ◌+◌, ◌*◌, ◌/◌, ◌%◌, ◌^◌, false, ◌<◌, ◌≡◌, refl, ap, sym, ◌∙◌, Option, none, some,
  List, [], ◌∷◌, ◌==◌, if◌then◌else◌, u32, length, arith,
}

-- The loop, with MULT for 31, on the bytes before the NUL
unfoldable pub hash_loop : ℕ → List ℕ → ℕ
hash_loop h [] = h
hash_loop h (b ∷ text) = hash_loop (u32 (31 * h + b)) text

-- `rns_hash_str`; `none` is a division by 0.
unfoldable pub hash_str : List ℕ → ℕ → Option ℕ
unfolding hash_loop
hash_str text num = if num == 0 then none else some (hash_loop 0 text % num)

abbrev pub power : ℕ → ℕ
power zero = 1
power (suc n) = 31 * power n

-- The polynomial in 31 whose coefficients are the bytes, the first one in front
abbrev pub polynomial : List ℕ → ℕ
polynomial [] = 0
polynomial (b ∷ text) = b * power (length text) + polynomial text

-- What wraps around makes no difference to the remainder.
wrap_once : (x p q : ℕ) → (u32 x * p + q) % 2 ^ 32 ≡ (x * p + q) % 2 ^ 32
wrap_once x p q =
    let r = x % 2 ^ 32 in
    let k = x / 2 ^ 32 in
    let whole : r + 2 ^ 32 * k ≡ x = mod-add-div x (2 ^ 32) in
    let parts : (r + 2 ^ 32 * k) * p ≡ r * p + 2 ^ 32 * (k * p) =
      add-mul r (2 ^ 32 * k) p ∙ ap (λ t. r * p + t) (mul_assoc (2 ^ 32) k p) in
    let sum : r * p + q + 2 ^ 32 * (k * p) ≡ x * p + q =
      omega (arith, sym parts ∙ ap (λ t. t * p) whole) in
    sym (add-mul-mod_self_left (r * p + q) (2 ^ 32) (k * p)) ∙ ap (λ t. t % 2 ^ 32) sum

-- One byte more
horner : (h b p q : ℕ) → (31 * h + b) * p + q ≡ h * (31 * p) + (b * p + q)
horner h b p q =
    let left : (31 * h + b) * p ≡ 31 * (h * p) + b * p =
      add-mul (31 * h) b p ∙ ap (λ t. t + b * p) (mul_assoc 31 h p) in
    let right : h * (31 * p) ≡ 31 * (h * p) = mul_left_comm h 31 p in omega (arith, left, right)

hash_loop-polynomial :
    (h : ℕ) (text : List ℕ)
    → h < 2 ^ 32
    → hash_loop h text ≡ (h * power (length text) + polynomial text) % 2 ^ 32
unfolding hash_loop
hash_loop-polynomial h [] small = omega arith
hash_loop-polynomial h (b ∷ text) small =
    hash_loop-polynomial (u32 (31 * h + b)) text (omega arith)
    ∙ wrap_once (31 * h + b) (power (length text)) (polynomial text)
    ∙ ap (λ t. t % 2 ^ 32) (horner h b (power (length text)) (polynomial text))

-- For a number that is not 0, `rns_hash_str` gives the remainder of the polynomial, of 32 bits, which is
-- below that number.
pub hash_str-polynomial :
    (text : List ℕ) (num : ℕ)
    → 0 < num
    → (hash_str text num ≡ some (polynomial text % 2 ^ 32 % num))
      × (polynomial text % 2 ^ 32 % num < num)
unfolding hash_str
hash_str-polynomial text num some_num =
    let test : (num == 0) ≡ false = ground arith in
    let zero_times : 0 * power (length text) + polynomial text ≡ polynomial text = omega arith in
    (
      rw (hash_str, test)
          (ap (λ h. some (h % num))
            (hash_loop-polynomial 0 text (omega arith) ∙ ap (λ t. t % 2 ^ 32) zero_times)),
      mod-lt (polynomial text % 2 ^ 32) some_num,
    )
