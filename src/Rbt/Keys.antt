-- ===== src/Rbt/Keys.antt =====
-- The orders of the keys: 64-bit integers, and texts by `strcmp`.
use yclib.Base.{
  ℕ, ◌≡◌, refl, Bool, true, false, not, ◌&&◌, List, [], ◌∷◌, arith, ltb, ◌==◌, if◌then◌else◌,
}

-- What the tree asks of its keys: the tests that it makes, and that they are those of an order.
pub record Order (K : Type 0) : Type 0 where
  pub lt : K → K → Bool
  pub same : K → K → Bool
  pub lt_irrefl : (a : K) → lt a a ≡ false
  pub lt_trans : (a b c : K) → lt a b ≡ true → lt b c ≡ true → lt a c ≡ true
  pub lt_total : (a b : K) → lt a b ≡ false → lt b a ≡ false → a ≡ b
  pub same_lem : (a b : K) → same a b ≡ (not (lt a b) && not (lt b a))

pub ltb_irrefl : (a : ℕ) → ltb a a ≡ false
ltb_irrefl a = ground arith

pub ltb_trans : (a b c : ℕ) → ltb a b ≡ true → ltb b c ≡ true → ltb a c ≡ true
ltb_trans a b c p q = ground arith

pub ltb_total : (a b : ℕ) → ltb a b ≡ false → ltb b a ≡ false → a ≡ b
ltb_total a b p q = ground arith

pub ==_lem : (a b : ℕ) → (a == b) ≡ (not (ltb a b) && not (ltb b a))
==_lem a b = ground arith

-- `RBT_TYPE_INT`
abbrev pub int_order : Order ℕ
int_order = record {
  lt = ltb;
  same = ◌==◌;
  lt_irrefl = ltb_irrefl;
  lt_trans = ltb_trans;
  lt_total = ltb_total;
  same_lem = ==_lem;
}

-- `rns_strcmp(a, b) < 0` on texts given without their final NUL.
unfoldable pub str_lt : List ℕ → List ℕ → Bool
str_lt [] [] = false
str_lt [] (y ∷ ys) = true
str_lt (x ∷ xs) [] = false
str_lt (x ∷ xs) (y ∷ ys) =
    let rest = str_lt xs ys in if ltb x y then true else if ltb y x then false else rest

-- `rns_strcmp(a, b) == 0`
unfoldable pub str_same : List ℕ → List ℕ → Bool
str_same [] [] = true
str_same [] (y ∷ ys) = false
str_same (x ∷ xs) [] = false
str_same (x ∷ xs) (y ∷ ys) = x == y && str_same xs ys

pub str_lt_irrefl : (a : List ℕ) → str_lt a a ≡ false
unfolding str_lt
str_lt_irrefl [] = refl
str_lt_irrefl (x ∷ a) = ground (arith, str_lt_irrefl a)

pub str_lt_trans : (a b c : List ℕ) → str_lt a b ≡ true → str_lt b c ≡ true → str_lt a c ≡ true
unfolding str_lt
str_lt_trans [] [] c p q = q
str_lt_trans [] (y ∷ b) [] p q = q
str_lt_trans [] (y ∷ b) (z ∷ c) p q = refl
str_lt_trans (x ∷ a) [] c p q = cc
str_lt_trans (x ∷ a) (y ∷ b) [] p q = cc
str_lt_trans (x ∷ a) (y ∷ b) (z ∷ c) p q = ground (arith, str_lt_trans a b c)

pub str_lt_total : (a b : List ℕ) → str_lt a b ≡ false → str_lt b a ≡ false → a ≡ b
unfolding str_lt
str_lt_total [] [] p q = refl
str_lt_total [] (y ∷ b) p q = cc
str_lt_total (x ∷ a) [] p q = cc
str_lt_total (x ∷ a) (y ∷ b) p q = ground (arith, str_lt_total a b)

pub str_same_lem : (a b : List ℕ) → str_same a b ≡ (not (str_lt a b) && not (str_lt b a))
unfolding str_lt str_same
str_same_lem [] [] = refl
str_same_lem [] (y ∷ b) = refl
str_same_lem (x ∷ a) [] = refl
str_same_lem (x ∷ a) (y ∷ b) = ground (arith, str_same_lem a b)

-- `RBT_TYPE_STR`
abbrev pub str_order : Order (List ℕ)
str_order = record {
  lt = str_lt;
  same = str_same;
  lt_irrefl = str_lt_irrefl;
  lt_trans = str_lt_trans;
  lt_total = str_lt_total;
  same_lem = str_same_lem;
}
