-- ===== src/Rtmp/Amf/Encoding.antt =====
-- The bytes of a script data value, and the values that lib_src/transport/rns_rtmp.c can write: those
-- whose pointer refers to what their type says.
use yclib.Base.{
  ℕ, zero, suc, ◌+◌, ◌*◌, ◌^◌, ◌≤◌, ◌<◌, ◌≡◌, refl, List, [], ◌∷◌, ◌++◌, arith, length,
  length-append,
}
use yclib.Network.{htob16, htob32}
use yclib.Network.Reverse.{rns_reverse}
use yclib.Rtmp.Amf.{
  Value, Pointee, Properties, value, null_pointer, dbl, ui8, str, obj, ecma, no_properties,
  property,
}

abbrev pub encode_str : List ℕ → List ℕ
encode_str s = htob16 (length s) ++ s

unfoldable mutual
  pub encode : Value → List ℕ
  encode (value type p) = type ∷ encode_pointee p

  pub encode_pointee : Pointee → List ℕ
  encode_pointee null_pointer = []
  encode_pointee (dbl bytes) = rns_reverse bytes
  encode_pointee (ui8 b) = b ∷ []
  encode_pointee (str s) = encode_str s
  encode_pointee (obj ps) = encode_properties ps
  encode_pointee (ecma size ps) = htob32 size ++ encode_properties ps

  pub encode_properties : Properties → List ℕ
  encode_properties no_properties = 0 ∷ 0 ∷ 9 ∷ []
  encode_properties (property name v ps) = (encode_str name ++ encode v) ++ encode_properties ps

unfoldable mutual
  pub IsValue : Value → Type 0
  IsValue (value type p) = IsPointee type p

  pub IsPointee : ℕ → Pointee → Type 0
  IsPointee type null_pointer = (4 ≤ type) × (type ≤ 7)
  IsPointee type (dbl bytes) = (type ≡ 0) × (length bytes ≡ 8)
  IsPointee type (ui8 b) = type ≡ 1
  IsPointee type (str s) = (type ≡ 2) × (length s < 2 ^ 16)
  IsPointee type (obj ps) = (type ≡ 3) × IsProperties ps
  IsPointee type (ecma size ps) = (type ≡ 8) × (size < 2 ^ 32) × IsProperties ps

  pub IsProperties : Properties → Type 0
  IsProperties no_properties = Unit
  IsProperties (property name v ps) = (length name < 2 ^ 16) × IsValue v × IsProperties ps

-- The types in use have an entry in the tables.
pub type-bound : (type : ℕ) (p : Pointee) → IsPointee type p → type < 9
unfolding IsPointee
type-bound type null_pointer good = omega arith
type-bound type (ui8 b) good = omega arith
type-bound type (dbl bytes) good = omega arith
type-bound type (str s) good = omega arith
type-bound type (obj ps) good = omega (arith, good.0)
type-bound type (ecma size ps) good = omega (arith, good.0)

pub length-htob16 : (d : ℕ) → length (htob16 d) ≡ 2
unfolding htob16
length-htob16 d = refl

pub length-htob32 : (d : ℕ) → length (htob32 d) ≡ 4
unfolding htob32
length-htob32 d = refl

pub length-append_bytes : (xs ys : List ℕ) → length (xs ++ ys) ≡ length xs + length ys
length-append_bytes xs ys = length-append xs ys

-- For `omega`, on the bytes of values
pub ruleset lengths = (arith, length-append_bytes, length-htob16, length-htob32)
