-- ===== src/Rtmp/Amf/Writing.antt =====
-- lib_src/transport/rns_rtmp.c: the write functions of script data on a buffer.
use yclib.Base.{
  ℕ, zero, suc, ◌≤◌, ◌<◌, ◌≡◌, refl, true, none, some, List, [], ◌∷◌, ◌++◌, arith, length, drop,
  length-drop, ltb, leb, ◌&&◌, false, Bool-cases, inl, inr,
}
use yclib.Network.{htob16, htob32}
use yclib.Network.Reverse.{rns_reverse}
use yclib.Rtmp.Amf.{
  Value, Pointee, Properties, value, null_pointer, dbl, ui8, str, obj, ecma, no_properties,
  property, Written, store, after, str_write, value_write, pointee_write, obj_write,
}
use yclib.Rtmp.Amf.Encoding.{
  encode, encode_pointee, encode_properties, encode_str, IsValue, IsPointee, IsProperties,
  type-bound, lengths,
}

-- Where there is room the bytes are stored; where there is not, the function writes past the end.
abbrev pub Stores : (List ℕ → Written) → List ℕ → Type 0
Stores w bytes =
    (buf : List ℕ)
    → (length bytes ≤ length buf → w buf ≡ some (bytes, drop (length bytes) buf))
      × (length buf < length bytes → w buf ≡ none)

pub store-Stores : (bytes : List ℕ) → Stores (store bytes) bytes
store-Stores bytes buf = (λ room. ground arith, λ short. ground arith)

drop-nil : (n : ℕ) → drop {A = ℕ} n [] ≡ []
drop-nil zero = refl
drop-nil (suc n) = refl

pub drop-append :
    (x y buf : List ℕ) → drop (length y) (drop (length x) buf) ≡ drop (length (x ++ y)) buf
drop-append [] y buf = refl
drop-append (b ∷ x) y [] = drop-nil (length y)
drop-append (b ∷ x) y (c ∷ buf) = drop-append x y buf

pub after-Stores :
    (f g : List ℕ → Written) (x y : List ℕ)
    → Stores f x
    → Stores g y
    → Stores (λ buf. after (f buf) g) (x ++ y)
after-Stores f g x y first second buf =
    let behind = drop (length x) buf in
    (
      λ room.
          let here : length x ≤ length buf = omega lengths in
          let left = length-drop (length x) buf here in
          rw ((first buf).0 here, (second behind).0 (omega (lengths, left)), drop-append x y buf)
            refl,
      λ short. elim (Bool-cases (ltb (length buf) (length x))) [
        | inl tight ↦ rw ((first buf).1 (ground arith)) refl
        | inr fits ↦
            let here : length x ≤ length buf = ground arith in
            rw
              (
                (first buf).0 here,
                (second behind).1 (omega (lengths, length-drop (length x) buf here)),
              )
              refl
      ],
    )

str_write-Stores : (s : List ℕ) → Stores (str_write s) (encode_str s)
unfolding str_write
str_write-Stores s = after-Stores _ _ _ _ (store-Stores (htob16 (length s))) (store-Stores s)

mutual
  unfolding value_write encode IsValue

  pub value_write-Stores : (v : Value) → IsValue v → Stores (value_write v) (encode v)
  value_write-Stores (value type p) good =
      after-Stores (store (type ∷ [])) _ (type ∷ []) _ (store-Stores (type ∷ [])) λ walker.
        let known : leb 13 type ≡ false = ground (arith, type-bound type p good) in
        rw known (pointee_write-Stores type p good walker)

  pointee_write-Stores :
      (type : ℕ) (p : Pointee) → IsPointee type p → Stores (pointee_write type p) (encode_pointee p)
  pointee_write-Stores type null_pointer good buf =
      let table : (leb 4 type && leb type 7) ≡ true = ground arith in
      (λ room. rw table refl, λ short. absurd (omega arith))
  pointee_write-Stores type (dbl bytes) good buf = rw good.0 (store-Stores (rns_reverse bytes) buf)
  pointee_write-Stores type (ui8 b) good buf = rw good (store-Stores (b ∷ []) buf)
  pointee_write-Stores type (str s) good buf = rw good.0 (str_write-Stores s buf)
  pointee_write-Stores type (obj ps) good buf = rw good.0 (obj_write-Stores ps good.1 buf)
  pointee_write-Stores type (ecma size ps) good buf =
      rw good.0 (after-Stores _ _ _ _ (store-Stores (htob32 size)) (obj_write-Stores ps good.2) buf)

  obj_write-Stores :
      (ps : Properties) → IsProperties ps → Stores (obj_write ps) (encode_properties ps)
  obj_write-Stores no_properties good buf = store-Stores (0 ∷ 0 ∷ 9 ∷ []) buf
  obj_write-Stores (property name v ps) good buf =
      after-Stores _ _ _ _
        (after-Stores _ _ _ _ (str_write-Stores name) (value_write-Stores v good.1))
        (obj_write-Stores ps good.2) buf
