-- ===== src/Rtmp/Amf/Reading.antt =====
-- lib_src/transport/rns_rtmp.c: the read functions of script data on the bytes of a value.
use mathlib.Core.List.{append_assoc}
use yclib.Base.{
  ℕ, zero, suc, ◌+◌, ◌*◌, ◌^◌, ◌≤◌, ◌<◌, ◌≡◌, ◌≢◌, refl, ap, ◌∙◌, Bool, true, false, some, List, [],
  ◌∷◌, ◌++◌, arith, length, drop, take, ltb, leb, u32, masks, length-append, drop-append_length,
  take-append_length,
}
use yclib.Network.{htob16, htob32}
use yclib.Network.Order.{btoh-htob}
use yclib.Network.Reverse.{rns_reverse, rns_reverse-eight}
use yclib.Rtmp.Amf.{
  Value, Pointee, Properties, value, null_pointer, dbl, ui8, str, obj, ecma, no_properties,
  property, Site, Outcome, made, keep, at_end, dbl_read, str_read, value_read, pointee_read,
  ecma_read, obj_read, obj_loop, objppt_read,
}
use yclib.Rtmp.Amf.Encoding.{
  encode, encode_pointee, encode_properties, encode_str, IsValue, IsPointee, IsProperties,
  type-bound, lengths,
}

pub reverse_twice :
    (bytes rest : List ℕ)
    → length bytes ≡ 8
    → (rns_reverse (take 8 (rns_reverse bytes ++ rest)) ≡ bytes) × (length (rns_reverse bytes) ≡ 8)
reverse_twice (a ∷ b ∷ c ∷ d ∷ e ∷ f ∷ g ∷ h ∷ []) rest eight = (
  rw (rns_reverse-eight a b c d e f g h) (rns_reverse-eight h g f e d c b a),
  rw (rns_reverse-eight a b c d e f g h) refl,
)
reverse_twice (a ∷ b ∷ c ∷ d ∷ e ∷ f ∷ g ∷ h ∷ i ∷ more) rest eight = absurd (omega arith)
reverse_twice _ rest eight = absurd (omega arith)

pub front16 :
    (d : ℕ) (rest : List ℕ)
    → (drop 2 (htob16 d ++ rest) ≡ rest) × (ltb (length (htob16 d ++ rest)) 2 ≡ false)
unfolding htob16
front16 d rest = (refl, ground arith)

front32 :
    (d : ℕ) (rest : List ℕ)
    → (drop 4 (htob32 d ++ rest) ≡ rest) × (ltb (length (htob32 d ++ rest)) 4 ≡ false)
unfolding htob32
front32 d rest = (refl, ground arith)

some_bytes : (v : Value) → 0 < length (encode v)
unfolding encode
some_bytes (value type p) = omega arith

-- A property never looks like the end of the object.
not_end :
    (a b c : ℕ) (rest : List ℕ) → (a ≡ 0 → b ≡ 0 → c ≢ 9) → at_end (a ∷ b ∷ c ∷ rest) ≡ some false
unfolding at_end
not_end (suc a) b c rest differs = refl
not_end zero (suc b) c rest differs = refl
not_end zero zero c rest differs = ground (arith, differs refl refl)

at_end-property :
    (name : List ℕ) (v : Value) (rest : List ℕ)
    → length name < 2 ^ 16
    → IsValue v
    → at_end (encode_str name ++ (encode v ++ rest)) ≡ some false
unfolding encode htob16 IsValue
at_end-property [] (value type p) rest small good =
    not_end 0 0 type (encode_pointee p ++ rest) λ a b. ground (arith, type-bound type p good)
at_end-property (n ∷ name) v rest small good =
    not_end _ _ n (name ++ (encode v ++ rest)) λ a b. λ e. absurd (omega (arith, masks))

module _ (mem : Site → ℕ → Bool) (allocates : (site : Site) (left : ℕ) → mem site left ≡ true) where
  pub str_read-encode :
      (s rest : List ℕ)
      → length s < 2 ^ 16
      → str_read mem (encode_str s ++ rest) ≡ made s (length (encode_str s))
  unfolding str_read
  str_read-encode s rest small =
      let (behind, long) = front16 (length s) (s ++ rest) in
      let reads = (btoh-htob (length s) (s ++ rest)).2 small in
      let room : ltb (length (s ++ rest)) (length s) ≡ false =
        ground (arith, length-append s rest) in
      rw
        (
          append_assoc (htob16 (length s)) s rest,
          allocates,
          long,
          reads,
          behind,
          room,
          allocates,
          take-append_length s rest,
        )
        (ap (made s) (omega lengths))

  dbl_read-encode :
      (bytes rest : List ℕ)
      → length bytes ≡ 8
      → dbl_read mem (rns_reverse bytes ++ rest) ≡ made (dbl bytes) 8
  unfolding dbl_read
  dbl_read-encode bytes rest eight =
      let both = reverse_twice bytes rest eight in
      let long : ltb (length (rns_reverse bytes ++ rest)) 8 ≡ false =
        ground (arith, length-append (rns_reverse bytes) rest, both.1) in
      rw (allocates, long, both.0) refl

  -- From `bound` units of fuel on, `read` takes `bytes` off the front of any input.
  abbrev Reads {ℓ} : {A : Type ℓ} → (ℕ → List ℕ → Outcome A) → ℕ → List ℕ → A → Type ℓ
  Reads read bound bytes a =
      (rest : List ℕ) (f : ℕ)
      → length bytes < 2 ^ 32
      → bound ≤ f
      → read f (bytes ++ rest) ≡ made a (length bytes)

  loop_round :
      (f : ℕ) (buf name : List ℕ) (v : Value) (ps : Properties) (bytes more : ℕ)
      → at_end buf ≡ some false
      → objppt_read mem f buf ≡ made (name, v) bytes
      → obj_loop mem f (drop bytes buf) ≡ made ps more
      → obj_loop mem (suc f) buf ≡ made (property name v ps) (u32 (bytes + more))
  unfolding obj_loop
  loop_round f buf name v ps bytes more goes_on first others = rw (goes_on, first, others) refl

  mutual
    unfolding value_read encode IsValue

    pub value_Reads :
        (v : Value) → IsValue v → Reads (value_read mem) (5 * length (encode v)) (encode v) v
    value_Reads (value type p) good rest zero fits enough = absurd (omega arith)
    value_Reads (value type p) good rest (suc f) fits enough =
        let known : leb 13 type ≡ false = ground (arith, type-bound type p good) in
        let inside = pointee_Reads type p good rest f (omega arith) (omega arith) in
        rw (allocates, known, inside) (ap (made (value type p)) (omega arith))

    pointee_Reads :
        (type : ℕ) (p : Pointee)
        → IsPointee type p
        → (rest : List ℕ) (f : ℕ) → length (encode_pointee p) < 2 ^ 32
        → 5 * length (encode_pointee p) + 4 ≤ f
        → keep type (pointee_read mem f type (encode_pointee p ++ rest))
          ≡ made (value type p) (u32 (1 + length (encode_pointee p)))
    pointee_Reads type p good rest zero fits enough = absurd (omega arith)
    pointee_Reads type null_pointer good rest (suc f) fits enough = ground arith
    pointee_Reads type (dbl bytes) good rest (suc f) fits enough =
        rw (good.0, dbl_read-encode bytes rest good.1, (reverse_twice bytes rest good.1).1) refl
    pointee_Reads type (ui8 b) good rest (suc f) fits enough = rw (good, allocates) refl
    pointee_Reads type (str s) good rest (suc f) fits enough =
        rw (good.0, str_read-encode s rest good.1) refl
    pointee_Reads type (obj ps) good rest (suc f) fits enough =
        rw (good.0, obj_Reads ps good.1 rest f fits (omega arith)) refl
    pointee_Reads type (ecma size ps) good rest (suc f) fits enough =
        rw (good.0, ecma_Reads size ps good.1 good.2 rest f (omega lengths) (omega lengths)) refl

    ecma_Reads :
        (size : ℕ) (ps : Properties)
        → size < 2 ^ 32
        → IsProperties ps
        → Reads
            (ecma_read mem)
            (5 * length (htob32 size ++ encode_properties ps) + 3)
            (htob32 size ++ encode_properties ps)
            (ecma size ps)
    ecma_Reads size ps small good rest zero fits enough = absurd (omega arith)
    ecma_Reads size ps small good rest (suc f) fits enough =
        let tail = encode_properties ps ++ rest in
        let inside = obj_Reads ps good rest f (omega lengths) (omega lengths) in
        let (behind, long) = front32 size tail in
        let reads = (btoh-htob size tail).0 small in
        rw
          (
            append_assoc (htob32 size) (encode_properties ps) rest,
            allocates,
            long,
            reads,
            behind,
            inside,
          )
          (ap (made (ecma size ps)) (omega lengths))

    obj_Reads :
        (ps : Properties)
        → IsProperties ps
        → Reads (obj_read mem) (5 * length (encode_properties ps) + 3) (encode_properties ps) ps
    obj_Reads ps good rest zero fits enough = absurd (omega arith)
    obj_Reads ps good rest (suc f) fits enough =
        rw (allocates, loop_Reads ps good rest f fits (omega arith)) refl

    loop_Reads :
        (ps : Properties)
        → IsProperties ps
        → Reads (obj_loop mem) (5 * length (encode_properties ps) + 2) (encode_properties ps) ps
    loop_Reads ps good rest zero fits enough = absurd (omega arith)
    loop_Reads no_properties good rest (suc f) fits enough = refl
    loop_Reads (property name v ps) good rest (suc f) fits enough =
        let first =
          objppt_Reads name v good.0 good.1 (encode_properties ps ++ rest) f (omega lengths)
            (omega lengths) in
        let others = loop_Reads ps good.2 rest f (omega lengths) (omega (lengths, some_bytes v)) in
        let goes_on = at_end-property name v (encode_properties ps ++ rest) good.0 good.1 in
        let three = encode_str name ++ encode v in
        let more = encode_properties ps ++ rest in
        ap (obj_loop mem (suc f)) (append_assoc three (encode_properties ps) rest)
        ∙ loop_round f (three ++ more) name v ps (length three) (length (encode_properties ps))
            (ap at_end (append_assoc (encode_str name) (encode v) more) ∙ goes_on) first
            (ap (obj_loop mem f) (drop-append_length three more) ∙ others)
        ∙ ap (made (property name v ps)) (omega lengths)

    objppt_Reads :
        (name : List ℕ) (v : Value)
        → length name < 2 ^ 16
        → IsValue v
        → Reads
            (objppt_read mem)
            (5 * length (encode_str name ++ encode v) + 1)
            (encode_str name ++ encode v)
            (name, v)
    objppt_Reads name v small good rest zero fits enough = absurd (omega arith)
    objppt_Reads name v small good rest (suc f) fits enough =
        let named = str_read-encode name (encode v ++ rest) small in
        let valued = value_Reads v good rest f (omega lengths) (omega lengths) in
        rw
          (
            allocates,
            append_assoc (encode_str name) (encode v) rest,
            named,
            drop-append_length (encode_str name) (encode v ++ rest),
            valued,
          )
          (ap (made (name, v)) (omega lengths))
