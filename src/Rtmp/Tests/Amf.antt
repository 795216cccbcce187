-- ===== src/Rtmp/Tests/Amf.antt =====
-- Script data values of lib_src/transport/rns_rtmp.c at concrete inputs.
use yclib.Base.{ℕ, ◌≡◌, ◌≤◌, ◌<◌, refl, Bool, true, none, some, List, [], ◌∷◌, ◌++◌, arith, length}
use yclib.Network.{htob16}
use yclib.Network.Reverse.{rns_reverse}
use yclib.Rtmp.Amf.{
  Value, value, null_pointer, dbl, ui8, str, obj, no_properties, property, Site, made, null, fault,
  value_read, value_write,
}
use yclib.Rtmp.Amf.Encoding.{encode, IsValue}
use yclib.Rtmp.Amf.RoundTrip.{value_read-write, value_write-encode}

abbrev enough_memory : Site → ℕ → Bool
enough_memory site left = true

-- {"app": "live", "fpad": false, "capabilities": 239, "videoFunction": null}
abbrev connect_object : Value
connect_object = value 3 (
    obj (
      property (97 ∷ 112 ∷ 112 ∷ []) (value 2 (str (108 ∷ 105 ∷ 118 ∷ 101 ∷ []))) (
        property (102 ∷ 112 ∷ 97 ∷ 100 ∷ []) (value 1 (ui8 0)) (
          property (99 ∷ 97 ∷ 112 ∷ []) (value 0 (dbl (0 ∷ 0 ∷ 0 ∷ 0 ∷ 0 ∷ 224 ∷ 109 ∷ 64 ∷ [])))
            (property (118 ∷ 102 ∷ []) (value 5 null_pointer) no_properties)))))

connect_object-IsValue : IsValue connect_object
unfolding IsValue
connect_object-IsValue = ground arith

abbrev room : List ℕ
room =
    0 ∷ 0 ∷ 0 ∷ 0 ∷ 0 ∷ 0 ∷ 0 ∷ 0 ∷ 0 ∷ 0 ∷ 0 ∷ 0 ∷ 0 ∷ 0 ∷ 0 ∷ 0 ∷ 0 ∷ 0 ∷ 0 ∷ 0 ∷ 0 ∷ 0 ∷ 0 ∷ 0
    ∷ 0 ∷ 0 ∷ 0 ∷ 0 ∷ 0 ∷ 0 ∷ 0 ∷ 0 ∷ 0 ∷ 0 ∷ 0 ∷ 0 ∷ 0 ∷ 0 ∷ 0 ∷ 0 ∷ 0 ∷ 0 ∷ 0 ∷ 0 ∷ 0 ∷ 0 ∷ 0 ∷ 0
    ∷ []

value_read-write_example :
    (bytes behind : List ℕ) × (value_write connect_object room ≡ some (bytes, behind))
    × (value_read enough_memory 300 (bytes ++ 7 ∷ []) ≡ made connect_object (length bytes))
unfolding encode htob16 rns_reverse
value_read-write_example =
    value_read-write enough_memory connect_object room (7 ∷ []) 300 (λ site left. refl)
      connect_object-IsValue (omega arith) (omega arith) (omega arith)

-- The null value of type 5 in a buffer of three bytes
value_write-encode_example :
    (1 ≤ 3 → value_write (value 5 null_pointer) (8 ∷ 8 ∷ 8 ∷ []) ≡ some (5 ∷ [], 8 ∷ 8 ∷ []))
    × (3 < 1 → value_write (value 5 null_pointer) (8 ∷ 8 ∷ 8 ∷ []) ≡ none)
unfolding encode IsValue
value_write-encode_example =
    value_write-encode (value 5 null_pointer) (8 ∷ 8 ∷ 8 ∷ []) (omega arith, omega arith)

-- The types from 9 to 12 lie beyond the tables, and the type of a value from 13 on is refused.
types_beyond :
    (value_read enough_memory 9 (11 ∷ 0 ∷ []) ≡ fault)
    × (value_read enough_memory 9 (13 ∷ 0 ∷ []) ≡ null 2)
unfolding value_read
types_beyond = (refl, refl)
