-- ===== src/Hash/Tests.antt =====
-- lib_src/util/rns_hash.c at concrete inputs.
use yclib.Base.{◌≡◌, ◌<◌, some, [], ◌∷◌, arith}
use yclib.Hash.{hash_str, hash_str-polynomial}

-- "ab"
hash_str-polynomial_example : (hash_str (97 ∷ 98 ∷ []) 100 ≡ some 5) × (5 < 100)
hash_str-polynomial_example = hash_str-polynomial (97 ∷ 98 ∷ []) 100 (omega arith)
