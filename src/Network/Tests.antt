-- ===== src/Network/Tests.antt =====
-- lib_src/util/rns_network.c on concrete bytes.
use yclib.Base.{ℕ, List, ◌≡◌, some, [], ◌∷◌, ◌++◌, ◌<◌, ◌^◌}
use yclib.Network.{btoh32, btoh24, btoh16, htob32, htob24, htob16}
use yclib.Network.Order.{btoh-htob}
use yclib.Network.Address.{ip_type, url_type_ip}
use yclib.Network.Address.Fields.{ip_type-fields}

btoh-htob_example :
    (258 < 2 ^ 32 → btoh32 (htob32 258 ++ 7 ∷ []) ≡ some 258)
    × (258 < 2 ^ 24 → btoh24 (htob24 258 ++ 7 ∷ []) ≡ some 258)
    × (258 < 2 ^ 16 → btoh16 (htob16 258 ++ 7 ∷ []) ≡ some 258)
btoh-htob_example = btoh-htob 258 (7 ∷ [])

-- the text "10.0.0.255"
abbrev address : List ℕ
address = 49 ∷ 48 ∷ 46 ∷ 48 ∷ 46 ∷ 48 ∷ 46 ∷ 50 ∷ 53 ∷ 53 ∷ []

ip_type-fields_example : ip_type address 10 ≡ some url_type_ip
ip_type-fields_example = ip_type-fields address
