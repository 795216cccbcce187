-- ===== src/Network/Address.antt =====
-- lib_src/util/rns_network.c, rns_ip_type: whether a text is an address in figures or a name.
pub mod Fields
use yclib.Base.{
  ℕ, zero, suc, ◌+◌, ◌≡◌, refl, Bool, ◌&&◌, ◌||◌, Option, none, some, List, [], ◌∷◌, ltb, leb, ◌==◌,
  if◌then◌else◌,
}

-- `isdigit`
abbrev pub is_digit : ℕ → Bool
is_digit c = leb 48 c && leb c 57

-- RNS_URL_TYPE_IP and RNS_URL_TYPE_DOMAIN
abbrev pub url_type_ip : ℕ
url_type_ip = 0

abbrev pub url_type_domain : ℕ
url_type_domain = 1

-- The loop, with `size` bytes from `walker` on: the digits since the last point and the points.
unfoldable pub ip_loop : ℕ → List ℕ → ℕ → ℕ → Option ℕ
ip_loop zero walker len count = some url_type_ip
ip_loop (suc size) [] len count = none
ip_loop (suc size) (c ∷ walker) len count =
    let after_point = ip_loop size walker 0 (suc count) in
    let after_digit = ip_loop size walker (suc len) count in
    if c == 46 || is_digit c
    then (if c == 46
        then (if ltb 3 len
            then some url_type_domain
            else if ltb 3 (suc count)
            then some url_type_domain
            else after_point)
        else if ltb 3 (suc len)
        then some url_type_domain
        else after_digit)
    else some url_type_domain

unfoldable pub ip_type : List ℕ → ℕ → Option ℕ
unfolding ip_loop
ip_type ip size = ip_loop size ip 0 0
