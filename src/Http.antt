-- ===== src/Http.antt =====
-- lib_src/transport/rns_http.c and lib_src/util/rns_memory.c: addresses of pages, ranges, and pairs of a
-- key and a value.
mod Tests
pub mod Text
pub mod Parts
pub mod Fields
pub mod Info
use yclib.Base.{
  allocated, rest_of, ℕ, zero, suc, ◌+◌, ◌-◌, Bool, true, false, Option, none, some, List, [], ◌∷◌,
  ◌++◌, ltb, leb, ◌==◌, ◌||◌, not, if◌then◌else◌, ◌>>=◌, length, take, drop,
}
use yclib.Http.Text.{strchr, strstr, skip_blanks, atoi}

-- `rns_http_url_t`; the tree of arguments stays empty.
pub record Url : Type 0 where
  pub uri : List ℕ
  pub addr : List ℕ
  pub port : ℕ

-- Where the name of the host ends; `none` is a read behind the text.
abbrev pub host_end : List ℕ → Option ℕ
host_end [] = none
host_end (b ∷ text) =
    let rest = host_end text >>= λ n. some (suc n) in if b == 58 || b == 47 then some 0 else rest

-- The port behind the host, or 80, and what follows it; the inner `none` stands for NULL. The array `port`
-- has eight bytes, and `noise` is what it holds before.
abbrev pub read_port : List ℕ → List ℕ → Option (Option (ℕ × List ℕ))
read_port noise [] = none
read_port noise (b ∷ behind) =
    if b == 58
    then elim (strchr 47 behind) [
      | none ↦ some none
      | some n ↦
          if ltb 8 n
          then some none
          else atoi (take 8 (take n behind ++ drop n noise)) >>= λ port.
              some (some (port, drop n behind))
    ]
    else some (some (80, b ∷ behind))

abbrev pub uri_of : List ℕ → List ℕ
uri_of text = elim (strchr 63 text) [ none ↦ text | some n ↦ take n text ]

-- What is left to do once the port is read
abbrev pub with_uri : List Bool → List ℕ → Option (ℕ × List ℕ) → Option Url
with_uri memory addr none = none
with_uri memory addr (some (port, text)) =
    if allocated memory then some (record { uri = uri_of text; addr = addr; port = port }) else none

-- What is left to do with a host of `n` bytes
abbrev pub with_host : List Bool → List ℕ → List ℕ → ℕ → Option (Option Url)
with_host memory noise host n =
    if ltb 128 n || not (allocated memory)
    then some none
    else read_port noise (drop n host) >>= λ found.
        some (with_uri (rest_of memory) (take n host) found)

-- `rns_http_url_create`: `none` is an access that C leaves undefined, and the inner `none` NULL. The list
-- has the outcomes of the allocations to come.
unfoldable pub url_create : List Bool → List ℕ → List ℕ → Option (Option Url)
url_create memory noise url =
    if allocated memory
    then elim (strstr (47 ∷ 47 ∷ []) url) [
      | none ↦ some none
      | some scheme ↦
          let host = drop (scheme + 2) url in
          host_end host >>= with_host (rest_of memory) noise host
    ]
    else some none

-- The end of a range, where the text goes on behind the dash
abbrev pub read_end : ℕ → List ℕ → ℕ → Option (ℕ × ℕ × ℕ)
read_end end [] first = some (0, first, end)
read_end end (b ∷ text) first = atoi ((b ∷ text) ++ 0 ∷ []) >>= λ last. some (0, first, last)

-- `rns_hconn_header_range`, of the text of the header Range, if there is one: the result, without its
-- sign, and what is at `start` and `end` behind the call.
unfoldable pub header_range : List Bool → Option (List ℕ) → ℕ → ℕ → Option (ℕ × ℕ × ℕ)
header_range memory none start end = some (1, start, end)
header_range memory (some text) start end = elim (strchr 61 text) [
  | none ↦ some (2, start, end)
  | some n ↦
      let behind = drop (suc n) text in
      if leb (length text) (n + 1) then some (2, start, end) else elim (strchr 45 behind) [
        | none ↦ some (3, start, end)
        | some m ↦
            if allocated memory
            then atoi (take m behind ++ 0 ∷ []) >>= read_end end (drop (suc m) behind)
            else some (4, start, end)
      ]
]

-- `rns_split_key_value`: the key, which is NULL where it cannot be allocated, and the value, or NULL
unfoldable pub split_key_value : List Bool → List ℕ → ℕ → Option (Option (List ℕ) × List ℕ)
split_key_value memory text delim =
    if allocated memory
    then elim (strchr delim text) [
      | none ↦ none
      | some n ↦
          let key = if allocated (rest_of memory) then some (take n text) else none in
          if allocated (rest_of (rest_of memory))
          then some (key, skip_blanks (drop (suc n) text))
          else none
    ]
    else none
