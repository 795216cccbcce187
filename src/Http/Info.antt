-- ===== src/Http/Info.antt =====
-- lib_src/transport/rns_http.c, rns_http_info_read: how a request or a response is read.
pub mod FirstLine
pub mod Fields
pub mod Reader
pub mod Places
pub mod Line
pub mod Ordering
pub mod Headers
pub mod Requests
use yclib.Base.{
  allocated, rest_of, ℕ, zero, suc, ◌+◌, ◌-◌, Bool, true, false, ◌&&◌, ◌||◌, not, Option, none,
  some, List, [], ◌∷◌, ◌++◌, ltb, leb, ◌==◌, if◌then◌else◌, ◌>>=◌, u32, sub32, length, take, drop,
}
use yclib.Network.{hex2dec}
use yclib.Rbt.Keys.{str_lt}
use yclib.Http.Text.{strchr, strstr, starts_with, skip_blanks, atoi}
use yclib.Http.{split_key_value}

-- RNS_HTTP_INFO_STATE_
pub data InfoState : Type 0 where
  info_init info_code info_method info_uri info_args info_header info_chunk info_body info_done
        info_error :
      InfoState

-- A node of a tree of arguments or headers: a key, which may be NULL, and a value
abbrev pub Item : Type 0
Item = Option (List ℕ) × List ℕ

-- `rns_http_info_t`, with the items of the trees in the order in which they come
pub record Info : Type 0 where
  pub state : InfoState
  pub code : ℕ
  pub method : ℕ
  pub uri : Option (List ℕ)
  pub args : List Item
  pub headers : List Item
  pub chunk : Bool
  pub chunksize : ℕ
  pub total_size : ℕ
  pub curr_size : ℕ
  pub body_size : ℕ

-- The two `tune` of a connection and which one is read, and the outcomes of the allocations to come
pub record Reading : Type 0 where
  pub request : Info
  pub response : Info
  pub of_response : Bool
  pub memory : List Bool

abbrev pub info_of : Reading → Info
info_of r = if r.of_response then r.response else r.request

abbrev pub set_info : Info → Reading → Reading
set_info info r =
    if r.of_response then record r { response = info } else record r { request = info }

abbrev pub in_state : InfoState → Reading → Reading
in_state s r = set_info (record (info_of r) { state = s }) r

-- What the memory has from `walker` on, how far it is from `buf`, and where `line` is; the loop starts
-- with a `line` before all memory.
pub record At : Type 0 where
  pub walker : List ℕ
  pub walked : ℕ
  pub line : Option ℕ

pub data Round : Type 0 where
  goes : Reading → At → Round
  returns : Reading → ℕ → Round

-- The text at a pointer, up to its NUL; `none` says that there is none.
abbrev pub text_of : List ℕ → Option (List ℕ)
text_of [] = none
text_of (b ∷ memory) =
    let rest = text_of memory >>= λ text. some (b ∷ text) in if b == 0 then some [] else rest

abbrev pub crlf : List ℕ
crlf = 13 ∷ 10 ∷ []

abbrev pub blank : List ℕ
blank = 32 ∷ []

-- "HTTP"
abbrev pub http : List ℕ
http = 72 ∷ 84 ∷ 84 ∷ 80 ∷ []

abbrev pub advance : ℕ → At → At
advance n at = record at { walker = drop n at.walker; walked = at.walked + n }

abbrev pub over_blanks : At → At
over_blanks at = advance (length at.walker - length (skip_blanks at.walker)) at

-- `ptr > line` for a place that is `n` bytes behind `walker`
abbrev pub behind_line : At → ℕ → Bool
behind_line at n = elim at.line [ none ↦ true | some line ↦ ltb line (at.walked + n) ]

-- The place of `sub`, where it is not behind the line
abbrev pub in_line : List ℕ → List ℕ → At → Option ℕ
in_line sub text at = strstr sub text >>= λ n. if behind_line at n then none else some n

abbrev pub fails : Reading → At → Option Round
fails r at = some (goes (in_state info_error r) at)

abbrev pub to_line : ℕ → At → At
to_line line at = advance (line + 2 - at.walked) at

-- The allocations of `rns_split_key_value`
abbrev pub behind_split : List ℕ → ℕ → List Bool → List Bool
behind_split text delim memory =
    if allocated memory
    then elim (strchr delim text) [
      | none ↦ rest_of memory
      | some n ↦ rest_of (rest_of (rest_of memory))
    ]
    else rest_of memory

-- A tree of texts is given by its items in their order, which the balancing does not change. `rbt_insert`
-- puts an item before the first one whose key is greater by `strcmp`; a comparison with a key that
-- is NULL is undefined.
abbrev pub placed : List ℕ → List ℕ → List Item → Option (List Item)
placed key value [] = some ((some key, value) ∷ [])
placed key value ((none, held) ∷ items) = none
placed key value ((some other, held) ∷ items) =
    let further = placed key value items >>= λ rest. some ((some other, held) ∷ rest) in
    if str_lt key other then some ((some key, value) ∷ (some other, held) ∷ items) else further

abbrev pub inserted : Item → List Item → Option (List Item)
inserted (none, value) [] = some ((none, value) ∷ [])
inserted (none, value) (first ∷ items) = none
inserted (some key, value) items = placed key value items
