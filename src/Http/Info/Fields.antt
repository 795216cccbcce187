-- ===== src/Http/Info/Fields.antt =====
-- lib_src/transport/rns_http.c, rns_http_info_read: the state of the headers.
use yclib.Base.{
  Bool, false, true, ◌&&◌, allocated, rest_of, ℕ, ◌+◌, ◌||◌, Option, none, some, List, [], ◌∷◌,
  ◌++◌, ◌==◌, if◌then◌else◌, ◌>>=◌, take,
}
use yclib.Http.Text.{strstr, starts_with, atoi}
use yclib.Http.{split_key_value}
use yclib.Http.Info.{
  Info, Item, Reading, At, Round, goes, returns, info_header, info_chunk, info_body, info_of,
  set_info, text_of, crlf, advance, over_blanks, fails, behind_split, inserted,
}

-- "Content-Length" and the 14 bytes of "Transfer-Encoding" that are compared
abbrev pub length_name : List ℕ
length_name = 67 ∷ 111 ∷ 110 ∷ 116 ∷ 101 ∷ 110 ∷ 116 ∷ 45 ∷ 76 ∷ 101 ∷ 110 ∷ 103 ∷ 116 ∷ 104 ∷ []

abbrev pub coding_name : List ℕ
coding_name = 84 ∷ 114 ∷ 97 ∷ 110 ∷ 115 ∷ 102 ∷ 101 ∷ 114 ∷ 45 ∷ 69 ∷ 110 ∷ 99 ∷ 111 ∷ 100 ∷ []

-- A line of a header, without which the information stays as it is
abbrev pub with_header : Option Item → Info → Option Info
with_header none info = some info
with_header (some (none, value)) info = none
with_header (some (some key, value)) info =
    (if starts_with length_name key then atoi (value ++ 0 ∷ []) else some info.total_size)
    >>= λ size. inserted (some key, value) info.headers >>= λ items. some (record info {
      total_size = size;
      chunk = info.chunk || starts_with coding_name key;
      headers = items;
    })

-- Whether the end of a line follows; `none` is a read outside the memory.
abbrev pub crlf_ahead : List ℕ → Option Bool
crlf_ahead [] = none
crlf_ahead (a ∷ []) = if a == 13 then none else some false
crlf_ahead (a ∷ b ∷ more) = some (a == 13 && b == 10)

-- Behind the line of a header: the next one, or the body
abbrev pub header_end : Info → Reading → At → Bool → Option Round
header_end info r at false = some (goes (set_info (record info { state = info_header }) r) at)
header_end info r at true = some (
    goes (set_info (record info { state = if info.chunk then info_chunk else info_body }) r)
      (advance 2 at))

abbrev pub behind_header : Info → Reading → At → Option Round
behind_header info r at = let on = over_blanks at in crlf_ahead on.walker >>= header_end info r on

abbrev pub header_found : Reading → At → List ℕ → Option ℕ → Option Round
header_found r at text none = some (returns r at.walked)
header_found r at text (some n) =
    let on = record at { line = some (at.walked + n) } in
    let memory = rest_of r.memory in
    let s = record r { memory = behind_split (take n text) 58 memory } in
    let failed = fails (record r { memory = memory }) on in
    let done = with_header (split_key_value memory (take n text) 58) (info_of r) >>= λ info.
    behind_header info s (advance (n + 2) on) in
    if allocated r.memory then done else failed

abbrev pub read_header : Reading → At → Option Round
read_header r at = text_of at.walker >>= λ text. header_found r at text (strstr crlf text)
