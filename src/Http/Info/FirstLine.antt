-- ===== src/Http/Info/FirstLine.antt =====
-- lib_src/transport/rns_http.c, rns_http_info_read: the states of the first line.
use yclib.Base.{
  allocated, rest_of, ℕ, zero, suc, ◌+◌, ◌-◌, Bool, true, false, ◌&&◌, ◌||◌, not, Option, none,
  some, List, [], ◌∷◌, ltb, leb, ◌==◌, if◌then◌else◌, ◌>>=◌, take, drop,
}
use yclib.Http.Text.{strstr, starts_with, atoi}
use yclib.Http.{split_key_value}
use yclib.Http.Info.{
  Info, Item, Reading, At, Round, goes, returns, info_code, info_method, info_uri, info_args,
  info_header, info_of, set_info, in_state, text_of, crlf, blank, http, advance, over_blanks,
  in_line, fails, to_line, behind_split, inserted,
}

-- The first word of a line, if a blank is found behind it
abbrev pub word_found : Reading → At → List ℕ → Option ℕ → Option Round
word_found r at text none = fails r at
word_found r at text (some m) =
    if starts_with http text
    then some (goes (in_state info_code (record r { of_response = true })) (advance (m + 1) at))
    else some (goes (in_state info_method (record r { of_response = false })) at)

abbrev pub first_word : Reading → At → Option Round
first_word r at = text_of at.walker >>= λ text. word_found r at text (in_line blank text at)

abbrev pub line_found : ℕ → Reading → At → Option ℕ → Option Round
line_found size r at none = some (returns r at.walked)
line_found size r at (some n) =
    if ltb size (at.walked + n)
    then some (returns r at.walked)
    else first_word r (over_blanks (record at { line = some (at.walked + n) }))

abbrev pub read_init : ℕ → Reading → At → Option Round
read_init size r at = text_of at.walker >>= λ text. line_found size r at (strstr crlf text)

abbrev pub read_code : Reading → At → Option Round
read_code r at =
    let on = over_blanks at in
    text_of on.walker >>= λ text. elim (in_line blank text on) [
      | none ↦ fails r on
      | some m ↦ on.line >>= λ line. atoi on.walker >>= λ code. some (
          goes (set_info (record (info_of r) { code = code; state = info_header }) r)
            (to_line line on))
    ]

-- `!rns_strncmp(text, name, n)`, for a text that has a byte other than NUL at each place below `n`
abbrev pub same_start : ℕ → List ℕ → List ℕ → Bool
same_start zero text name = true
same_start (suc n) (a ∷ text) (b ∷ name) = a == b && same_start n text name
same_start (suc n) [] [] = true
same_start (suc n) _ _ = false

-- "POST" and "GET"
abbrev pub post_name : List ℕ
post_name = 80 ∷ 79 ∷ 83 ∷ 84 ∷ []

abbrev pub get_name : List ℕ
get_name = 71 ∷ 69 ∷ 84 ∷ []

-- RNS_HTTP_METHOD_POST, which both methods get
abbrev pub method_found : Reading → At → List ℕ → Option ℕ → Option Round
method_found r at text none = fails r at
method_found r at text (some m) =
    if same_start m text post_name || same_start m text get_name
    then some (
        goes (set_info (record (info_of r) { method = 1; state = info_uri }) r)
          (advance (m + 1) at))
    else fails r at

abbrev pub method_word : Reading → At → Option Round
method_word r at = text_of at.walker >>= λ text. method_found r at text (in_line blank text at)

abbrev pub read_method : Reading → At → Option Round
read_method r at = method_word r (over_blanks at)

-- `while(*(ptr - 1) == ' ')--ptr`, inside the text
abbrev pub trimmed : List ℕ → ℕ
trimmed [] = 0
trimmed (b ∷ text) = let n = trimmed text in if n == 0 then (if b == 32 then 0 else 1) else suc n

-- The end of the last part: before the version and its blanks, or with the line
abbrev pub last_end : List ℕ → ℕ → At → Option ℕ → ℕ
last_end text line at none = trimmed (take (line - at.walked) text)
last_end text line at (some n) = trimmed (take n text)

-- Where a part of the first line ends, if a separator is found; the test says whether it is.
abbrev pub end_found : List ℕ → ℕ → At → Option ℕ → ℕ × Bool
end_found text line at none = (last_end text line at (in_line http text at), false)
end_found text line at (some n) = (n, true)

abbrev pub part_end : List ℕ → List ℕ → ℕ → At → ℕ × Bool
part_end separator text line at = end_found text line at (in_line separator text at)

-- What follows a part: another one, if the separator stands there, or the headers
abbrev pub after_place : ℕ → ℕ → ℕ → Info → Reading → At → List ℕ → Option Round
after_place separator n line info r at [] = none
after_place separator n line info r at (b ∷ rest) =
    if b == separator
    then some (goes (set_info (record info { state = info_args }) r) (advance (n + 1) at))
    else some (goes (set_info (record info { state = info_header }) r) (to_line line at))

abbrev pub after_part : ℕ → ℕ → ℕ → Info → Reading → At → Option Round
after_part separator n line info r at = after_place separator n line info r at (drop n at.walker)

-- The path is kept where memory for it is there.
abbrev pub kept_uri : ℕ → List ℕ → ℕ × Bool → Reading → At → Option Round
kept_uri line text (n, more) r at =
    let s = record r { memory = rest_of r.memory } in
    if n == 0 && not more
    then none
    else if allocated r.memory
    then after_part 63 n line (record (info_of r) { uri = some (take n text) }) s at
    else fails (set_info (record (info_of r) { uri = none }) s) at

-- A path of blanks only is undefined: the blanks before it are passed over backwards as well.
abbrev pub path_word : ℕ → Reading → At → Option Round
path_word line r at =
    text_of at.walker >>= λ text. kept_uri line text (part_end (63 ∷ []) text line at) r at

abbrev pub uri_at : Reading → At → Option ℕ → Option Round
uri_at r at none = fails r at
uri_at r at (some line) = if leb line at.walked then fails r at else path_word line r at

abbrev pub read_uri : Reading → At → Option Round
read_uri r at = let on = over_blanks at in uri_at r on on.line

abbrev pub with_arg : Option Item → Info → Option Info
with_arg none info = some info
with_arg (some item) info = inserted item info.args >>= λ items. some (record info { args = items })

abbrev pub read_args : Reading → At → Option Round
read_args r at = at.line >>= λ line. text_of at.walker >>= λ text.
    let (n, more) = part_end (38 ∷ []) text line at in
    let memory = rest_of r.memory in
    let s = record r { memory = behind_split (take n text) 61 memory } in
    let failed = fails (record r { memory = memory }) at in
    let done = with_arg (split_key_value memory (take n text) 61) (info_of r) >>= λ info.
    after_part 38 n line info s at in
    if allocated r.memory then done else failed
