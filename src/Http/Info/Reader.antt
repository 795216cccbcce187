-- ===== src/Http/Info/Reader.antt =====
-- lib_src/transport/rns_http.c, rns_http_info_read: the states of the body, and the loop.
use yclib.Base.{
  ℕ, zero, suc, ◌+◌, ◌-◌, true, false, ◌&&◌, not, Option, none, some, List, ltb, leb, ◌==◌,
  if◌then◌else◌, ◌>>=◌, u32, sub32,
}
use yclib.Network.{hex2dec}
use yclib.Http.Text.{strstr}
use yclib.Http.Info.{
  InfoState, Reading, At, Round, goes, returns, info_init, info_code, info_method, info_uri,
  info_args, info_header, info_chunk, info_body, info_done, info_error, info_of, set_info, in_state,
  text_of, crlf, advance, over_blanks,
}
use yclib.Http.Info.FirstLine.{read_init, read_code, read_method, read_uri, read_args}
use yclib.Http.Info.Fields.{read_header}

-- A line with the size of a chunk, of `n` bytes
abbrev pub read_size : ℕ → Reading → At → Option Round
read_size n r at = hex2dec at.walker n >>= λ size.
    let info = record (info_of r) { chunksize = size } in
    let on = record (advance (n + 2) at) { line = some (at.walked + n) } in
    if size == 0
    then some (goes (set_info (record info { state = info_done }) r) on)
    else some (
        goes
          (set_info (record info { total_size = u32 (info.total_size + size); state = info_body })
            r)
          on)

-- Where the line at `walker` ends, if it does inside the input
abbrev pub line_end : ℕ → At → Option (Option ℕ)
line_end size at = text_of at.walker >>= λ text.
    some (strstr crlf text >>= λ n. if ltb size (at.walked + n) then none else some n)

abbrev pub read_chunk : ℕ → Reading → At → Option Round
read_chunk size r at =
    let on = over_blanks at in
    line_end size on >>= λ end. elim end [
      | none ↦ some (returns r on.walked)
      | some zero ↦
          let behind = advance 2 on in
          line_end size behind >>= λ second. elim second [
            | none ↦ some (returns r behind.walked)
            | some n ↦ read_size n r behind
          ]
      | some (suc n) ↦ read_size (suc n) r on
    ]

-- What there is of the body
abbrev pub read_body : ℕ → Reading → At → Round
read_body size r at =
    let info = info_of r in
    let left = size - at.walked in
    let missing = sub32 info.total_size info.curr_size in
    let len = if ltb left missing then left else missing in
    let state = if not info.chunk && leb missing left then info_done else info.state in
    returns
      (set_info
        (record info {
          state = state;
          curr_size = u32 (info.curr_size + len);
          body_size = u32 (info.body_size + len);
        })
        r)
      (at.walked + len)

unfoldable pub info_step : ℕ → InfoState → Reading → At → Option Round
info_step size info_init r at = read_init size r at
info_step size info_code r at = read_code r at
info_step size info_method r at = read_method r at
info_step size info_uri r at = read_uri r at
info_step size info_args r at = read_args r at
info_step size info_header r at = read_header r at
info_step size info_chunk r at = read_chunk size r at
info_step size info_body r at = some (read_body size r at)
info_step size info_done r at = some (returns r at.walked)
info_step size info_error r at = some (returns r size)

-- Behind the loop
abbrev pub ended : ℕ → Reading → At → Reading
ended size r at = elim (info_of r).state [
  | info_body ↦ if at.walked == size && (info_of r).total_size == 0 then in_state info_done r else r
  | _ ↦ r
]

unfoldable pub info_loop : ℕ → ℕ → Reading → At → Option (ℕ × Reading)
unfolding info_step
info_loop zero size r at = none
info_loop (suc rounds) size r at = elim (ltb at.walked size) [
  | false ↦ some (at.walked, ended size r at)
  | true ↦ info_step size (info_of r).state r at >>= λ round. elim round [
    | goes s on ↦ info_loop rounds size s on
    | returns s n ↦ some (n, s)
  ]
]

-- `rns_http_info_read` of `size` bytes, with what the memory has from `buf` on: the result and the
-- connection. `none` is an access that C leaves undefined, or a want of rounds.
unfoldable pub http_info_read : ℕ → Reading → List ℕ → ℕ → Option (ℕ × Reading)
unfolding info_loop
http_info_read rounds r buf size =
    info_loop rounds size r (record { walker = buf; walked = 0; line = none })
