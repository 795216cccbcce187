-- ===== src/Http/Info/Line.antt =====
-- rns_http_info_read of lib_src/transport/rns_http.c on the first line of a request.
use mathlib.Core.List.{append_assoc}
use yclib.Base.{
  allocated, rest_of, ℕ, suc, ◌+◌, ◌-◌, ◌<◌, ◌≡◌, refl, ap, sym, ◌∙◌, true, false, ◌&&◌, not, none,
  some, List, [], ◌∷◌, ◌++◌, ltb, leb, ◌==◌, if◌then◌else◌, ◌>>=◌, length, take, drop, arith,
  All-append, drop-drop, Option-cases, inl, inr, length-append, take-append_length,
  drop-append_length,
}
use yclib.Http.Text.{strstr, skip_blanks, Lacks}
use yclib.Http.Info.{
  Info, Reading, At, goes, returns, info_init, info_method, info_uri, info_header, info_of,
  set_info, in_state, crlf, blank, http, advance, over_blanks, in_line, fails, to_line,
}
use yclib.Http.Info.FirstLine.{
  end_found, last_end, uri_at, after_place, word_found, line_found, method_found, read_init,
  first_word, method_word, path_word, kept_uri, read_method, read_uri, part_end, after_part,
  trimmed,
}
use yclib.Http.Info.Reader.{info_step, info_loop}
use yclib.Http.Info.Places.{text_of-Lacks, strstr-crlf, strstr-http, strstr-behind, trimmed-Lacks}

-- A round of the loop
pub goes_on :
    (rounds size : ℕ) (r s : Reading) (at on : At)
    → at.walked < size
    → info_step size (info_of r).state r at ≡ some (goes s on)
    → info_loop (suc rounds) size r at ≡ info_loop rounds size s on
unfolding info_loop
goes_on rounds size r s at on more is =
    let test : ltb at.walked size ≡ true = ground arith in rw (info_loop, test, is) refl

-- There are no blanks to pass over.
pub over_blanks_solid : (at : At) → skip_blanks at.walker ≡ at.walker → over_blanks at ≡ at
over_blanks_solid at solid =
    let none_left : length at.walker - length (skip_blanks at.walker) ≡ 0 =
      ap (λ t. length at.walker - length t) solid ∙ omega arith in
    let same : at.walked + 0 ≡ at.walked = omega arith in
    ap (λ n. advance n at) none_left ∙ ap (λ n. record at { walked = n }) same

module _ (size : ℕ) (a : ℕ) (p version rest memory : List ℕ) (solid : (a == 32) ≡ false)
    (no_return : Lacks 13 ((a ∷ p) ++ 32 ∷ 72 ∷ 84 ∷ 84 ∷ 80 ∷ version))
    (inside : 5 + length ((a ∷ p) ++ 32 ∷ 72 ∷ 84 ∷ 84 ∷ 80 ∷ version) < size) where
  abbrev path : List ℕ
  path = a ∷ p

  -- What the line has behind the method
  abbrev target : List ℕ
  target = path ++ 32 ∷ 72 ∷ 84 ∷ 84 ∷ 80 ∷ version

  abbrev line : ℕ
  line = 5 + length target

  abbrev behind : List ℕ
  behind = target ++ 13 ∷ 10 ∷ rest

  abbrev pub request : List ℕ
  request = 80 ∷ 79 ∷ 83 ∷ 84 ∷ 32 ∷ behind

  abbrev pub start : At
  start = record { walker = request ++ 0 ∷ memory; walked = 0; line = none }

  abbrev lined : At
  lined = record { walker = request ++ 0 ∷ memory; walked = 0; line = some line }

  -- The method ends with the blank behind it.
  method_there : in_line blank request lined ≡ some 4
  method_there = let test : ltb line 4 ≡ false = ground arith in rw (in_line, test) refl

  word :
      (r : Reading)
      → Lacks 0 request
      → first_word r lined
        ≡ some (goes (in_state info_method (record r { of_response = false })) lined)
  word r no_nul =
      ap (λ m. m >>= λ text. word_found r lined text (in_line blank text lined))
        (text_of-Lacks request memory no_nul)
      ∙ ap (word_found r lined request) method_there

  init_goes :
      (r : Reading)
      → Lacks 0 request
      → read_init size r start
        ≡ some (goes (in_state info_method (record r { of_response = false })) lined)
  init_goes r no_nul =
      let found : strstr crlf request ≡ some line =
        strstr-crlf (80 ∷ 79 ∷ 83 ∷ 84 ∷ 32 ∷ target) rest
          (refl, (refl, (refl, (refl, (refl, no_return)))))
        ∙ ap some (omega arith) in
      let fits : ltb size (0 + line) ≡ false = ground arith in
      let same : 0 + line ≡ line = omega arith in
      ap (λ m. m >>= λ text. line_found size r start (strstr crlf text))
        (text_of-Lacks request memory no_nul)
      ∙ ap (line_found size r start) found
      ∙ ap
          (λ b.
            if b
            then some (returns r 0)
            else first_word r (over_blanks (record start { line = some (0 + line) })))
          fits
      ∙ ap (λ n. first_word r (over_blanks (record start { line = some n }))) same
      ∙ ap (first_word r) (over_blanks_solid lined refl)
      ∙ word r no_nul

  -- Behind the method
  abbrev on_path : At
  on_path = record { walker = behind ++ 0 ∷ memory; walked = 5; line = some line }

  method_goes :
      (r : Reading)
      → Lacks 0 request
      → read_method r lined
        ≡ some (goes (set_info (record (info_of r) { method = 1; state = info_uri }) r) on_path)
  method_goes r no_nul =
      ap (method_word r) (over_blanks_solid lined refl)
      ∙ ap (λ m. m >>= λ text. method_found r lined text (in_line blank text lined))
          (text_of-Lacks request memory no_nul)
      ∙ ap (method_found r lined request) method_there

  -- The text behind the method, with its parts bracketed another way
  by_path : behind ≡ path ++ 32 ∷ 72 ∷ 84 ∷ 84 ∷ 80 ∷ (version ++ 13 ∷ 10 ∷ rest)
  by_path = append_assoc path (32 ∷ 72 ∷ 84 ∷ 84 ∷ 80 ∷ version) (13 ∷ 10 ∷ rest)

  by_blank : behind ≡ (path ++ 32 ∷ []) ++ 72 ∷ 84 ∷ 84 ∷ 80 ∷ (version ++ 13 ∷ 10 ∷ rest)
  by_blank =
      by_path ∙ sym (append_assoc path (32 ∷ []) (72 ∷ 84 ∷ 84 ∷ 80 ∷ (version ++ 13 ∷ 10 ∷ rest)))

  by_line : behind ≡ (target ++ 13 ∷ []) ++ 10 ∷ rest
  by_line = sym (append_assoc target (13 ∷ []) (10 ∷ rest))

  -- No arguments are found in the line.
  no_query : Lacks 63 target → in_line (63 ∷ []) behind on_path ≡ none
  no_query lacks = elim (Option-cases (strstr (63 ∷ []) behind)) [
    | inl missing ↦ rw (in_line, missing) refl
    | inr (n, there) ↦
        let all = All-append (λ b. (b == 63) ≡ false) target (13 ∷ []) lacks (refl, tt) in
        let far =
          strstr-behind 63 n (target ++ 13 ∷ []) (10 ∷ rest) all
            (ap (strstr (63 ∷ [])) (sym by_line) ∙ there) in
        let test : ltb line (5 + n) ≡ true = ground (arith, far, length-append target (13 ∷ [])) in
        rw (in_line, there, test) refl
  ]

  path_end :
      Lacks 63 target
      → Lacks 72 path
      → Lacks 32 path
      → part_end (63 ∷ []) behind line on_path ≡ (length path, false)
  path_end query no_http solid_path =
      let version_at = length (path ++ 32 ∷ []) in
      let all = All-append (λ b. (b == 72) ≡ false) path (32 ∷ []) no_http (refl, tt) in
      let there : strstr http behind ≡ some version_at =
        ap (strstr http) by_blank ∙ strstr-http (path ++ 32 ∷ []) (version ++ 13 ∷ 10 ∷ rest) all in
      let test : ltb line (5 + version_at) ≡ false = ground (
        arith,
        length-append path (32 ∷ []),
        length-append path (32 ∷ 72 ∷ 84 ∷ 84 ∷ 80 ∷ version),
      ) in
      let found : in_line http behind on_path ≡ some version_at = rw (in_line, there, test) refl in
      let cut : take version_at behind ≡ path ++ 32 ∷ [] =
        ap (take version_at) by_blank
        ∙ take-append_length (path ++ 32 ∷ []) (72 ∷ 84 ∷ 84 ∷ 80 ∷ (version ++ 13 ∷ 10 ∷ rest)) in
      ap (end_found behind line on_path) (no_query query)
      ∙ ap (λ m. (last_end behind line on_path m, false)) found
      ∙ ap (λ t. (trimmed t, false)) cut
      ∙ ap (λ n. (n, false)) (trimmed-Lacks path solid_path)

  -- Behind the first line
  abbrev pub on_header : At
  on_header = record { walker = rest ++ 0 ∷ memory; walked = line + 2; line = some line }

  to_header : to_line line on_path ≡ on_header
  to_header =
      let n : line + 2 - 5 ≡ length target + 2 = omega arith in
      let whole : behind ++ 0 ∷ memory ≡ target ++ 13 ∷ 10 ∷ (rest ++ 0 ∷ memory) =
        append_assoc target (13 ∷ 10 ∷ rest) (0 ∷ memory) in
      let walker : drop (length target + 2) (behind ++ 0 ∷ memory) ≡ rest ++ 0 ∷ memory =
        ap (drop (length target + 2)) whole
        ∙ sym (drop-drop (length target) 2 (target ++ 13 ∷ 10 ∷ (rest ++ 0 ∷ memory)))
        ∙ ap (drop 2) (drop-append_length target (13 ∷ 10 ∷ (rest ++ 0 ∷ memory))) in
      let walked : 5 + (length target + 2) ≡ line + 2 = omega arith in
      ap (λ k. advance k on_path) n
      ∙ ap (λ t. record on_path { walker = t; walked = 5 + (length target + 2) }) walker
      ∙ ap (λ k. record on_header { walked = k }) walked

  -- The information once the path is read
  abbrev with_path : Info → Info
  with_path info = record info { uri = some path; state = info_header }

  uri_goes :
      (r : Reading)
      → Lacks 0 request
      → r.memory ≡ []
      → Lacks 63 target
      → Lacks 72 path
      → Lacks 32 path
      → read_uri r on_path
        ≡ some (
            goes
              (set_info (with_path (info_of r)) (record r { memory = rest_of r.memory }))
              on_header)
  uri_goes r no_nul calm query no_http solid_path =
      let no_blank : skip_blanks (behind ++ 0 ∷ memory) ≡ behind ++ 0 ∷ memory = rw solid refl in
      let early : leb line 5 ≡ false =
        ground (arith, length-append path (32 ∷ 72 ∷ 84 ∷ 84 ∷ 80 ∷ version)) in
      let s = record r { memory = rest_of r.memory } in
      let info = record (info_of r) { uri = some (take (length path) behind) } in
      let some_path : (length path == 0 && not false) ≡ false = ground arith in
      let room : allocated r.memory ≡ true = ap allocated calm in
      let place : drop (length path) (behind ++ 0 ∷ memory)
          ≡ 32 ∷ 72 ∷ 84 ∷ 84 ∷ 80 ∷ ((version ++ 13 ∷ 10 ∷ rest) ++ 0 ∷ memory) =
        ap (λ t. drop (length path) (t ++ 0 ∷ memory)) by_path
        ∙ ap (drop (length path))
            (append_assoc path (32 ∷ 72 ∷ 84 ∷ 84 ∷ 80 ∷ (version ++ 13 ∷ 10 ∷ rest)) (0 ∷ memory))
        ∙ drop-append_length path
            (32 ∷ 72 ∷ 84 ∷ 84 ∷ 80 ∷ ((version ++ 13 ∷ 10 ∷ rest) ++ 0 ∷ memory)) in
      let uri : take (length path) behind ≡ path =
        ap (take (length path)) by_path
        ∙ take-append_length path (32 ∷ 72 ∷ 84 ∷ 84 ∷ 80 ∷ (version ++ 13 ∷ 10 ∷ rest)) in
      ap (λ on. uri_at r on on.line) (over_blanks_solid on_path no_blank)
      ∙ ap (λ b. if b then fails r on_path else path_word line r on_path) early
      ∙ ap (λ m. m >>= λ text. kept_uri line text (part_end (63 ∷ []) text line on_path) r on_path)
          (text_of-Lacks behind memory no_nul.1.1.1.1.1)
      ∙ ap (λ e. kept_uri line behind e r on_path) (path_end query no_http solid_path)
      ∙ ap
          (λ b.
            if b
            then none
            else if allocated r.memory
            then after_part 63 (length path) line info s on_path
            else fails (set_info (record (info_of r) { uri = none }) s) on_path)
          some_path
      ∙ ap
          (λ b.
            if b
            then after_part 63 (length path) line info s on_path
            else fails (set_info (record (info_of r) { uri = none }) s) on_path)
          room
      ∙ ap (after_place 63 (length path) line info s on_path) place
      ∙ ap (λ on. some (goes (set_info (record info { state = info_header }) s) on)) to_header
      ∙ ap
          (λ t. some (
            goes (set_info (record (info_of r) { uri = some t; state = info_header }) s) on_header))
          uri

  -- The connection behind the first line
  abbrev pub requested : Reading → Reading
  requested r = record r {
    request = record r.request { state = info_header; method = 1; uri = some path };
    of_response = false;
  }

  pub request_line :
      (rounds : ℕ) (r : Reading)
      → r.of_response ≡ false
      → r.request.state ≡ info_init
      → r.memory ≡ []
      → Lacks 0 request
      → Lacks 63 target
      → Lacks 72 path
      → Lacks 32 path
      → info_loop (suc (suc (suc rounds))) size r start
        ≡ info_loop rounds size (requested r) on_header
  unfolding info_step
  request_line rounds r fresh begins calm no_nul query no_http solid_path =
      let one = in_state info_method (record r { of_response = false }) in
      let two = set_info (record (info_of one) { method = 1; state = info_uri }) one in
      let three = set_info (with_path (info_of two)) (record two { memory = rest_of two.memory }) in
      let first : (info_of r).state ≡ info_init =
        ap (λ b. (if b then r.response else r.request).state) fresh ∙ begins in
      let quiet : rest_of r.memory ≡ r.memory = ap rest_of calm ∙ sym calm in
      goes_on (suc (suc rounds)) size r one start lined (omega arith)
        (ap (λ s. info_step size s r start) first ∙ init_goes r no_nul)
      ∙ goes_on (suc rounds) size one two lined on_path (omega arith) (method_goes one no_nul)
      ∙ goes_on rounds size two three on_path on_header (omega arith)
          (uri_goes two no_nul calm query no_http solid_path)
      ∙ ap (λ m. info_loop rounds size (record (requested r) { memory = m }) on_header) quiet
