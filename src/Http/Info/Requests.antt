-- ===== src/Http/Info/Requests.antt =====
-- rns_http_info_read of lib_src/transport/rns_http.c on a whole request.
use mathlib.Core.List.{Perm}
use yclib.Base.{
  ℕ, zero, suc, ◌+◌, ◌<◌, ◌≡◌, refl, ap, ◌∙◌, true, false, ◌&&◌, some, List, [], ◌∷◌, ◌++◌, ltb,
  ◌==◌, if◌then◌else◌, ◌>>=◌, length, arith, All, All-parts, length-append,
}
use yclib.Http.Text.{skip_blanks, Lacks}
use yclib.Http.Info.{
  Info, Item, Reading, At, goes, info_init, info_header, info_body, info_done, advance,
}
use yclib.Http.Info.Fields.{crlf_ahead, header_end, read_header}
use yclib.Http.Info.Reader.{info_step, info_loop, http_info_read}
use yclib.Http.Info.Ordering.{
  Field, items_of, put_field, arranged, Ordered, arranged-Ordered, arranged-Perm,
}
use yclib.Http.Info.Line.{goes_on, over_blanks_solid, on_header, request_line}
use yclib.Http.Info.Headers.{IsField, field_text, fields_text, having, behind_field, header_goes}

-- A round for each line
abbrev pub rounds_for : List Field → ℕ → ℕ
rounds_for [] rounds = rounds
rounds_for (f ∷ fields) rounds = suc (rounds_for fields rounds)

crlf_ahead_other : (c : ℕ) (text : List ℕ) → (c == 13) ≡ false → crlf_ahead (c ∷ text) ≡ some false
crlf_ahead_other c [] other = rw other refl
crlf_ahead_other c (b ∷ text) other = rw other refl

module _ (size : ℕ) (b : Info) (q : Reading) (memory : List ℕ) where
  -- What the lines lead to
  abbrev Leads : ℕ → List Field → List Field → At → Type 0
  Leads rounds fields kept at =
      (on : At) × (info_loop (rounds_for fields rounds) size
          (having size b q info_header (items_of kept)) at
        ≡ info_loop rounds size (having size b q info_body (items_of (arranged kept fields))) on)
      × (on.walked ≡ size)

  fields-Leads :
      (rounds : ℕ) (f : Field) (fields kept : List Field) (at : At)
      → IsField f
      → All IsField fields
      → Lacks 0 (fields_text (f ∷ fields))
      → at.walker ≡ fields_text (f ∷ fields) ++ 0 ∷ memory
      → at.walked + length (fields_text (f ∷ fields)) ≡ size
      → Leads rounds (f ∷ fields) kept at
  unfolding info_step
  fields-Leads rounds f [] kept at is all no_nul walker whole =
      let next = 13 ∷ 10 ∷ [] in
      let behind = behind_field size b q f is kept next memory at in
      let r = having size b q info_header (items_of kept) in
      let s = having size b q info_body (items_of (put_field f kept)) in
      let long = length-append (field_text f) (13 ∷ 10 ∷ next) in
      let round = header_goes size b q f is kept next memory at walker no_nul in
      let goes_last : read_header r at ≡ some (goes s (advance 2 behind)) =
        round
        ∙ ap
            (λ on.
              crlf_ahead on.walker
              >>= header_end (having size b q info_header (items_of (put_field f kept))).request r
                  on)
            (over_blanks_solid behind refl) in
      (
        advance 2 behind,
        goes_on rounds size r s at (advance 2 behind) (omega (arith, long, whole)) goes_last,
        omega (arith, long, whole),
      )
  fields-Leads rounds f (g ∷ fields) kept at is all no_nul walker whole =
      let next = fields_text (g ∷ fields) in
      let behind = behind_field size b q f is kept next memory at in
      let r = having size b q info_header (items_of kept) in
      let s = having size b q info_header (items_of (put_field f kept)) in
      let long = length-append (field_text f) (13 ∷ 10 ∷ next) in
      let round = header_goes size b q f is kept next memory at walker no_nul in
      let solid : skip_blanks (next ++ 0 ∷ memory) ≡ next ++ 0 ∷ memory = rw all.0.no_blank refl in
      let ahead : crlf_ahead (next ++ 0 ∷ memory) ≡ some false =
        crlf_ahead_other g.initial _ all.0.no_return.0 in
      let goes_more : read_header r at ≡ some (goes s behind) =
        round
        ∙ ap (λ on. crlf_ahead on.walker >>= header_end s.request r on)
            (over_blanks_solid behind solid)
        ∙ ap (λ m. m >>= header_end s.request r behind) ahead in
      let parts = All-parts (λ c. (c == 0) ≡ false) (field_text f) (13 ∷ 10 ∷ next) no_nul in
      let (on, runs, end) =
        fields-Leads rounds g fields (put_field f kept) behind all.0 all.1 parts.1.1.1 refl
          (omega (arith, long, whole)) in
      (
        on,
        goes_on (rounds_for (g ∷ fields) rounds) size r s at behind (omega (arith, long, whole))
              goes_more
            ∙ runs,
        end,
      )

-- At the end of the input, without a length of the body, there is nothing more to read.
whole_read :
    (size : ℕ) (b : Info) (q : Reading) (on : At) (items : List Item)
    → on.walked ≡ size
    → info_loop (suc zero) size (having size b q info_body items) on
      ≡ some (size, having size b q info_done items)
unfolding info_loop
whole_read size b q on items end =
    let body = having size b q info_body items in
    let done = having size b q info_done items in
    let over : ltb on.walked size ≡ false = ground (arith, end) in
    let here : (on.walked == size) ≡ true = ground (arith, end) in
    rw (info_loop, over)
      (ap (λ t. some (on.walked, if t && true then done else body)) here
        ∙ ap (λ w. some (w, done)) end)

-- A request POST with a path and at least one header, none of which tells a length, and an empty line
-- behind the headers, read by a connection that has read nothing, with memory for all: in a round for
-- each header and five more `rns_http_info_read` takes all its bytes, keeps the path and every header
-- once, in the order of the names by `strcmp`, and is done.
pub http_info_read-request :
    (a : ℕ) (p version : List ℕ) (f : Field) (fields : List Field) (b : Info) (q : Reading)
    (memory : List ℕ)
    → let path = a ∷ p in
      let target = path ++ 32 ∷ 72 ∷ 84 ∷ 84 ∷ 80 ∷ version in
      let request = 80 ∷ 79 ∷ 83 ∷ 84 ∷ 32 ∷ (target ++ 13 ∷ 10 ∷ fields_text (f ∷ fields)) in
      let info = record b { method = 1; uri = some path } in
      Lacks 0 request
      → Lacks 13 target
      → Lacks 63 target
      → Lacks 72 path
      → Lacks 32 path
      → All IsField (f ∷ fields)
      → (kept : List Field) × (http_info_read
            (suc (suc (suc (rounds_for (f ∷ fields) (suc zero)))))
            (having (length request) b q info_init [])
            (request ++ 0 ∷ memory)
            (length request)
          ≡ some (length request, having (length request) info q info_done (items_of kept)))
        × Ordered kept
        × Perm kept (f ∷ fields)
unfolding http_info_read
http_info_read-request a p version f fields b q memory no_nul no_return no_query no_http no_blank
      all =
    let target = (a ∷ p) ++ 32 ∷ 72 ∷ 84 ∷ 84 ∷ 80 ∷ version in
    let rest = fields_text (f ∷ fields) in
    let request = 80 ∷ 79 ∷ 83 ∷ 84 ∷ 32 ∷ (target ++ 13 ∷ 10 ∷ rest) in
    let size = length request in
    let info = record b { method = 1; uri = some (a ∷ p) } in
    let long = length-append target (13 ∷ 10 ∷ rest) in
    let inside : 5 + length target < size = omega (arith, long) in
    let r = having size b q info_init [] in
    let begun = on_header size a p version rest memory no_blank.0 no_return inside in
    let parts = All-parts (λ c. (c == 0) ≡ false) target (13 ∷ 10 ∷ rest) no_nul.1.1.1.1.1 in
    let first =
      request_line size a p version rest memory no_blank.0 no_return inside
        (rounds_for (f ∷ fields) (suc zero)) r refl refl refl no_nul no_query no_http no_blank in
    let (on, runs, end) =
      fields-Leads size info q memory (suc zero) f fields [] begun all.0 all.1 parts.1.1.1 refl
        (omega (arith, long)) in
    let kept = arranged [] (f ∷ fields) in
    (
      kept,
      first ∙ runs ∙ whole_read size info q on (items_of kept) end,
      arranged-Ordered [] (f ∷ fields) tt,
      arranged-Perm (f ∷ fields),
    )
