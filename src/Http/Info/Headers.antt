-- ===== src/Http/Info/Headers.antt =====
-- rns_http_info_read of lib_src/transport/rns_http.c on one line of the headers.
use mathlib.Core.List.{append_assoc}
use yclib.Base.{
  ℕ, ◌+◌, ◌≡◌, refl, ap, sym, ◌∙◌, false, some, List, [], ◌∷◌, ◌++◌, ◌==◌, ◌>>=◌, length, take,
  drop, drop-drop, Option-cases, inl, inr, take-append_length, drop-append_length,
}
use yclib.Http.{split_key_value}
use yclib.Http.Text.{strchr, strstr, starts_with, Lacks}
use yclib.Http.Fields.{spaces, Starts, split_key_value-parts}
use yclib.Http.Info.{
  Info, Item, InfoState, Reading, At, info_header, info_of, text_of, crlf, advance, behind_split,
}
use yclib.Http.Info.Fields.{
  with_header, behind_header, header_found, read_header, length_name, coding_name,
}
use yclib.Http.Info.Ordering.{Field, key_of, item_of, items_of, put_field, placed-put_field}
use yclib.Http.Info.Places.{text_of-Lacks, strstr-crlf}

abbrev pub field_text : Field → List ℕ
field_text f = key_of f ++ 58 ∷ (spaces f.blanks ++ f.value)

-- A header that is none of the two that tell the length of the body
pub record IsField (f : Field) : Type 0 where
  pub no_colon : Lacks 58 (key_of f)
  pub no_return : Lacks 13 (field_text f)
  pub starts : Starts f.value
  pub no_length : starts_with length_name (key_of f) ≡ false
  pub no_coding : starts_with coding_name (key_of f) ≡ false
  pub no_blank : (f.initial == 32) ≡ false

-- The lines of the headers, with the empty one behind them
abbrev pub fields_text : List Field → List ℕ
fields_text [] = 13 ∷ 10 ∷ []
fields_text (f ∷ fields) = field_text f ++ 13 ∷ 10 ∷ fields_text fields

behind_split-calm : (text : List ℕ) (delim : ℕ) → behind_split text delim [] ≡ []
behind_split-calm text delim = elim (Option-cases (strchr delim text)) [
  | inl missing ↦ rw (behind_split, missing) refl
  | inr (n, there) ↦ rw (behind_split, there) refl
]

module _ (size : ℕ) (b : Info) (q : Reading) where
  -- The connection with the headers that are read so far
  abbrev pub having : InfoState → List Item → Reading
  having state items = record q {
    request = record b { state = state; headers = items; chunk = false; total_size = 0 };
    of_response = false;
    memory = [];
  }

  module _ (f : Field) (is : IsField f) (kept : List Field) (next memory : List ℕ) (at : At) where
    abbrev pub text : List ℕ
    text = field_text f ++ 13 ∷ 10 ∷ next

    abbrev pub added : List Item
    added = items_of (put_field f kept)

    with_item :
        with_header (some (item_of f)) (having info_header (items_of kept)).request
        ≡ some (having info_header added).request
    with_item = rw (with_header, is.no_length, is.no_coding, placed-put_field f kept) refl

    abbrev pub behind_field : At
    behind_field = record {
      walker = next ++ 0 ∷ memory;
      walked = at.walked + (length (field_text f) + 2);
      line = some (at.walked + length (field_text f));
    }

    behind_walker : drop (length (field_text f) + 2) (text ++ 0 ∷ memory) ≡ next ++ 0 ∷ memory
    behind_walker =
        ap (drop (length (field_text f) + 2))
          (append_assoc (field_text f) (13 ∷ 10 ∷ next) (0 ∷ memory))
        ∙ sym (drop-drop (length (field_text f)) 2 (field_text f ++ 13 ∷ 10 ∷ (next ++ 0 ∷ memory)))
        ∙ ap (drop 2) (drop-append_length (field_text f) (13 ∷ 10 ∷ (next ++ 0 ∷ memory)))

    pub header_goes :
        at.walker ≡ text ++ 0 ∷ memory
        → Lacks 0 text
        → read_header (having info_header (items_of kept)) at
          ≡ behind_header
              (having info_header added).request
              (having info_header (items_of kept))
              behind_field
    header_goes walker no_nul =
        let r = having info_header (items_of kept) in
        let n = length (field_text f) in
        let found = strstr-crlf (field_text f) next is.no_return in
        let field : take n text ≡ field_text f =
          take-append_length (field_text f) (13 ∷ 10 ∷ next) in
        let split = split_key_value-parts (key_of f) f.value 58 f.blanks is.no_colon is.starts in
        let on = record at { line = some (at.walked + n) } in
        ap (λ w. text_of w >>= λ t. header_found r at t (strstr crlf t)) walker
        ∙ ap (λ m. m >>= λ t. header_found r at t (strstr crlf t))
            (text_of-Lacks text memory no_nul)
        ∙ ap (header_found r at text) found
        ∙ ap
            (λ t. with_header (split_key_value [] t 58) (info_of r) >>= λ info.
              behind_header info (record r { memory = behind_split t 58 [] }) (advance (n + 2) on))
            field
        ∙ ap
            (λ m. with_header m (info_of r) >>= λ info.
              behind_header info (record r { memory = behind_split (field_text f) 58 [] })
                (advance (n + 2) on))
            split
        ∙ ap
            (λ m. m >>= λ info.
              behind_header info (record r { memory = behind_split (field_text f) 58 [] })
                (advance (n + 2) on))
            with_item
        ∙ ap
            (λ m.
              behind_header (having info_header added).request (record r { memory = m })
                (advance (n + 2) on))
            (behind_split-calm (field_text f) 58)
        ∙ ap
            (λ w.
              behind_header (having info_header added).request r
                (record behind_field { walker = w }))
            (ap (drop (n + 2)) walker ∙ behind_walker)
