-- ===== src/Http/Info/Ordering.antt =====
-- The headers that rns_http_info_read of lib_src/transport/rns_http.c keeps, in the order of the tree that
-- they are inserted into.
use mathlib.Core.List.{Perm, append-nil, perm_middle}
use mathlib.Core.List.Perm
use mathlib.Core.Path.{subst}
use yclib.Base.{
  ℕ, ◌≡◌, refl, ap, true, false, some, List, [], ◌∷◌, ◌++◌, ◌>>=◌, if◌then◌else◌, map, All, arith,
  Bool-cases, inl, inr,
}
use yclib.Rbt.{Entry}
use yclib.Rbt.Keys.{str_order, str_lt, str_lt_irrefl, str_lt_trans}
use yclib.Rbt.Entries.{le_trans}
use yclib.Rbt.Insert.{insert_after}
use yclib.Http.Info.{Item, placed}

-- The nodes of a tree of texts by their addresses, with what they hold
abbrev item_at : (ℕ → List ℕ) → Entry (List ℕ) → Item
item_at held e = (some e.0, held e.1)

-- The place of an item is that which `rbt_insert` gives to a node with this key.
pub placed-insert_after :
    (held : ℕ → List ℕ) (key : List ℕ) (a : ℕ) (es : List (Entry (List ℕ)))
    → placed key (held a) (map (item_at held) es)
      ≡ some (map (item_at held) (insert_after str_order key a es))
unfolding insert_after
placed-insert_after held key a [] = refl
placed-insert_after held key a (e ∷ es) = elim (Bool-cases (str_lt key e.0)) [
  | inl before ↦ rw (placed, before) refl
  | inr behind ↦
      rw (placed, behind)
        (ap (λ m. m >>= λ rest. some (item_at held e ∷ rest)) (placed-insert_after held key a es))
]

-- The parts of a line of a header
pub record Field : Type 0 where
  pub initial : ℕ
  pub name : List ℕ
  pub blanks : ℕ
  pub value : List ℕ

abbrev pub key_of : Field → List ℕ
key_of f = f.initial ∷ f.name

abbrev pub item_of : Field → Item
item_of f = (some (key_of f), f.value)

abbrev pub items_of : List Field → List Item
items_of [] = []
items_of (f ∷ fields) = item_of f ∷ items_of fields

-- A header among those that are kept
abbrev pub put_field : Field → List Field → List Field
put_field f [] = f ∷ []
put_field f (g ∷ kept) =
    let rest = put_field f kept in if str_lt (key_of f) (key_of g) then f ∷ g ∷ kept else g ∷ rest

pub placed-put_field :
    (f : Field) (kept : List Field)
    → placed (key_of f) f.value (items_of kept) ≡ some (items_of (put_field f kept))
placed-put_field f [] = refl
placed-put_field f (g ∷ kept) = elim (Bool-cases (str_lt (key_of f) (key_of g))) [
  | inl before ↦ rw (placed, before) refl
  | inr behind ↦
      rw (placed, behind)
        (ap (λ m. m >>= λ rest. some (item_of g ∷ rest)) (placed-put_field f kept))
]

-- All headers, one after the other
abbrev pub arranged : List Field → List Field → List Field
arranged kept [] = kept
arranged kept (f ∷ fields) = arranged (put_field f kept) fields

-- No name stands before one that is below it by `strcmp`.
abbrev NoneBelow : Field → List Field → Type 0
NoneBelow f = All (λ g. str_lt (key_of g) (key_of f) ≡ false)

abbrev pub Ordered : List Field → Type 0
Ordered [] = Unit
Ordered (f ∷ fields) = NoneBelow f fields × Ordered fields

NoneBelow-put_field :
    (f g : Field) (kept : List Field)
    → str_lt (key_of f) (key_of g) ≡ false
    → NoneBelow g kept
    → NoneBelow g (put_field f kept)
NoneBelow-put_field f g [] above below = (above, tt)
NoneBelow-put_field f g (h ∷ kept) above below = elim (Bool-cases (str_lt (key_of f) (key_of h))) [
  | inl before ↦ rw before (above, below)
  | inr behind ↦ rw behind (below.0, NoneBelow-put_field f g kept above below.1)
]

NoneBelow-le :
    (f g : Field) (kept : List Field)
    → str_lt (key_of g) (key_of f) ≡ false
    → NoneBelow g kept
    → NoneBelow f kept
NoneBelow-le f g [] above below = tt
NoneBelow-le f g (h ∷ kept) above below = (
  le_trans str_order (key_of f) (key_of g) (key_of h) above below.0,
  NoneBelow-le f g kept above below.1,
)

str_lt_asym : (a b : List ℕ) → str_lt a b ≡ true → str_lt b a ≡ false
str_lt_asym a b h = ground (arith, str_lt_trans a b a, str_lt_irrefl a)

put_field-Ordered : (f : Field) (kept : List Field) → Ordered kept → Ordered (put_field f kept)
put_field-Ordered f [] order = (tt, tt)
put_field-Ordered f (g ∷ kept) order = elim (Bool-cases (str_lt (key_of f) (key_of g))) [
  | inl before ↦
      let above = str_lt_asym (key_of f) (key_of g) before in
      rw before ((above, NoneBelow-le f g kept above order.0), order)
  | inr behind ↦
      rw behind (NoneBelow-put_field f g kept behind order.0, put_field-Ordered f kept order.1)
]

pub arranged-Ordered : (kept fields : List Field) → Ordered kept → Ordered (arranged kept fields)
arranged-Ordered kept [] order = order
arranged-Ordered kept (f ∷ fields) order =
    arranged-Ordered (put_field f kept) fields (put_field-Ordered f kept order)

put_field-Perm : (f : Field) (kept : List Field) → Perm (put_field f kept) (f ∷ kept)
put_field-Perm f [] = Perm.refl (f ∷ [])
put_field-Perm f (g ∷ kept) = elim (Bool-cases (str_lt (key_of f) (key_of g))) [
  | inl before ↦ rw before (Perm.refl (f ∷ g ∷ kept))
  | inr behind ↦ rw behind (Perm.trans (Perm.cons g (put_field-Perm f kept)) (Perm.swap f g kept))
]

arranged_onto : (kept fields : List Field) → Perm (arranged kept fields) (fields ++ kept)
arranged_onto kept [] = Perm.refl kept
arranged_onto kept (f ∷ fields) =
    Perm.trans (arranged_onto (put_field f kept) fields)
      (Perm.trans (Perm.append_left fields (put_field-Perm f kept)) (perm_middle fields kept))

pub arranged-Perm : (fields : List Field) → Perm (arranged [] fields) fields
arranged-Perm fields =
    subst (Perm (arranged [] fields)) (append-nil fields) (arranged_onto [] fields)
