-- ===== src/Context/Names.antt =====
-- The entries of a context in lib_src/util/rns_rbt.c by their names, and what makes a context
-- well-formed.
use yclib.Base.{
  ℕ, ◌≡◌, refl, Bool, true, false, ◌||◌, ◌==◌, List, [], ◌∷◌, arith, if◌then◌else◌, Bool-cases, inl,
  inr, Option, none, some,
}
use yclib.Rbt.{Entry, inorder, search_walk}
use yclib.Rbt.Keys.{str_order, str_same, str_lt}
use yclib.Rbt.Entries.{IsSorted, has_entry, has_key}
use yclib.Rbt.Insert.{insert_after, has_key-insert_after}
use yclib.Rbt.Search.{Found, search_walk-Found, same_refl, eq_of_same}
use yclib.Context.{Name, Context, get}

abbrev Entries : Type 0
Entries = List (Entry Name)

abbrev pub has_addr : ℕ → Entries → Bool
has_addr a [] = false
has_addr a (e ∷ es) = a == e.1 || has_addr a es

-- No two entries have the same name, and no two the same node.
abbrev pub Unique : Entries → Type 0
Unique [] = Unit {0}
Unique (e ∷ es) = (has_key str_order e.0 es ≡ false) × (has_addr e.1 es ≡ false) × Unique es

-- The node of a name.
unfoldable pub find : Name → Entries → Option ℕ
find k [] = none
find k (e ∷ es) = if str_same k e.0 then some e.1 else find k es

abbrev addr_of : Option (Entry Name) → Option ℕ
addr_of none = none
addr_of (some e) = some e.1

pub record IsContext (c : Context) : Type 0 where
  pub sorted : IsSorted str_order (inorder c.root)
  pub unique : Unique (inorder c.root)
  pub all_keys : c.null_key ≡ none

same_sym : (a b : Name) → str_same a b ≡ str_same b a
same_sym a b = ground (arith, str_order.same_lem a b, str_order.same_lem b a)

find-none : (k : Name) (es : Entries) → has_key str_order k es ≡ false → find k es ≡ none
unfolding find
find-none k [] h = refl
find-none k (e ∷ es) h = ground (arith, find-none k es)

has_key_of_entry :
    (k : Name) (e : Entry Name) (es : Entries)
    → str_same k e.0 ≡ true
    → has_entry str_order e es ≡ true
    → has_key str_order k es ≡ true
has_key_of_entry k e [] s h = h
has_key_of_entry k e (f ∷ es) s h =
    ground
      (arith, has_key_of_entry k e es s, eq_of_same str_order k e.0, eq_of_same str_order e.0 f.0)

pub absent : (k : Name) (es : Entries) → find k es ≡ none → has_key str_order k es ≡ false
unfolding find
absent k [] h = refl
absent k (e ∷ es) h = ground (arith, absent k es)

find-some :
    (k : Name) (e : Entry Name) (es : Entries)
    → Unique es
    → str_same k e.0 ≡ true
    → has_entry str_order e es ≡ true
    → find k es ≡ some e.1
unfolding find
find-some k e [] u s h = cc
find-some k e (f ∷ es) u s h = ground (
  arith,
  find-some k e es u.2 s,
  eq_of_same str_order k e.0,
  eq_of_same str_order k f.0,
  has_key_of_entry f.0 e es,
  same_refl str_order e.0,
)

pub find-Found :
    (k : Name) (es : Entries) (r : Option (Entry Name))
    → Unique es
    → Found str_order k es r
    → find k es ≡ addr_of r
find-Found k es none u f = find-none k es f
find-Found k es (some e) u f = find-some k e es u f.0 f.1

pub get-find :
    (c : Context)
    → IsContext c
    → (j : Name) → get j c ≡ some (elim (find j (inorder c.root)) [ some a ↦ c.value a | none ↦ 0 ])
unfolding get
get-find c v j =
    rw
      (
        v.all_keys,
        find-Found j (inorder c.root) (search_walk str_order j c.root) v.unique
            (search_walk-Found str_order j c.root v.sorted),
      )
      (ground arith)

pub find-insert_after :
    (j k : Name) (a : ℕ) (es : Entries)
    → has_key str_order k es ≡ false
    → find j (insert_after str_order k a es) ≡ (if str_same j k then some a else find j es)
unfolding find insert_after
find-insert_after j k a [] out = refl
find-insert_after j k a (e ∷ es) out = ground (
  arith,
  find-insert_after j k a es,
  eq_of_same str_order j k,
  eq_of_same str_order j e.0,
  same_refl str_order e.0,
)

has_addr-insert_after :
    (b : ℕ) (k : Name) (a : ℕ) (es : Entries)
    → has_addr b (insert_after str_order k a es) ≡ (b == a || has_addr b es)
unfolding insert_after
has_addr-insert_after b k a [] = refl
has_addr-insert_after b k a (e ∷ es) = ground (arith, has_addr-insert_after b k a es)

pub Unique-insert_after :
    (k : Name) (a : ℕ) (es : Entries)
    → has_key str_order k es ≡ false
    → has_addr a es ≡ false
    → Unique es
    → Unique (insert_after str_order k a es)
unfolding insert_after
Unique-insert_after k a [] ok oa u = (refl, refl, tt)
Unique-insert_after k a (e ∷ es) ok oa u = elim (Bool-cases (str_lt k e.0)) [
  | inl p ↦ rw p (ok, oa, u)
  | inr p ↦ rw p (
    ground (arith, has_key-insert_after str_order e.0 k a es, same_sym e.0 k),
    ground (arith, has_addr-insert_after e.1 k a es),
    Unique-insert_after k a es (ground arith) (ground arith) u.2,
  )
]

pub find-has_addr : (j : Name) (a : ℕ) (es : Entries) → find j es ≡ some a → has_addr a es ≡ true
unfolding find
find-has_addr j a [] h = cc
find-has_addr j a (e ∷ es) h = ground (arith, find-has_addr j a es)

-- Two names with one node are one name.
pub find-injective :
    (j k : Name) (a : ℕ) (es : Entries)
    → Unique es
    → find j es ≡ some a
    → find k es ≡ some a
    → str_same j k ≡ true
unfolding find
find-injective j k a [] u p q = cc
find-injective j k a (e ∷ es) u p q = ground (
  arith,
  find-injective j k a es u.2,
  eq_of_same str_order j e.0,
  same_sym k e.0,
  find-has_addr j a es,
  find-has_addr k a es,
)
