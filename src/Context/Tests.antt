-- ===== src/Context/Tests.antt =====
-- The contexts of lib_src/util/rns_rbt.c with two names, and no balancing.
use yclib.Base.{ℕ, ◌≡◌, refl, ap, true, none, some, List, [], ◌∷◌, arith, ◌==◌, if◌then◌else◌}
use yclib.Rbt.{Tree, leaf, node, Entry, inorder}
use yclib.Rbt.Keys.{str_same, str_lt}
use yclib.Context.{Name, Context, add, get}
use yclib.Context.Names.{IsContext}
use yclib.Context.Lookup.{get-add}
use yclib.Context.Destroy.{remove_addr}

-- the names "ab" and "b", in the nodes 100 and 200, with the values 1 and 2
abbrev names : Tree Name
names = node leaf (97 ∷ 98 ∷ []) 100 (node leaf (98 ∷ []) 200 leaf)

abbrev two : Context
two = record { root = names; null_key = none; value = λ a. if a == 100 then 1 else 2 }

abbrev no_balancing : Tree Name → Tree Name
no_balancing t = t

abbrev no_balancing-keeps : (t : Tree Name) → inorder (no_balancing t) ≡ inorder t
no_balancing-keeps t = refl

abbrev two-IsContext : IsContext two
unfolding str_lt str_same
two-IsContext = record {
  sorted = ((refl, tt), (tt, tt));
  unique = (refl, refl, (refl, refl, tt));
  all_keys = refl;
}

get-add_example :
    (d : Context) × (add no_balancing 300 true (99 ∷ []) 3 two ≡ some (true, d))
    × IsContext d
    × ((j : Name) → get j d ≡ (if str_same j (99 ∷ []) then some 3 else get j two))
get-add_example =
    get-add no_balancing no_balancing-keeps two 300 (99 ∷ []) 3 two-IsContext refl (ground arith)

-- An `rbt_erase` that does not balance: the list without the node, as a tree that leans to the right.
abbrev from_list : List (Entry Name) → Tree Name
from_list [] = leaf
from_list (e ∷ es) = node leaf e.0 e.1 (from_list es)

abbrev erase : ℕ → Tree Name → Tree Name
erase a t = from_list (remove_addr a (inorder t))

inorder-from_list : (es : List (Entry Name)) → inorder (from_list es) ≡ es
inorder-from_list [] = refl
inorder-from_list (e ∷ es) = ap (λ t. e ∷ t) (inorder-from_list es)

inorder-erase : (a : ℕ) (t : Tree Name) → inorder (erase a t) ≡ remove_addr a (inorder t)
inorder-erase a t = inorder-from_list (remove_addr a (inorder t))
