-- ===== src/Rbt/Tests.antt =====
-- The tree of lib_src/util/rns_rbt.c with three keys, two of them equal, and no balancing.
use yclib.Base.{ℕ, ◌≡◌, refl}
use yclib.Rbt.{Tree, leaf, node, inorder, insert, search_walk}
use yclib.Rbt.Keys.{int_order}
use yclib.Rbt.Entries.{IsSorted}
use yclib.Rbt.Insert.{insert_after, inorder-insert}
use yclib.Rbt.Search.{Found, search_walk-Found}

abbrev three : Tree ℕ
three = node (node leaf 5 100 leaf) 5 200 (node leaf 9 300 leaf)

abbrev three-IsSorted : IsSorted int_order (inorder three)
three-IsSorted = ((refl, (refl, tt)), ((refl, tt), (tt, tt)))

abbrev no_balancing : Tree ℕ → Tree ℕ
no_balancing t = t

abbrev no_balancing-keeps : (t : Tree ℕ) → inorder (no_balancing t) ≡ inorder t
no_balancing-keeps t = refl

inorder-insert_example :
    (inorder (insert int_order no_balancing 5 400 three)
      ≡ insert_after int_order 5 400 (inorder three))
    × IsSorted int_order (inorder (insert int_order no_balancing 5 400 three))
inorder-insert_example =
    inorder-insert int_order no_balancing no_balancing-keeps 5 400 three three-IsSorted

search_walk-Found_example : Found int_order 5 (inorder three) (search_walk int_order 5 three)
search_walk-Found_example = search_walk-Found int_order 5 three three-IsSorted
