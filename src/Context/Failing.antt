-- ===== src/Context/Failing.antt =====
-- rns_ctx_add of lib_src/util/rns_rbt.c for a new name where an allocation fails.
use yclib.Base.{◌<◌, ◌≡◌, ◌⊎◌, Bool, true, Option, none, some, [], length}
use yclib.Rbt.{inorder}
use yclib.Context.{Name, Context, get}

-- Where the key cannot be copied, what is added to an empty tree is a node that no search gets past;
-- into any other tree it is not inserted without a comparison with NULL.
abbrev pub Breaks : Context → Option (Bool × Context) → Type 0
Breaks c result =
    ((0 < length (inorder c.root)) × (result ≡ none))
    ⊎ ((inorder c.root ≡ [])
        × (d : Context) × (result ≡ some (true, d))
        × ((j : Name) → get j d ≡ none))
