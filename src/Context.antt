-- ===== src/Context.antt =====
-- The key-value contexts `rns_ctx_*` of lib_src/util/rns_rbt.c: a tree of names whose nodes point
-- to values. A node is known by its address, and the values by the addresses that hold them.
pub mod Names
pub mod Lookup
pub mod Failing
pub mod Destroy
mod Tests
use yclib.Base.{
  ℕ, zero, suc, Bool, true, false, Option, none, some, List, [], ◌∷◌, ◌==◌, if◌then◌else◌, ◌>>=◌,
}
use yclib.Rbt.{Tree, leaf, node, Entry, search_walk, insert, inorder}
use yclib.Rbt.Keys.{str_order}

abbrev pub Name : Type 0
Name = List ℕ

-- `rns_ctx_t` with the field `data` of each `rns_node_t`. A node whose key could not be copied has the key
-- NULL: it can only stand in the tree alone, and `null_key` is its address.
pub record Context : Type 0 where
  pub root : Tree Name
  pub null_key : Option ℕ
  pub value : ℕ → ℕ

abbrev pub put_value : (ℕ → ℕ) → ℕ → ℕ → ℕ → ℕ
put_value f a v b = if b == a then v else f b

-- NULL where the allocation fails
abbrev pub create : Bool → (ℕ → ℕ) → Option Context
create allocates memory =
    if allocates then some (record { root = leaf; null_key = none; value = memory }) else none

-- A new node in the tree; `copies` says whether `rbt_set_key_str` can copy the key. With the key NULL a
-- node is inserted without a comparison only where it is the first one.
abbrev pub add_node :
    (Tree Name → Tree Name) → ℕ → Bool → Name → ℕ → Context → Option (Bool × Context)
add_node insert_color new_node copies key v ctx =
    let value = put_value ctx.value new_node v in
    let root = insert str_order insert_color key new_node ctx.root in
    if copies then some (true, record ctx { root = root; value = value }) else elim ctx.root [
      | leaf ↦ some (true, record ctx { null_key = some new_node; value = value })
      | node _ _ _ _ ↦ none
    ]

-- `new_node` is the address that the allocation returns, 0 where it fails; the result says whether
-- the call returned 0, and is `none` where a key is compared with NULL. The value that a name had
-- before is freed, which is no part of this state.
pub add : (Tree Name → Tree Name) → ℕ → Bool → Name → ℕ → Context → Option (Bool × Context)
add insert_color new_node copies key v ctx = elim ctx.null_key [
  | some a ↦ none
  | none ↦ elim (search_walk str_order key ctx.root) [
    | some e ↦ some (true, record ctx { value = put_value ctx.value e.1 v })
    | none ↦
        if new_node == 0 then some (false, ctx) else add_node insert_color new_node copies key v ctx
  ]
]

-- NULL, which is 0, for a name that is not there.
pub get : Name → Context → Option ℕ
get key ctx = elim ctx.null_key [
  | some a ↦ none
  | none ↦ some (elim (search_walk str_order key ctx.root) [ some e ↦ ctx.value e.1 | none ↦ 0 ])
]

-- `rbt_first`
pub first : {K : Type 0} → Tree K → Option ℕ
first leaf = none
first (node l k a r) = let on = first l in elim l [ leaf ↦ some a | node _ _ _ _ ↦ on ]

-- The loop of `rns_ctx_destroy`, which returns the nodes that it frees; `erase` is `rbt_erase`.
-- `none` says that the rounds did not suffice.
pub destroy_loop : (ℕ → Tree Name → Tree Name) → ℕ → Tree Name → Option (List ℕ)
destroy_loop erase zero t = none
destroy_loop erase (suc rounds) t = elim (first t) [
  | none ↦ some []
  | some a ↦ destroy_loop erase rounds (erase a t) >>= λ freed. some (a ∷ freed)
]
