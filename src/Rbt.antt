-- ===== src/Rbt.antt =====
-- lib_src/util/rns_rbt.c: the search tree that the lists of names and of files are kept in, without
-- its balancing (`rbt_insert_color`, `rbt_erase`), which is a copy of the Linux kernel's and a
-- parameter of these definitions. A node holds a key and its own address; colours and parent
-- links serve the balancing alone and are left out.
pub mod Keys
pub mod Entries
pub mod Insert
pub mod Search
pub mod Bounds
pub mod Ceiling
mod Tests
use yclib.Base.{ℕ, Bool, Option, none, some, List, [], ◌∷◌, ◌++◌, if◌then◌else◌}
use yclib.Rbt.Keys.{Order}

pub data Tree (K : Type 0) : Type 0 where
  leaf : Tree K
  node : Tree K → K → ℕ → Tree K → Tree K

abbrev pub Entry : Type 0 → Type 0
Entry K = K × ℕ

-- The nodes in the order of `rbt_first` and `rbt_next`.
abbrev pub inorder : {K : Type 0} → Tree K → List (Entry K)
inorder leaf = []
inorder (node l k a r) = inorder l ++ (k, a) ∷ inorder r

-- The tree's operations, over the order of its keys.
module _ {K : Type 0} (o : Order K) where
  open o use {lt, same}

  -- The walk of `rbt_insert_int` and `rbt_insert_str` down to a free link, where `rbt_link_node` puts
  -- the node.
  pub link : K → ℕ → Tree K → Tree K
  link key addr leaf = node leaf key addr leaf
  link key addr (node l k a r) =
      let left = node (link key addr l) k a r in
      let right = node l k a (link key addr r) in if lt key k then left else right

  -- On an equal node: on to the left child for as long as it is equal too.
  pub first_equal : K → K → ℕ → Tree K → Entry K
  first_equal key k a leaf = (k, a)
  first_equal key k a (node l k' a' r) =
      let on = first_equal key k' a' l in if same key k' then on else (k, a)

  -- `rbt_search_int`, `rbt_search_str`
  pub search_walk : K → Tree K → Option (Entry K)
  search_walk key leaf = none
  search_walk key (node l k a r) =
      let left = search_walk key l in
      let right = search_walk key r in
      if lt key k then left else if lt k key then right else some (first_equal key k a l)

  -- `rbt_lsearch_int`, `rbt_lsearch_str`; `parent` is the last node from which the walk went right.
  pub lsearch_walk : K → Option (Entry K) → Tree K → Option (Entry K)
  lsearch_walk key parent leaf = parent
  lsearch_walk key parent (node l k a r) =
      let left = lsearch_walk key parent l in
      let right = lsearch_walk key (some (k, a)) r in
      if lt key k then left else if lt k key then right else some (first_equal key k a l)

  -- `rbt_gsearch_int`, `rbt_gsearch_str`; `parent` is the last node from which the walk went left.
  pub gsearch_walk : K → Option (Entry K) → Tree K → Option (Entry K)
  gsearch_walk key parent leaf = parent
  gsearch_walk key parent (node l k a r) =
      let left = gsearch_walk key (some (k, a)) l in
      let right = gsearch_walk key parent r in
      if lt key k then left else if lt k key then right else some (first_equal key k a l)

  -- `rbt_insert_int`, `rbt_insert_str`: link, then balance.
  pub insert : (Tree K → Tree K) → K → ℕ → Tree K → Tree K
  insert insert_color key addr t = insert_color (link key addr t)
