-- ===== src/Rbt/Search.antt =====
-- What the searches of a sorted tree find.
use yclib.Base.{
  ℕ, ◌≡◌, refl, true, false, List, [], ◌∷◌, ◌++◌, arith, Bool-cases, inl, inr, Option, none, some,
}
use yclib.Rbt.{Tree, leaf, node, Entry, inorder, first_equal, search_walk}
use yclib.Rbt.Keys.{Order}
use yclib.Rbt.Entries.{
  NoneBelow, NoneAbove, IsSorted, IsSorted-parts, has_entry, has_key, has_entry-append,
  has_key-append,
}

module _ {K : Type 0} (o : Order K) where
  open o use {lt, same, lt_irrefl, lt_trans, lt_total, same_lem}

  pub same_refl : (k : K) → same k k ≡ true
  same_refl k = ground (arith, same_lem k k, lt_irrefl k)

  pub eq_of_same : (j k : K) → same j k ≡ true → j ≡ k
  eq_of_same j k h = lt_total j k (ground (arith, same_lem j k)) (ground (arith, same_lem j k))

  -- The walk to the first of equal nodes stays among the nodes, and at the key.
  pub first_equal-has :
      (key k : K) (a : ℕ) (l : Tree K) (rest : List (Entry K))
      → same key k ≡ true
      → (same key (first_equal o key k a l).0 ≡ true)
        × (has_entry o (first_equal o key k a l) (inorder l ++ (k, a) ∷ rest) ≡ true)
  unfolding first_equal
  first_equal-has key k a leaf rest h = (h, ground (arith, same_refl k))
  first_equal-has key k a (node l k' a' r) rest h = elim (Bool-cases (same key k')) [
    | inl p ↦
        let (at, in_left) = first_equal-has key k' a' l (inorder r) p in
        rw p (
          at,
          ground (
            arith,
            in_left,
            has_entry-append o (first_equal o key k' a' l) (inorder l ++ (k', a') ∷ inorder r)
                ((k, a) ∷ rest),
          ),
        )
    | inr p ↦ rw p (
      h,
      ground (
        arith,
        same_refl k,
        has_entry-append o (k, a) (inorder l ++ (k', a') ∷ inorder r) ((k, a) ∷ rest),
      ),
    )
  ]

  -- A search result is right: an entry of the list with this key, or none where no entry has it.
  abbrev pub Found : K → List (Entry K) → Option (Entry K) → Type 0
  Found key es none = has_key o key es ≡ false
  Found key es (some e) = (same key e.0 ≡ true) × (has_entry o e es ≡ true)

  not_below :
      (key k : K) (es : List (Entry K))
      → lt key k ≡ true
      → NoneBelow o k es
      → has_key o key es ≡ false
  not_below key k [] h below = refl
  not_below key k (e ∷ es) h below = ground (
    arith,
    not_below key k es h below.1,
    same_lem key e.0,
    lt_total key e.0,
    lt_trans key e.0 k,
    lt_total e.0 k,
  )

  not_above :
      (key k : K) (es : List (Entry K))
      → lt k key ≡ true
      → NoneAbove o k es
      → has_key o key es ≡ false
  not_above key k [] h above = refl
  not_above key k (e ∷ es) h above =
      ground (
        arith,
        not_above key k es h above.1,
        same_lem key e.0,
        lt_total key e.0,
        lt_trans k key e.0,
      )

  Found-left :
      (key : K) (es : List (Entry K)) (e : Entry K) (fs : List (Entry K)) (r : Option (Entry K))
      → same key e.0 ≡ false
      → has_key o key fs ≡ false
      → Found key es r
      → Found key (es ++ e ∷ fs) r
  Found-left key es e fs none ne out f = ground (arith, has_key-append o key es (e ∷ fs))
  Found-left key es e fs (some d) ne out f =
      (f.0, ground (arith, f.1, has_entry-append o d es (e ∷ fs)))

  Found-right :
      (key : K) (es : List (Entry K)) (e : Entry K) (fs : List (Entry K)) (r : Option (Entry K))
      → same key e.0 ≡ false
      → has_key o key es ≡ false
      → Found key fs r
      → Found key (es ++ e ∷ fs) r
  Found-right key es e fs none ne out f = ground (arith, has_key-append o key es (e ∷ fs))
  Found-right key es e fs (some d) ne out f =
      (f.0, ground (arith, f.1, has_entry-append o d es (e ∷ fs)))

  -- On a sorted tree `rbt_search` finds a node with the key exactly when there is one.
  pub search_walk-Found :
      (key : K) (t : Tree K) → IsSorted o (inorder t) → Found key (inorder t) (search_walk o key t)
  unfolding search_walk
  search_walk-Found key leaf s = refl
  search_walk-Found key (node l k a r) s =
      let (sl, above, below, sr) = IsSorted-parts o (inorder l) (k, a) (inorder r) s in
      elim (Bool-cases (lt key k)) [
        | inl p ↦ rw p (
            Found-left key (inorder l) (k, a) (inorder r) (search_walk o key l)
              (ground (arith, same_lem key k)) (not_below key k (inorder r) p below)
              (search_walk-Found key l sl))
        | inr p ↦ elim (Bool-cases (lt k key)) [
          | inl q ↦
              rw (p, q)
                (Found-right key (inorder l) (k, a) (inorder r) (search_walk o key r)
                  (ground (arith, same_lem key k)) (not_above key k (inorder l) q above)
                  (search_walk-Found key r sr))
          | inr q ↦
              rw (p, q) (first_equal-has key k a l (inorder r) (ground (arith, same_lem key k)))
        ]
      ]
