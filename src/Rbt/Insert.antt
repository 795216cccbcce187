-- ===== src/Rbt/Insert.antt =====
-- `rbt_insert` puts a node behind all nodes whose keys are not greater.
use yclib.Base.{
  ℕ, ◌≡◌, refl, ap, sym, ◌∙◌, true, false, ◌||◌, ◌&&◌, ◌==◌, List, [], ◌∷◌, ◌++◌, arith,
  if◌then◌else◌, Bool-cases, inl, inr,
}
use yclib.Rbt.{Tree, leaf, node, Entry, inorder, link, insert}
use yclib.Rbt.Keys.{Order}
use yclib.Rbt.Entries.{NoneBelow, NoneAbove, IsSorted, IsSorted-parts, le_trans, has_entry, has_key}

module _ {K : Type 0} (o : Order K) where
  open o use {lt, same, lt_irrefl, lt_trans, lt_total}

  unfoldable pub insert_after : K → ℕ → List (Entry K) → List (Entry K)
  insert_after k a [] = (k, a) ∷ []
  insert_after k a (e ∷ es) = if lt k e.0 then (k, a) ∷ e ∷ es else e ∷ insert_after k a es

  insert_after-append_left :
      (k : K) (a : ℕ) (es : List (Entry K)) (e : Entry K) (fs : List (Entry K))
      → lt k e.0 ≡ true
      → insert_after k a (es ++ e ∷ fs) ≡ insert_after k a es ++ e ∷ fs
  unfolding insert_after
  insert_after-append_left k a [] e fs h = ground arith
  insert_after-append_left k a (d ∷ es) e fs h = elim (Bool-cases (lt k d.0)) [
    | inl p ↦ rw p
    | inr p ↦ rw p (ap (λ t. d ∷ t) (insert_after-append_left k a es e fs h))
  ]

  insert_after-append_right :
      (k : K) (a : ℕ) (es : List (Entry K)) (e : Entry K) (fs : List (Entry K))
      → NoneAbove o e.0 es
      → lt k e.0 ≡ false
      → insert_after k a (es ++ e ∷ fs) ≡ es ++ e ∷ insert_after k a fs
  unfolding insert_after
  insert_after-append_right k a [] e fs above h = rw h
  insert_after-append_right k a (d ∷ es) e fs above h =
      rw (le_trans o d.0 e.0 k above.0 h)
        (ap (λ t. d ∷ t) (insert_after-append_right k a es e fs above.1 h))

  inorder-link :
      (k : K) (a : ℕ) (t : Tree K)
      → IsSorted o (inorder t)
      → inorder (link o k a t) ≡ insert_after k a (inorder t)
  unfolding link insert_after
  inorder-link k a leaf s = refl
  inorder-link k a (node l k' a' r) s =
      let (sl, above, below, sr) = IsSorted-parts o (inorder l) (k', a') (inorder r) s in
      elim (Bool-cases (lt k k')) [
        | inl p ↦ rw p (
            ap (λ t. t ++ (k', a') ∷ inorder r) (inorder-link k a l sl)
            ∙ sym (insert_after-append_left k a (inorder l) (k', a') (inorder r) p))
        | inr p ↦ rw p (
            ap (λ t. inorder l ++ (k', a') ∷ t) (inorder-link k a r sr)
            ∙ sym (insert_after-append_right k a (inorder l) (k', a') (inorder r) above p))
      ]

  NoneBelow-insert_after :
      (b k : K) (a : ℕ) (es : List (Entry K))
      → lt k b ≡ false
      → NoneBelow o b es
      → NoneBelow o b (insert_after k a es)
  unfolding insert_after
  NoneBelow-insert_after b k a [] h below = (h, tt)
  NoneBelow-insert_after b k a (e ∷ es) h below = elim (Bool-cases (lt k e.0)) [
    | inl p ↦ rw p (h, below)
    | inr p ↦ rw p (below.0, NoneBelow-insert_after b k a es h below.1)
  ]

  NoneBelow-le :
      (b c : K) (es : List (Entry K)) → lt c b ≡ false → NoneBelow o c es → NoneBelow o b es
  NoneBelow-le b c [] h below = tt
  NoneBelow-le b c (e ∷ es) h below = (le_trans o b c e.0 h below.0, NoneBelow-le b c es h below.1)

  lt_asym : (a b : K) → lt a b ≡ true → lt b a ≡ false
  lt_asym a b h = ground (arith, lt_trans a b a, lt_irrefl a)

  insert_after-IsSorted :
      (k : K) (a : ℕ) (es : List (Entry K)) → IsSorted o es → IsSorted o (insert_after k a es)
  unfolding insert_after
  insert_after-IsSorted k a [] s = (tt, tt)
  insert_after-IsSorted k a (e ∷ es) s = elim (Bool-cases (lt k e.0)) [
    | inl p ↦ rw p ((lt_asym k e.0 p, NoneBelow-le k e.0 es (lt_asym k e.0 p) s.0), s)
    | inr p ↦ rw p (NoneBelow-insert_after e.0 k a es p s.0, insert_after-IsSorted k a es s.1)
  ]

  pub has_key-insert_after :
      (j k : K) (a : ℕ) (es : List (Entry K))
      → has_key o j (insert_after k a es) ≡ (same j k || has_key o j es)
  unfolding insert_after
  has_key-insert_after j k a [] = refl
  has_key-insert_after j k a (e ∷ es) = ground (arith, has_key-insert_after j k a es)

  pub has_entry-insert_after :
      (d : Entry K) (k : K) (a : ℕ) (es : List (Entry K))
      → has_entry o d (insert_after k a es) ≡ ((same d.0 k && d.1 == a) || has_entry o d es)
  unfolding insert_after
  has_entry-insert_after d k a [] = refl
  has_entry-insert_after d k a (e ∷ es) = ground (arith, has_entry-insert_after d k a es)

  -- On a sorted tree, with a balancing that keeps the order of the nodes, `rbt_insert` puts the new
  -- node behind all nodes whose keys are not greater, and the tree stays sorted.
  pub inorder-insert :
      (insert_color : Tree K → Tree K)
      → ((t : Tree K) → inorder (insert_color t) ≡ inorder t)
      → (k : K) (a : ℕ) (t : Tree K) → IsSorted o (inorder t)
      → (inorder (insert o insert_color k a t) ≡ insert_after k a (inorder t))
        × IsSorted o (inorder (insert o insert_color k a t))
  unfolding insert
  inorder-insert insert_color keeps k a t s =
      let e = keeps (link o k a t) ∙ inorder-link k a t s in
      (e, rw e (insert_after-IsSorted k a (inorder t) s))
