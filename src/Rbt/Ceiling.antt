-- ===== src/Rbt/Ceiling.antt =====
-- `rbt_gsearch` of lib_src/util/rns_rbt.c finds the nearest key from above.
use yclib.Base.{
  ◌≡◌, refl, true, false, List, ◌∷◌, ◌++◌, arith, All-append, Bool-cases, inl, inr, ◌⊎◌, Option,
  none, some,
}
use yclib.Rbt.{Tree, leaf, node, Entry, inorder, first_equal, gsearch_walk}
use yclib.Rbt.Keys.{Order}
use yclib.Rbt.Entries.{NoneBelow, NoneAbove, IsSorted, IsSorted-parts, le_trans, has_entry-append}
use yclib.Rbt.Search.{first_equal-has, same_refl}
use yclib.Rbt.Bounds.{or_else, All-map, IsCeiling, All-has, lt_of_le_lt, asym, exact}

module _ {K : Type 0} (o : Order K) where
  open o use {lt, same, lt_irrefl, lt_trans, lt_total, same_lem}

  gsearch_walk-parent :
      (key : K) (parent : Option (Entry K)) (t : Tree K)
      → gsearch_walk o key parent t ≡ or_else (gsearch_walk o key none t) parent
  unfolding gsearch_walk
  gsearch_walk-parent key parent leaf = refl
  gsearch_walk-parent key parent (node l k a r) =
      ground (arith, gsearch_walk-parent key parent r, gsearch_walk-parent key (some (k, a)) l)

  Ceiling-right :
      (key : K) (es : List (Entry K)) (d : Entry K) (fs : List (Entry K)) (r : Option (Entry K))
      → lt d.0 key ≡ true
      → NoneAbove o d.0 es
      → IsCeiling o key fs r
      → IsCeiling o key (es ++ d ∷ fs) r
  Ceiling-right key es d fs none p above all =
      All-append (λ f. lt f.0 key ≡ true) es (d ∷ fs)
        (All-map (λ f. lt d.0 f.0 ≡ false) (λ f. lt f.0 key ≡ true) es
          (λ f h. lt_of_le_lt o f.0 d.0 key h p) above)
        (p, all)
  Ceiling-right key es d fs (some e) p above (is_in, le, all) = (
    ground (arith, has_entry-append o e es (d ∷ fs)),
    le,
    All-append (λ f. (lt f.0 key ≡ true) ⊎ (lt f.0 e.0 ≡ false)) es (d ∷ fs)
        (All-map (λ f. lt d.0 f.0 ≡ false) (λ f. (lt f.0 key ≡ true) ⊎ (lt f.0 e.0 ≡ false)) es
          (λ f h. inl (lt_of_le_lt o f.0 d.0 key h p)) above)
        (inl p, all),
  )

  Ceiling-left :
      (key : K) (es : List (Entry K)) (d : Entry K) (fs : List (Entry K)) (r : Option (Entry K))
      → lt key d.0 ≡ true
      → NoneAbove o d.0 es
      → NoneBelow o d.0 fs
      → IsCeiling o key es r
      → IsCeiling o key (es ++ d ∷ fs) (or_else r (some d))
  Ceiling-left key es d fs none p above below all = (
    ground (arith, has_entry-append o d es (d ∷ fs), same_refl o d.0),
    asym o key d.0 p,
    All-append (λ f. (lt f.0 key ≡ true) ⊎ (lt f.0 d.0 ≡ false)) es (d ∷ fs)
        (All-map (λ f. lt f.0 key ≡ true) (λ f. (lt f.0 key ≡ true) ⊎ (lt f.0 d.0 ≡ false)) es
          (λ f h. inl h) all)
        (
          inr (lt_irrefl d.0),
          All-map (λ f. lt f.0 d.0 ≡ false) (λ f. (lt f.0 key ≡ true) ⊎ (lt f.0 d.0 ≡ false)) fs
              (λ f h. inr h) below,
        ),
  )
  Ceiling-left key es d fs (some e) p above below (is_in, le, all) =
      let at_most : lt d.0 e.0 ≡ false = All-has o (λ k. lt d.0 k ≡ false) e es above is_in in
      (
        ground (arith, has_entry-append o e es (d ∷ fs)),
        le,
        All-append (λ f. (lt f.0 key ≡ true) ⊎ (lt f.0 e.0 ≡ false)) es (d ∷ fs) all
            (
              inr at_most,
              All-map (λ f. lt f.0 d.0 ≡ false) (λ f. (lt f.0 key ≡ true) ⊎ (lt f.0 e.0 ≡ false)) fs
                  (λ f h. inr (le_trans o e.0 d.0 f.0 at_most h)) below,
            ),
      )

  -- On a sorted tree `rbt_gsearch` finds a node with the least key that is not below the one sought,
  -- and none exactly when every key is below it.
  pub gsearch-IsCeiling :
      (key : K) (t : Tree K)
      → IsSorted o (inorder t)
      → IsCeiling o key (inorder t) (gsearch_walk o key none t)
  unfolding gsearch_walk
  gsearch-IsCeiling key leaf s = tt
  gsearch-IsCeiling key (node l k a r) s =
      let (sl, above, below, sr) = IsSorted-parts o (inorder l) (k, a) (inorder r) s in
      elim (Bool-cases (lt key k)) [
        | inl p ↦
            rw (p, gsearch_walk-parent key (some (k, a)) l)
              (Ceiling-left key (inorder l) (k, a) (inorder r) (gsearch_walk o key none l) p above
                below (gsearch-IsCeiling key l sl))
        | inr p ↦ elim (Bool-cases (lt k key)) [
          | inl q ↦
              rw (p, q)
                (Ceiling-right key (inorder l) (k, a) (inorder r) (gsearch_walk o key none r) q
                  above (gsearch-IsCeiling key r sr))
          | inr q ↦
              rw (p, q)
                (let (at, is_in) =
                    first_equal-has o key k a l (inorder r) (ground (arith, same_lem key k)) in
                  (exact o key (inorder l ++ (k, a) ∷ inorder r) (first_equal o key k a l) at
                    is_in).1)
        ]
      ]
