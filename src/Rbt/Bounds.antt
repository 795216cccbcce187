-- ===== src/Rbt/Bounds.antt =====
-- What `rbt_lsearch` and `rbt_gsearch` find in a sorted tree: the nearest key from below or above.
use yclib.Base.{
  ◌≡◌, refl, true, false, ◌&&◌, ◌==◌, List, [], ◌∷◌, ◌++◌, arith, All, All-append, Bool-cases, inl,
  inr, ◌⊎◌, Option, none, some,
}
use yclib.Rbt.{Tree, leaf, node, Entry, inorder, first_equal, lsearch_walk}
use yclib.Rbt.Keys.{Order}
use yclib.Rbt.Entries.{
  NoneBelow, NoneAbove, IsSorted, IsSorted-parts, le_trans, has_entry, has_entry-append,
}
use yclib.Rbt.Search.{first_equal-has, same_refl, eq_of_same}

abbrev pub or_else : {A : Type 0} → Option A → Option A → Option A
or_else none q = q
or_else (some a) q = some a

pub All-map :
    {A : Type 0} (P Q : A → Type 0) (xs : List A) → ((x : A) → P x → Q x) → All P xs → All Q xs
All-map P Q [] f all = tt
All-map P Q (x ∷ xs) f all = (f x all.0, All-map P Q xs f all.1)

module _ {K : Type 0} (o : Order K) where
  open o use {lt, same, lt_irrefl, lt_trans, lt_total, same_lem}

  -- The result is the entry with the greatest key that is not above `key`; without a result every
  -- key is above it.
  abbrev pub IsFloor : K → List (Entry K) → Option (Entry K) → Type 0
  IsFloor key es none = All (λ f. lt key f.0 ≡ true) es
  IsFloor key es (some e) =
      (has_entry o e es ≡ true)
      × (lt key e.0 ≡ false)
      × All (λ f. (lt key f.0 ≡ true) ⊎ (lt e.0 f.0 ≡ false)) es

  -- The result is the entry with the least key that is not below `key`; without a result every key
  -- is below it.
  abbrev pub IsCeiling : K → List (Entry K) → Option (Entry K) → Type 0
  IsCeiling key es none = All (λ f. lt f.0 key ≡ true) es
  IsCeiling key es (some e) =
      (has_entry o e es ≡ true)
      × (lt e.0 key ≡ false)
      × All (λ f. (lt f.0 key ≡ true) ⊎ (lt f.0 e.0 ≡ false)) es

  pub All-has :
      (P : K → Type 0) (e : Entry K) (es : List (Entry K))
      → All (λ f. P f.0) es
      → has_entry o e es ≡ true
      → P e.0
  All-has P e [] all h = absurd (cc)
  All-has P e (f ∷ es) all h = elim (Bool-cases (same e.0 f.0 && e.1 == f.1)) [
    | inl p ↦ rw (eq_of_same o e.0 f.0 (ground arith)) all.0
    | inr p ↦ All-has P e es all.1 (ground arith)
  ]

  lt_of_lt_le : (a b c : K) → lt a b ≡ true → lt c b ≡ false → lt a c ≡ true
  lt_of_lt_le a b c p q = ground (arith, lt_trans a b c, lt_total b c)

  pub lt_of_le_lt : (a b c : K) → lt b a ≡ false → lt b c ≡ true → lt a c ≡ true
  lt_of_le_lt a b c p q = ground (arith, lt_trans a b c, lt_total b a)

  lsearch_walk-parent :
      (key : K) (parent : Option (Entry K)) (t : Tree K)
      → lsearch_walk o key parent t ≡ or_else (lsearch_walk o key none t) parent
  unfolding lsearch_walk
  lsearch_walk-parent key parent leaf = refl
  lsearch_walk-parent key parent (node l k a r) =
      ground (arith, lsearch_walk-parent key parent l, lsearch_walk-parent key (some (k, a)) r)

  pub asym : (a b : K) → lt a b ≡ true → lt b a ≡ false
  asym a b h = ground (arith, lt_trans a b a, lt_irrefl a)

  Floor-left :
      (key : K) (es : List (Entry K)) (d : Entry K) (fs : List (Entry K)) (r : Option (Entry K))
      → lt key d.0 ≡ true
      → NoneBelow o d.0 fs
      → IsFloor key es r
      → IsFloor key (es ++ d ∷ fs) r
  Floor-left key es d fs none p below all =
      All-append (λ f. lt key f.0 ≡ true) es (d ∷ fs) all
        (
          p,
          All-map (λ f. lt f.0 d.0 ≡ false) (λ f. lt key f.0 ≡ true) fs
              (λ f h. lt_of_lt_le key d.0 f.0 p h) below,
        )
  Floor-left key es d fs (some e) p below (is_in, le, all) = (
    ground (arith, has_entry-append o e es (d ∷ fs)),
    le,
    All-append (λ f. (lt key f.0 ≡ true) ⊎ (lt e.0 f.0 ≡ false)) es (d ∷ fs) all
        (
          inl p,
          All-map (λ f. lt f.0 d.0 ≡ false) (λ f. (lt key f.0 ≡ true) ⊎ (lt e.0 f.0 ≡ false)) fs
              (λ f h. inl (lt_of_lt_le key d.0 f.0 p h)) below,
        ),
  )

  Floor-right :
      (key : K) (es : List (Entry K)) (d : Entry K) (fs : List (Entry K)) (r : Option (Entry K))
      → lt d.0 key ≡ true
      → NoneAbove o d.0 es
      → NoneBelow o d.0 fs
      → IsFloor key fs r
      → IsFloor key (es ++ d ∷ fs) (or_else r (some d))
  Floor-right key es d fs none p above below all = (
    ground (arith, has_entry-append o d es (d ∷ fs), same_refl o d.0),
    asym d.0 key p,
    All-append (λ f. (lt key f.0 ≡ true) ⊎ (lt d.0 f.0 ≡ false)) es (d ∷ fs)
        (All-map (λ f. lt d.0 f.0 ≡ false) (λ f. (lt key f.0 ≡ true) ⊎ (lt d.0 f.0 ≡ false)) es
          (λ f h. inr h) above)
        (
          inr (lt_irrefl d.0),
          All-map (λ f. lt key f.0 ≡ true) (λ f. (lt key f.0 ≡ true) ⊎ (lt d.0 f.0 ≡ false)) fs
              (λ f h. inl h) all,
        ),
  )
  Floor-right key es d fs (some e) p above below (is_in, le, all) =
      let at_least : lt e.0 d.0 ≡ false = All-has (λ k. lt k d.0 ≡ false) e fs below is_in in
      (
        ground (arith, has_entry-append o e es (d ∷ fs)),
        le,
        All-append (λ f. (lt key f.0 ≡ true) ⊎ (lt e.0 f.0 ≡ false)) es (d ∷ fs)
            (All-map (λ f. lt d.0 f.0 ≡ false) (λ f. (lt key f.0 ≡ true) ⊎ (lt e.0 f.0 ≡ false)) es
              (λ f h. inr (le_trans o f.0 d.0 e.0 h at_least)) above)
            (inr at_least, all),
      )

  -- Any entry with the key itself is a floor and a ceiling.
  pub exact :
      (key : K) (es : List (Entry K)) (e : Entry K)
      → same key e.0 ≡ true
      → has_entry o e es ≡ true
      → IsFloor key es (some e) × IsCeiling key es (some e)
  exact key es e s is_in =
      let eq = eq_of_same o key e.0 s in
      (
        (is_in, ground (arith, lt_irrefl key), floor es),
        (is_in, ground (arith, lt_irrefl key), ceiling es),
      )
    where
      floor : (fs : List (Entry K)) → All (λ f. (lt key f.0 ≡ true) ⊎ (lt e.0 f.0 ≡ false)) fs
      floor [] = tt
      floor (f ∷ fs) = (rw (← eq_of_same o key e.0 s) (Bool-cases (lt key f.0)), floor fs)

      ceiling : (fs : List (Entry K)) → All (λ f. (lt f.0 key ≡ true) ⊎ (lt f.0 e.0 ≡ false)) fs
      ceiling [] = tt
      ceiling (f ∷ fs) = (rw (← eq_of_same o key e.0 s) (Bool-cases (lt f.0 key)), ceiling fs)

  -- On a sorted tree `rbt_lsearch` finds a node with the greatest key that is not above the one
  -- sought, and none exactly when every key is above it.
  pub lsearch-IsFloor :
      (key : K) (t : Tree K)
      → IsSorted o (inorder t)
      → IsFloor key (inorder t) (lsearch_walk o key none t)
  unfolding lsearch_walk
  lsearch-IsFloor key leaf s = tt
  lsearch-IsFloor key (node l k a r) s =
      let (sl, above, below, sr) = IsSorted-parts o (inorder l) (k, a) (inorder r) s in
      elim (Bool-cases (lt key k)) [
        | inl p ↦ rw p (
            Floor-left key (inorder l) (k, a) (inorder r) (lsearch_walk o key none l) p below
              (lsearch-IsFloor key l sl))
        | inr p ↦ elim (Bool-cases (lt k key)) [
          | inl q ↦
              rw (p, q, lsearch_walk-parent key (some (k, a)) r)
                (Floor-right key (inorder l) (k, a) (inorder r) (lsearch_walk o key none r) q above
                  below (lsearch-IsFloor key r sr))
          | inr q ↦
              rw (p, q)
                (let (at, is_in) =
                    first_equal-has o key k a l (inorder r) (ground (arith, same_lem key k)) in
                  (exact key (inorder l ++ (k, a) ∷ inorder r) (first_equal o key k a l) at
                    is_in).0)
        ]
      ]
