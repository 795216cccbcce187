-- ===== src/Rbt/Entries.antt =====
-- Sorted lists of entries, and what it means for an entry to stand in one.
use yclib.Base.{
  ◌≡◌, refl, Bool, false, ◌&&◌, ◌||◌, List, [], ◌∷◌, ◌++◌, arith, ◌==◌, All, All-append, All-parts,
}
use yclib.Rbt.{Entry}
use yclib.Rbt.Keys.{Order}

module _ {K : Type 0} (o : Order K) where
  open o use {lt, same, lt_irrefl, lt_trans, lt_total, same_lem}

  -- No entry of the list is below `k`, or above it.
  abbrev pub NoneBelow : K → List (Entry K) → Type 0
  NoneBelow k = All (λ e. lt e.0 k ≡ false)

  abbrev pub NoneAbove : K → List (Entry K) → Type 0
  NoneAbove k = All (λ e. lt k e.0 ≡ false)

  -- In ascending order; equal keys may stand side by side.
  abbrev pub IsSorted : List (Entry K) → Type 0
  IsSorted [] = Unit {0}
  IsSorted (e ∷ es) = NoneBelow e.0 es × IsSorted es

  -- An entry with this key and this address.
  abbrev pub has_entry : Entry K → List (Entry K) → Bool
  has_entry e [] = false
  has_entry e (f ∷ es) = (same e.0 f.0 && e.1 == f.1) || has_entry e es

  abbrev pub has_key : K → List (Entry K) → Bool
  has_key k [] = false
  has_key k (e ∷ es) = same k e.0 || has_key k es

  pub has_entry-append :
      (e : Entry K) (es fs : List (Entry K))
      → has_entry e (es ++ fs) ≡ (has_entry e es || has_entry e fs)
  has_entry-append e [] fs = refl
  has_entry-append e (f ∷ es) fs = ground (arith, has_entry-append e es fs)

  pub has_key-append :
      (k : K) (es fs : List (Entry K)) → has_key k (es ++ fs) ≡ (has_key k es || has_key k fs)
  has_key-append k [] fs = refl
  has_key-append k (f ∷ es) fs = ground (arith, has_key-append k es fs)

  -- `≤`, which is `not (lt b a)`, is transitive.
  pub le_trans : (a b c : K) → lt b a ≡ false → lt c b ≡ false → lt c a ≡ false
  le_trans a b c p q = ground (arith, lt_trans c a b, lt_total b c, lt_total a b, lt_trans b c a)

  pub IsSorted-parts :
      (es : List (Entry K)) (e : Entry K) (fs : List (Entry K))
      → IsSorted (es ++ e ∷ fs)
      → IsSorted es × NoneAbove e.0 es × NoneBelow e.0 fs × IsSorted fs
  IsSorted-parts [] e fs s = (tt, tt, s.0, s.1)
  IsSorted-parts (d ∷ es) e fs s =
      let (s1, above, below, s2) = IsSorted-parts es e fs s.1 in
      let (left, right) = All-parts (λ x. lt x.0 d.0 ≡ false) es (e ∷ fs) s.0 in
      ((left, s1), (right.0, above), below, s2)

  pub IsSorted-append :
      (es : List (Entry K)) (e : Entry K) (fs : List (Entry K))
      → IsSorted es
      → NoneAbove e.0 es
      → NoneBelow e.0 fs
      → IsSorted fs
      → IsSorted (es ++ e ∷ fs)
  IsSorted-append [] e fs s above below t = (below, t)
  IsSorted-append (d ∷ es) e fs s above below t = (
    All-append (λ x. lt x.0 d.0 ≡ false) es (e ∷ fs) s.0
        (above.0, NoneBelow-le d.0 e.0 fs above.0 below),
    IsSorted-append es e fs s.1 above.1 below t,
  )
    where
      NoneBelow-le :
          (a b : K) (xs : List (Entry K)) → lt b a ≡ false → NoneBelow b xs → NoneBelow a xs
      NoneBelow-le a b [] le h = tt
      NoneBelow-le a b (x ∷ xs) le h = (le_trans a b x.0 le h.0, NoneBelow-le a b xs le h.1)
