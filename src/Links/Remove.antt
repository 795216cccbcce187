-- ===== src/Links/Remove.antt =====
-- Taking a node out of a ring.
use yclib.Base.{ℕ, ◌≡◌, true, false, List, [], ◌∷◌, ◌++◌, arith, ◌≢◌, some}
use yclib.Links.{Heap, null, list_del, list_del_safe, list_add_safe, list_free, update}
use yclib.Links.Chain.{
  Distinct-snoc, Distinct-parts, Distinct-without, has, Distinct, Chain, has-append, frame,
  last-has, split,
}
use yclib.Links.Ring.{IsRing, SameOutside, first-has, list_add-IsRing}

-- Two chains that meet at `e`, with `e` bridged over.
bridge :
    (h g : Heap) (a : ℕ) (xs : List ℕ) (e : ℕ) (ys : List ℕ) (b : ℕ)
    → Chain h a xs e
    → Chain h e ys b
    → Distinct (a ∷ xs)
    → Distinct (ys ++ b ∷ [])
    → (g.prev (h.next e) ≡ h.prev e) × (g.next (h.prev e) ≡ h.next e)
    → ((p : ℕ) → has p (a ∷ xs) ≡ true → p ≢ h.next e → g.prev p ≡ h.prev p)
    → ((p : ℕ) → has p ys ≡ true → g.prev p ≡ h.prev p)
    → ((p : ℕ) → has p xs ≡ true → g.next p ≡ h.next p)
    → ((p : ℕ) → has p (ys ++ b ∷ []) ≡ true → p ≢ h.prev e → g.next p ≡ h.next p)
    → Chain g a (xs ++ ys) b
bridge h g a [] e [] b (p, n) (p', n') d d' j s1 s2 s3 s4 = ground arith
bridge h g a [] e (y ∷ ys) b (p, n) (p', n', c') d d' j s1 s2 s3 s4 =
    (ground arith, ground arith, frame h g y ys b s2 (λ q i. s4 q (ground arith) (ground arith)) c')
bridge h g a (x ∷ xs) e ys b (p, n, c) c' d d' j s1 s2 s3 s4 =
    let last_in = last-has h x xs e c in
    (
      ground (arith, s1 a, last_in),
      ground (arith, s3 x),
      bridge h g x xs e ys b c c' d.1 d' j (λ q i. s1 q (ground arith)) s2
          (λ q i. s3 q (ground arith)) s4,
    )

abbrev removed : ℕ → Heap → Heap
removed e h = record {
  next = update (update h.next (h.prev e) (h.next e)) e null;
  prev = update (update h.prev (h.next e) (h.prev e)) e null;
}

list_del_lem :
    (e : ℕ) (h : Heap)
    → e ≢ null
    → h.next e ≢ null
    → h.prev e ≢ null
    → list_del e h ≡ some (removed e h)
unfolding list_del
list_del_lem e h a b c = ground arith

module _ {h : Heap} {head : ℕ} (e : ℕ) (xs ys : List ℕ) (r : IsRing h head (xs ++ e ∷ ys)) where
  open r use {chain, distinct, not_null}

  -- `rns_list_del` of a node of the ring unlinks it, leaves the others in their order and gives the
  -- node the two null links of a node in no list.
  pub list_del-IsRing :
      (g : Heap) × (list_del e h ≡ some g)
      × IsRing g head (xs ++ ys)
      × (list_free e g ≡ true)
      × SameOutside (head ∷ xs ++ e ∷ ys) h g
  unfolding list_free
  list_del-IsRing =
      let (left, right) = split h head xs e ys head chain in
      let (dx, dey, apart) = Distinct-parts xs (e ∷ ys) distinct.1 in
      let next_in = last-has h head xs e left in
      let prev_in = first-has h e ys head right in
      let out = has-append head xs (e ∷ ys) in
      let nulls = has-append null xs (e ∷ ys) in
      let tail = λ (p : ℕ). has-append p ys (head ∷ []) in
      (
        removed e h,
        list_del_lem e h (ground arith) (ground arith) (ground (arith, tail null)),
        record {
          chain =
              bridge h (removed e h) head xs e ys head left right (ground arith)
                (Distinct-snoc head ys dey.1 (ground arith)) (ground (arith, tail e, apart e))
                (λ p i ne. ground (arith, apart p))
                (λ p i. ground (arith, apart p, apart (h.next e)))
                (λ p i. ground (arith, apart p, tail (h.prev e), apart (h.prev e)))
                (λ p i ne. ground (arith, apart p, tail p));
          distinct = (ground (arith, has-append head xs ys), Distinct-without xs e ys distinct.1);
          not_null = ground (arith, has-append null xs ys);
        },
        ground arith,
        λ p o. ground (arith, has-append p xs (e ∷ ys), tail p),
      )

  has_e : has e (head ∷ xs ++ ys) ≡ false
  has_e =
      let (dx, dey, apart) = Distinct-parts xs (e ∷ ys) distinct.1 in
      ground (arith, has-append e xs ys, has-append head xs (e ∷ ys), apart e)

  in_list : list_free e h ≡ false
  unfolding list_free
  in_list =
      let (left, right) = split h head xs e ys head chain in
      ground (
        arith,
        first-has h e ys head right,
        has-append null xs (e ∷ ys),
        has-append null ys (head ∷ []),
      )

  -- `rns_list_add_safe` of a node that stands in the ring moves it behind all others.
  pub list_add_safe-IsRing :
      (g : Heap) × (list_add_safe e head h ≡ some g) × IsRing g head ((xs ++ ys) ++ e ∷ [])
  unfolding list_add_safe list_del_safe
  list_add_safe-IsRing =
      let (g, del, ring, freed, same) = list_del-IsRing in
      let (k, add, ring', same') =
        list_add-IsRing ring e (ground (arith, has-append null xs (e ∷ ys))) has_e in
      (k, rw in_list (rw del add), ring')
