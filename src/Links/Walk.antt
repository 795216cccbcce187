-- ===== src/Links/Walk.antt =====
-- The walks over a ring: they visit its nodes in order and end at its head.
use yclib.Base.{
  ℕ, zero, suc, ◌<◌, ◌≡◌, false, ◌&&◌, List, [], ◌∷◌, ◌++◌, arith, ◌==◌, some, if◌then◌else◌,
  length,
}
use yclib.Links.{
  Heap, null, list_first, list_last, list_next, list_prev, list_empty, list_for_each, walk,
}
use yclib.Links.Chain.{Distinct-parts, has, Distinct, Chain, has-append, last-has, split}
use yclib.Links.Ring.{IsRing}

abbrev pub first_or_null : List ℕ → ℕ
first_or_null [] = null
first_or_null (x ∷ xs) = x

abbrev pub last_or_null : List ℕ → ℕ
last_or_null [] = null
last_or_null (x ∷ []) = x
last_or_null (x ∷ y ∷ xs) = last_or_null (y ∷ xs)

walk-Chain :
    (h : Heap) (a : ℕ) (xs : List ℕ) (b rounds : ℕ)
    → Chain h a xs b
    → has b xs ≡ false
    → length xs < rounds
    → walk rounds (h.prev a) b h ≡ some xs
unfolding walk
walk-Chain h a xs b zero c out fuel = absurd (omega arith)
walk-Chain h a [] b (suc rounds) c out fuel = ground arith
walk-Chain h a (x ∷ xs) b (suc rounds) (p, n, c) out fuel =
    ground (arith, walk-Chain h x xs b rounds c)

-- On a ring `rns_list_for_each` ends, and visits every node once, in the order of the ring.
pub list_for_each-IsRing :
    {h : Heap} {head : ℕ} {ms : List ℕ} (rounds : ℕ)
    → IsRing h head ms
    → length ms < rounds
    → list_for_each rounds head h ≡ some ms
unfolding list_for_each
list_for_each-IsRing {h} {head} {ms} rounds r fuel =
    walk-Chain h head ms head rounds r.chain r.distinct.0 fuel

prev-Chain :
    (h : Heap) (a : ℕ) (xs : List ℕ) (b : ℕ)
    → Chain h a xs b
    → has b xs ≡ false
    → (if h.prev a == b then null else h.prev a) ≡ first_or_null xs
prev-Chain h a [] b (p, n) out = ground arith
prev-Chain h a (x ∷ xs) b (p, n, c) out = ground arith

next-Chain :
    (h : Heap) (a : ℕ) (xs : List ℕ) (b : ℕ)
    → Chain h a xs b
    → Distinct (a ∷ xs)
    → (if h.next b == a then null else h.next b) ≡ last_or_null xs
next-Chain h a [] b (p, n) d = ground arith
next-Chain h a (x ∷ []) b (p, n, c) d = ground arith
next-Chain h a (x ∷ y ∷ xs) b (p, n, c) d =
    ground (arith, next-Chain h x (y ∷ xs) b c d.1, last-has h y xs b c.2)

empty-Chain :
    (h : Heap) (a : ℕ) (xs : List ℕ)
    → Chain h a xs a
    → has a xs ≡ false
    → ((h.prev a == a) && (h.next a == a)) ≡ (length xs == 0)
empty-Chain h a [] (p, n) out = ground arith
empty-Chain h a (x ∷ xs) (p, n, c) out = ground arith

-- The macros for the two ends: the first and the last node of the ring, NULL where it is empty,
-- and `rns_list_empty` tells the two cases apart.
pub ends-IsRing :
    {h : Heap} {head : ℕ} {ms : List ℕ}
    → IsRing h head ms
    → (list_first head h ≡ first_or_null ms)
      × (list_last head h ≡ last_or_null ms)
      × (list_empty head h ≡ (length ms == 0))
unfolding list_first list_last list_empty
ends-IsRing {h} {head} {ms} r = (
  prev-Chain h head ms head r.chain r.distinct.0,
  next-Chain h head ms head r.chain r.distinct,
  empty-Chain h head ms r.chain r.distinct.0,
)

-- From a node of the ring `rns_list_next` leads to its successor and `rns_list_prev` to its
-- predecessor, each to NULL where the ring ends.
pub neighbours-IsRing :
    {h : Heap} {head : ℕ} (m : ℕ) (xs ys : List ℕ)
    → IsRing h head (xs ++ m ∷ ys)
    → (list_next m head h ≡ first_or_null ys) × (list_prev m head h ≡ last_or_null xs)
unfolding list_next list_prev
neighbours-IsRing {h} {head} m xs ys r =
    let (left, right) = split h head xs m ys head r.chain in
    (
      prev-Chain h m ys head right (ground (arith, has-append head xs (m ∷ ys))),
      next-Chain h head xs m left (
        ground (arith, has-append head xs (m ∷ ys)),
        (Distinct-parts xs (m ∷ ys) r.distinct.1).0,
      ),
    )
