-- ===== src/Links/Ring.antt =====
-- The operations of list_head.h on a well-formed ring: what list each leaves, and what it spares.
use yclib.Base.{ℕ, ◌≡◌, refl, true, false, List, [], ◌∷◌, ◌++◌, arith, ◌≢◌, some}
use yclib.Links.{Heap, null, init_list_head, list_add, list_add_first, update}
use yclib.Links.Chain.{Distinct-snoc, has, Distinct, Chain, has-append, frame, last-has}

-- `head` heads a circular list of the nodes `ms`, in the order in which the macros visit them.
pub record IsRing (h : Heap) (head : ℕ) (ms : List ℕ) : Type 0 where
  pub chain : Chain h head ms head
  pub distinct : Distinct (head ∷ ms)
  pub not_null : has null (head ∷ ms) ≡ false

-- `g` differs from `h` at most at the nodes of `xs`.
abbrev pub SameOutside : List ℕ → Heap → Heap → Type 0
SameOutside xs h g = (p : ℕ) → has p xs ≡ false → (g.next p ≡ h.next p) × (g.prev p ≡ h.prev p)

-- `INIT_LIST_HEAD` makes a node the head of an empty list.
pub init-IsRing :
    (h : Heap) (head : ℕ)
    → head ≢ null
    → (g : Heap) × (init_list_head head h ≡ some g) × IsRing g head []
unfolding init_list_head
init-IsRing h head ne = (
  record { next = update h.next head head; prev = update h.prev head head },
  ground arith,
  record { chain = ground arith; distinct = (refl, tt); not_null = ground arith },
)

-- Linking a node between the last one and the end.
extend :
    (h g : Heap) (new a : ℕ) (xs : List ℕ) (b : ℕ)
    → Chain h a xs b
    → Distinct (a ∷ xs)
    → ((p : ℕ) → has p (a ∷ xs) ≡ true → p ≢ h.next b → g.prev p ≡ h.prev p)
    → ((p : ℕ) → has p xs ≡ true → g.next p ≡ h.next p)
    → (g.prev (h.next b) ≡ new) × (g.next new ≡ h.next b) × (g.prev new ≡ b) × (g.next b ≡ new)
    → Chain g a (xs ++ new ∷ []) b
extend h g new a [] b (p, n) d same_prev same_next e = ground arith
extend h g new a (x ∷ xs) b (p, n, c) d same_prev same_next e =
    let last_in = last-has h x xs b c in
    (
      ground (arith, same_prev a, last_in),
      ground (arith, same_next x),
      extend h g new x xs b c d.1 (λ q i. same_prev q (ground arith))
          (λ q i. same_next q (ground arith)) e,
    )

abbrev added : ℕ → ℕ → ℕ → Heap → Heap
added lnew prev next h = record {
  next = update (update h.next lnew next) prev lnew;
  prev = update (update h.prev next lnew) lnew prev;
}

list_add_lem :
    (new head : ℕ) (h : Heap)
    → new ≢ null
    → head ≢ null
    → h.next head ≢ null
    → list_add new head h ≡ some (added new head (h.next head) h)
unfolding list_add
list_add_lem new head h a b c = ground arith

abbrev added_first : ℕ → ℕ → ℕ → Heap → Heap
added_first lnew prev head h = record {
  next = update (update h.next lnew head) prev lnew;
  prev = update (update h.prev head lnew) lnew prev;
}

list_add_first_lem :
    (new head : ℕ) (h : Heap)
    → new ≢ null
    → head ≢ null
    → h.prev head ≢ null
    → list_add_first new head h ≡ some (added_first new (h.prev head) head h)
unfolding list_add_first
list_add_first_lem new head h a b c = ground arith

-- The node after the start stands inside or is the end.
pub first-has :
    (h : Heap) (a : ℕ) (xs : List ℕ) (b : ℕ) → Chain h a xs b → has (h.prev a) (xs ++ b ∷ []) ≡ true
first-has h a [] b (p, n) = ground arith
first-has h a (x ∷ xs) b (p, n, c) = ground arith

-- Linking a node between the start and the first one.
prefix :
    (h g : Heap) (new a : ℕ) (xs : List ℕ) (b : ℕ)
    → Chain h a xs b
    → Distinct (xs ++ b ∷ [])
    → ((p : ℕ) → has p xs ≡ true → g.prev p ≡ h.prev p)
    → ((p : ℕ) → has p (xs ++ b ∷ []) ≡ true → p ≢ h.prev a → g.next p ≡ h.next p)
    → (g.prev a ≡ new) × (g.next new ≡ a) × (g.prev new ≡ h.prev a) × (g.next (h.prev a) ≡ new)
    → Chain g a (new ∷ xs) b
prefix h g new a [] b (p, n) d same_prev same_next e = ground arith
prefix h g new a (x ∷ xs) b (p, n, c) d same_prev same_next e = (
  e.0,
  e.1,
  (
    ground arith,
    ground arith,
    frame h g x xs b same_prev (λ q i. same_next q (ground arith) (ground arith)) c,
  ),
)

module _ {h : Heap} {head : ℕ} {ms : List ℕ} (r : IsRing h head ms) where
  open r use {chain, distinct, not_null}

  next_in : has (h.next head) (head ∷ ms) ≡ true
  next_in = last-has h head ms head chain

  next_not_null : h.next head ≢ null
  next_not_null e = ground (arith, next_in)

  prev_in : has (h.prev head) (ms ++ head ∷ []) ≡ true
  prev_in = first-has h head ms head chain

  prev_not_null : h.prev head ≢ null
  prev_not_null e = ground (arith, prev_in, has-append null ms (head ∷ []))

  -- `rns_list_add` of a fresh node puts it behind all others, so that the macros visit it last.
  pub list_add-IsRing :
      (new : ℕ)
      → new ≢ null
      → has new (head ∷ ms) ≡ false
      → (g : Heap) × (list_add new head h ≡ some g)
        × IsRing g head (ms ++ new ∷ [])
        × SameOutside (new ∷ head ∷ ms) h g
  list_add-IsRing new ne out = (
    added new head (h.next head) h,
    list_add_lem new head h ne (ground arith) next_not_null,
    record {
      chain =
          extend h (added new head (h.next head) h) new head ms head chain distinct
            (λ p i e. ground (arith, next_in)) (λ p i. ground (arith, next_in))
            (ground (arith, next_in));
      distinct = (
        ground (arith, has-append head ms (new ∷ [])),
        Distinct-snoc new ms distinct.1 (ground arith),
      );
      not_null = ground (arith, has-append null ms (new ∷ []));
    },
    λ p o. ground (arith, next_in),
  )

  -- `rns_list_add_first` of a fresh node puts it before all others.
  pub list_add_first-IsRing :
      (new : ℕ)
      → new ≢ null
      → has new (head ∷ ms) ≡ false
      → (g : Heap) × (list_add_first new head h ≡ some g)
        × IsRing g head (new ∷ ms)
        × SameOutside (new ∷ head ∷ ms) h g
  list_add_first-IsRing new ne out = (
    added_first new (h.prev head) head h,
    list_add_first_lem new head h ne (ground arith) prev_not_null,
    record {
      chain =
          prefix h (added_first new (h.prev head) head h) new head ms head chain
            (Distinct-snoc head ms distinct.1 distinct.0) (λ p i. ground (arith, prev_in))
            (λ p i e.
              ground (arith, prev_in, has-append p ms (head ∷ []), has-append new ms (head ∷ [])))
            (ground (arith, prev_in, has-append new ms (head ∷ [])));
      distinct = ground arith;
      not_null = ground arith;
    },
    λ p o. ground (arith, prev_in, has-append p ms (head ∷ [])),
  )
