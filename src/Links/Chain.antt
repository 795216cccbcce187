-- ===== src/Links/Chain.antt =====
-- Chains: what it takes for the `prev` links to lead from one node to another through a list of
-- nodes, with the `next` links leading back.
use yclib.Base.{ℕ, ◌≡◌, refl, Bool, true, false, ◌||◌, List, [], ◌∷◌, ◌++◌, arith, ◌==◌}
use yclib.Links.{Heap}

abbrev pub has : ℕ → List ℕ → Bool
has a [] = false
has a (x ∷ xs) = (a == x) || has a xs

abbrev pub Distinct : List ℕ → Type 0
Distinct [] = Unit {0}
Distinct (x ∷ xs) = (has x xs ≡ false) × Distinct xs

-- From `a` the `prev` links lead through `xs` to `b`, and the `next` links back.
abbrev pub Chain : Heap → ℕ → List ℕ → ℕ → Type 0
Chain h a [] b = (h.prev a ≡ b) × (h.next b ≡ a)
Chain h a (x ∷ xs) b = (h.prev a ≡ x) × (h.next x ≡ a) × Chain h x xs b

pub has-append : (a : ℕ) (xs ys : List ℕ) → has a (xs ++ ys) ≡ (has a xs || has a ys)
has-append a [] ys = refl
has-append a (x ∷ xs) ys = ground (arith, has-append a xs ys)

-- A chain reads `prev` at its start and inside, `next` inside and at its end.
pub frame :
    (h g : Heap) (a : ℕ) (xs : List ℕ) (b : ℕ)
    → ((p : ℕ) → has p (a ∷ xs) ≡ true → g.prev p ≡ h.prev p)
    → ((p : ℕ) → has p (xs ++ b ∷ []) ≡ true → g.next p ≡ h.next p)
    → Chain h a xs b
    → Chain g a xs b
frame h g a [] b same_prev same_next (p, n) =
    (ground (arith, same_prev a), ground (arith, same_next b))
frame h g a (x ∷ xs) b same_prev same_next (p, n, c) = (
  ground (arith, same_prev a),
  ground (arith, same_next x),
  frame h g x xs b (λ q i. same_prev q (ground arith)) (λ q i. same_next q (ground arith)) c,
)

-- The node before the end is the start or stands inside.
pub last-has :
    (h : Heap) (a : ℕ) (xs : List ℕ) (b : ℕ) → Chain h a xs b → has (h.next b) (a ∷ xs) ≡ true
last-has h a [] b (p, n) = ground arith
last-has h a (x ∷ xs) b (p, n, c) = ground (arith, last-has h x xs b c)

pub split :
    (h : Heap) (a : ℕ) (xs : List ℕ) (y : ℕ) (ys : List ℕ) (b : ℕ)
    → Chain h a (xs ++ y ∷ ys) b
    → Chain h a xs y × Chain h y ys b
split h a [] y ys b (p, n, c) = ((p, n), c)
split h a (x ∷ xs) y ys b (p, n, c) =
    let (left, right) = split h x xs y ys b c in ((p, n, left), right)

pub join :
    (h : Heap) (a : ℕ) (xs : List ℕ) (y : ℕ) (ys : List ℕ) (b : ℕ)
    → Chain h a xs y
    → Chain h y ys b
    → Chain h a (xs ++ y ∷ ys) b
join h a [] y ys b (p, n) right = (p, n, right)
join h a (x ∷ xs) y ys b (p, n, left) right = (p, n, join h x xs y ys b left right)

pub Distinct-snoc :
    (new : ℕ) (xs : List ℕ) → Distinct xs → has new xs ≡ false → Distinct (xs ++ new ∷ [])
Distinct-snoc new [] d out = (refl, tt)
Distinct-snoc new (x ∷ xs) d out =
    (ground (arith, has-append x xs (new ∷ [])), Distinct-snoc new xs d.1 (ground arith))

pub Distinct-parts :
    (xs ys : List ℕ)
    → Distinct (xs ++ ys)
    → Distinct xs × Distinct ys × ((p : ℕ) → has p xs ≡ true → has p ys ≡ false)
Distinct-parts [] ys d = (tt, d, λ p i. cc)
Distinct-parts (x ∷ xs) ys (out, d) =
    let (left, right, apart) = Distinct-parts xs ys d in
    (
      (ground (arith, has-append x xs ys), left),
      right,
      λ p i. ground (arith, has-append x xs ys, apart p),
    )

pub Distinct-without :
    (xs : List ℕ) (e : ℕ) (ys : List ℕ) → Distinct (xs ++ e ∷ ys) → Distinct (xs ++ ys)
Distinct-without [] e ys d = d.1
Distinct-without (x ∷ xs) e ys (out, d) =
    (ground (arith, has-append x xs ys, has-append x xs (e ∷ ys)), Distinct-without xs e ys d)
