-- ===== src/Mpool/Layout.antt =====
-- Where the nodes and the blocks of a pool lie, and what makes a pool well-formed.
use native.Mathlib.Nat.{mul-le-mul_right, mul-div_cancel}
use yclib.Base.{
  ℕ, ◌+◌, ◌-◌, ◌*◌, ◌/◌, ◌^◌, ◌≤◌, ◌<◌, ◌≡◌, refl, ap, false, List, [], ◌∷◌, ◌++◌, map, arith, u32,
  length, All,
}
use yclib.Links.{Heap}
use yclib.Links.Chain.{has, Distinct}
use yclib.Links.Ring.{IsRing}
use yclib.Mpool.{Mpool, node_at, sizeof_list_head, sizeof_mpool}

abbrev pub nodes : ℕ → List ℕ → List ℕ
nodes addr is = map (node_at addr) is

-- The free blocks `is` of a pool that manages `total` blocks, in the order of its list.
pub record IsPool (total : ℕ) (p : Mpool) (h : Heap) (is : List ℕ) : Type 0 where
  pub ring : IsRing h p.addr (nodes p.addr is)
  pub distinct : Distinct is
  pub in_range : All (λ i. i < total) is
  pub counted : p.avail_block_num ≡ u32 (length is)
  pub fits : total * p.block_size < 2 ^ 32
  pub few : total < 2 ^ 32
  pub sized : 0 < p.block_size

pub has-nodes : (addr i : ℕ) (is : List ℕ) → has (node_at addr i) (nodes addr is) ≡ has i is
has-nodes addr i [] = refl
has-nodes addr i (j ∷ is) = ground (arith, has-nodes addr i is)

pub has_addr-nodes : (addr q : ℕ) (is : List ℕ) → q ≤ addr → has q (nodes addr is) ≡ false
has_addr-nodes addr q [] h = refl
has_addr-nodes addr q (j ∷ is) h = ground (arith, has_addr-nodes addr q is h)

pub Distinct-nodes : (addr : ℕ) (is : List ℕ) → Distinct is → Distinct (nodes addr is)
Distinct-nodes addr [] d = tt
Distinct-nodes addr (i ∷ is) d = (ground (arith, has-nodes addr i is), Distinct-nodes addr is d.1)

pub nodes-append :
    (addr : ℕ) (is js : List ℕ) → nodes addr (is ++ js) ≡ nodes addr is ++ nodes addr js
nodes-append addr [] js = refl
nodes-append addr (i ∷ is) js = ap (λ t. node_at addr i ∷ t) (nodes-append addr is js)

-- The index that `rns_mpool_alloc` computes from a node, and the block's offset that follows.
pub index-node :
    (addr i : ℕ) → i < 2 ^ 32 → u32 ((node_at addr i - addr - sizeof_mpool) / sizeof_list_head) ≡ i
index-node addr i h = omega arith

pub offset_fits : (i total size : ℕ) → i < total → total * size < 2 ^ 32 → i * size < 2 ^ 32
offset_fits i total size h fits = grind (arith, mul-le-mul_right)

-- The index that `rns_mpool_free` computes from a block.
pub index-block :
    (buf i total size : ℕ)
    → i < total
    → total * size < 2 ^ 32
    → 0 < size
    → u32 (buf + i * size - buf) / size ≡ i
index-block buf i total size h fits pos =
    let small = offset_fits i total size h fits in
    let offset : u32 (buf + i * size - buf) ≡ i * size = omega arith in
    rw offset (mul-div_cancel i pos)
