-- ===== src/Mpool/Blocks.antt =====
-- `rns_mpool_alloc` and `rns_mpool_free` on a well-formed pool.
use mathlib.Core.List.{append-nil}
use mathlib.Core.Path.{subst}
use yclib.Base.{
  ℕ, ◌+◌, ◌-◌, ◌*◌, ◌/◌, ◌<◌, ◌≡◌, sym, true, false, List, [], ◌∷◌, ◌++◌, arith, ◌==◌, u32, sub32,
  length, All-append, All-parts, length-append, some,
}
use yclib.Links.{Heap, null, list_add, list_del}
use yclib.Links.Chain.{has, Chain, split, Distinct-snoc, Distinct-parts}
use yclib.Links.Ring.{IsRing, list_add-IsRing}
use yclib.Links.Remove.{list_del-IsRing}
use yclib.Mpool.{Mpool, alloc, free, node_at}
use yclib.Mpool.Layout.{
  IsPool, nodes, has-nodes, nodes-append, index-node, index-block, offset_fits,
}

first_inside :
    (h : Heap) (a x : ℕ) (xs : List ℕ) (b : ℕ)
    → Chain h a (x ∷ xs) b
    → has (h.prev a) (x ∷ xs) ≡ true
first_inside h a x xs b c = ground arith

-- The block of index `i` as `rns_mpool_alloc` returns it.
abbrev pub block_at : Mpool → ℕ → ℕ
block_at p i = p.buf + i * p.block_size

abbrev pub taken : Mpool → Mpool
taken p = record p { avail_block_num = sub32 p.avail_block_num 1 }

module _ {total : ℕ} {p : Mpool} {h : Heap} (j : ℕ) (js : List ℕ) (i : ℕ)
    (pool : IsPool total p h (j ∷ js ++ i ∷ [])) where
  open pool use {ring, distinct, in_range, counted, fits, few, sized}

  below : i < total
  below = (All-parts (λ k. k < total) (j ∷ js) (i ∷ []) in_range).1.0

  ring_at : IsRing h p.addr (nodes p.addr (j ∷ js) ++ node_at p.addr i ∷ [])
  ring_at = subst (IsRing h p.addr) (nodes-append p.addr (j ∷ js) (i ∷ [])) ring

  last_node : h.next p.addr ≡ node_at p.addr i
  last_node =
      (split h p.addr (nodes p.addr (j ∷ js)) (node_at p.addr i) [] p.addr ring_at.chain).1.1

  ends_differ : (h.next p.addr == h.prev p.addr) ≡ false
  ends_differ =
      let apart = (Distinct-parts (j ∷ js) (i ∷ []) distinct).2 i in
      let left =
        (split h p.addr (nodes p.addr (j ∷ js)) (node_at p.addr i) [] p.addr ring_at.chain).0 in
      let inside =
        first_inside h p.addr (node_at p.addr j) (nodes p.addr js) (node_at p.addr i) left in
      ground (arith, last_node, inside, apart, has-nodes p.addr i (j ∷ js))

  addr_not_null : (p.addr == null) ≡ false
  addr_not_null = ground (arith, ring_at.not_null)

  result :
      (h' : Heap)
      → list_del (node_at p.addr i) h ≡ some h'
      → alloc p h ≡ some (block_at p i, taken p, h')
  unfolding alloc
  result h' del =
      let small = offset_fits i total p.block_size below fits in
      let same_offset : u32 (i * p.block_size) ≡ i * p.block_size = omega arith in
      rw (
        addr_not_null,
        ends_differ,
        last_node,
        index-node p.addr i (omega (arith, below)),
        same_offset,
        del,
      )

  -- Where two blocks or more are free, `rns_mpool_alloc` hands out the one that stands last in the
  -- list and leaves a well-formed pool of the others.
  pub alloc-IsPool :
      (h' : Heap) × (alloc p h ≡ some (block_at p i, taken p, h'))
      × IsPool total (taken p) h' (j ∷ js)
  alloc-IsPool =
      let (h', del, ring', freed, same) =
        list_del-IsRing (node_at p.addr i) (nodes p.addr (j ∷ js)) [] ring_at in
      (
        h',
        result h' del,
        record {
          ring = subst (IsRing h' p.addr) (append-nil (nodes p.addr (j ∷ js))) ring';
          distinct = (Distinct-parts (j ∷ js) (i ∷ []) distinct).0;
          in_range = (All-parts (λ k. k < total) (j ∷ js) (i ∷ []) in_range).0;
          counted = omega (arith, length-append js (i ∷ []));
          fits = fits;
          few = few;
          sized = sized;
        },
      )

freed_result :
    (p : Mpool) (h : Heap) (i : ℕ) (h' : Heap)
    → u32 (block_at p i - p.buf) / p.block_size ≡ i
    → list_add (node_at p.addr i) p.addr h ≡ some h'
    → free p (block_at p i) h
      ≡ some (record p { avail_block_num = u32 (p.avail_block_num + 1) }, h')
unfolding free
freed_result p h i h' index add = rw (index, add)

module _ {total : ℕ} {p : Mpool} {h : Heap} where
  -- Where one free block is left, or none, `rns_mpool_alloc` refuses and changes nothing.
  pub alloc_last :
      (is : List ℕ) → IsPool total p h is → length is < 2 → alloc p h ≡ some (null, p, h)
  unfolding alloc
  alloc_last [] pool few = ground (arith, pool.ring.chain, pool.ring.not_null)
  alloc_last (i ∷ []) pool few = ground (arith, pool.ring.chain, pool.ring.not_null)
  alloc_last (i ∷ j ∷ is) pool few = absurd (omega arith)

  -- `rns_mpool_free` of a block of the pool that is in use leaves a well-formed pool with the block
  -- behind the free ones.
  pub free-IsPool :
      (is : List ℕ) (i : ℕ)
      → IsPool total p h is
      → i < total
      → has i is ≡ false
      → (h' : Heap) × (free p (block_at p i) h
          ≡ some (record p { avail_block_num = u32 (p.avail_block_num + 1) }, h'))
        × IsPool total
            (record p { avail_block_num = u32 (p.avail_block_num + 1) })
            h'
            (is ++ i ∷ [])
  free-IsPool is i pool below out =
      let (h', add, ring', same) =
        list_add-IsRing pool.ring (node_at p.addr i) (omega arith)
          (ground (arith, has-nodes p.addr i is)) in
      let index = index-block p.buf i total p.block_size below pool.fits pool.sized in
      (
        h',
        freed_result p h i h' index add,
        record {
          ring = subst (IsRing h' p.addr) (sym (nodes-append p.addr is (i ∷ []))) ring';
          distinct = Distinct-snoc i is pool.distinct out;
          in_range = All-append (λ k. k < total) is (i ∷ []) pool.in_range (below, tt);
          counted = omega (arith, pool.counted, length-append is (i ∷ []));
          fits = pool.fits;
          few = pool.few;
          sized = pool.sized;
        },
      )

abbrev pub freed : Mpool → Mpool
freed p = record p { avail_block_num = u32 (p.avail_block_num + 1) }

-- A block that is in use and given back is the next one to be handed out, and then the pool is as
-- it was, provided that it has one more free block.
pub alloc-free :
    {total : ℕ} {p : Mpool} {h : Heap} (j : ℕ) (js : List ℕ) (i : ℕ)
    → IsPool total p h (j ∷ js)
    → i < total
    → has i (j ∷ js) ≡ false
    → (h' h'' : Heap) × (free p (block_at p i) h ≡ some (freed p, h'))
      × (alloc (freed p) h' ≡ some (block_at p i, taken (freed p), h''))
      × IsPool total (taken (freed p)) h'' (j ∷ js)
alloc-free j js i pool below out =
    let (h', put, pool') = free-IsPool (j ∷ js) i pool below out in
    let (h'', got, pool'') = alloc-IsPool j js i pool' in (h', h'', put, got, pool'')
