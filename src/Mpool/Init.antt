-- ===== src/Mpool/Init.antt =====
-- `rns_mpool_init` lays out a well-formed pool that fills its memory.
use mathlib.Core.Path.{subst}
use native.Mathlib.Nat.{
  div-add-mod', mul-mod_left, mul_comm, div-le_of_le-mul, div-lt_iff_lt-mul, lt-div-mul-add,
}
use yclib.Base.{
  ℕ, zero, suc, ◌+◌, ◌-◌, ◌*◌, ◌/◌, ◌%◌, ◌^◌, ◌≤◌, ◌<◌, ◌≡◌, ◌≢◌, refl, ap, ◌∙◌, sym, true, false,
  List, [], ◌∷◌, ◌++◌, arith, ◌==◌, u32, sub32, length, length-append, All, All-append, ltb, some,
  if◌then◌else◌, ==_iff, Bool-cases, inl, inr,
}
use yclib.Links.{Heap, null, init_list_head}
use yclib.Links.Chain.{has, Distinct, Distinct-snoc, has-append}
use yclib.Links.Ring.{IsRing, list_add-IsRing, init-IsRing}
use yclib.Mpool.{
  Mpool, init, add_nodes, head_blocks, new_pool, node_at, sizeof_list_head, sizeof_mpool,
}
use yclib.Mpool.Layout.{IsPool, nodes, has-nodes, nodes-append}

-- The indices 0, 1, ..., n - 1.
abbrev pub upto : ℕ → List ℕ
upto zero = []
upto (suc n) = upto n ++ n ∷ []

has-upto : (k n : ℕ) → n ≤ k → has k (upto n) ≡ false
has-upto k zero h = refl
has-upto k (suc n) h = ground (arith, has-append k (upto n) (n ∷ []), has-upto k n)

Distinct-upto : (n : ℕ) → Distinct (upto n)
Distinct-upto zero = tt
Distinct-upto (suc n) = Distinct-snoc n (upto n) (Distinct-upto n) (has-upto n n (omega arith))

length-upto : (n : ℕ) → length (upto n) ≡ n
length-upto zero = refl
length-upto (suc n) = omega (arith, length-append (upto n) (n ∷ []), length-upto n)

All-upto : (m n : ℕ) → n ≤ m → All (λ i. i < m) (upto n)
All-upto m zero h = tt
All-upto m (suc n) h =
    All-append (λ i. i < m) (upto n) (n ∷ []) (All-upto m n (omega arith)) (h, tt)

add_nodes-IsRing :
    (addr i left : ℕ) (h : Heap)
    → IsRing h addr (nodes addr (upto i))
    → (h' : Heap) × (add_nodes addr i left h ≡ some h')
      × IsRing h' addr (nodes addr (upto (i + left)))
unfolding add_nodes
add_nodes-IsRing addr i zero h r =
    let same : i ≡ i + 0 = omega arith in
    (h, refl, subst (λ k. IsRing h addr (nodes addr (upto k))) same r)
add_nodes-IsRing addr i (suc left) h r =
    let fresh : has (node_at addr i) (addr ∷ nodes addr (upto i)) ≡ false =
      ground (arith, has-nodes addr i (upto i), has-upto i i) in
    let (g, add, ring, same) = list_add-IsRing r (node_at addr i) (omega arith) fresh in
    let longer : nodes addr (upto i) ++ node_at addr i ∷ [] ≡ nodes addr (upto (suc i)) =
      sym (nodes-append addr (upto i) (i ∷ [])) in
    let next : suc i ≡ i + 1 = omega arith in
    let here =
      subst (λ k. IsRing g addr (nodes addr (upto k))) next (subst (IsRing g addr) longer ring) in
    let (h', rest, done) = add_nodes-IsRing addr (i + 1) left g here in
    let total : i + 1 + left ≡ i + suc left = omega arith in
    (h', rw add rest, subst (λ k. IsRing h' addr (nodes addr (upto k))) total done)

abbrev round_up : ℕ → ℕ → ℕ
round_up a b = if a % b == 0 then a / b else u32 (a / b + 1)

round_up_lem :
    (a b n : ℕ) → 0 < b → n < 2 ^ 32 → a ≤ n * b → (a ≤ round_up a b * b) × (round_up a b ≤ n)
round_up_lem a b n pos small room = elim (Bool-cases (a % b == 0)) [
  | inl exact ↦ rw exact (
    omega (arith, div-add-mod' a b, (==_iff (a % b) 0).0 exact),
    div-le_of_le-mul b (omega (arith, mul_comm n b)),
  )
  | inr rest ↦
      let nonzero : a % b ≢ 0 = λ e. ground arith in
      let strict : a < n * b = omega (arith, not_multiple nonzero) in
      let less : a / b < n = (div-lt_iff_lt-mul pos).1 strict in
      let no_wrap : u32 (a / b + 1) ≡ a / b + 1 = omega (arith, less) in
      rw (rest, no_wrap) (omega (arith, lt-div-mul-add {a = a} pos), omega (arith, less))
]
  where
    not_multiple : a % b ≢ 0 → a ≢ n * b
    not_multiple ne e = ne (ap (λ t. t % b) e ∙ mul-mod_left n b)

-- The memory of a pool as `rns_mpool_init` demands it, with room for the header.
pub record Fits (addr size block_size : ℕ) : Type 0 where
  pub not_null : addr ≢ null
  pub one_block : block_size ≤ size
  pub sized : 0 < block_size
  pub whole : size % block_size ≡ 0
  pub small : size < 2 ^ 32
  pub room : sizeof_list_head * (size / block_size) + sizeof_mpool ≤ size

-- The numbers of a pool: `n` blocks, of which `hb` hold the header.
record Numbers (addr size block_size : ℕ) (p : Mpool) : Type 0 where
  end : p.buf + p.avail_block_num * block_size ≡ addr + size
  nodes_end : addr + sizeof_mpool + sizeof_list_head * p.avail_block_num ≤ p.buf
  area : p.avail_block_num * block_size < 2 ^ 32
  few : p.avail_block_num < 2 ^ 32

numbers :
    (addr size block_size n hb free : ℕ)
    → size ≡ n * block_size
    → hb + free ≡ n
    → sizeof_list_head * n + sizeof_mpool ≤ hb * block_size
    → size < 2 ^ 32
    → n < 2 ^ 32
    → Numbers addr size block_size (record {
      addr = addr;
      block_size = block_size;
      avail_block_num = sub32 n hb;
      head_block_num = hb;
      buf = addr + u32 (hb * block_size);
    })
numbers addr size block_size n hb free total split room small few =
    let areas : hb * block_size + free * block_size ≡ size =
      omega (arith, ap (λ t. t * block_size) split) in
    let rest : sub32 n hb ≡ free = omega arith in
    let start : u32 (hb * block_size) ≡ hb * block_size = omega arith in
    record {
      end = rw (rest, start) (omega arith);
      nodes_end = rw (rest, start) (omega arith);
      area = rw rest (omega arith);
      few = rw rest (omega arith);
    }

new_pool-Numbers :
    {addr size block_size : ℕ}
    → Fits addr size block_size
    → Numbers addr size block_size (new_pool addr size block_size)
unfolding head_blocks
new_pool-Numbers {addr} {size} {block_size} f =
    let n : ℕ = size / block_size in
    let exact : size ≡ n * block_size = omega (arith, div-add-mod' size block_size, f.whole) in
    let header_fits : u32 (sizeof_list_head * n + sizeof_mpool)
        ≡ sizeof_list_head * n + sizeof_mpool =
      omega (arith, f.room, f.small) in
    let up : (sizeof_list_head * n + sizeof_mpool
          ≤ round_up (sizeof_list_head * n + sizeof_mpool) block_size * block_size)
        × (round_up (sizeof_list_head * n + sizeof_mpool) block_size ≤ n) =
      round_up_lem (sizeof_list_head * n + sizeof_mpool) block_size n f.sized
        (omega (arith, f.room, f.small)) (omega (arith, exact, f.room)) in
    rw header_fits (
      numbers addr size block_size n (round_up (sizeof_list_head * n + sizeof_mpool) block_size)
        (n - round_up (sizeof_list_head * n + sizeof_mpool) block_size) exact (omega (arith, up.1))
        up.0 f.small (omega (arith, f.room, f.small)))

init_run :
    {addr size block_size : ℕ} (h h' h'' : Heap)
    → Fits addr size block_size
    → init_list_head addr h ≡ some h'
    → add_nodes addr 0 (new_pool addr size block_size).avail_block_num h' ≡ some h''
    → init addr size block_size h ≡ some (some (new_pool addr size block_size, h''))
unfolding init
init_run {addr} {size} {block_size} h h' h'' f start add =
    let enough : ltb size block_size ≡ false = ground (arith, f.one_block) in
    let header : ltb size sizeof_mpool ≡ false = ground (arith, f.room) in
    let there : (addr == null) ≡ false = ground (arith, f.not_null) in
    let sized : (block_size == 0) ≡ false = ground (arith, f.sized) in
    let whole : (size % block_size == 0) ≡ true = ground (arith, f.whole) in
    rw (enough, header, there, sized, whole, start, add)

-- In memory with room for the header `rns_mpool_init` succeeds. Every block behind the header is
-- free, the blocks end where the memory ends, and the nodes end where the blocks begin at the latest.
pub init-IsPool :
    {addr size block_size : ℕ} (h : Heap)
    → Fits addr size block_size
    → (p : Mpool) × (h' : Heap) × (init addr size block_size h ≡ some (some (p, h')))
      × IsPool p.avail_block_num p h' (upto p.avail_block_num)
      × (p.buf + p.avail_block_num * block_size ≡ addr + size)
      × (addr + sizeof_mpool + sizeof_list_head * p.avail_block_num ≤ p.buf)
init-IsPool {addr} {size} {block_size} h fits =
    let p : Mpool = new_pool addr size block_size in
    let (h', start, ring) = init-IsRing h addr fits.not_null in
    let (h'', add, ring') = add_nodes-IsRing addr 0 p.avail_block_num h' ring in
    let count : 0 + p.avail_block_num ≡ p.avail_block_num = omega arith in
    let made : Numbers addr size block_size p = new_pool-Numbers fits in
    (
      p,
      h'',
      init_run h h' h'' fits start add,
      record {
        ring = subst (λ k. IsRing h'' addr (nodes addr (upto k))) count ring';
        distinct = Distinct-upto p.avail_block_num;
        in_range = All-upto p.avail_block_num p.avail_block_num (omega arith);
        counted = omega (arith, length-upto p.avail_block_num, made.few);
        fits = made.area;
        few = made.few;
        sized = fits.sized;
      },
      made.end,
      made.nodes_end,
    )
