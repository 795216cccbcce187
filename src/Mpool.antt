-- ===== src/Mpool.antt =====
-- lib_src/util/rns_mpool.c: a pool of equal blocks inside one piece of memory. Its first blocks hold
-- the header and, behind it, one list node for each block; a node in the header's list stands for
-- a free block. Sizes of structures are those of the 64-bit ABI. `none` is a fault.
pub mod Layout
pub mod Blocks
pub mod Init
mod Tests
use yclib.Base.{
  ℕ, zero, suc, ◌+◌, ◌-◌, ◌*◌, ◌/◌, ◌%◌, ◌^◌, ◌||◌, Bool, not, Option, none, some, ltb, ◌==◌,
  if◌then◌else◌, u32, sub32, ◌>>=◌,
}
use yclib.Links.{Heap, null, init_list_head, list_add, list_del, get_next, get_prev}

abbrev pub sizeof_list_head : ℕ
sizeof_list_head = 16

abbrev pub sizeof_mpool : ℕ
sizeof_mpool = 40

-- `rns_mpool_t` at address `addr`, which is also the address of its field `head`
pub record Mpool : Type 0 where
  pub addr : ℕ
  pub block_size : ℕ
  pub avail_block_num : ℕ
  pub head_block_num : ℕ
  pub buf : ℕ

-- The list node of block `i`.
abbrev pub node_at : ℕ → ℕ → ℕ
node_at addr i = addr + sizeof_mpool + i * sizeof_list_head

-- The loop of `rns_mpool_init`, which adds the nodes from `i` on.
add_nodes : ℕ → ℕ → ℕ → Heap → Option Heap
add_nodes addr i zero h = some h
add_nodes addr i (suc left) h = list_add (node_at addr i) addr h >>= add_nodes addr (i + 1) left

-- The number of blocks that the header takes, rounded up.
head_blocks : ℕ → ℕ → ℕ
head_blocks size block_size =
    let header_size = u32 (sizeof_list_head * (size / block_size) + sizeof_mpool) in
    if header_size % block_size == 0
    then header_size / block_size
    else u32 (header_size / block_size + 1)

abbrev new_pool : ℕ → ℕ → ℕ → Mpool
new_pool addr size block_size = record {
  addr = addr;
  block_size = block_size;
  avail_block_num = sub32 (size / block_size) (head_blocks size block_size);
  head_block_num = head_blocks size block_size;
  buf = addr + u32 (head_blocks size block_size * block_size);
}

-- `some none` is the NULL of a refused call. The guards come in the order of the source, so that a
-- block size of 0 reaches the division.
pub init : ℕ → ℕ → ℕ → Heap → Option (Option (Mpool × Heap))
init addr size block_size h =
    if ltb size block_size || (ltb size sizeof_mpool || addr == null)
    then some none
    else if block_size == 0
    then none
    else if not (size % block_size == 0)
    then some none
    else (let p = new_pool addr size block_size in
        init_list_head addr h >>= λ h'.
        add_nodes addr 0 p.avail_block_num h' >>= λ h''. some (some (p, h'')))

-- The block handed out, `null` if there is none.
pub alloc : Mpool → Heap → Option (ℕ × Mpool × Heap)
alloc p h = get_next p.addr h >>= λ ptr. get_prev p.addr h >>= λ last.
    if ptr == last
    then some (null, p, h)
    else (let idx = u32 ((ptr - p.addr - sizeof_mpool) / sizeof_list_head) in
        list_del ptr h >>= λ h'. some (
          p.buf + u32 (idx * p.block_size),
          record p { avail_block_num = sub32 p.avail_block_num 1 },
          h',
        ))

-- The block's bytes are cleared as well; they are no part of this state.
pub free : Mpool → ℕ → Heap → Option (Mpool × Heap)
free p block h =
    let idx = u32 (block - p.buf) / p.block_size in
    list_add (node_at p.addr idx) p.addr h >>= λ h'.
    some (record p { avail_block_num = u32 (p.avail_block_num + 1) }, h')
