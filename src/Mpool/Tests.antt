-- ===== src/Mpool/Tests.antt =====
-- lib_src/util/rns_mpool.c on a pool of six blocks of 64 bytes.
use native.Mathlib.Omega.{arith}
use yclib.Base.{◌≡◌, ◌+◌, ◌*◌, ◌≤◌, refl, some, [], ◌∷◌, ◌==◌, if◌then◌else◌}
use yclib.Links.{Heap, null}
use yclib.Mpool.{Mpool, init, alloc, free, sizeof_mpool, sizeof_list_head}
use yclib.Mpool.Layout.{IsPool}
use yclib.Mpool.Blocks.{taken, freed, alloc-IsPool, alloc_last, free-IsPool, alloc-free}
use yclib.Mpool.Init.{Fits, upto, init-IsPool}

-- Memory that is cleared.
abbrev cleared : Heap
cleared = record { next = λ p. 0; prev = λ p. 0 }

eight-Fits : Fits 1000 512 64
eight-Fits = record {
  not_null = ground arith;
  one_block = omega arith;
  sized = omega arith;
  whole = refl;
  small = omega arith;
  room = omega arith;
}

init-IsPool_example :
    (p : Mpool) × (h' : Heap) × (init 1000 512 64 cleared ≡ some (some (p, h')))
    × IsPool p.avail_block_num p h' (upto p.avail_block_num)
    × (p.buf + p.avail_block_num * 64 ≡ 1000 + 512)
    × (1000 + sizeof_mpool + sizeof_list_head * p.avail_block_num ≤ p.buf)
init-IsPool_example = init-IsPool cleared eight-Fits

-- Of the three blocks of `pool` two are free, of those of `short_pool` one.
abbrev pool : Mpool
pool = record { addr = 1000; block_size = 64; avail_block_num = 2; head_block_num = 2; buf = 1128 }

abbrev short_pool : Mpool
short_pool = record {
  addr = 1000;
  block_size = 64;
  avail_block_num = 1;
  head_block_num = 2;
  buf = 1128;
}

abbrev both : Heap
both = record {
  prev = λ p. if p == 1000 then 1040 else if p == 1040 then 1056 else if p == 1056 then 1000 else 0;
  next = λ p. if p == 1000 then 1056 else if p == 1040 then 1000 else if p == 1056 then 1040 else 0;
}

abbrev single : Heap
single = record {
  prev = λ p. if p == 1000 then 1040 else if p == 1040 then 1000 else 0;
  next = λ p. if p == 1000 then 1040 else if p == 1040 then 1000 else 0;
}

abbrev both-IsPool : IsPool 3 pool both (0 ∷ 1 ∷ [])
both-IsPool = record {
  ring = record {
    chain = (refl, refl, (refl, refl, (refl, refl)));
    distinct = (refl, (refl, (refl, tt)));
    not_null = refl;
  };
  distinct = (refl, (refl, tt));
  in_range = (omega arith, (omega arith, tt));
  counted = refl;
  fits = omega arith;
  few = omega arith;
  sized = omega arith;
}

abbrev single-IsPool : IsPool 3 short_pool single (0 ∷ [])
single-IsPool = record {
  ring = record {
    chain = (refl, refl, (refl, refl));
    distinct = (refl, (refl, tt));
    not_null = refl;
  };
  distinct = (refl, tt);
  in_range = (omega arith, tt);
  counted = refl;
  fits = omega arith;
  few = omega arith;
  sized = omega arith;
}

alloc-IsPool_example :
    (h' : Heap) × (alloc pool both ≡ some (1192, taken pool, h'))
    × IsPool 3 (taken pool) h' (0 ∷ [])
alloc-IsPool_example = alloc-IsPool 0 [] 1 both-IsPool

alloc_last_example : alloc short_pool single ≡ some (null, short_pool, single)
alloc_last_example = alloc_last (0 ∷ []) single-IsPool (omega arith)

free-IsPool_example :
    (h' : Heap) × (free short_pool 1192 single ≡ some (freed short_pool, h'))
    × IsPool 3 (freed short_pool) h' (0 ∷ 1 ∷ [])
free-IsPool_example = free-IsPool (0 ∷ []) 1 single-IsPool (omega arith) refl

alloc-free_example :
    (h' h'' : Heap) × (free short_pool 1192 single ≡ some (freed short_pool, h'))
    × (alloc (freed short_pool) h' ≡ some (1192, taken (freed short_pool), h''))
    × IsPool 3 (taken (freed short_pool)) h'' (0 ∷ [])
alloc-free_example = alloc-free 0 [] 1 single-IsPool (omega arith) refl
