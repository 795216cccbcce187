-- ===== src/DbPool/Tests.antt =====
-- lib_src/db/rns_dbpool.c on a pool with two connections.
use yclib.Base.{ℕ, ◌≡◌, refl, some, [], ◌∷◌, ◌==◌, if◌then◌else◌}
use yclib.Links.{Heap}
use yclib.Links.Ring.{IsRing}
use yclib.DbPool.{get, free}
use yclib.DbPool.Handing.{without_sql, free-get}

-- the pool at 10, connections at 20 and 30, the first of them with a text at 99
abbrev two : Heap
two = record {
  prev = λ p. if p == 10 then 20 else if p == 20 then 30 else if p == 30 then 10 else 0;
  next = λ p. if p == 10 then 30 else if p == 20 then 10 else if p == 30 then 20 else 0;
}

abbrev texts : ℕ → ℕ
texts p = if p == 20 then 99 else 0

abbrev two-IsRing : IsRing two 10 (20 ∷ 30 ∷ [])
two-IsRing = record {
  chain = (refl, refl, (refl, refl, (refl, refl)));
  distinct = (refl, (refl, (refl, tt)));
  not_null = refl;
}

free-get_example :
    (g k : Heap) × (get 10 two ≡ some (20, g))
    × IsRing g 10 (30 ∷ [])
    × (free 20 10 g texts ≡ some (k, without_sql 20 texts))
    × IsRing k 10 (30 ∷ 20 ∷ [])
    × (without_sql 20 texts 20 ≡ 0)
free-get_example = free-get 20 (30 ∷ []) texts two-IsRing
