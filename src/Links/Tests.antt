-- ===== src/Links/Tests.antt =====
-- list_head.h on a ring of two nodes.
use yclib.Base.{◌≡◌, refl, true, some, [], ◌∷◌, arith, ◌==◌, if◌then◌else◌}
use yclib.Links.{Heap, list_add, list_del, list_free}
use yclib.Links.Ring.{IsRing, SameOutside, list_add-IsRing}
use yclib.Links.Remove.{list_del-IsRing}

-- head 10, nodes 20 and 30
abbrev two : Heap
two = record {
  prev = λ p. if p == 10 then 20 else if p == 20 then 30 else if p == 30 then 10 else 0;
  next = λ p. if p == 10 then 30 else if p == 20 then 10 else if p == 30 then 20 else 0;
}

abbrev two-IsRing : IsRing two 10 (20 ∷ 30 ∷ [])
two-IsRing = record {
  chain = (refl, refl, (refl, refl, (refl, refl)));
  distinct = (refl, (refl, (refl, tt)));
  not_null = refl;
}

list_add-IsRing_example :
    (g : Heap) × (list_add 40 10 two ≡ some g)
    × IsRing g 10 (20 ∷ 30 ∷ 40 ∷ [])
    × SameOutside (40 ∷ 10 ∷ 20 ∷ 30 ∷ []) two g
list_add-IsRing_example = list_add-IsRing two-IsRing 40 (ground arith) refl

list_del-IsRing_example :
    (g : Heap) × (list_del 20 two ≡ some g)
    × IsRing g 10 (30 ∷ [])
    × (list_free 20 g ≡ true)
    × SameOutside (10 ∷ 20 ∷ 30 ∷ []) two g
list_del-IsRing_example = list_del-IsRing 20 [] (30 ∷ []) two-IsRing
