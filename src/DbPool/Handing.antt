-- ===== src/DbPool/Handing.antt =====
-- What rns_dbpool_get and rns_dbpool_free of lib_src/db/rns_dbpool.c do to the list of the pool.
use yclib.Base.{
  ℕ, ◌≡◌, ◌≢◌, refl, ◌∙◌, true, false, some, List, [], ◌∷◌, ◌++◌, arith, ◌==◌, if◌then◌else◌,
}
use yclib.Links.{
  Heap, null, update, list_first, list_del, list_add, list_del_safe, list_add_safe, list_free,
}
use yclib.Links.Chain.{has}
use yclib.Links.Ring.{IsRing, list_add-IsRing}
use yclib.Links.Remove.{list_del-IsRing}
use yclib.Links.Walk.{ends-IsRing}
use yclib.DbPool.{get, free}

-- the field after a connection has been given back
abbrev pub without_sql : ℕ → (ℕ → ℕ) → ℕ → ℕ
without_sql m sql = if sql m == 0 then sql else update sql m 0

add_safe_free :
    (m head : ℕ) (h : Heap) → list_free m h ≡ true → list_add_safe m head h ≡ list_add m head h
unfolding list_add_safe list_del_safe
add_safe_free m head h free_node = rw free_node refl

free_result :
    (m head : ℕ) (h g : Heap) (sql : ℕ → ℕ)
    → m ≢ null
    → list_add_safe m head h ≡ some g
    → free m head h sql ≡ some (g, without_sql m sql)
unfolding free
free_result m head h g sql ne add =
    let there : (m == null) ≡ false = ground arith in rw (there, add) refl

get_result :
    (m head : ℕ) (h g : Heap)
    → m ≢ null
    → list_first head h ≡ m
    → list_del m h ≡ some g
    → get head h ≡ some (m, g)
unfolding get
get_result m head h g ne first del =
    let there : (m == null) ≡ false = ground arith in rw (first, there, del) refl

-- An empty pool hands out NULL and stays as it is.
pub get_empty : {h : Heap} {head : ℕ} → IsRing h head [] → get head h ≡ some (null, h)
unfolding get
get_empty {h} {head} r = rw (ends-IsRing r).0 refl

-- `rns_dbpool_get` hands out the first connection of the list and leaves the others; a connection
-- that is given back by `rns_dbpool_free` goes behind all others and has no text any more.
pub free-get :
    {h : Heap} {head : ℕ} (m : ℕ) (ms : List ℕ) (sql : ℕ → ℕ)
    → IsRing h head (m ∷ ms)
    → (g k : Heap) × (get head h ≡ some (m, g))
      × IsRing g head ms
      × (free m head g sql ≡ some (k, without_sql m sql))
      × IsRing k head (ms ++ m ∷ [])
      × (without_sql m sql m ≡ 0)
free-get {h} {head} m ms sql r =
    let ne : m ≢ null = λ e. ground (arith, r.not_null) in
    let out : has m (head ∷ ms) ≡ false = ground (arith, r.distinct) in
    let (g, del, ring, freed, same) = list_del-IsRing m [] ms r in
    let (k, add, ring', same') = list_add-IsRing ring m ne out in
    (
      g,
      k,
      get_result m head h g ne (ends-IsRing r).0 del,
      ring,
      free_result m head g k sql ne (add_safe_free m head g freed ∙ add),
      ring',
      ground arith,
    )
