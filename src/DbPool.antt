-- ===== src/DbPool.antt =====
-- lib_src/db/rns_dbpool.c, rns_dbpool_get and rns_dbpool_free: the connections of a pool that are
-- not in use stand in a list. A connection is known by the address of its list node, the pool by
-- the address of its list head, and `sql` is the field of the connections, 0 for NULL.
pub mod Handing
mod Tests
use yclib.Base.{ℕ, Option, some, ◌==◌, if◌then◌else◌, ◌>>=◌}
use yclib.Links.{Heap, null, update, list_first, list_del, list_add_safe}

unfoldable pub get : ℕ → Heap → Option (ℕ × Heap)
get mysqls h =
    let mysql = list_first mysqls h in
    if mysql == null then some (null, h) else list_del mysql h >>= λ g. some (mysql, g)

unfoldable pub free : ℕ → ℕ → Heap → (ℕ → ℕ) → Option (Heap × (ℕ → ℕ))
free mysql mysqls h sql =
    if mysql == null
    then some (h, sql)
    else list_add_safe mysql mysqls h >>= λ g.
        some (g, if sql mysql == 0 then sql else update sql mysql 0)
