-- ===== src/Context/Lookup.antt =====
-- A context of lib_src/util/rns_rbt.c is a map from names to values.
use yclib.Base.{
  ℕ, ◌≡◌, ◌≢◌, ◌∙◌, true, false, ◌==◌, arith, if◌then◌else◌, Option-cases, inl, inr, none, some,
}
use yclib.Rbt.{Tree, inorder, search_walk, insert}
use yclib.Rbt.Keys.{str_order, str_same}
use yclib.Rbt.Insert.{insert_after, inorder-insert}
use yclib.Rbt.Search.{search_walk-Found, eq_of_same}
use yclib.Context.{Name, Context, put_value, add, get}
use yclib.Context.Names.{
  has_addr, find, IsContext, absent, find-Found, get-find, find-insert_after, Unique-insert_after,
  find-has_addr, find-injective,
}

module _ (insert_color : Tree Name → Tree Name)
    (keeps : (t : Tree Name) → inorder (insert_color t) ≡ inorder t) where
  abbrev new_context : Context → ℕ → Name → ℕ → Context
  new_context c n k v = record c {
    root = insert str_order insert_color k n c.root;
    value = put_value c.value n v;
  }

  -- What `rns_ctx_add` does, by the search for the name: a name that is there gets the new value, a
  -- new one a node.
  add_found :
      (c : Context) (n : ℕ) (k : Name) (v a : ℕ)
      → IsContext c
      → find k (inorder c.root) ≡ some a
      → add insert_color n true k v c ≡ some (true, record c { value = put_value c.value a v })
  unfolding add
  add_found c n k v a ok h = rw ok.all_keys (
      ground (
        arith,
        find-Found k (inorder c.root) (search_walk str_order k c.root) ok.unique
            (search_walk-Found str_order k c.root ok.sorted),
      ))

  add_new :
      (c : Context) (n : ℕ) (k : Name) (v : ℕ)
      → IsContext c
      → find k (inorder c.root) ≡ none
      → (n == 0) ≡ false
      → add insert_color n true k v c ≡ some (true, new_context c n k v)
  unfolding add
  add_new c n k v ok h ne = rw ok.all_keys (
      ground (
        arith,
        find-Found k (inorder c.root) (search_walk str_order k c.root) ok.unique
            (search_walk-Found str_order k c.root ok.sorted),
      ))

  module _ (c : Context) (n : ℕ) (k : Name) (v : ℕ) (ok : IsContext c)
      (fresh : has_addr n (inorder c.root) ≡ false) where
    new_entries : inorder (new_context c n k v).root ≡ insert_after str_order k n (inorder c.root)
    new_entries = (inorder-insert str_order insert_color keeps k n c.root ok.sorted).0

    new-IsContext : find k (inorder c.root) ≡ none → IsContext (new_context c n k v)
    new-IsContext h = record {
      sorted = (inorder-insert str_order insert_color keeps k n c.root ok.sorted).1;
      all_keys = ok.all_keys;
      unique =
          rw new_entries (
            Unique-insert_after k n (inorder c.root) (absent k (inorder c.root) h) fresh ok.unique);
    }

    get_found :
        (a : ℕ)
        → find k (inorder c.root) ≡ some a
        → (j : Name)
        → get j (record c { value = put_value c.value a v })
          ≡ (if str_same j k then some v else get j c)
    get_found a h j =
        let ok' : IsContext (record c { value = put_value c.value a v }) = record {
          sorted = ok.sorted;
          unique = ok.unique;
          all_keys = ok.all_keys;
        } in
        get-find (record c { value = put_value c.value a v }) ok' j
        ∙ rw (get-find c ok j) (
            ground
              (arith, find-injective j k a (inorder c.root) ok.unique, eq_of_same str_order j k))

    get_new :
        find k (inorder c.root) ≡ none
        → (j : Name) → get j (new_context c n k v) ≡ (if str_same j k then some v else get j c)
    get_new h j =
        get-find (new_context c n k v) (new-IsContext h) j
        ∙ rw
            (
              get-find c ok j,
              new_entries,
              find-insert_after j k n (inorder c.root) (absent k (inorder c.root) h),
            )
            (ground (arith, find-has_addr j n (inorder c.root)))

    -- With memory for a node and for the copy of the name `rns_ctx_add` succeeds, the context stays well-formed, the name has the
    -- new value and every other name the value that it had.
    pub get-add :
        n ≢ 0
        → (d : Context) × (add insert_color n true k v c ≡ some (true, d))
          × IsContext d
          × ((j : Name) → get j d ≡ (if str_same j k then some v else get j c))
    get-add ne = elim (Option-cases (find k (inorder c.root))) [
      | inl h ↦
          (new_context c n k v, add_new c n k v ok h (ground arith), new-IsContext h, get_new h)
      | inr (a, h) ↦ (
        record c { value = put_value c.value a v },
        add_found c n k v a ok h,
        record { sorted = ok.sorted; unique = ok.unique; all_keys = ok.all_keys },
        get_found a h,
      )
    ]
