-- ===== src/Links.antt =====
-- lib_src/util/list_head.h: circular doubly linked lists threaded through their owners, over a
-- heap of links. A pointer is a number and NULL is 0; `none` is an access through NULL. The list
-- macros walk along `prev`, so a list is read from `head->prev` to `head->next`.
pub mod Chain
pub mod Ring
pub mod Remove
pub mod Walk
mod Tests
use yclib.Base.{
  ℕ, zero, suc, ◌+◌, ◌&&◌, Bool, true, false, Option, none, some, List, [], ◌∷◌, ◌==◌,
  if◌then◌else◌, ◌>>=◌,
}

abbrev pub null : ℕ
null = 0

-- `struct list_head`, one field a function of the address
pub record Heap : Type 0 where
  pub next : ℕ → ℕ
  pub prev : ℕ → ℕ

abbrev pub update : (ℕ → ℕ) → ℕ → ℕ → ℕ → ℕ
update f p v q = if q == p then v else f q

abbrev pub set_next : ℕ → ℕ → Heap → Option Heap
set_next p v h = if p == null then none else some (record h { next = update h.next p v })

abbrev pub set_prev : ℕ → ℕ → Heap → Option Heap
set_prev p v h = if p == null then none else some (record h { prev = update h.prev p v })

abbrev pub get_next : ℕ → Heap → Option ℕ
get_next p h = if p == null then none else some (h.next p)

abbrev pub get_prev : ℕ → Heap → Option ℕ
get_prev p h = if p == null then none else some (h.prev p)

unfoldable pub init_list_head : ℕ → Heap → Option Heap
init_list_head list h = set_next list list h >>= set_prev list list

-- `__rns_list_add`
link_between : ℕ → ℕ → ℕ → Heap → Option Heap
link_between lnew prev next h =
    set_prev next lnew h >>= set_next lnew next >>= set_prev lnew prev >>= set_next prev lnew

unfoldable pub list_add : ℕ → ℕ → Heap → Option Heap
unfolding link_between
list_add lnew head h = get_next head h >>= λ next. link_between lnew head next h

unfoldable pub list_add_first : ℕ → ℕ → Heap → Option Heap
unfolding link_between
list_add_first lnew head h = get_prev head h >>= λ prev. link_between lnew prev head h

-- `__rns_list_del`
unlink : ℕ → ℕ → Heap → Option Heap
unlink prev next h = set_prev next prev h >>= set_next prev next

unfoldable pub list_del : ℕ → Heap → Option Heap
unfolding unlink
list_del entry h = get_prev entry h >>= λ prev.
    get_next entry h >>= λ next. unlink prev next h >>= set_next entry null >>= set_prev entry null

-- `rns_list_free`: a node in no list has two null links.
unfoldable pub list_free : ℕ → Heap → Bool
list_free node h = h.prev node == null && h.next node == null

unfoldable pub list_del_safe : ℕ → Heap → Option Heap
list_del_safe entry h = if list_free entry h then some h else list_del entry h

unfoldable pub list_add_safe : ℕ → ℕ → Heap → Option Heap
list_add_safe lnew head h = list_del_safe lnew h >>= list_add lnew head

unfoldable pub list_empty : ℕ → Heap → Bool
list_empty list h = h.prev list == list && h.next list == list

-- `rns_list_first` and `rns_list_last`; the result `null` says that the list is empty.
unfoldable pub list_first : ℕ → Heap → ℕ
list_first head h = if h.prev head == head then null else h.prev head

unfoldable pub list_last : ℕ → Heap → ℕ
list_last head h = if h.next head == head then null else h.next head

-- `rns_list_next` and `rns_list_prev`, from a node of the list with this head
unfoldable pub list_next : ℕ → ℕ → Heap → ℕ
list_next ptr head h = if h.prev ptr == head then null else h.prev ptr

unfoldable pub list_prev : ℕ → ℕ → Heap → ℕ
list_prev ptr head h = if h.next ptr == head then null else h.next ptr

-- The nodes that `rns_list_for_each` visits from `pos` on, for so many rounds at most; `none` when
-- they do not suffice.
walk : ℕ → ℕ → ℕ → Heap → Option (List ℕ)
walk zero pos head h = none
walk (suc rounds) pos head h =
    let rest = walk rounds (h.prev pos) head h in
    if pos == head then some [] else rest >>= λ xs. some (pos ∷ xs)

unfoldable pub list_for_each : ℕ → ℕ → Heap → Option (List ℕ)
unfolding walk
list_for_each rounds head h = walk rounds (h.prev head) head h
