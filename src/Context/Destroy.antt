-- ===== src/Context/Destroy.antt =====
-- `rns_ctx_destroy` ends, and frees every node once.
use yclib.Base.{
  ℕ, zero, suc, ◌<◌, ◌≡◌, refl, ap, sym, ◌∙◌, ◌==◌, List, [], ◌∷◌, ◌++◌, map, arith, if◌then◌else◌,
  Option, none, some, length,
}
use yclib.Rbt.{Tree, leaf, node, Entry, inorder}
use yclib.Context.{Name, first, destroy_loop}

abbrev head_addr : {K : Type 0} → List (Entry K) → Option ℕ
head_addr [] = none
head_addr (e ∷ es) = some e.1

head_addr-append :
    {K : Type 0} (es : List (Entry K)) (e : Entry K) (fs : List (Entry K)) (d : Entry K)
    (gs : List (Entry K))
    → head_addr ((es ++ e ∷ fs) ++ d ∷ gs) ≡ head_addr (es ++ e ∷ fs)
head_addr-append [] e fs d gs = refl
head_addr-append (c ∷ es) e fs d gs = refl

first-inorder : {K : Type 0} (t : Tree K) → first t ≡ head_addr (inorder t)
unfolding first
first-inorder leaf = refl
first-inorder (node leaf k a r) = refl
first-inorder (node (node l k' a' r') k a r) =
    first-inorder (node l k' a' r')
    ∙ sym (head_addr-append (inorder l) (k', a') (inorder r') (k, a) (inorder r))

abbrev pub remove_addr : ℕ → List (Entry Name) → List (Entry Name)
remove_addr a [] = []
remove_addr a (e ∷ es) = if e.1 == a then es else e ∷ remove_addr a es

destroy_loop_lem :
    (erase : ℕ → Tree Name → Tree Name)
    → ((a : ℕ) (t : Tree Name) → inorder (erase a t) ≡ remove_addr a (inorder t))
    → (rounds : ℕ) (t : Tree Name) (es : List (Entry Name)) → inorder t ≡ es
    → length es < rounds
    → destroy_loop erase rounds t ≡ some (map (λ e. e.1) es)
unfolding destroy_loop
destroy_loop_lem erase erases zero t es e fuel = absurd (omega arith)
destroy_loop_lem erase erases (suc rounds) t [] e fuel =
    let none_left : first t ≡ none = first-inorder t ∙ ap head_addr e in
    rw (none_left, destroy_loop)
destroy_loop_lem erase erases (suc rounds) t (d ∷ es) e fuel =
    let rest : inorder (erase d.1 t) ≡ es = erases d.1 t ∙ rw e (ground arith) in
    let next : first t ≡ some d.1 = first-inorder t ∙ ap head_addr e in
    rw (next, destroy_loop)
      (rw (destroy_loop_lem erase erases rounds (erase d.1 t) es rest (omega arith)))

-- With an `rbt_erase` that takes out the node that it is given and keeps the order of the others,
-- the loop of `rns_ctx_destroy` ends after one round for each node, and frees every node once, in
-- the order of the names.
pub destroy_loop-inorder :
    (erase : ℕ → Tree Name → Tree Name)
    → ((a : ℕ) (t : Tree Name) → inorder (erase a t) ≡ remove_addr a (inorder t))
    → (rounds : ℕ) (t : Tree Name) → length (inorder t) < rounds
    → destroy_loop erase rounds t ≡ some (map (λ e. e.1) (inorder t))
destroy_loop-inorder erase erases rounds t fuel =
    destroy_loop_lem erase erases rounds t (inorder t) refl fuel
