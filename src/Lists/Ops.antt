-- ===== src/Lists/Ops.antt =====
-- src/b6b_list.c: the operations on list objects. An item's node is its position in the list.
pub mod Extend
use b6b.Base.{
  ℕ, zero, suc, ◌+◌, ◌-◌, Option, none, some, List, [], ◌∷◌, if◌then◌else◌, length, get_elem?,
}
use b6b.Store.{Ptr}
use b6b.Store.Monad.{M, ◌>>=◌, ◌>>◌, pure, crash, stuck, load, store, list_new}
use b6b.Object.{is_empty, list_do_add, list_flush, list_add}

-- b6b_list_build, and the loop of list.new: each object is added to a list that was just made.
unfoldable pub add_all : Ptr → List Ptr → M (Unit {0})
unfolding list_add
add_all p [] = pure tt
add_all p (q ∷ qs) = do list_add p q; add_all p qs

unfoldable pub do_add_all : Ptr → List Ptr → M (Unit {0})
unfolding list_do_add
do_add_all p [] = pure tt
do_add_all p (q ∷ qs) = do list_do_add p q; do_add_all p qs

-- b6b_list_copy: the copy is a new object, with the same items and no other representation.
unfoldable pub list_copy : Ptr → M Ptr
unfolding load list_new do_add_all
list_copy l = do o ← load l; p ← list_new; do_add_all p o.l; pure p

-- The loop of b6b_list_extend, at the item `k` of `l2`. The next item is read after `l` has grown,
-- and `l` and `l2` may be one object.
unfoldable pub extend_loop : ℕ → Ptr → Ptr → ℕ → M (Unit {0})
unfolding load list_do_add
extend_loop zero l l2 k = stuck
extend_loop (suc f) l l2 k = do
  o ← load l2
  elim (get_elem? o.l k) [
    | none ↦ pure tt
    | some q ↦ do list_do_add l q; extend_loop f l l2 (k + 1)
  ]

-- b6b_list_extend
unfoldable pub list_extend : ℕ → Ptr → Ptr → M (Unit {0})
unfolding extend_loop list_flush
list_extend f l l2 = do extend_loop f l l2 0; list_flush l

-- TAILQ_REMOVE of the node at a position
abbrev pub remove {ℓ} : {A : Type ℓ} → List A → ℕ → List A
remove [] k = []
remove (x ∷ xs) zero = xs
remove (x ∷ xs) (suc k) = x ∷ remove xs k

abbrev pub remove_at : Ptr → ℕ → M (Unit {0})
remove_at l k = do o ← load l; store l (record o { l = remove o.l k })

-- b6b_list_pop of a given node: the item, whose reference passes to the caller.
unfoldable pub list_pop : Ptr → ℕ → M Ptr
unfolding load store list_flush
list_pop l k = do
  o ← load l
  elim (get_elem? o.l k) [ none ↦ crash | some q ↦ do remove_at l k; list_flush l; pure q ]

-- b6b_list_pop(l, NULL): the last item, or NULL.
unfoldable pub list_pop_last : Ptr → M (Option Ptr)
unfolding load list_pop
list_pop_last l = do
  o ← load l
  if is_empty o.l then pure none else (do q ← list_pop l (length o.l - 1); pure (some q))
