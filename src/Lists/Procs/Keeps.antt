-- ===== src/Lists/Procs/Keeps.antt =====
-- The list procedures of src/b6b_list.c leave the call stack alone.
use b6b.Base.{
  ℕ, zero, suc, ◌+◌, true, false, not, Option, none, some, List, [], ◌∷◌, if◌then◌else◌, get_elem?,
}
use b6b.Base.Int.{ℤ, pos, negsuc}
use b6b.CLib.{CLib}
use b6b.Store.{Ptr, Res, err}
use b6b.Store.Monad.{M, ◌>>=◌, ◌>>◌, pure, load, return_bool}
use b6b.Store.Keeps.{
  Keeps, keeping, returning, pure-Keeps, stuck-Keeps, bind-Keeps, if-Keeps, load-Keeps,
  return_obj-Keeps, return_bool-Keeps, fail_with-Keeps,
}
use b6b.Object.{list_add, list_do_add, obj_hash, obj_eq}
use b6b.Object.Keeps.{obj_hash-Keeps, list_add-Keeps, list_do_add-Keeps, list_flush-Keeps}
use b6b.Object.Args.Keeps.{one-Keeps, two-Keeps, three-Keeps}
use b6b.Lists.Ops.{add_all, do_add_all, list_copy, extend_loop, list_extend}
use b6b.Lists.Procs.{
  return_head, return_collected, range_from, index_items, pop_found, range_items, pop_items,
  in_items, advance, list_proc_new, list_proc_len, list_proc_append, list_proc_copy,
  list_proc_extend, list_proc_index, list_proc_range, list_proc_in, list_proc_pop,
}

add_all-Keeps : (p : Ptr) (qs : List Ptr) → Keeps (add_all p qs)
unfolding add_all
add_all-Keeps p [] = pure-Keeps _
add_all-Keeps p (q ∷ qs) =
    bind-Keeps (list_add p q) (λ u. add_all p qs) (list_add-Keeps p q) (λ u. add_all-Keeps p qs)

do_add_all-Keeps : (p : Ptr) (qs : List Ptr) → Keeps (do_add_all p qs)
unfolding do_add_all
do_add_all-Keeps p [] = pure-Keeps _
do_add_all-Keeps p (q ∷ qs) =
    bind-Keeps (list_do_add p q) (λ u. do_add_all p qs) (list_do_add-Keeps p q)
      (λ u. do_add_all-Keeps p qs)

list_copy-Keeps : (l : Ptr) → Keeps (list_copy l)
unfolding list_copy
list_copy-Keeps l = search (keeping, do_add_all-Keeps) depth 9

extend_item-Keeps :
    (again : M (Unit {0})) (l : Ptr) (q : Option Ptr)
    → Keeps again
    → Keeps (elim q as (λ x. M (Unit {0})) [ none ↦ pure tt | some q ↦ list_do_add l q >> again ])
extend_item-Keeps again l none h = pure-Keeps tt
extend_item-Keeps again l (some q) h =
    bind-Keeps (list_do_add l q) (λ u. again) (list_do_add-Keeps l q) (λ u. h)

extend_loop-Keeps : (f l l2 k : ℕ) → Keeps (extend_loop f l l2 k)
unfolding extend_loop
extend_loop-Keeps zero l l2 k = stuck-Keeps
extend_loop-Keeps (suc f) l l2 k = bind-Keeps (load l2) _ (load-Keeps l2) (λ o.
    extend_item-Keeps (extend_loop f l l2 (k + 1)) l (get_elem? o.l k)
      (extend_loop-Keeps f l l2 (k + 1)))

list_extend-Keeps : (f l l2 : ℕ) → Keeps (list_extend f l l2)
unfolding list_extend
list_extend-Keeps f l l2 =
    bind-Keeps (extend_loop f l l2 0) _ (extend_loop-Keeps f l l2 0) (λ u. list_flush-Keeps l)

return_head-Keeps : (r : Option (List Ptr)) → Keeps (return_head r)
return_head-Keeps none = pure-Keeps _
return_head-Keeps (some []) = pure-Keeps _
return_head-Keeps (some (x ∷ xs)) = return_obj-Keeps x

return_collected-Keeps : (r : Ptr) (xs : Option (List Ptr)) → Keeps (return_collected r xs)
return_collected-Keeps r none = pure-Keeps _
return_collected-Keeps r (some xs) = search (keeping, add_all-Keeps)

range_from-Keeps : (k : ℕ) (xs : Option (List Ptr)) → Keeps (range_from k xs)
range_from-Keeps k none = pure-Keeps _
range_from-Keeps k (some xs) = search (keeping, return_collected-Keeps)

range_items-Keeps : (xs : List Ptr) (i j : ℤ) → Keeps (range_items xs i j)
unfolding range_items
range_items-Keeps xs (negsuc a) j = pure-Keeps _
range_items-Keeps xs (pos a) (negsuc b) = pure-Keeps _
range_items-Keeps xs (pos a) (pos b) = search (keeping, range_from-Keeps)

index_items-Keeps : (xs : List Ptr) (i : ℤ) → Keeps (index_items xs i)
index_items-Keeps xs (negsuc a) = pure-Keeps _
index_items-Keeps xs (pos a) = return_head-Keeps (advance a xs)

pop_found-Keeps : (l k : ℕ) (r : Option (List Ptr)) → Keeps (pop_found l k r)
pop_found-Keeps l k none = pure-Keeps _
pop_found-Keeps l k (some []) = pure-Keeps _
pop_found-Keeps l k (some (x ∷ xs)) = search keeping depth 9

pop_items-Keeps : (l : Ptr) (xs : List Ptr) (i : ℤ) → Keeps (pop_items l xs i)
unfolding pop_items
pop_items-Keeps l xs (negsuc a) = pure-Keeps _
pop_items-Keeps l [] (pos a) = fail_with-Keeps _
pop_items-Keeps l (x ∷ xs) (pos a) = pop_found-Keeps l a (advance a (x ∷ xs))

module _ ⦃c : CLib⦄ where
  -- A step of list.in, where `later` is the rest of the walk.
  in_item-Keeps :
      (n o li : ℕ) (later : M Res)
      → Keeps later
      → Keeps (do
        known ← obj_hash n li
        x ← load o
        y ← load li
        if not known then pure err else if obj_eq x y then return_bool true else later)
  in_item-Keeps n o li later h = bind-Keeps (obj_hash n li) _ (obj_hash-Keeps n li) (λ known.
      bind-Keeps (load o) _ (load-Keeps o) (λ x. bind-Keeps (load li) _ (load-Keeps li) (λ y.
        if-Keeps (not known) _ _ (pure-Keeps err)
          (if-Keeps (obj_eq x y) _ _ (return_bool-Keeps true) h))))

  in_items-Keeps : (n o : ℕ) (xs : List Ptr) → Keeps (in_items n o xs)
  unfolding in_items
  in_items-Keeps n o [] = return_bool-Keeps false
  in_items-Keeps n o (li ∷ lis) = in_item-Keeps n o li (in_items n o lis) (in_items-Keeps n o lis)

  pub list_proc_new-Keeps : (n args : ℕ) → Keeps (list_proc_new n args)
  unfolding list_proc_new
  list_proc_new-Keeps n args = search (keeping, add_all-Keeps) depth 9

  pub list_proc_len-Keeps : (n args : ℕ) → Keeps (list_proc_len n args)
  unfolding list_proc_len
  list_proc_len-Keeps n args = search (one-Keeps, returning) depth 9

  pub list_proc_append-Keeps : (n args : ℕ) → Keeps (list_proc_append n args)
  unfolding list_proc_append
  list_proc_append-Keeps n args = search (two-Keeps, keeping, list_add-Keeps) depth 9

  pub list_proc_copy-Keeps : (n args : ℕ) → Keeps (list_proc_copy n args)
  unfolding list_proc_copy
  list_proc_copy-Keeps n args = search (one-Keeps, keeping, list_copy-Keeps) depth 9

  pub list_proc_extend-Keeps : (n args : ℕ) → Keeps (list_proc_extend n args)
  unfolding list_proc_extend
  list_proc_extend-Keeps n args = search (two-Keeps, keeping, list_extend-Keeps) depth 9

  pub list_proc_index-Keeps : (n args : ℕ) → Keeps (list_proc_index n args)
  unfolding list_proc_index
  list_proc_index-Keeps n args = search (two-Keeps, keeping, index_items-Keeps) depth 9

  pub list_proc_range-Keeps : (n args : ℕ) → Keeps (list_proc_range n args)
  unfolding list_proc_range
  list_proc_range-Keeps n args = search (three-Keeps, keeping, range_items-Keeps) depth 9

  pub list_proc_in-Keeps : (n args : ℕ) → Keeps (list_proc_in n args)
  unfolding list_proc_in
  list_proc_in-Keeps n args = search (two-Keeps, keeping, obj_hash-Keeps, in_items-Keeps) depth 9

  pub list_proc_pop-Keeps : (n args : ℕ) → Keeps (list_proc_pop n args)
  unfolding list_proc_pop
  list_proc_pop-Keeps n args = search (two-Keeps, keeping, pop_items-Keeps) depth 9
