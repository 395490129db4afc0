-- ===== src/Lists/Procs.antt =====
-- src/b6b_list.c: the procedures over lists.
pub mod Keeps
use b6b.Base.{
  ℕ, zero, suc, ◌-◌, ◌^◌, true, false, not, ◌||◌, Option, none, some, List, [], ◌∷◌, ltb, ◌==◌,
  if◌then◌else◌, length, drop, codes,
}
use b6b.Base.Int.{ℤ, pos, negsuc}
use b6b.CLib.{CLib}
use b6b.Store.{Ptr, Res, err}
use b6b.Store.Monad.{
  M, ◌>>=◌, ◌>>◌, pure, load, store, list_new, return_obj, return_int, return_bool, fail_with,
}
use b6b.Object.{list_add, obj_hash, obj_eq}
use b6b.Object.Args.{get_args, with_one, with_two, with_three}
use b6b.Lists.Ops.{add_all, list_copy, list_extend, remove_at}
use b6b.Str.Procs.{ptrs_one, ptrs_two, ptrs_three}

-- for (j = 0; j < i; ++j) li = b6b_list_next(li): the items from the node reached on, or NULL.
unfoldable pub advance : ℕ → List Ptr → Option (List Ptr)
advance zero [] = none
advance zero (x ∷ xs) = some (x ∷ xs)
advance (suc k) [] = none
advance (suc k) (x ∷ xs) = advance k xs

-- The second loop of list.range: `k` more items behind the one at the node.
unfoldable pub collect : ℕ → List Ptr → Option (List Ptr)
collect k [] = none
collect zero (x ∷ xs) = some (x ∷ [])
collect (suc k) (x ∷ xs) = elim (collect k xs) [ none ↦ none | some ys ↦ some (x ∷ ys) ]

abbrev pub return_head : Option (List Ptr) → M Res
return_head none = pure err
return_head (some []) = pure err
return_head (some (x ∷ xs)) = return_obj x

abbrev pub return_collected : Ptr → Option (List Ptr) → M Res
return_collected r none = pure err
return_collected r (some xs) = do add_all r xs; return_obj r

abbrev pub range_from : ℕ → Option (List Ptr) → M Res
range_from k none = pure err
range_from k (some xs) = do r ← list_new; return_collected r (collect k xs)

abbrev pub int_max : ℕ
int_max = 2 ^ 63 - 1

-- The checks of list.range, in their order, and its two loops.
unfoldable pub range_items : List Ptr → ℤ → ℤ → M Res
unfolding advance collect list_new add_all return_obj
range_items xs (negsuc a) end = pure err
range_items xs (pos a) (negsuc b) = pure err
range_items xs (pos a) (pos b) =
    if b == int_max || ltb b a then pure err else range_from (b - a) (advance a xs)

abbrev pub index_items : List Ptr → ℤ → M Res
index_items xs (negsuc a) = pure err
index_items xs (pos a) = return_head (advance a xs)

abbrev pub pop_found : Ptr → ℕ → Option (List Ptr) → M Res
pop_found l k none = pure err
pop_found l k (some []) = pure err
pop_found l k (some (x ∷ xs)) = do remove_at l k; return_obj x

-- list.pop takes the node out without b6b_list_flush.
unfoldable pub pop_items : Ptr → List Ptr → ℤ → M Res
unfolding load store advance return_obj fail_with
pop_items l xs (negsuc a) = pure err
pop_items l [] (pos a) = fail_with (codes "pop from {}")
pop_items l (x ∷ xs) (pos a) = pop_found l a (advance a (x ∷ xs))

module _ ⦃c : CLib⦄ where
  unfoldable pub list_proc_new : ℕ → Ptr → M Res
  unfolding load list_new add_all return_obj
  list_proc_new n args = do o ← load args; l ← list_new; add_all l (drop 1 o.l); return_obj l

  unfoldable pub list_proc_len : ℕ → Ptr → M Res
  unfolding get_args load return_int
  list_proc_len n args = do
    a ← get_args n args (codes "ol") ptrs_one
    with_one a (λ l. do o ← load l; return_int (pos (length o.l)))

  unfoldable pub list_proc_append : ℕ → Ptr → M Res
  unfolding get_args list_add return_obj
  list_proc_append n args = do
    a ← get_args n args (codes "olo") ptrs_two
    with_two a (λ l q. do list_add l q; return_obj l)

  unfoldable pub list_proc_copy : ℕ → Ptr → M Res
  unfolding get_args list_copy return_obj
  list_proc_copy n args = do
    a ← get_args n args (codes "ol") ptrs_one
    with_one a (λ l. do l2 ← list_copy l; return_obj l2)

  unfoldable pub list_proc_extend : ℕ → Ptr → M Res
  unfolding get_args list_extend return_obj
  list_proc_extend n args = do
    a ← get_args n args (codes "oll") ptrs_two
    with_two a (λ l l2. do list_extend n l l2; return_obj l)

  unfoldable pub list_proc_index : ℕ → Ptr → M Res
  unfolding get_args load advance return_obj
  list_proc_index n args = do
    a ← get_args n args (codes "oli") ptrs_two
    with_two a (λ l i. do o ← load l; j ← load i; index_items o.l j.i)

  unfoldable pub list_proc_range : ℕ → Ptr → M Res
  unfolding get_args load range_items
  list_proc_range n args = do
    a ← get_args n args (codes "olii") ptrs_three
    with_three a
        (λ l start end. do o ← load l; i ← load start; j ← load end; range_items o.l i.i j.i)

  -- The loop of list.in: each item is hashed and compared.
  unfoldable pub in_items : ℕ → Ptr → List Ptr → M Res
  unfolding obj_hash load obj_eq return_bool
  in_items n o [] = return_bool false
  in_items n o (li ∷ lis) = do
    known ← obj_hash n li
    x ← load o
    y ← load li
    let rest = in_items n o lis
    if not known then pure err else if obj_eq x y then return_bool true else rest

  unfoldable pub list_proc_in : ℕ → Ptr → M Res
  unfolding get_args obj_hash load in_items
  list_proc_in n args = do
    a ← get_args n args (codes "ool") ptrs_two
    with_two a
        (λ o l. do known ← obj_hash n o; x ← load l; if known then in_items n o x.l else pure err)

  unfoldable pub list_proc_pop : ℕ → Ptr → M Res
  unfolding get_args load pop_items
  list_proc_pop n args = do
    a ← get_args n args (codes "oli") ptrs_two
    with_two a (λ l i. do o ← load l; j ← load i; pop_items l o.l j.i)
