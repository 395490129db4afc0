-- ===== src/Dict/Procs/Keeps.antt =====
-- The procedures of src/b6b_dict.c leave the call stack alone.
use b6b.Base.{ℕ, Option, none, some, List, [], ◌∷◌, get_elem?}
use b6b.CLib.{CLib}
use b6b.Store.{Ptr}
use b6b.Store.Monad.{M, ◌>>◌, pure, crash, load}
use b6b.Store.Keeps.{
  Keeps, keeping, pure-Keeps, crash-Keeps, bind-Keeps, load-Keeps, return_obj-Keeps,
}
use b6b.Object.{list_flush}
use b6b.Object.Keeps.{obj_hash-Keeps, list_flush-Keeps}
use b6b.Object.Args.Keeps.{get_args-Keeps, two-Keeps, three-Keeps}
use b6b.Lists.Ops.{list_pop, remove_at}
use b6b.Dict.Ops.{Found, broken, missing, found, dict_get, dict_unset, finish_unset}
use b6b.Dict.Ops.Keeps.{dict_get-Keeps, dict_set-Keeps, find_key-Keeps}
use b6b.Dict.Procs.{return_found, get_from, dict_proc_get, dict_proc_set, dict_proc_unset}

popped-Keeps :
    (l k : ℕ) (q : Option Ptr)
    → Keeps (elim q as (λ x. M Ptr) [
      | none ↦ crash
      | some q ↦ remove_at l k >> (list_flush l >> pure q)
    ])
popped-Keeps l k none = crash-Keeps
popped-Keeps l k (some q) = search (keeping, list_flush-Keeps) depth 9

list_pop-Keeps : (l k : ℕ) → Keeps (list_pop l k)
unfolding list_pop
list_pop-Keeps l k = bind-Keeps (load l) _ (load-Keeps l) (λ o. popped-Keeps l k (get_elem? o.l k))

finish_unset-Keeps : (d : Ptr) (r : Found) → Keeps (finish_unset d r)
finish_unset-Keeps d broken = pure-Keeps _
finish_unset-Keeps d missing = pure-Keeps _
finish_unset-Keeps d (found i) = search (keeping, list_pop-Keeps)

return_found-Keeps : (fs : List Ptr) (r : Option (Option Ptr)) → Keeps (return_found fs r)
return_found-Keeps fs none = pure-Keeps _
return_found-Keeps fs (some (some v)) = return_obj-Keeps v
return_found-Keeps [] (some none) = pure-Keeps _
return_found-Keeps (f ∷ fs) (some none) = return_obj-Keeps f

module _ ⦃c : CLib⦄ where
  dict_unset-Keeps : (n d k : ℕ) → Keeps (dict_unset n d k)
  unfolding dict_unset
  dict_unset-Keeps n d k =
      search (keeping, obj_hash-Keeps, find_key-Keeps, finish_unset-Keeps) depth 9

  get_from-Keeps : (n : ℕ) (out : List Ptr) → Keeps (get_from n out)
  get_from-Keeps n [] = crash-Keeps
  get_from-Keeps n (d ∷ []) = crash-Keeps
  get_from-Keeps n (d ∷ k ∷ fallback) =
      bind-Keeps (dict_get n d k) _ (dict_get-Keeps n d k) (λ v. return_found-Keeps fallback v)

  pub dict_proc_get-Keeps : (n args : ℕ) → Keeps (dict_proc_get n args)
  unfolding dict_proc_get
  dict_proc_get-Keeps n args = search (keeping, get_args-Keeps, get_from-Keeps) depth 9

  pub dict_proc_set-Keeps : (n args : ℕ) → Keeps (dict_proc_set n args)
  unfolding dict_proc_set
  dict_proc_set-Keeps n args = search (three-Keeps, keeping, dict_set-Keeps) depth 9

  pub dict_proc_unset-Keeps : (n args : ℕ) → Keeps (dict_proc_unset n args)
  unfolding dict_proc_unset
  dict_proc_unset-Keeps n args = search (two-Keeps, keeping, dict_unset-Keeps) depth 9
