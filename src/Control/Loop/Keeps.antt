-- ===== src/Control/Loop/Keeps.antt =====
-- The procedures of src/b6b_loop.c leave the call stack alone, if their bodies do.
use b6b.Base.{ℕ, zero, suc, Option, none, some, List, [], ◌∷◌}
use b6b.Base.Int.{ℤ}
use b6b.CLib.{CLib}
use b6b.Store.{Ptr, Res, ok, err}
use b6b.Store.Monad.{M, ◌>>◌, pure, get, int_new}
use b6b.Store.Keeps.{
  Keeps, keeping, pure-Keeps, crash-Keeps, stuck-Keeps, bind-Keeps, if-Keeps, get-Keeps,
  int_new-Keeps, return_obj-Keeps, fail_with-Keeps,
}
use b6b.Object.{list_add}
use b6b.Object.Keeps.{list_add-Keeps}
use b6b.Object.Args.Keeps.{get_args-Keeps, take_one-Keeps, one-Keeps, three-Keeps}
use b6b.Store.{break, cont, ret, exit, yield}
use b6b.Interp.Frame.{set_local}
use b6b.Interp.Keeps.{set_local-Keeps}
use b6b.Control.Loop.{
  Bound, early, bound, After, keep, skip, stop, leave, after_body, add_ints, return_range,
  range_ints, range_args, bind_keys, map_after, map_round, map_rounds, loop_rounds, loop_proc_map,
  loop_proc_loop, loop_proc_range,
}

add_ints-Keeps : (l : Ptr) (is : List ℤ) → Keeps (add_ints l is)
unfolding add_ints
add_ints-Keeps l [] = pure-Keeps _
add_ints-Keeps l (i ∷ is) =
    bind-Keeps (int_new i) (λ io. list_add l io >> add_ints l is) (int_new-Keeps i)
      (λ io.
        bind-Keeps (list_add l io) (λ u. add_ints l is) (list_add-Keeps l io)
          (λ u. add_ints-Keeps l is))

return_range-Keeps : (is : Option (List ℤ)) → Keeps (return_range is)
return_range-Keeps none = crash-Keeps
return_range-Keeps (some is) = search (keeping, add_ints-Keeps)

range_ints-Keeps : (i j k : ℤ) → Keeps (range_ints i j k)
range_ints-Keeps i j k = search (keeping, return_range-Keeps)

range_args-Keeps : (argc : ℕ) (out : List Ptr) → Keeps (range_args argc out)
range_args-Keeps argc [] = crash-Keeps
range_args-Keeps argc (i ∷ []) = crash-Keeps
range_args-Keeps argc (i ∷ j ∷ ks) = search (keeping, take_one-Keeps, range_ints-Keeps) depth 9

again-Keeps :
    (again : M Res) (res : Res)
    → Keeps again
    → Keeps (elim res as (λ x. M Res) [ break ↦ pure ok | ok ↦ again | other ↦ pure other ])
again-Keeps again ok h = h
again-Keeps again break h = pure-Keeps ok
again-Keeps again err h = pure-Keeps err
again-Keeps again yield h = pure-Keeps yield
again-Keeps again cont h = pure-Keeps cont
again-Keeps again ret h = pure-Keeps ret
again-Keeps again exit h = pure-Keeps exit

loop_rounds-Keeps :
    (f : ℕ) (call : Ptr → M Res) (b : Ptr)
    → ((p : Ptr) → Keeps (call p))
    → Keeps (loop_rounds f call b)
unfolding loop_rounds
loop_rounds-Keeps zero call b h = stuck-Keeps
loop_rounds-Keeps (suc f) call b h =
    bind-Keeps (call b) _ (h b)
      (λ res. again-Keeps (loop_rounds f call b) res (loop_rounds-Keeps f call b h))

module _ ⦃c : CLib⦄ where
  bind_keys-Keeps : (n : ℕ) (ks xs : List Ptr) → Keeps (bind_keys n ks xs)
  unfolding bind_keys
  bind_keys-Keeps n [] xs = pure-Keeps _
  bind_keys-Keeps n (k ∷ ks) [] = search (keeping, fail_with-Keeps)
  bind_keys-Keeps n (k ∷ ks) (x ∷ xs) =
      bind-Keeps (set_local n k x) _ (set_local-Keeps n k x)
        (λ stored. if-Keeps stored _ _ (bind_keys-Keeps n ks xs) (pure-Keeps (early err)))

  map_after-Keeps :
      (again : M Res) (r : Ptr) (a : After) → Keeps again → Keeps (map_after again r a)
  map_after-Keeps again r keep h =
      bind-Keeps get (λ st. list_add r st.under >> again) get-Keeps
        (λ st. bind-Keeps (list_add r st.under) (λ u. again) (list_add-Keeps r st.under) (λ u. h))
  map_after-Keeps again r skip h = h
  map_after-Keeps again r stop h = return_obj-Keeps r
  map_after-Keeps again r (leave res) h = pure-Keeps res

  map_round-Keeps :
      (again : List Ptr → M Res) (call : Ptr → M Res) (r b : Ptr) (a : Bound)
      → ((xs : List Ptr) → Keeps (again xs))
      → ((p : Ptr) → Keeps (call p))
      → Keeps (map_round again call r b a)
  map_round-Keeps again call r b (early res) ha hc = pure-Keeps res
  map_round-Keeps again call r b (bound xs) ha hc =
      bind-Keeps (call b) _ (hc b) (λ res. map_after-Keeps (again xs) r (after_body res) (ha xs))

  map_rounds-Keeps :
      (f : ℕ) (call : Ptr → M Res) (n : ℕ) (ks : List Ptr) (r b : Ptr) (xs : List Ptr)
      → ((p : Ptr) → Keeps (call p))
      → Keeps (map_rounds f call n ks r b xs)
  unfolding map_rounds
  map_rounds-Keeps zero call n ks r b xs h = stuck-Keeps
  map_rounds-Keeps (suc f) call n ks r b [] h = return_obj-Keeps r
  map_rounds-Keeps (suc f) call n ks r b (x ∷ xs) h =
      bind-Keeps (bind_keys n ks (x ∷ xs)) _ (bind_keys-Keeps n ks (x ∷ xs)) (λ a.
        map_round-Keeps (map_rounds f call n ks r b) call r b a
          (λ ys. map_rounds-Keeps f call n ks r b ys h) h)

  pub loop_proc_map-Keeps :
      (call : Ptr → M Res) (n args : ℕ)
      → ((p : Ptr) → Keeps (call p))
      → Keeps (loop_proc_map call n args)
  unfolding loop_proc_map
  loop_proc_map-Keeps call n args h =
      let rounds : (f m : ℕ) (ks : List Ptr) (r b : Ptr) (xs : List Ptr)
          → Keeps (map_rounds f call m ks r b xs) =
        λ f m ks r b xs. map_rounds-Keeps f call m ks r b xs h in
      search (three-Keeps, keeping, rounds) depth 9

  pub loop_proc_loop-Keeps :
      (call : Ptr → M Res) (n args : ℕ)
      → ((p : Ptr) → Keeps (call p))
      → Keeps (loop_proc_loop call n args)
  unfolding loop_proc_loop
  loop_proc_loop-Keeps call n args h =
      let rounds : (b : Ptr) → Keeps (loop_rounds n call b) = λ b. loop_rounds-Keeps n call b h in
      search (one-Keeps, keeping, rounds) depth 9

  pub loop_proc_range-Keeps : (n args : ℕ) → Keeps (loop_proc_range n args)
  unfolding loop_proc_range
  loop_proc_range-Keeps n args = search (keeping, get_args-Keeps, range_args-Keeps) depth 9
