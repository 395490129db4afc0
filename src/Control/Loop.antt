-- ===== src/Control/Loop.antt =====
-- src/b6b_loop.c. `call` is b6b_call; map walks over the items that its lists begin with.
pub mod Rounds
pub mod Keeps
use b6b.Base.{
  ℕ, zero, suc, ◌+◌, Bool, not, Option, none, some, List, [], ◌∷◌, ◌==◌, if◌then◌else◌, length,
  codes,
}
use b6b.Base.Int.{ℤ, pos, ltb_ℤ, ◌+ℤ◌, pos_part, neg_part}
use b6b.CLib.{CLib}
use b6b.Store.{Ptr, Res, ok, err, break, cont}
use b6b.Store.Monad.{
  M, ◌>>=◌, ◌>>◌, pure, crash, stuck, get, load, int_new, list_new, return_obj, fail_with,
}
use b6b.Object.{is_empty, list_add}
use b6b.Object.Args.{get_args, take_one, with_one, with_three}
use b6b.Interp.Frame.{set_local}
use b6b.Lists.Procs.{int_max}
use b6b.Str.Procs.{ptrs_one, ptrs_three}

-- What binding one round's variables comes to: an early result, or the items left.
pub data Bound : Type 0 where
  early : Res → Bound
  bound : List Ptr → Bound

-- The `switch` on the body's result.
pub data After : Type 0 where
  keep skip stop : After
  leave : Res → After

abbrev pub after_body : Res → After
after_body ok = keep
after_body cont = skip
after_body break = stop
after_body other = leave other

-- The loop of range; `none` is a sum that a `long long` cannot hold.
abbrev pub cons? : ℤ → Option (List ℤ) → Option (List ℤ)
cons? i none = none
cons? i (some is) = some (i ∷ is)

unfoldable pub range_values : ℕ → ℤ → ℤ → ℕ → Option (List ℤ)
unfolding ◌+ℤ◌
range_values zero i end step = none
range_values (suc f) i end step =
    let next = i +ℤ pos step in
    let later = cons? i (range_values f next end step) in
    if ltb_ℤ end i then some [] else if ltb_ℤ (pos int_max) next then none else later

unfoldable pub add_ints : Ptr → List ℤ → M (Unit {0})
unfolding int_new list_add
add_ints l [] = pure tt
add_ints l (i ∷ is) = do io ← int_new i; list_add l io; add_ints l is

abbrev pub return_range : Option (List ℤ) → M Res
return_range none = crash
return_range (some is) = do l ← list_new; add_ints l is; return_obj l

abbrev pub is_positive : ℤ → Bool
is_positive i = ltb_ℤ (pos 0) i

-- Rounds enough: one for each value, and one more.
abbrev pub range_fuel : ℤ → ℤ → ℕ
range_fuel start end = pos_part end + neg_part start + 2

abbrev pub range_ints : ℤ → ℤ → ℤ → M Res
range_ints start end step =
    if not (is_positive step)
    then pure err
    else if ltb_ℤ end start
    then pure err
    else return_range (range_values (range_fuel start end) start end (pos_part step))

abbrev pub range_args : ℕ → List Ptr → M Res
range_args argc (start ∷ end ∷ steps) = do
  i ← load start
  j ← load end
  if argc == 4
      then take_one steps (λ p. do k ← load p; range_ints i.i j.i k.i)
      else range_ints i.i j.i (pos 1)
range_args argc _ = crash

-- The loop of loop: it has no other end than a result of its body.
unfoldable pub loop_rounds : ℕ → (Ptr → M Res) → Ptr → M Res
loop_rounds zero call b = stuck
loop_rounds (suc f) call b = do
  res ← call b
  elim res [ break ↦ pure ok | ok ↦ loop_rounds f call b | other ↦ pure other ]

module _ ⦃c : CLib⦄ where
  -- The inner loop of map: the keys are bound to the next items.
  unfoldable pub bind_keys : ℕ → List Ptr → List Ptr → M Bound
  unfolding set_local fail_with
  bind_keys n [] items = pure (bound items)
  bind_keys n (k ∷ ks) [] = do res ← fail_with (codes "not enough items"); pure (early res)
  bind_keys n (k ∷ ks) (item ∷ items) = do
    stored ← set_local n k item
    let rest = bind_keys n ks items
    if stored then rest else pure (early err)

  -- Behind the body of a round: `again` is the rest of the loop.
  abbrev pub map_after : M Res → Ptr → After → M Res
  map_after again r keep = do st ← get; list_add r st.under; again
  map_after again r skip = again
  map_after again r stop = return_obj r
  map_after again r (leave res) = pure res

  abbrev pub map_round : (List Ptr → M Res) → (Ptr → M Res) → Ptr → Ptr → Bound → M Res
  map_round again call r b (early res) = pure res
  map_round again call r b (bound items) = do
    res ← call b
    map_after (again items) r (after_body res)

  -- The outer loop of map. There is at least one key, so each round takes an item.
  unfoldable pub map_rounds : ℕ → (Ptr → M Res) → ℕ → List Ptr → Ptr → Ptr → List Ptr → M Res
  unfolding bind_keys list_add return_obj
  map_rounds zero call n ks r b items = stuck
  map_rounds (suc f) call n ks r b [] = return_obj r
  map_rounds (suc f) call n ks r b (item ∷ items) = do
    round ← bind_keys n ks (item ∷ items)
    map_round (map_rounds f call n ks r b) call r b round

  unfoldable pub loop_proc_map : (Ptr → M Res) → ℕ → Ptr → M Res
  unfolding get_args load list_new map_rounds
  loop_proc_map call n args = do
    a ← get_args n args (codes "ollo") ptrs_three
    with_three a (λ ks l b. do
      o ← load ks
      if is_empty o.l
          then pure err
          else (do r ← list_new; x ← load l; map_rounds (suc (length x.l)) call n o.l r b x.l))

  unfoldable pub loop_proc_loop : (Ptr → M Res) → ℕ → Ptr → M Res
  unfolding get_args loop_rounds
  loop_proc_loop call n args = do
    a ← get_args n args (codes "oo") ptrs_one
    with_one a (loop_rounds n call)

  unfoldable pub loop_proc_range : ℕ → Ptr → M Res
  unfolding get_args load list_new add_ints return_obj range_values
  loop_proc_range n args = do
    a ← get_args n args (codes "oii|i") ptrs_three
    if a.argc == 0 then pure err else range_args a.argc a.out
