-- ===== src/Rand.antt =====
-- src/b6b_rand.c: `choice` and `randint`. rand_r of the C library is a parameter: the number, and the
-- seed behind it, which the interpreter holds.
pub mod Range
use b6b.Base.{
  ℕ, zero, suc, ◌+◌, ◌-◌, ◌%◌, ◌^◌, ◌||◌, Bool, true, false, Option, none, some, List, [], ◌∷◌, leb,
  ltb, ◌==◌, if◌then◌else◌, Bytes, codes, get_elem?,
}
use b6b.Base.Int.{ℤ, pos, negsuc, ◌+ℤ◌, sub_ℕ, pos_part, neg_part, ltb_ℤ}
use b6b.CLib.{CLib}
use b6b.Store.{Ptr, Res, err}
use b6b.Store.Monad.{M, ◌>>=◌, pure, crash, load, return_obj, return_int}
use b6b.Object.Args.{get_args}

abbrev pub uint_size : ℕ
uint_size = 2 ^ 32

-- Where the first loop of b6b_rand_proc_choice ends: at an item, or behind the last one, at `i`.
pub data Walk : Type 0 where
  reached : Ptr → Walk
  behind : ℕ → Walk

-- That loop with `left` rounds to go, at an item with `rest` behind it.
unfoldable pub forward : ℕ → ℕ → Ptr → List Ptr → Walk
forward left i li [] = if left == 0 then reached li else behind i
forward left i li (x ∷ rest) =
    let next = forward (left - 1) (i + 1) x rest in if left == 0 then reached li else next

-- The second loop: `c` items from the first one on; a NULL is dereferenced in b6b_list_next, or in the
-- end.
abbrev pub nth : List Ptr → ℕ → Option Ptr
nth = get_elem?

abbrev pub after_walk : List Ptr → ℕ → Walk → Option Ptr
after_walk l c (reached li) = some li
after_walk l c (behind i) = nth l (c % i)

-- The item that `c` selects from a list; `none` is a NULL that is dereferenced.
unfoldable pub choose_item : Ptr → List Ptr → ℕ → Option Ptr
unfolding forward
choose_item li rest c = after_walk (li ∷ rest) c (forward (c - 1) 1 li rest)

abbrev pub int_max : ℕ
int_max = 2 ^ 31 - 1

abbrev pub int_min : ℤ
int_min = negsuc int_max

-- delta
abbrev pub span : ℤ → ℤ → ℕ
span start end = pos_part end + neg_part start - (pos_part start + neg_part end)

-- The checks of b6b_rand_proc_randint.
abbrev pub bad_range : ℤ → ℤ → Bool
bad_range start end =
    ltb_ℤ start int_min
    || (leb int_max (pos_part start)
        || (leb (pos_part end + neg_part start) (pos_part start + neg_part end)
            || ltb int_max (pos_part end)))

-- The result for the number that rand_r gave, or `none` for a refusal.
unfoldable pub rand_between : ℤ → ℤ → ℕ → Option ℤ
unfolding ◌+ℤ◌
rand_between start end r =
    if bad_range start end
    then none
    else if span start end == uint_size - 1
    then none
    else some (start +ℤ pos (r % uint_size % (span start end + 1)))

module _ (rand_r : ℕ → ℕ × ℕ) where
  abbrev pub return_item : Option Ptr → ℕ → M (Res × ℕ)
  return_item none seed = crash
  return_item (some p) seed = do res ← return_obj p; pure (res, seed)

  abbrev pub choice_of : List Ptr → ℕ → M (Res × ℕ)
  choice_of [] seed = pure (err, seed)
  choice_of (li ∷ rest) seed =
      return_item (choose_item li rest ((rand_r seed).0 % uint_size)) (rand_r seed).1

  -- rand_r is called only behind the checks.
  abbrev pub return_between : Option ℤ → ℕ → M (Res × ℕ)
  return_between none seed = pure (err, seed)
  return_between (some i) seed = do res ← return_int i; pure (res, (rand_r seed).1)

  module _ ⦃c : CLib⦄ where
    abbrev pub choice_args : ℕ → List Ptr → M (Res × ℕ)
    choice_args seed (l ∷ []) = do o ← load l; choice_of o.l seed
    choice_args seed _ = crash

    -- b6b_rand_proc_choice
    unfoldable pub rand_proc_choice : ℕ → ℕ → Ptr → M (Res × ℕ)
    unfolding get_args load choose_item return_obj
    rand_proc_choice n seed args = do
      a ← get_args n args (codes "ol") (false ∷ true ∷ [])
      if a.argc == 0 then pure (err, seed) else choice_args seed a.out

    abbrev pub randint_args : ℕ → List Ptr → M (Res × ℕ)
    randint_args seed (start ∷ end ∷ []) = do
      x ← load start
      y ← load end
      return_between (rand_between x.i y.i (rand_r seed).0) seed
    randint_args seed _ = crash

    -- b6b_rand_proc_randint
    unfoldable pub rand_proc_randint : ℕ → ℕ → Ptr → M (Res × ℕ)
    unfolding get_args load rand_between return_int
    rand_proc_randint n seed args = do
      a ← get_args n args (codes "oii") (false ∷ true ∷ true ∷ [])
      if a.argc == 0 then pure (err, seed) else randint_args seed a.out
