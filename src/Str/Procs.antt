-- ===== src/Str/Procs.antt =====
-- src/b6b_str.c: the procedures over texts, each with its arguments, its checks and its result.
pub mod Keeps
pub mod Found
use b6b.Base.{
  ℕ, ◌+◌, ◌-◌, ◌^◌, Bool, true, false, ◌||◌, Option, none, some, List, [], ◌∷◌, ◌++◌, ltb, leb,
  ◌==◌, if◌then◌else◌, length, take, drop, Bytes, codes,
}
use b6b.Base.Int.{ℤ, pos, negsuc, is_neg, ltb_ℤ}
use b6b.CLib.{CLib}
use b6b.Store.{Ptr, Res, err}
use b6b.Store.Monad.{
  M, ◌>>=◌, ◌>>◌, pure, crash, stuck, load, str_copy, list_new, return_obj, return_int, return_str,
  return_bool, fail_with,
}
use b6b.Object.{is_empty, list_add, as_str, obj_hash, obj_eq}
use b6b.Object.Args.{get_args, with_one, with_two, with_three}
use b6b.Str.Trim.{rtrim_len, ltrim_len}
use b6b.Str.Split.{Pieces, pieces, overrun, out_of_fuel, split}
use b6b.Str.Expand
use b6b.Str.Expand.{Expanded, expand}
use b6b.Str.Search.{found_in}

-- A `long long` that is compared with a `size_t` is converted to 64 bits without sign.
abbrev pub as_size : ℤ → ℕ
as_size (pos n) = n
as_size (negsuc n) = 2 ^ 64 - 1 - n

-- b6b_return_str(interp, s + i, len), which reads only within the text.
unfoldable pub return_sub : Bytes → ℕ → ℕ → M Res
unfolding return_str
return_sub s i len = if leb (i + len) (length s) then return_str (take len (drop i s)) else crash

-- Which argument pointers are given: all but the first, which is NULL.
abbrev pub ptrs_one : List Bool
ptrs_one = false ∷ true ∷ []

abbrev pub ptrs_two : List Bool
ptrs_two = false ∷ true ∷ true ∷ []

abbrev pub ptrs_three : List Bool
ptrs_three = false ∷ true ∷ true ∷ true ∷ []

-- The checks of str.index and str.range, in their order.
unfoldable pub index_text : Bytes → ℤ → M Res
unfolding return_sub
index_text s i =
    if leb (length s) (as_size i) || is_neg i then pure err else return_sub s (as_size i) 1

unfoldable pub range_text : Bytes → ℤ → ℤ → M Res
unfolding return_sub
range_text s start end =
    if is_neg start
      || leb (length s) (as_size start)
      || is_neg end
      || leb (length s) (as_size end)
      || ltb_ℤ end start
    then pure err
    else return_sub s (as_size start) (as_size end - as_size start + 1)

-- The new texts become items of a new list.
unfoldable pub add_pieces : Ptr → List Bytes → M (Unit {0})
unfolding str_copy list_add
add_pieces p [] = pure tt
add_pieces p (t ∷ ts) = do q ← str_copy t; list_add p q; add_pieces p ts

abbrev pub return_pieces : Pieces → M Res
return_pieces (pieces ts) = do p ← list_new; add_pieces p ts; return_obj p
return_pieces overrun = crash
return_pieces out_of_fuel = stuck

abbrev pub return_expanded : Expanded → M Res
return_expanded (Expand.expanded s) = return_str s
return_expanded Expand.bad_escape = fail_with (codes "bad escape")
return_expanded Expand.bad_hex_escape = fail_with (codes "bad hex escape")
return_expanded Expand.bad_hex_digit = fail_with (codes "bad hex digit")
return_expanded Expand.overrun = crash
return_expanded Expand.out_of_fuel = stuck

abbrev pub return_rtrimmed : Bytes → Option ℕ → M Res
return_rtrimmed s none = crash
return_rtrimmed s (some n) = return_sub s 0 n

abbrev pub byte_of : Bytes → M Res
byte_of (b ∷ []) = return_int (pos b)
byte_of _ = pure err

abbrev pub chr_text : ℤ → M Res
chr_text (negsuc n) = pure err
chr_text (pos n) = if ltb 255 n then pure err else return_str (n ∷ [])

module _ ⦃c : CLib⦄ where
  unfoldable pub str_proc_len : ℕ → Ptr → M Res
  unfolding get_args load return_int
  str_proc_len n args = do
    a ← get_args n args (codes "os") ptrs_one
    with_one a (λ s. do o ← load s; return_int (pos (length o.s)))

  unfoldable pub str_proc_index : ℕ → Ptr → M Res
  unfolding get_args load index_text
  str_proc_index n args = do
    a ← get_args n args (codes "osi") ptrs_two
    with_two a (λ s i. do o ← load s; j ← load i; index_text o.s j.i)

  unfoldable pub str_proc_range : ℕ → Ptr → M Res
  unfolding get_args load range_text
  str_proc_range n args = do
    a ← get_args n args (codes "osii") ptrs_three
    with_three a
        (λ s start end. do o ← load s; i ← load start; j ← load end; range_text o.s i.i j.i)

  -- The loop behind the first item: `none` is `return B6B_ERR`.
  unfoldable pub join_rest : ℕ → Ptr → List Ptr → Bytes → M (Option Bytes)
  unfolding as_str load
  join_rest n d [] acc = pure (some acc)
  join_rest n d (li ∷ lis) acc = do
    known ← as_str n li
    o ← load d
    item ← load li
    if known then join_rest n d lis (acc ++ (o.s ++ item.s)) else pure none

  abbrev pub return_joined : Option Bytes → M Res
  return_joined none = pure err
  return_joined (some s) = return_str s

  unfoldable pub join_items : ℕ → Ptr → List Ptr → M Res
  unfolding as_str load join_rest return_str
  join_items n d [] = return_str []
  join_items n d (li ∷ lis) = do
    known ← as_str n li
    item ← load li
    if known then (join_rest n d lis item.s >>= return_joined) else pure err

  unfoldable pub str_proc_join : ℕ → Ptr → M Res
  unfolding get_args load join_items
  str_proc_join n args = do
    a ← get_args n args (codes "osl") ptrs_two
    with_two a (λ d l. do o ← load l; join_items n d o.l)

  unfoldable pub str_proc_split : ℕ → Ptr → M Res
  unfolding get_args load list_new add_pieces return_obj split
  str_proc_split n args = do
    a ← get_args n args (codes "oss") ptrs_two
    with_two a (λ s d. do o ← load s; o' ← load d; return_pieces (split o.s o'.s))

  unfoldable pub str_proc_ord : ℕ → Ptr → M Res
  unfolding get_args load return_int
  str_proc_ord n args = do
    a ← get_args n args (codes "os") ptrs_one
    with_one a (λ s. do o ← load s; byte_of o.s)

  unfoldable pub str_proc_chr : ℕ → Ptr → M Res
  unfolding get_args load return_str
  str_proc_chr n args = do
    a ← get_args n args (codes "oi") ptrs_one
    with_one a (λ i. do o ← load i; chr_text o.i)

  unfoldable pub str_proc_expand : ℕ → Ptr → M Res
  unfolding get_args load return_str fail_with expand
  str_proc_expand n args = do
    a ← get_args n args (codes "os") ptrs_one
    with_one a (λ s. do o ← load s; return_expanded (expand o.s))

  -- The texts of one length are hashed, and then compared as objects.
  unfoldable pub same_texts : ℕ → Ptr → Ptr → M Res
  unfolding obj_hash load obj_eq return_bool
  same_texts n sub s = do
    known ← obj_hash n s
    known' ← if known then obj_hash n sub else pure false
    o ← load sub
    o' ← load s
    if known' then return_bool (obj_eq o o') else pure err

  -- b6b_str_proc_in behind its arguments
  unfoldable pub in_texts : ℕ → Ptr → Ptr → M Res
  unfolding load found_in same_texts return_bool
  in_texts n sub s = do
    o ← load sub
    o' ← load s
    if is_empty o.s
        then pure err
        else if ltb (length o.s) (length o'.s)
        then return_bool (found_in (length o'.s - length o.s + 1) o.s o'.s)
        else if length o'.s == length o.s
        then same_texts n sub s
        else return_bool false

  unfoldable pub str_proc_in : ℕ → Ptr → M Res
  unfolding get_args in_texts
  str_proc_in n args = do a ← get_args n args (codes "oss") ptrs_two; with_two a (in_texts n)

  unfoldable pub str_proc_rtrim : ℕ → Ptr → M Res
  unfolding get_args load return_sub rtrim_len
  str_proc_rtrim n args = do
    a ← get_args n args (codes "os") ptrs_one
    with_one a (λ s. do
      o ← load s
      if ltb (2 ^ 63 - 1) (length o.s) then pure err else return_rtrimmed o.s (rtrim_len o.s))

  unfoldable pub str_proc_ltrim : ℕ → Ptr → M Res
  unfolding get_args load return_sub ltrim_len
  str_proc_ltrim n args = do
    a ← get_args n args (codes "os") ptrs_one
    with_one a (λ s. do o ← load s; return_sub o.s (ltrim_len o.s) (length o.s - ltrim_len o.s))
