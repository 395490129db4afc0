-- ===== src/Str/Procs/Keeps.antt =====
-- The str procedures of src/b6b_str.c leave the call stack alone.
use b6b.Base.{ℕ, Option, none, some, List, [], ◌∷◌, Bytes}
use b6b.Base.Int.{ℤ, pos, negsuc}
use b6b.CLib.{CLib}
use b6b.Store.{Ptr}
use b6b.Store.Monad.{◌>>◌, str_copy}
use b6b.Store.Keeps.{
  Keeps, keeping, returning, pure-Keeps, crash-Keeps, stuck-Keeps, bind-Keeps, str_copy-Keeps,
  return_str-Keeps, fail_with-Keeps,
}
use b6b.Object.{list_add}
use b6b.Object.Keeps.{as_str-Keeps, obj_hash-Keeps, list_add-Keeps}
use b6b.Object.Args.Keeps.{one-Keeps, two-Keeps, three-Keeps}
use b6b.Str.Split.{Pieces, pieces, overrun, out_of_fuel}
use b6b.Str.Expand
use b6b.Str.Expand.{Expanded, expand}
use b6b.Str.Procs.{
  return_sub, index_text, range_text, add_pieces, return_pieces, return_expanded, return_rtrimmed,
  byte_of, chr_text, join_rest, return_joined, join_items, same_texts, str_proc_len, str_proc_index,
  str_proc_range, str_proc_join, str_proc_split, str_proc_ord, str_proc_chr, str_proc_expand,
  str_proc_in, in_texts, str_proc_rtrim, str_proc_ltrim,
}

return_sub-Keeps : (s : Bytes) (i len : ℕ) → Keeps (return_sub s i len)
unfolding return_sub
return_sub-Keeps s i len = search returning

index_text-Keeps : (s : Bytes) (i : ℤ) → Keeps (index_text s i)
unfolding index_text
index_text-Keeps s i = search (returning, return_sub-Keeps)

range_text-Keeps : (s : Bytes) (i j : ℤ) → Keeps (range_text s i j)
unfolding range_text
range_text-Keeps s i j = search (returning, return_sub-Keeps)

pub add_pieces-Keeps : (p : Ptr) (ts : List Bytes) → Keeps (add_pieces p ts)
unfolding add_pieces
add_pieces-Keeps p [] = pure-Keeps _
add_pieces-Keeps p (t ∷ ts) =
    bind-Keeps (str_copy t) (λ q. list_add p q >> add_pieces p ts) (str_copy-Keeps t)
      (λ q.
        bind-Keeps (list_add p q) (λ u. add_pieces p ts) (list_add-Keeps p q)
          (λ u. add_pieces-Keeps p ts))

return_pieces-Keeps : (r : Pieces) → Keeps (return_pieces r)
return_pieces-Keeps (pieces ts) = search (keeping, add_pieces-Keeps)
return_pieces-Keeps overrun = crash-Keeps
return_pieces-Keeps out_of_fuel = stuck-Keeps

return_expanded-Keeps : (r : Expanded) → Keeps (return_expanded r)
return_expanded-Keeps (Expand.expanded s) = return_str-Keeps s
return_expanded-Keeps Expand.bad_escape = fail_with-Keeps _
return_expanded-Keeps Expand.bad_hex_escape = fail_with-Keeps _
return_expanded-Keeps Expand.bad_hex_digit = fail_with-Keeps _
return_expanded-Keeps Expand.overrun = crash-Keeps
return_expanded-Keeps Expand.out_of_fuel = stuck-Keeps

return_rtrimmed-Keeps : (s : Bytes) (n : Option ℕ) → Keeps (return_rtrimmed s n)
return_rtrimmed-Keeps s none = crash-Keeps
return_rtrimmed-Keeps s (some n) = return_sub-Keeps s 0 n

byte_of-Keeps : (s : Bytes) → Keeps (byte_of s)
byte_of-Keeps [] = pure-Keeps _
byte_of-Keeps (b ∷ []) = search returning
byte_of-Keeps (b ∷ c ∷ cs) = pure-Keeps _

chr_text-Keeps : (i : ℤ) → Keeps (chr_text i)
chr_text-Keeps (negsuc n) = pure-Keeps _
chr_text-Keeps (pos n) = search returning

module _ ⦃c : CLib⦄ where
  join_rest-Keeps : (n d : ℕ) (ps : List Ptr) (acc : Bytes) → Keeps (join_rest n d ps acc)
  unfolding join_rest
  join_rest-Keeps n d [] acc = pure-Keeps _
  join_rest-Keeps n d (li ∷ lis) acc =
      let rec : (s : Bytes) → Keeps (join_rest n d lis s) = λ s. join_rest-Keeps n d lis s in
      search (keeping, as_str-Keeps, rec) depth 9

  return_joined-Keeps : (s : Option Bytes) → Keeps (return_joined s)
  return_joined-Keeps none = pure-Keeps _
  return_joined-Keeps (some s) = return_str-Keeps s

  join_items-Keeps : (n d : ℕ) (ps : List Ptr) → Keeps (join_items n d ps)
  unfolding join_items
  join_items-Keeps n d [] = return_str-Keeps []
  join_items-Keeps n d (li ∷ lis) =
      search (keeping, as_str-Keeps, join_rest-Keeps, return_joined-Keeps) depth 9

  same_texts-Keeps : (n p q : ℕ) → Keeps (same_texts n p q)
  unfolding same_texts
  same_texts-Keeps n p q = search (keeping, obj_hash-Keeps) depth 9

  pub str_proc_len-Keeps : (n args : ℕ) → Keeps (str_proc_len n args)
  unfolding str_proc_len
  str_proc_len-Keeps n args = search (one-Keeps, returning) depth 9

  pub str_proc_index-Keeps : (n args : ℕ) → Keeps (str_proc_index n args)
  unfolding str_proc_index
  str_proc_index-Keeps n args = search (two-Keeps, keeping, index_text-Keeps) depth 9

  pub str_proc_range-Keeps : (n args : ℕ) → Keeps (str_proc_range n args)
  unfolding str_proc_range
  str_proc_range-Keeps n args = search (three-Keeps, keeping, range_text-Keeps) depth 9

  pub str_proc_join-Keeps : (n args : ℕ) → Keeps (str_proc_join n args)
  unfolding str_proc_join
  str_proc_join-Keeps n args = search (two-Keeps, keeping, join_items-Keeps) depth 9

  pub str_proc_split-Keeps : (n args : ℕ) → Keeps (str_proc_split n args)
  unfolding str_proc_split
  str_proc_split-Keeps n args = search (two-Keeps, keeping, return_pieces-Keeps) depth 9

  pub str_proc_ord-Keeps : (n args : ℕ) → Keeps (str_proc_ord n args)
  unfolding str_proc_ord
  str_proc_ord-Keeps n args = search (one-Keeps, keeping, byte_of-Keeps) depth 9

  pub str_proc_chr-Keeps : (n args : ℕ) → Keeps (str_proc_chr n args)
  unfolding str_proc_chr
  str_proc_chr-Keeps n args = search (one-Keeps, keeping, chr_text-Keeps) depth 9

  pub str_proc_expand-Keeps : (n args : ℕ) → Keeps (str_proc_expand n args)
  unfolding str_proc_expand
  str_proc_expand-Keeps n args = search (one-Keeps, keeping, return_expanded-Keeps) depth 9

  in_texts-Keeps : (n sub s : ℕ) → Keeps (in_texts n sub s)
  unfolding in_texts
  in_texts-Keeps n sub s = search (keeping, same_texts-Keeps) depth 9

  pub str_proc_in-Keeps : (n args : ℕ) → Keeps (str_proc_in n args)
  unfolding str_proc_in
  str_proc_in-Keeps n args = search (two-Keeps, keeping, in_texts-Keeps) depth 9

  pub str_proc_rtrim-Keeps : (n args : ℕ) → Keeps (str_proc_rtrim n args)
  unfolding str_proc_rtrim
  str_proc_rtrim-Keeps n args = search (one-Keeps, keeping, return_rtrimmed-Keeps) depth 9

  pub str_proc_ltrim-Keeps : (n args : ℕ) → Keeps (str_proc_ltrim n args)
  unfolding str_proc_ltrim
  str_proc_ltrim-Keeps n args = search (one-Keeps, keeping, return_sub-Keeps) depth 9
