-- ===== src/Object/Keeps.antt =====
-- The conversions and the list operations leave the call stack alone.
use b6b.Base.{ℕ, zero, suc, Bool, Option, none, some, List, [], ◌∷◌, Bytes}
use b6b.Base.Int.{ℤ}
use b6b.CLib.{CLib}
use b6b.Store.{Ptr, Obj}
use b6b.Store.Monad.{M, ◌>>◌, str_copy}
use b6b.Store.Keeps.{Keeps, bind-Keeps, keeping, str_copy-Keeps}
use b6b.Text.Parse.{Parsed, items, bad, out_of_fuel, parse_list}
use b6b.Object.{
  list_do_add, add_tokens, list_flush, list_add, as_str_items, set_str, finish_items, set_number,
  as_str, read_double, as_float, set_int, as_int, set_list, as_list, obj_hash, list_from_parsed,
  list_from,
}

pub list_do_add-Keeps : (p q : Ptr) → Keeps (list_do_add p q)
unfolding list_do_add
list_do_add-Keeps p q = search keeping

pub list_flush-Keeps : (p : Ptr) → Keeps (list_flush p)
unfolding list_flush
list_flush-Keeps p = search keeping

pub list_add-Keeps : (p q : Ptr) → Keeps (list_add p q)
unfolding list_add
list_add-Keeps p q = search (keeping, list_do_add-Keeps, list_flush-Keeps)

pub add_tokens-Keeps : (p : Ptr) (ts : List Bytes) → Keeps (add_tokens p ts)
unfolding add_tokens
add_tokens-Keeps p [] = search keeping
add_tokens-Keeps p (t ∷ ts) =
    bind-Keeps (str_copy t) (λ q. list_do_add p q >> add_tokens p ts) (str_copy-Keeps t)
      (λ q.
        bind-Keeps (list_do_add p q) (λ u. add_tokens p ts) (list_do_add-Keeps p q)
          (λ u. add_tokens-Keeps p ts))

set_str-Keeps : (p : Ptr) (s : Bytes) → Keeps (set_str p s)
unfolding set_str
set_str-Keeps p s = search keeping

as_str_items-Keeps :
    (conv : Ptr → M Bool) (ps : List Ptr) (s : Option Bytes)
    → ((p : Ptr) → Keeps (conv p))
    → Keeps (as_str_items conv ps s)
unfolding as_str_items
as_str_items-Keeps conv [] s h = search keeping
as_str_items-Keeps conv (p ∷ ps) s h =
    let rec : (t : Option Bytes) → Keeps (as_str_items conv ps t) =
      λ t. as_str_items-Keeps conv ps t h in
    search (keeping, rec) depth 8

finish_items-Keeps : (p : Ptr) (s : Option (Option Bytes)) → Keeps (finish_items p s)
finish_items-Keeps p none = search keeping
finish_items-Keeps p (some s) = set_str-Keeps p _

set_number-Keeps : (p : Ptr) (d s : Bytes) → Keeps (set_number p d s)
set_number-Keeps p [] s = search keeping
set_number-Keeps p (d ∷ ds) s = set_str-Keeps p s

module _ ⦃c : CLib⦄ where
  pub as_str-Keeps : (n : ℕ) (p : Ptr) → Keeps (as_str n p)
  unfolding as_str
  as_str-Keeps zero p = search keeping
  as_str-Keeps (suc n) p =
      let items : (ps : List Ptr) → Keeps (as_str_items (as_str n) ps none) =
        λ ps. as_str_items-Keeps (as_str n) ps none (as_str-Keeps n) in
      search (keeping, items, finish_items-Keeps, set_number-Keeps, set_str-Keeps) depth 9

  read_double-Keeps : (p : Ptr) (o : Obj) → Keeps (read_double p o)
  unfolding read_double
  read_double-Keeps p o = search keeping

  pub as_float-Keeps : (n : ℕ) (p : Ptr) → Keeps (as_float n p)
  unfolding as_float
  as_float-Keeps n p = search (keeping, as_str-Keeps, read_double-Keeps) depth 12

  set_int-Keeps : (p : Ptr) (i : Option ℤ) → Keeps (set_int p i)
  set_int-Keeps p none = search keeping
  set_int-Keeps p (some i) = search keeping

  pub as_int-Keeps : (n : ℕ) (p : Ptr) → Keeps (as_int n p)
  unfolding as_int
  as_int-Keeps n p = search (keeping, as_float-Keeps, set_int-Keeps) depth 12

  set_list-Keeps : (p : Ptr) (r : Parsed) → Keeps (set_list p r)
  set_list-Keeps p (items ts) = search (keeping, add_tokens-Keeps) depth 9
  set_list-Keeps p (bad ts) = search keeping
  set_list-Keeps p out_of_fuel = search keeping

  pub as_list-Keeps : (n : ℕ) (p : Ptr) → Keeps (as_list n p)
  unfolding as_list
  as_list-Keeps n p = search (keeping, as_str-Keeps, set_list-Keeps) depth 12

  pub obj_hash-Keeps : (n : ℕ) (p : Ptr) → Keeps (obj_hash n p)
  unfolding obj_hash
  obj_hash-Keeps n p = search (keeping, as_str-Keeps) depth 12

list_from_parsed-Keeps : (r : Parsed) → Keeps (list_from_parsed r)
list_from_parsed-Keeps (items ts) = search (keeping, add_tokens-Keeps) depth 9
list_from_parsed-Keeps (bad []) = search keeping
list_from_parsed-Keeps (bad (t ∷ ts)) = search keeping
list_from_parsed-Keeps out_of_fuel = search keeping

pub list_from-Keeps : (s : Bytes) → Keeps (list_from s)
unfolding list_from
list_from-Keeps s = list_from_parsed-Keeps (parse_list s)
