-- ===== src/Object.antt =====
-- src/b6b_str.c, b6b_float.c, b6b_int.c, b6b_list.c, b6b_obj.c and include/b6b/obj.h: an object
-- has up to four representations, made from one another on demand and then kept.
pub mod Args
pub mod Cells
pub mod Keeps
use b6b.Base.{
  ℕ, zero, suc, ◌+◌, ◌-◌, ◌*◌, ◌/◌, ◌%◌, ◌^◌, ◌≤◌, ◌<◌, ◌≡◌, refl, sym, ap, ◌∙◌, ◌≢◌, ◌↔◌, ◌⊎◌, inl,
  inr, Bool, true, false, not, ◌&&◌, ◌||◌, Option, none, some, List, [], ◌∷◌, ◌++◌, map,
  append_assoc, append-nil, arith, ltb, leb, ◌==◌, if◌then◌else◌, ==_iff, Bool-cases, Option-cases,
  length, get_elem?, take, drop, length-append, All, Bytes, codes, bytes_eq, bytes_eq_iff,
  bytes_eq_refl,
}
use b6b.Base.Int.{ℤ, pos, negsuc, is_neg, ltb_ℤ, ◌+ℤ◌, pos_part, neg_part}
use b6b.CLib.{CLib}
use b6b.Store.{
  Ptr, Obj, Frame, State, Res, ok, err, yield, break, cont, ret, exit, blank_obj, Proc, obj_proc,
  builtin, user, Builtin,
}
use b6b.Store.Monad.{
  M, Outcome, done, fault, timeout, ◌>>=◌, ◌>>◌, pure, crash, stuck, get, load, update, store,
  alloc, str_copy, int_new, float_new, list_new, return_obj, return_int, return_float, return_str,
  return_bool, fail_with,
}
use mathlib.Core.List.{reverse}
use b6b.Hash.{hash}
use b6b.Text.Print.{add_item, or_braces}
use b6b.Text.Parse.{Parsed, items, bad, out_of_fuel, parse_list}

-- "%lld"
decimal : ℕ → ℕ → Bytes
decimal zero n = []
decimal (suc f) n =
    let rest = decimal f (n / 10) ++ (n % 10 + b'0') ∷ [] in
    if ltb n 10 then (n + b'0') ∷ [] else rest

unfoldable pub format_int : ℤ → Bytes
unfolding decimal
format_int (pos n) = decimal (suc n) n
format_int (negsuc n) = b'-' ∷ decimal (suc (suc n)) (suc n)

-- The loop of b6b_as_str over the digits of a double, from the last one on.
unfoldable pub strip_zeros : Bytes → Bytes
strip_zeros [] = []
strip_zeros (d ∷ ds) =
    let rest = strip_zeros ds in if d == b'0' then rest else if d == b'.' then ds else d ∷ ds

abbrev pub is_empty {ℓ} : {A : Type ℓ} → List A → Bool
is_empty [] = true
is_empty (x ∷ xs) = false

-- b6b_list_do_add
unfoldable pub list_do_add : Ptr → Ptr → M (Unit {0})
unfolding load store
list_do_add p q = do o ← load p; store p (record o { l = o.l ++ q ∷ [] })

-- The items of a text become objects, each added as it is found.
unfoldable pub add_tokens : Ptr → List Bytes → M (Unit {0})
unfolding list_do_add str_copy
add_tokens p [] = pure tt
add_tokens p (t ∷ ts) = do q ← str_copy t; list_do_add p q; add_tokens p ts

-- b6b_list_flush
abbrev pub flushed : Obj → Obj
flushed o = record o { is_int = false; is_float = false; is_str = false; is_hashed = false }

unfoldable pub list_flush : Ptr → M (Unit {0})
unfolding load store
list_flush p = do o ← load p; store p (flushed o)

-- b6b_list_add, which cannot fail here
unfoldable pub list_add : Ptr → Ptr → M (Unit {0})
unfolding list_do_add list_flush
list_add p q = do list_do_add p q; list_flush p

-- The loop of b6b_as_str over the items; `none` is `return 0`.
unfoldable pub as_str_items : (Ptr → M Bool) → List Ptr → Option Bytes → M (Option (Option Bytes))
unfolding load
as_str_items conv [] s = pure (some s)
as_str_items conv (q ∷ qs) s = do
  known ← conv q
  o ← load q
  if known then as_str_items conv qs (add_item s o.s) else pure none

-- `o->s`, `o->slen` and the flag are set.
unfoldable pub set_str : Ptr → Bytes → M Bool
unfolding load store
set_str p s = do o ← load p; store p (record o { s = s; is_str = true }); pure true

abbrev pub finish_items : Ptr → Option (Option Bytes) → M Bool
finish_items p none = pure false
finish_items p (some s) = set_str p (or_braces s)

-- `asprintf` wrote nothing: `return 0`.
abbrev pub set_number : Ptr → Bytes → Bytes → M Bool
set_number p [] s = pure false
set_number p (d ∷ ds) s = set_str p s

-- `!*p`, where the text ends with a NUL that `slen` does not count.
abbrev at_nul : Bytes → Bool
at_nul [] = true
at_nul (b ∷ bs) = b == 0

abbrev is_zero : ℤ → Bool
is_zero (pos zero) = true
is_zero (pos (suc k)) = false
is_zero (negsuc k) = false

module _ ⦃c : CLib⦄ where
  -- b6b_as_str. A list that holds itself has no text: the code, too, recurs without end.
  unfoldable pub as_str : ℕ → Ptr → M Bool
  unfolding load set_str as_str_items
  as_str zero p = stuck
  as_str (suc n) p = do
    o ← load p
    if o.is_str
        then pure true
        else if o.is_list
        then (as_str_items (as_str n) o.l none >>= finish_items p)
        else if o.is_float
        then set_number p (c.format_double o.f)
            (reverse (strip_zeros (reverse (c.format_double o.f))))
        else set_str p (format_int o.i)

  -- strtod, and the check that the whole text was a number.
  unfoldable pub read_double : Ptr → Obj → M Bool
  unfolding store
  read_double p o =
      let (d, used) = c.strtod o.s in
      let whole = used == length o.s in
      do store p (record o { f = d; is_float = whole }); pure whole

  -- b6b_as_float
  unfoldable pub as_float : ℕ → Ptr → M Bool
  unfolding load store as_str read_double
  as_float n p = do
    o ← load p
    if o.is_float
        then pure true
        else if o.is_str
        then (if is_empty o.s then pure false else read_double p o)
        else if o.is_list
        then (do
          known ← as_str n p
          o' ← load p
          if not known || is_empty o'.s then pure false else read_double p o')
        else (do store p (record o { f = c.of_int o.i; is_float = true }); pure true)

  abbrev pub set_int : Ptr → Option ℤ → M Bool
  set_int p none = pure false
  set_int p (some i) = do o ← load p; store p (record o { i = i; is_int = true }); pure true

  -- b6b_as_int
  unfoldable pub as_int : ℕ → Ptr → M Bool
  unfolding load store as_float
  as_int n p = do
    o ← load p
    if o.is_int then pure true else (do
      known ← as_float n p
      o' ← load p
      if known then set_int p (c.floor_int o'.f) else pure false)

  -- The end of b6b_as_list. On failure the items are freed and the flag stays off.
  abbrev pub set_list : Ptr → Parsed → M Bool
  set_list p (items ts) = do
    add_tokens p ts
    o ← load p
    store p (record o { is_list = true })
    pure true
  set_list p (bad ts) = pure false
  set_list p out_of_fuel = stuck

  -- b6b_as_list
  unfoldable pub as_list : ℕ → Ptr → M Bool
  unfolding load store as_str add_tokens parse_list
  as_list n p = do
    o ← load p
    if o.is_list then pure true else (do
      known ← as_str n p
      o' ← load p
      if known
          then (do store p (record o' { l = [] }); set_list p (parse_list o'.s))
          else pure false)

  -- b6b_obj_hash
  unfoldable pub obj_hash : ℕ → Ptr → M Bool
  unfolding load store as_str hash
  obj_hash n p = do
    o ← load p
    if o.is_hashed then pure true else (do
      known ← as_str n p
      o' ← load p
      if known
          then (do store p (record o' { hash = hash o'.s; is_hashed = true }); pure true)
          else pure false)

  -- b6b_obj_istrue
  unfoldable pub obj_istrue : Obj → Bool
  obj_istrue o =
      if o.is_list
      then not (is_empty o.l)
      else if o.is_str
      then not (is_empty o.s)
        && (not (at_nul (drop (c.strtod o.s).1 o.s)) || c.nonzero (c.strtod o.s).0)
      else if o.is_int
      then not (is_zero o.i)
      else c.nonzero o.f

-- b6b_list_from. Where a token was added before the text turns out unbalanced, b6b_do_as_list
-- frees the items, and b6b_destroy then walks the list of freed items once more: a fault.
abbrev pub list_from_parsed : Parsed → M (Option Ptr)
list_from_parsed (items ts) = do p ← list_new; add_tokens p ts; pure (some p)
list_from_parsed (bad []) = pure none
list_from_parsed (bad (t ∷ ts)) = crash
list_from_parsed out_of_fuel = stuck

unfoldable pub list_from : Bytes → M (Option Ptr)
unfolding list_new add_tokens parse_list
list_from s = list_from_parsed (parse_list s)

-- b6b_obj_eq, on two hashed objects
unfoldable pub obj_eq : Obj → Obj → Bool
obj_eq a b = a.hash == b.hash && length a.s == length b.s && bytes_eq a.s b.s

-- b6b_obj_isnull
unfoldable pub obj_isnull : Obj → Bool
obj_isnull o = if o.is_str then is_empty o.s else if o.is_list then is_empty o.l else false
