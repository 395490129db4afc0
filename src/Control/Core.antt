-- ===== src/Control/Core.antt =====
-- src/b6b_core.c, as built without B6B_HAVE_THREADS, and src/b6b_proc.c. `call` and `eval` are
-- b6b_call and b6b_eval. The procedure `source`, which reads a file, is left out.
pub mod Keeps
use b6b.Base.{
  ℕ, zero, suc, ◌-◌, ◌^◌, Bool, true, false, not, ◌&&◌, Option, none, some, List, [], ◌∷◌, ◌++◌,
  leb, ◌==◌, if◌then◌else◌, length, Bytes, codes,
}
use b6b.CLib.{CLib}
use b6b.Store.{Ptr, Frame, Res, ok, err, yield, break, cont, ret, exit, user}
use b6b.Store.Monad.{
  M, ◌>>=◌, ◌>>◌, pure, crash, get, load, store, str_copy, return_obj, return_str,
}
use b6b.Object.{is_empty, as_str}
use b6b.Object.Args.{get_args, take_one, with_one, with_two}
use b6b.Dict.Ops.{dict_set}
use b6b.Text.{is_space, spaced}
use b6b.Interp.Frame.{current, set_local, set_global, frame_set_args, get_obj}
use b6b.Str.Procs.{ptrs_one, ptrs_two, ptrs_three}

-- The end of return and exit: the value, if one is given, and the status; 0 arguments is a refusal.
abbrev pub end_with : Res → ℕ → List Ptr → M Res
end_with res zero outs = pure err
end_with res (suc zero) outs = pure res
end_with res (suc (suc n)) outs = take_one outs (λ p. do _ ← return_obj p; pure res)

-- local: the frame behind the call's own, if there is one.
abbrev pub caller : List Frame → M Frame
caller [] = crash
caller (f ∷ []) = pure f
caller (f ∷ g ∷ fs) = pure g

-- export: the frame behind the caller's; a null pointer if there is no caller.
abbrev pub exporter : List Frame → M (Option Frame)
exporter [] = crash
exporter (f ∷ []) = crash
exporter (f ∷ g ∷ []) = pure none
exporter (f ∷ g ∷ h ∷ fs) = pure (some h)

abbrev pub return_if : Ptr → Bool → M Res
return_if v true = return_obj v
return_if v false = pure err

abbrev pub ends_wrapped : Bytes → Bool
ends_wrapped [] = false
ends_wrapped (b ∷ []) = b == b'}'
ends_wrapped (b ∷ c ∷ cs) = ends_wrapped (c ∷ cs)

-- The text begins with `{` and ends with `}`.
abbrev pub is_wrapped : Bytes → Bool
is_wrapped [] = false
is_wrapped (b ∷ bs) = b == b'{' && ends_wrapped (b ∷ bs)

-- What repr makes of a text: `none` is the text's own object.
unfoldable pub repr_text : Bytes → Option Bytes
unfolding spaced is_space
repr_text [] = some (codes "{}")
repr_text (b ∷ bs) =
    if not (is_wrapped (b ∷ bs)) && spaced (b ∷ bs)
    then some (b'{' ∷ (b ∷ bs) ++ b'}' ∷ [])
    else none

abbrev pub return_repr : Ptr → Option Bytes → M Res
return_repr p none = return_obj p
return_repr p (some s) = return_str s

unfoldable pub core_proc_nop : M Res
core_proc_nop = pure ok

unfoldable pub core_proc_yield : M Res
core_proc_yield = pure yield

unfoldable pub core_proc_continue : M Res
core_proc_continue = pure cont

unfoldable pub core_proc_break : M Res
core_proc_break = pure break

-- A return ends the procedure that it stands in, and is then a success.
abbrev pub unless_ret : Res → Res
unless_ret ret = ok
unless_ret res = res

-- `(argc == 4) ? p : interp->null`
abbrev pub or_null : Ptr → Option Ptr → Ptr
or_null null none = null
or_null null (some p) = p

module _ ⦃c : CLib⦄ where
  unfoldable pub core_proc_echo : ℕ → Ptr → M Res
  unfolding get_args return_obj
  core_proc_echo n args = do a ← get_args n args (codes "oo") ptrs_one; with_one a return_obj

  unfoldable pub core_proc_return : ℕ → Ptr → M Res
  unfolding get_args return_obj
  core_proc_return n args = do a ← get_args n args (codes "o|o") ptrs_one; end_with ret a.argc a.out

  unfoldable pub core_proc_throw : ℕ → Ptr → M Res
  unfolding get_args return_obj
  core_proc_throw n args = do
    a ← get_args n args (codes "o|o") ptrs_one
    if a.argc == 2 then take_one a.out (λ p. do _ ← return_obj p; pure err) else pure err

  unfoldable pub core_proc_exit : ℕ → Ptr → M Res
  unfolding get_args return_obj
  core_proc_exit n args = do a ← get_args n args (codes "o|o") ptrs_one; end_with exit a.argc a.out

  unfoldable pub core_proc_local : ℕ → Ptr → M Res
  unfolding get_args dict_set return_obj
  core_proc_local n args = do
    a ← get_args n args (codes "ooo") ptrs_two
    with_two a (λ k v. do
      st ← get
      f ← caller st.frames
      stored ← dict_set n f.locals k v
      return_if v stored)

  unfoldable pub core_proc_global : ℕ → Ptr → M Res
  unfolding get_args set_global return_obj
  core_proc_global n args = do
    a ← get_args n args (codes "ooo") ptrs_two
    with_two a (λ k v. do stored ← set_global n k v; return_if v stored)

  abbrev pub export_to : ℕ → Ptr → Ptr → Option Frame → M Res
  export_to n k v none = pure err
  export_to n k v (some f) = do stored ← dict_set n f.locals k v; return_if v stored

  -- The value is given, or looked up by the name.
  abbrev pub export_value : ℕ → Ptr → Option Ptr → M Res
  export_value n k none = pure err
  export_value n k (some v) = do st ← get; f ← exporter st.frames; export_to n k v f

  abbrev pub export_args : ℕ → List Ptr → M Res
  export_args n (k ∷ []) = do v ← get_obj n k; export_value n k v
  export_args n (k ∷ v ∷ []) = export_value n k (some v)
  export_args n _ = crash

  unfoldable pub core_proc_export : ℕ → Ptr → M Res
  unfolding get_args get_obj dict_set return_obj
  core_proc_export n args = do
    a ← get_args n args (codes "os|o") ptrs_two
    if a.argc == 0 then pure err else export_args n a.out

  unfoldable pub core_proc_eval : (Ptr → M Res) → ℕ → Ptr → M Res
  unfolding get_args as_str
  core_proc_eval eval n args = do
    a ← get_args n args (codes "oo") ptrs_one
    with_one a
        (λ exp. do known ← as_str n exp; let later = eval exp; if known then later else pure err)

  unfoldable pub core_proc_repr : ℕ → Ptr → M Res
  unfolding get_args load return_obj return_str repr_text
  core_proc_repr n args = do
    a ← get_args n args (codes "os") ptrs_one
    with_one a (λ p. do
      o ← load p
      if leb (2 ^ 64 - 3) (length o.s) then pure err else return_repr p (repr_text o.s))

  unfoldable pub core_proc_call : (Ptr → M Res) → ℕ → Ptr → M Res
  unfolding get_args
  core_proc_call call n args = do a ← get_args n args (codes "oo") ptrs_one; with_one a call

  -- b6b_proc_proc, of a procedure with the body `body` and the private object `priv`
  unfoldable pub proc_proc : (Ptr → M Res) → ℕ → Ptr → Ptr → Ptr → M Res
  unfolding current frame_set_args set_local
  proc_proc call n body priv args = do
    f ← current
    known ← frame_set_args n f args
    st ← get
    stored ← if known then set_local n st.dot priv else pure false
    if stored then (do res ← call body; pure (unless_ret res)) else pure err

  -- The object of a new procedure is known under its name before it can be called.
  abbrev pub make_proc : ℕ → Ptr → Ptr → Option Ptr → M Res
  make_proc n name b p = do
    x ← load name
    o ← str_copy x.s
    stored ← if is_empty x.s then pure true else set_global n name o
    st ← get
    y ← load o
    if stored
        then (do store o (record y { proc = user b (or_null st.null p) }); return_obj o)
        else pure err

  abbrev pub proc_args : ℕ → List Ptr → M Res
  proc_args n (name ∷ b ∷ []) = make_proc n name b none
  proc_args n (name ∷ b ∷ p ∷ []) = make_proc n name b (some p)
  proc_args n _ = crash

  unfoldable pub proc_proc_proc : ℕ → Ptr → M Res
  unfolding get_args load store str_copy set_global return_obj
  proc_proc_proc n args = do
    a ← get_args n args (codes "oso|o") ptrs_three
    if a.argc == 0 then pure err else proc_args n a.out
