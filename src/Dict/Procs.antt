-- ===== src/Dict/Procs.antt =====
-- src/b6b_dict.c: the procedures over dictionaries.
pub mod Keeps
use b6b.Base.{ℕ, Option, none, some, List, [], ◌∷◌, ◌==◌, if◌then◌else◌, codes}
use b6b.CLib.{CLib}
use b6b.Store.{Ptr, Res, err}
use b6b.Store.Monad.{M, ◌>>=◌, pure, crash, return_obj}
use b6b.Object.Args.{get_args, with_two, with_three}
use b6b.Dict.Ops.{dict_set, dict_get, dict_unset}
use b6b.Str.Procs.{ptrs_two, ptrs_three}

-- The value, else the fallback that the call gave, else an error.
abbrev pub return_found : List Ptr → Option (Option Ptr) → M Res
return_found fallback none = pure err
return_found fallback (some (some v)) = return_obj v
return_found [] (some none) = pure err
return_found (f ∷ fs) (some none) = return_obj f

module _ ⦃c : CLib⦄ where
  abbrev pub get_from : ℕ → List Ptr → M Res
  get_from n (d ∷ k ∷ fallback) = do v ← dict_get n d k; return_found fallback v
  get_from n _ = crash

  unfoldable pub dict_proc_get : ℕ → Ptr → M Res
  unfolding get_args dict_get return_obj
  dict_proc_get n args = do
    a ← get_args n args (codes "olo|o") ptrs_three
    if a.argc == 0 then pure err else get_from n a.out

  unfoldable pub dict_proc_set : ℕ → Ptr → M Res
  unfolding get_args dict_set return_obj
  dict_proc_set n args = do
    a ← get_args n args (codes "oloo") ptrs_three
    with_three a (λ d k v. do stored ← dict_set n d k v; if stored then return_obj d else pure err)

  unfoldable pub dict_proc_unset : ℕ → Ptr → M Res
  unfolding get_args dict_unset return_obj
  dict_proc_unset n args = do
    a ← get_args n args (codes "olo") ptrs_two
    with_two a (λ d k. do removed ← dict_unset n d k; if removed then return_obj d else pure err)
