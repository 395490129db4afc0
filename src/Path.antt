-- ===== src/Path.antt =====
-- src/b6b_path.c. realpath of the C library is a parameter: the error's number, or the path.
use b6b.Base.{ℕ, false, true, Option, ◌⊎◌, inl, inr, [], ◌∷◌, Bytes, codes}
use b6b.CLib.{CLib}
use b6b.Store.{Ptr, Res}
use b6b.Store.Monad.{M, ◌>>=◌, load, str_copy, return_obj}
use b6b.Object.Args.{c_str, get_args, with_one}
use b6b.Device.{return_strerror}

module _ (realpath : Bytes → ℕ ⊎ Bytes) (strerror : ℕ → Option Bytes) where
  abbrev pub return_path : ℕ ⊎ Bytes → M Res
  return_path (inl e) = return_strerror (strerror e)
  return_path (inr path) = do o ← str_copy path; return_obj o

  -- b6b_path_proc_realpath
  unfoldable pub path_proc_realpath : ⦃c : CLib⦄ → ℕ → Ptr → M Res
  unfolding get_args load return_strerror str_copy return_obj
  path_proc_realpath n args = do
    a ← get_args n args (codes "os") (false ∷ true ∷ [])
    with_one a (λ s. do o ← load s; return_path (realpath (c_str o.s)))
