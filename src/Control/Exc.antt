-- ===== src/Control/Exc.antt =====
-- src/b6b_exc.c, as built without B6B_HAVE_THREADS. `call` is b6b_call.
pub mod Correct
pub mod Keeps
use b6b.Base.{ℕ, Bool, true, false, List, [], ◌∷◌, ◌==◌, if◌then◌else◌, codes}
use b6b.CLib.{CLib}
use b6b.Store.{Ptr, Res, ok, err, ret, exit}
use b6b.Store.Monad.{M, ◌>>=◌, pure, crash, get, return_obj}
use b6b.Object.Args.{get_args}
use b6b.Str.Procs.{ptrs_three}

abbrev pub is_err : Res → Bool
is_err err = true
is_err _ = false

-- The except block's result where errors are raised anyway.
abbrev pub raised : Res → Res
raised exit = exit
raised _ = err

-- What the except block comes to: an early return, or `eres`.
pub data Handled : Type 0 where
  early : Res → Handled
  handled : Res → Handled

-- The block behind `if (res == B6B_ERR)`.
unfoldable pub handle : (Ptr → M Res) → Bool → ℕ → List Ptr → M Handled
handle call raise argc blocks =
    if argc == 2 then pure (early (if raise then err else ok)) else elim blocks [
      | [] ↦ crash
      | e ∷ fs ↦ do eres ← call e; pure (handled (if raise then raised eres else eres))
    ]

-- The results of the three blocks, where there is a finally block.
abbrev pub finally_res : Res → Res → Res → Res
finally_res ret eres fres = ret
finally_res exit eres fres = exit
finally_res err ok fres = fres
finally_res err eres fres = eres
finally_res res eres fres = fres

-- The finally block runs with `_` put aside.
unfoldable pub run_finally : (Ptr → M Res) → Ptr → M Res
unfolding return_obj
run_finally call f = do st ← get; fres ← call f; _ ← return_obj st.under; pure fres

abbrev pub finish_try : (Ptr → M Res) → ℕ → List Ptr → Res → Res → M Res
finish_try call argc blocks res eres =
    if argc == 4
    then elim blocks [
      | e ∷ f ∷ more ↦ do fres ← run_finally call f; pure (finally_res res eres fres)
      | other ↦ crash
    ]
    else pure (if is_err res then eres else res)

abbrev pub after_handler : (Ptr → M Res) → ℕ → List Ptr → Res → Handled → M Res
after_handler call argc blocks res (early r) = pure r
after_handler call argc blocks res (handled eres) = finish_try call argc blocks res eres

-- The blocks of a try, run: `blocks` holds the except block and the finally block, if given.
unfoldable pub try_blocks : (Ptr → M Res) → ℕ → Ptr → List Ptr → M Res
unfolding handle run_finally
try_blocks call argc t blocks = do
  res ← call t
  st ← get
  if is_err res
      then (handle call st.opt_raise argc blocks >>= after_handler call argc blocks res)
      else finish_try call argc blocks res err

abbrev pub try_args : (Ptr → M Res) → ℕ → List Ptr → M Res
try_args call argc [] = crash
try_args call argc (t ∷ blocks) = try_blocks call argc t blocks

module _ ⦃c : CLib⦄ where
  unfoldable pub exc_proc_try : (Ptr → M Res) → ℕ → Ptr → M Res
  unfolding get_args try_blocks
  exc_proc_try call n args = do
    a ← get_args n args (codes "oo|oo") ptrs_three
    if a.argc == 0 then pure err else try_args call a.argc a.out
