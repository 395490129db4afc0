-- ===== src/Control/Exc/Keeps.antt =====
-- try (src/b6b_exc.c) leaves the call stack alone, if its blocks do.
use b6b.Base.{ℕ, Bool, List, [], ◌∷◌}
use b6b.CLib.{CLib}
use b6b.Store.{Ptr, Res}
use b6b.Store.Monad.{M}
use b6b.Store.Keeps.{Keeps, keeping, pure-Keeps, crash-Keeps}
use b6b.Object.Args.Keeps.{get_args-Keeps}
use b6b.Control.Exc.{
  Handled, early, handled, handle, run_finally, finish_try, after_handler, try_blocks, try_args,
  exc_proc_try,
}

module _ (call : Ptr → M Res) (h : (p : Ptr) → Keeps (call p)) where
  handle-Keeps : (raise : Bool) (argc : ℕ) (bs : List Ptr) → Keeps (handle call raise argc bs)
  unfolding handle
  handle-Keeps raise argc [] = search keeping
  handle-Keeps raise argc (e ∷ fs) = search (keeping, h)

  run_finally-Keeps : (f : Ptr) → Keeps (run_finally call f)
  unfolding run_finally
  run_finally-Keeps f = search (keeping, h)

  finish_try-Keeps :
      (argc : ℕ) (bs : List Ptr) (res eres : Res) → Keeps (finish_try call argc bs res eres)
  finish_try-Keeps argc [] res eres = search keeping
  finish_try-Keeps argc (e ∷ []) res eres = search keeping
  finish_try-Keeps argc (e ∷ f ∷ more) res eres = search (keeping, run_finally-Keeps)

  after_handler-Keeps :
      (argc : ℕ) (bs : List Ptr) (res : Res) (r : Handled)
      → Keeps (after_handler call argc bs res r)
  after_handler-Keeps argc bs res (early r) = pure-Keeps r
  after_handler-Keeps argc bs res (handled eres) = finish_try-Keeps argc bs res eres

  try_blocks-Keeps : (argc : ℕ) (t : Ptr) (bs : List Ptr) → Keeps (try_blocks call argc t bs)
  unfolding try_blocks
  try_blocks-Keeps argc t bs =
      search (keeping, h, handle-Keeps, after_handler-Keeps, finish_try-Keeps) depth 9

  try_args-Keeps : (argc : ℕ) (out : List Ptr) → Keeps (try_args call argc out)
  try_args-Keeps argc [] = crash-Keeps
  try_args-Keeps argc (t ∷ bs) = try_blocks-Keeps argc t bs

  pub exc_proc_try-Keeps : ⦃c : CLib⦄ (n args : ℕ) → Keeps (exc_proc_try call n args)
  unfolding exc_proc_try
  exc_proc_try-Keeps n args = search (keeping, get_args-Keeps, try_args-Keeps) depth 9
