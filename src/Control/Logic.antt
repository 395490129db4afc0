-- ===== src/Control/Logic.antt =====
-- src/b6b_logic.c
pub mod Keeps
use mathlib.Core.Bool.{xor}
use b6b.Base.{ℕ, Bool, false, not, ◌&&◌, ◌||◌, List, ◌∷◌, ◌==◌, if◌then◌else◌, codes}
use b6b.CLib.{CLib}
use b6b.Store.{Ptr, Res, ok, err}
use b6b.Store.Monad.{M, ◌>>=◌, pure, crash, load, return_bool}
use b6b.Object.{obj_hash, obj_eq, obj_istrue}
use b6b.Object.Args.{get_args, take_one, take_two, with_one, with_two}
use b6b.Str.Procs.{ptrs_one, ptrs_two, ptrs_three}

module _ ⦃c : CLib⦄ where
  unfoldable pub logic_proc_not : ℕ → Ptr → M Res
  unfolding get_args load obj_istrue return_bool
  logic_proc_not n args = do
    a ← get_args n args (codes "oo") ptrs_one
    with_one a (λ p. do o ← load p; return_bool (not (obj_istrue o)))

  -- Both are hashed, then compared.
  unfoldable pub hash_both : ℕ → Ptr → Ptr → M Bool
  unfolding obj_hash
  hash_both n p q = do known ← obj_hash n p; if known then obj_hash n q else pure false

  unfoldable pub logic_proc_eq : ℕ → Ptr → M Res
  unfolding get_args hash_both load obj_eq return_bool
  logic_proc_eq n args = do
    a ← get_args n args (codes "ooo") ptrs_two
    with_two a (λ p q. do
      known ← hash_both n p q
      x ← load p
      y ← load q
      if known then return_bool (obj_eq x y) else pure err)

  unfoldable pub logic_proc_ne : ℕ → Ptr → M Res
  unfolding get_args hash_both load obj_eq return_bool
  logic_proc_ne n args = do
    a ← get_args n args (codes "ooo") ptrs_two
    with_two a (λ p q. do
      known ← hash_both n p q
      x ← load p
      y ← load q
      if known then return_bool (not (obj_eq x y)) else pure err)

  unfoldable pub logic_proc_and : ℕ → Ptr → M Res
  unfolding get_args load obj_istrue return_bool
  logic_proc_and n args = do
    a ← get_args n args (codes "ooo") ptrs_two
    with_two a (λ p q. do x ← load p; y ← load q; return_bool (obj_istrue x && obj_istrue y))

  unfoldable pub logic_proc_or : ℕ → Ptr → M Res
  unfolding get_args load obj_istrue return_bool
  logic_proc_or n args = do
    a ← get_args n args (codes "ooo") ptrs_two
    with_two a (λ p q. do x ← load p; y ← load q; return_bool (obj_istrue x || obj_istrue y))

  unfoldable pub logic_proc_xor : ℕ → Ptr → M Res
  unfolding get_args load obj_istrue return_bool
  logic_proc_xor n args = do
    a ← get_args n args (codes "ooo") ptrs_two
    if not (a.argc == 3)
        then pure err
        else take_two a.out
            (λ p q. do x ← load p; y ← load q; return_bool (xor (obj_istrue x) (obj_istrue y)))

  -- The branches of `if`, `f` the else clause if there is one.
  abbrev pub choose : (Ptr → M Res) → ℕ → List Ptr → M Res
  choose call argc (b ∷ t ∷ fs) = do
    o ← load b
    if obj_istrue o then call t else if argc == 4 then take_one fs call else pure ok
  choose call argc _ = crash

  -- `call` is b6b_call.
  unfoldable pub logic_proc_if : (Ptr → M Res) → ℕ → Ptr → M Res
  unfolding get_args load obj_istrue
  logic_proc_if call n args = do
    a ← get_args n args (codes "ooo|o") ptrs_three
    if a.argc == 0 then pure err else choose call a.argc a.out
