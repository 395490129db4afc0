-- ===== src/Control/Logic/Keeps.antt =====
-- The procedures of src/b6b_logic.c leave the call stack alone; so does `if`, if its branches do.
use b6b.Base.{ℕ, List, [], ◌∷◌}
use b6b.CLib.{CLib}
use b6b.Store.{Ptr, Res}
use b6b.Store.Monad.{M}
use b6b.Store.Keeps.{Keeps, keeping, crash-Keeps}
use b6b.Object.Keeps.{obj_hash-Keeps}
use b6b.Object.Args.Keeps.{get_args-Keeps, take_one-Keeps, take_two-Keeps, one-Keeps, two-Keeps}
use b6b.Control.Logic.{
  hash_both, choose, logic_proc_not, logic_proc_eq, logic_proc_ne, logic_proc_and, logic_proc_or,
  logic_proc_xor, logic_proc_if,
}

module _ ⦃c : CLib⦄ where
  hash_both-Keeps : (n p q : ℕ) → Keeps (hash_both n p q)
  unfolding hash_both
  hash_both-Keeps n p q = search (keeping, obj_hash-Keeps)

  pub logic_proc_not-Keeps : (n args : ℕ) → Keeps (logic_proc_not n args)
  unfolding logic_proc_not
  logic_proc_not-Keeps n args = search (one-Keeps, keeping) depth 9

  pub logic_proc_eq-Keeps : (n args : ℕ) → Keeps (logic_proc_eq n args)
  unfolding logic_proc_eq
  logic_proc_eq-Keeps n args = search (two-Keeps, keeping, hash_both-Keeps) depth 9

  pub logic_proc_ne-Keeps : (n args : ℕ) → Keeps (logic_proc_ne n args)
  unfolding logic_proc_ne
  logic_proc_ne-Keeps n args = search (two-Keeps, keeping, hash_both-Keeps) depth 9

  pub logic_proc_and-Keeps : (n args : ℕ) → Keeps (logic_proc_and n args)
  unfolding logic_proc_and
  logic_proc_and-Keeps n args = search (two-Keeps, keeping) depth 9

  pub logic_proc_or-Keeps : (n args : ℕ) → Keeps (logic_proc_or n args)
  unfolding logic_proc_or
  logic_proc_or-Keeps n args = search (two-Keeps, keeping) depth 9

  pub logic_proc_xor-Keeps : (n args : ℕ) → Keeps (logic_proc_xor n args)
  unfolding logic_proc_xor
  logic_proc_xor-Keeps n args = search (keeping, get_args-Keeps, take_two-Keeps) depth 9

  choose-Keeps :
      (call : Ptr → M Res) (argc : ℕ) (out : List Ptr)
      → ((p : Ptr) → Keeps (call p))
      → Keeps (choose call argc out)
  choose-Keeps call argc [] h = crash-Keeps
  choose-Keeps call argc (b ∷ []) h = crash-Keeps
  choose-Keeps call argc (b ∷ t ∷ fs) h = search (keeping, take_one-Keeps, h) depth 9

  pub logic_proc_if-Keeps :
      (call : Ptr → M Res) (n args : ℕ)
      → ((p : Ptr) → Keeps (call p))
      → Keeps (logic_proc_if call n args)
  unfolding logic_proc_if
  logic_proc_if-Keeps call n args h =
      let branches : (argc : ℕ) (out : List Ptr) → Keeps (choose call argc out) =
        λ argc out. choose-Keeps call argc out h in
      search (keeping, get_args-Keeps, branches) depth 9
