-- ===== src/Interp/Nested.antt =====
-- src/b6b_interp.c: `b6b`, which makes an interpreter inside another one, and the procedure of such
-- an interpreter.
use b6b.Base.{
  ℕ, suc, Bool, true, false, Option, none, some, List, [], ◌∷◌, ◌++◌, ◌==◌, if◌then◌else◌, codes,
}
use b6b.CLib.{CLib}
use b6b.Store.{Ptr, State, Res, err}
use b6b.Store.Monad.{M, done, fault, timeout, ◌>>=◌, pure, get, crash, load, str_copy, return_obj}
use b6b.Object.Args.{get_args}
use b6b.Strm.Procs.{is_op, hex}
use b6b.Interp.Tables.{Entry}
use b6b.Interp.Boot.{empty, interp_new}

-- The objects are shared: `inner` has all of a struct b6b_interp but those.
abbrev pub entering : State → State → State
entering inner st = record inner { cell = st.cell; next = st.next }

-- What a function does with another interpreter, `inner`, and that interpreter behind it.
abbrev pub within : {A : Type 0} → State → M A → M (A × State)
within inner m st = elim (m (entering inner st)) [
  | done a inner' ↦ done (a, inner') (entering st inner')
  | fault ↦ fault
  | timeout ↦ timeout
]

-- `fg->_` becomes that of the other interpreter.
abbrev pub take_result : Res × State → M (Res × State)
take_result (res, inner) st = done (res, inner) (record st { under = inner.under })

module _ ⦃c : CLib⦄ where
  abbrev pub nested_args : (Ptr → M Res) → State → List Ptr → M (Res × State)
  nested_args call inner (i ∷ s ∷ o ∷ []) = do
    x ← load s
    if is_op x.s (codes "call") then (within inner (call o) >>= take_result) else pure (err, inner)
  nested_args call inner _ = crash

  -- b6b_b6b_proc, of the object whose `priv` is `inner`; `call` is b6b_call.
  unfoldable pub b6b_proc : (Ptr → M Res) → ℕ → State → Ptr → M (Res × State)
  unfolding get_args load
  b6b_proc call n inner args = do
    a ← get_args n args (codes "oso") (true ∷ true ∷ true ∷ [])
    if a.argc == 0 then pure (err, inner) else nested_args call inner a.out

  -- Of an interpreter that could not be made, the object is destroyed.
  abbrev pub return_interp : Ptr → Bool × State → M (Res × Option State)
  return_interp o (false, inner) = pure (err, none)
  return_interp o (true, inner) = do res ← return_obj o; pure (res, some inner)

  abbrev pub new_args : ℕ → List Entry → ℕ → Bool → List Ptr → M (Res × Option State)
  new_args n entries addr raise (l ∷ []) = do
    o ← str_copy (codes "b6b:" ++ hex (suc addr) addr)
    r ← within empty (interp_new n entries l raise)
    return_interp o r
  new_args n entries addr raise _ = crash

  -- b6b_interp_proc_b6b, where `addr` is where malloc puts the struct
  unfoldable pub interp_proc_b6b : ℕ → List Entry → ℕ → Ptr → M (Res × Option State)
  unfolding get_args str_copy hex interp_new return_obj
  interp_proc_b6b n entries addr args = do
    a ← get_args n args (codes "ol") (false ∷ true ∷ [])
    st ← get
    if a.argc == 0 then pure (err, none) else new_args n entries addr st.opt_raise a.out
