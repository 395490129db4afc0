-- ===== src/Interp/Keeps.antt =====
-- The evaluation of expressions (b6b_eval in src/b6b_interp.c) leaves the call stack alone, if
-- the statements in brackets do.
use b6b.Base.{ℕ, Option, none, some, List, [], ◌∷◌, Bytes, if◌then◌else◌, arith}
use b6b.CLib.{CLib}
use b6b.Store.{Ptr, Frame, Res, ok, err, yield, break, cont, ret, exit}
use b6b.Store.Monad.{M, ◌>>=◌, pure, get, load}
use b6b.Store.Keeps.{
  Keeps, keeping, pure-Keeps, bind-Keeps, get-Keeps, load-Keeps, return_obj-Keeps, return_str-Keeps,
  fail_with-Keeps,
}
use b6b.Object.{as_str}
use b6b.Object.Keeps.{as_str-Keeps, list_from-Keeps}
use b6b.Dict.Ops.{dict_get}
use b6b.Dict.Ops.Keeps.{dict_set-Keeps, dict_get-Keeps}
use b6b.Interp.Frame.{current, set_local, look_in, look_up, finish_lookup, get_obj}
use b6b.Interp.Eval.{return_or_err, call_parsed, eval_text, eval_with, on_res}

pub current-Keeps : Keeps current
unfolding current
current-Keeps = record { keeps = λ st b st' h. ground arith }

module _ ⦃c : CLib⦄ where
  pub set_local-Keeps : (n k v : ℕ) → Keeps (set_local n k v)
  unfolding set_local
  set_local-Keeps n k v = search (keeping, current-Keeps, dict_set-Keeps)

  saved-Keeps :
      (n : ℕ) (res : Res)
      → Keeps (do
        st ← get
        stored ← set_local n st.underscore st.under
        pure (if stored then res else err))
  saved-Keeps n res =
      bind-Keeps get
        (λ st. set_local n st.underscore st.under >>= λ stored. pure (if stored then res else err))
        get-Keeps (λ st. search (keeping, set_local-Keeps))

  pub on_res-Keeps : (n : ℕ) (res : Res) → Keeps (on_res n res)
  unfolding on_res
  on_res-Keeps n yield = pure-Keeps ok
  on_res-Keeps n ok = saved-Keeps n ok
  on_res-Keeps n err = saved-Keeps n err
  on_res-Keeps n break = saved-Keeps n break
  on_res-Keeps n cont = saved-Keeps n cont
  on_res-Keeps n ret = saved-Keeps n ret
  on_res-Keeps n exit = saved-Keeps n exit

  look_in-Keeps :
      (m : M (Option (Option Ptr))) (v : Option (Option Ptr)) → Keeps m → Keeps (look_in m v)
  look_in-Keeps m none h = pure-Keeps _
  look_in-Keeps m (some none) h = h
  look_in-Keeps m (some (some v)) h = pure-Keeps _

  look_up-Keeps : (n name : ℕ) (fs : List Frame) → Keeps (look_up n name fs)
  unfolding look_up
  look_up-Keeps n name [] = pure-Keeps _
  look_up-Keeps n name (f ∷ fs) =
      bind-Keeps (dict_get n f.locals name) (look_in (look_up n name fs))
        (dict_get-Keeps n f.locals name)
        (λ v. look_in-Keeps (look_up n name fs) v (look_up-Keeps n name fs))

  finish_lookup-Keeps : (name : Ptr) (v : Option (Option Ptr)) → Keeps (finish_lookup name v)
  finish_lookup-Keeps name none = pure-Keeps _
  finish_lookup-Keeps name (some none) = search (keeping, return_str-Keeps)
  finish_lookup-Keeps name (some (some v)) = pure-Keeps _

  pub get_obj-Keeps : (n name : ℕ) → Keeps (get_obj n name)
  unfolding get_obj
  get_obj-Keeps n name = bind-Keeps (as_str n name) _ (as_str-Keeps n name) (λ known.
      bind-Keeps get
        (λ st. if known then (look_up n name st.frames >>= finish_lookup name) else pure none)
        get-Keeps (λ st. search (keeping, look_up-Keeps, finish_lookup-Keeps)))

return_or_err-Keeps : (p : Option Ptr) → Keeps (return_or_err p)
return_or_err-Keeps none = pure-Keeps _
return_or_err-Keeps (some p) = return_obj-Keeps p

call_parsed-Keeps :
    (stmt_call : Ptr → M Res) (stmt : Option Ptr)
    → ((p : Ptr) → Keeps (stmt_call p))
    → Keeps (call_parsed stmt_call stmt)
call_parsed-Keeps stmt_call none h = pure-Keeps _
call_parsed-Keeps stmt_call (some stmt) h = h stmt

module _ ⦃c : CLib⦄ where
  eval_text-Keeps :
      (stmt_call : Ptr → M Res) (n exp : ℕ) (s : Bytes)
      → ((p : Ptr) → Keeps (stmt_call p))
      → Keeps (eval_text stmt_call n exp s)
  eval_text-Keeps stmt_call n exp [] h = return_obj-Keeps exp
  eval_text-Keeps stmt_call n exp (b ∷ bs) h =
      let parsed : (stmt : Option Ptr) → Keeps (call_parsed stmt_call stmt) =
        λ stmt. call_parsed-Keeps stmt_call stmt h in
      search (keeping, get_obj-Keeps, return_or_err-Keeps, fail_with-Keeps, list_from-Keeps, parsed)
        depth 9

  -- An expression keeps the stack if the statements in brackets do.
  pub eval_with-Keeps :
      (stmt_call : Ptr → M Res) (n exp : ℕ)
      → ((p : Ptr) → Keeps (stmt_call p))
      → Keeps (eval_with stmt_call n exp)
  unfolding eval_with
  eval_with-Keeps stmt_call n exp h =
      bind-Keeps (load exp) _ (load-Keeps exp) (λ o. eval_text-Keeps stmt_call n exp o.s h)
