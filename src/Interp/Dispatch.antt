-- ===== src/Interp/Dispatch.antt =====
-- `o->proc(interp, args)`: what each procedure pointer leads to; and with that the evaluator, whose
-- fuel counts the calls of b6b_stmt_call that stand in one another.
pub mod Keeps
use b6b.Base.{
  ℕ, zero, suc, true, Option, none, some, List, [], ◌∷◌, if◌then◌else◌, length, Bytes, codes,
  bytes_eq,
}
use b6b.CLib.{CLib}
use b6b.Store.{Ptr, Res, err, Proc, obj_proc, builtin, user, Builtin}
use b6b.Store.Monad.{M, ◌>>=◌, ◌>>◌, pure, stuck, load, list_new, return_obj}
use b6b.Object.Args.{c_str, get_args, with_two}
use b6b.Str.Procs.{
  add_pieces, str_proc_len, str_proc_index, str_proc_range, str_proc_join, str_proc_split,
  str_proc_ord, str_proc_chr, str_proc_expand, str_proc_in, str_proc_rtrim, str_proc_ltrim,
}
use b6b.Lists.Procs.{
  list_proc_new, list_proc_len, list_proc_copy, list_proc_append, list_proc_extend, list_proc_index,
  list_proc_range, list_proc_in, list_proc_pop,
}
use b6b.Dict.Procs.{dict_proc_get, dict_proc_set, dict_proc_unset}
use b6b.Control.Logic.{
  logic_proc_not, logic_proc_eq, logic_proc_ne, logic_proc_and, logic_proc_or, logic_proc_xor,
  logic_proc_if,
}
use b6b.Control.Math.{
  math_proc_add, math_proc_sub, math_proc_mul, math_proc_div, math_proc_mod, math_proc_and,
  math_proc_or, math_proc_xor, math_proc_lt, math_proc_le, math_proc_gt, math_proc_ge,
}
use b6b.Control.Loop.{loop_proc_map, loop_proc_loop, loop_proc_range}
use b6b.Control.Exc.{exc_proc_try}
use b6b.Control.Core.{proc_proc_proc}
use b6b.Control.Core.{
  core_proc_nop, core_proc_echo, core_proc_yield, core_proc_return, core_proc_continue,
  core_proc_break, core_proc_throw, core_proc_exit, core_proc_local, core_proc_global,
  core_proc_export, core_proc_eval, core_proc_repr, core_proc_call, proc_proc,
}
use b6b.Control.Source.{core_proc_source}
use b6b.Interp.Eval.{eval_with, stmt_call_with, call_with}
use b6b.Str.Decode.{decode}

abbrev pub return_decoded : Option (List Bytes) → M Res
return_decoded none = pure err
return_decoded (some ts) = do p ← list_new; add_pieces p ts; return_obj p

module _ ⦃c : CLib⦄ where
  -- b6b_obj_proc
  unfoldable pub obj_decode : ℕ → Ptr → M Res
  unfolding get_args load decode list_new add_pieces return_obj
  obj_decode n args = do
    a ← get_args n args (codes "ss") (true ∷ true ∷ [])
    with_two a (λ s op. do
      o ← load s
      o' ← load op
      if bytes_eq (c_str o'.s) (codes "decode")
          then return_decoded (decode (length o.s) o.s)
          else pure err)

  unfoldable pub run_builtin : (Ptr → M Res) → (Ptr → M Res) → ℕ → Builtin → Ptr → M Res
  unfolding str_proc_len str_proc_index str_proc_range str_proc_join str_proc_split str_proc_ord
      str_proc_chr str_proc_expand str_proc_in str_proc_rtrim str_proc_ltrim list_proc_new
      list_proc_len list_proc_copy list_proc_append list_proc_extend list_proc_index list_proc_range
      list_proc_in list_proc_pop dict_proc_get dict_proc_set dict_proc_unset logic_proc_not
      logic_proc_eq logic_proc_ne logic_proc_and logic_proc_or logic_proc_xor logic_proc_if
      math_proc_add math_proc_sub math_proc_mul math_proc_div math_proc_mod math_proc_and
      math_proc_or math_proc_xor math_proc_lt math_proc_le math_proc_gt math_proc_ge loop_proc_map
      loop_proc_loop loop_proc_range exc_proc_try proc_proc_proc core_proc_nop core_proc_echo
      core_proc_yield core_proc_return core_proc_continue core_proc_break core_proc_throw
      core_proc_exit core_proc_local core_proc_global core_proc_export core_proc_eval core_proc_repr
      core_proc_call core_proc_source
  run_builtin call eval n Builtin.str_len args = str_proc_len n args
  run_builtin call eval n Builtin.str_index args = str_proc_index n args
  run_builtin call eval n Builtin.str_range args = str_proc_range n args
  run_builtin call eval n Builtin.str_join args = str_proc_join n args
  run_builtin call eval n Builtin.str_split args = str_proc_split n args
  run_builtin call eval n Builtin.str_ord args = str_proc_ord n args
  run_builtin call eval n Builtin.str_chr args = str_proc_chr n args
  run_builtin call eval n Builtin.str_expand args = str_proc_expand n args
  run_builtin call eval n Builtin.str_in args = str_proc_in n args
  run_builtin call eval n Builtin.str_rtrim args = str_proc_rtrim n args
  run_builtin call eval n Builtin.str_ltrim args = str_proc_ltrim n args
  run_builtin call eval n Builtin.list_new args = list_proc_new n args
  run_builtin call eval n Builtin.list_len args = list_proc_len n args
  run_builtin call eval n Builtin.list_copy args = list_proc_copy n args
  run_builtin call eval n Builtin.list_append args = list_proc_append n args
  run_builtin call eval n Builtin.list_extend args = list_proc_extend n args
  run_builtin call eval n Builtin.list_index args = list_proc_index n args
  run_builtin call eval n Builtin.list_range args = list_proc_range n args
  run_builtin call eval n Builtin.list_in args = list_proc_in n args
  run_builtin call eval n Builtin.list_pop args = list_proc_pop n args
  run_builtin call eval n Builtin.dict_get args = dict_proc_get n args
  run_builtin call eval n Builtin.dict_set args = dict_proc_set n args
  run_builtin call eval n Builtin.dict_unset args = dict_proc_unset n args
  run_builtin call eval n Builtin.logic_not args = logic_proc_not n args
  run_builtin call eval n Builtin.logic_eq args = logic_proc_eq n args
  run_builtin call eval n Builtin.logic_ne args = logic_proc_ne n args
  run_builtin call eval n Builtin.logic_and args = logic_proc_and n args
  run_builtin call eval n Builtin.logic_or args = logic_proc_or n args
  run_builtin call eval n Builtin.logic_xor args = logic_proc_xor n args
  run_builtin call eval n Builtin.logic_if args = logic_proc_if call n args
  run_builtin call eval n Builtin.math_add args = math_proc_add n args
  run_builtin call eval n Builtin.math_sub args = math_proc_sub n args
  run_builtin call eval n Builtin.math_mul args = math_proc_mul n args
  run_builtin call eval n Builtin.math_div args = math_proc_div n args
  run_builtin call eval n Builtin.math_mod args = math_proc_mod n args
  run_builtin call eval n Builtin.math_and args = math_proc_and n args
  run_builtin call eval n Builtin.math_or args = math_proc_or n args
  run_builtin call eval n Builtin.math_xor args = math_proc_xor n args
  run_builtin call eval n Builtin.math_lt args = math_proc_lt n args
  run_builtin call eval n Builtin.math_le args = math_proc_le n args
  run_builtin call eval n Builtin.math_gt args = math_proc_gt n args
  run_builtin call eval n Builtin.math_ge args = math_proc_ge n args
  run_builtin call eval n Builtin.loop_map args = loop_proc_map call n args
  run_builtin call eval n Builtin.loop_loop args = loop_proc_loop call n args
  run_builtin call eval n Builtin.loop_range args = loop_proc_range n args
  run_builtin call eval n Builtin.exc_try args = exc_proc_try call n args
  run_builtin call eval n Builtin.proc_new args = proc_proc_proc n args
  run_builtin call eval n Builtin.core_nop args = core_proc_nop
  run_builtin call eval n Builtin.core_echo args = core_proc_echo n args
  run_builtin call eval n Builtin.core_yield args = core_proc_yield
  run_builtin call eval n Builtin.core_return args = core_proc_return n args
  run_builtin call eval n Builtin.core_continue args = core_proc_continue
  run_builtin call eval n Builtin.core_break args = core_proc_break
  run_builtin call eval n Builtin.core_throw args = core_proc_throw n args
  run_builtin call eval n Builtin.core_exit args = core_proc_exit n args
  run_builtin call eval n Builtin.core_local args = core_proc_local n args
  run_builtin call eval n Builtin.core_global args = core_proc_global n args
  run_builtin call eval n Builtin.core_export args = core_proc_export n args
  run_builtin call eval n Builtin.core_eval args = core_proc_eval eval n args
  run_builtin call eval n Builtin.core_repr args = core_proc_repr n args
  run_builtin call eval n Builtin.core_call args = core_proc_call call n args
  run_builtin call eval n Builtin.core_source args = core_proc_source call n args

  unfoldable pub run_with : (Ptr → M Res) → (Ptr → M Res) → ℕ → Proc → Ptr → M Res
  unfolding obj_decode run_builtin proc_proc
  run_with call eval n obj_proc args = obj_decode n args
  run_with call eval n (builtin b) args = run_builtin call eval n b args
  run_with call eval n (user body priv) args = proc_proc call n body priv args

  -- b6b_stmt_call
  unfoldable pub stmt_call : ℕ → Ptr → M Res
  unfolding stmt_call_with run_with eval_with call_with
  stmt_call zero stmt = stuck
  stmt_call (suc n) stmt =
      let call = call_with (stmt_call n) n in
      let eval = eval_with (stmt_call n) n in stmt_call_with (run_with call eval n) eval n stmt

  -- b6b_eval
  unfoldable pub eval : ℕ → Ptr → M Res
  unfolding eval_with stmt_call
  eval n = eval_with (stmt_call n) n

  -- b6b_call
  unfoldable pub call : ℕ → Ptr → M Res
  unfolding call_with stmt_call
  call n = call_with (stmt_call n) n
