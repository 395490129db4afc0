-- ===== src/Interp/Dispatch/Keeps.antt =====
-- Every script leaves the call stack as it found it (src/b6b_interp.c): each built-in procedure does,
-- and so, by the nesting of calls, do statements, expressions and lists of statements.
use b6b.Base.{ℕ, zero, suc, Option, none, some, List, Bytes}
use b6b.CLib.{CLib}
use b6b.Store.{Ptr, Res, err}
use b6b.Store.Monad.{M}
use b6b.Store.Keeps.{Keeps, keeping, pure-Keeps, stuck-Keeps}
use b6b.Object.Args.Keeps.{two-Keeps}
use Prim.Native.Nat.{bit_and, bit_or, bit_xor}
use b6b.Store.{Builtin, Proc, obj_proc, builtin, user}
use b6b.Str.Procs.Keeps.{
  add_pieces-Keeps, str_proc_len-Keeps, str_proc_index-Keeps, str_proc_range-Keeps,
  str_proc_join-Keeps, str_proc_split-Keeps, str_proc_ord-Keeps, str_proc_chr-Keeps,
  str_proc_expand-Keeps, str_proc_in-Keeps, str_proc_rtrim-Keeps, str_proc_ltrim-Keeps,
}
use b6b.Lists.Procs.Keeps.{
  list_proc_new-Keeps, list_proc_len-Keeps, list_proc_append-Keeps, list_proc_copy-Keeps,
  list_proc_extend-Keeps, list_proc_index-Keeps, list_proc_range-Keeps, list_proc_in-Keeps,
  list_proc_pop-Keeps,
}
use b6b.Dict.Procs.Keeps.{dict_proc_get-Keeps, dict_proc_set-Keeps, dict_proc_unset-Keeps}
use b6b.Control.Logic.Keeps.{
  logic_proc_not-Keeps, logic_proc_eq-Keeps, logic_proc_ne-Keeps, logic_proc_and-Keeps,
  logic_proc_or-Keeps, logic_proc_xor-Keeps, logic_proc_if-Keeps,
}
use b6b.Control.Math.Keeps.{
  float_proc-Keeps, bits_proc-Keeps, compare_proc-Keeps, math_proc_div-Keeps, math_proc_mod-Keeps,
}
use b6b.Control.Loop.Keeps.{loop_proc_map-Keeps, loop_proc_loop-Keeps, loop_proc_range-Keeps}
use b6b.Control.Exc.Keeps.{exc_proc_try-Keeps}
use b6b.Control.Core.Keeps.{
  core_proc_echo-Keeps, core_proc_return-Keeps, core_proc_throw-Keeps, core_proc_exit-Keeps,
  core_proc_local-Keeps, core_proc_global-Keeps, core_proc_export-Keeps, core_proc_eval-Keeps,
  core_proc_repr-Keeps, core_proc_call-Keeps, proc_proc-Keeps, proc_proc_proc-Keeps,
}
use b6b.Control.Source.Keeps.{core_proc_source-Keeps}
use b6b.Control.Math.{
  math_proc_add, math_proc_sub, math_proc_mul, math_proc_and, math_proc_or, math_proc_xor,
  math_proc_lt, math_proc_le, math_proc_gt, math_proc_ge,
}
use b6b.Control.Core.{core_proc_nop, core_proc_yield, core_proc_continue, core_proc_break}
use b6b.Interp.Eval.{eval_with, call_with}
use b6b.Interp.Keeps.{eval_with-Keeps}
use b6b.Interp.Balance.{stmt_call_with-Keeps, call_with-Keeps}
use b6b.Interp.Dispatch.{return_decoded, obj_decode, run_builtin, run_with, stmt_call, eval, call}

return_decoded-Keeps : (r : Option (List Bytes)) → Keeps (return_decoded r)
return_decoded-Keeps none = pure-Keeps err
return_decoded-Keeps (some ts) = search (keeping, add_pieces-Keeps)

module _ ⦃c : CLib⦄ where
  obj_decode-Keeps : (n args : ℕ) → Keeps (obj_decode n args)
  unfolding obj_decode
  obj_decode-Keeps n args = search (two-Keeps, keeping, return_decoded-Keeps) depth 9

  run_builtin-Keeps :
      (call eval : Ptr → M Res) (n : ℕ) (b : Builtin) (args : Ptr)
      → ((p : Ptr) → Keeps (call p))
      → ((p : Ptr) → Keeps (eval p))
      → Keeps (run_builtin call eval n b args)
  unfolding run_builtin math_proc_add math_proc_sub math_proc_mul math_proc_and math_proc_or
      math_proc_xor math_proc_lt math_proc_le math_proc_gt math_proc_ge core_proc_nop
      core_proc_yield core_proc_continue core_proc_break
  run_builtin-Keeps call eval n Builtin.str_len args hc he = str_proc_len-Keeps n args
  run_builtin-Keeps call eval n Builtin.str_index args hc he = str_proc_index-Keeps n args
  run_builtin-Keeps call eval n Builtin.str_range args hc he = str_proc_range-Keeps n args
  run_builtin-Keeps call eval n Builtin.str_join args hc he = str_proc_join-Keeps n args
  run_builtin-Keeps call eval n Builtin.str_split args hc he = str_proc_split-Keeps n args
  run_builtin-Keeps call eval n Builtin.str_ord args hc he = str_proc_ord-Keeps n args
  run_builtin-Keeps call eval n Builtin.str_chr args hc he = str_proc_chr-Keeps n args
  run_builtin-Keeps call eval n Builtin.str_expand args hc he = str_proc_expand-Keeps n args
  run_builtin-Keeps call eval n Builtin.str_in args hc he = str_proc_in-Keeps n args
  run_builtin-Keeps call eval n Builtin.str_rtrim args hc he = str_proc_rtrim-Keeps n args
  run_builtin-Keeps call eval n Builtin.str_ltrim args hc he = str_proc_ltrim-Keeps n args
  run_builtin-Keeps call eval n Builtin.list_new args hc he = list_proc_new-Keeps n args
  run_builtin-Keeps call eval n Builtin.list_len args hc he = list_proc_len-Keeps n args
  run_builtin-Keeps call eval n Builtin.list_copy args hc he = list_proc_copy-Keeps n args
  run_builtin-Keeps call eval n Builtin.list_append args hc he = list_proc_append-Keeps n args
  run_builtin-Keeps call eval n Builtin.list_extend args hc he = list_proc_extend-Keeps n args
  run_builtin-Keeps call eval n Builtin.list_index args hc he = list_proc_index-Keeps n args
  run_builtin-Keeps call eval n Builtin.list_range args hc he = list_proc_range-Keeps n args
  run_builtin-Keeps call eval n Builtin.list_in args hc he = list_proc_in-Keeps n args
  run_builtin-Keeps call eval n Builtin.list_pop args hc he = list_proc_pop-Keeps n args
  run_builtin-Keeps call eval n Builtin.dict_get args hc he = dict_proc_get-Keeps n args
  run_builtin-Keeps call eval n Builtin.dict_set args hc he = dict_proc_set-Keeps n args
  run_builtin-Keeps call eval n Builtin.dict_unset args hc he = dict_proc_unset-Keeps n args
  run_builtin-Keeps call eval n Builtin.logic_not args hc he = logic_proc_not-Keeps n args
  run_builtin-Keeps call eval n Builtin.logic_eq args hc he = logic_proc_eq-Keeps n args
  run_builtin-Keeps call eval n Builtin.logic_ne args hc he = logic_proc_ne-Keeps n args
  run_builtin-Keeps call eval n Builtin.logic_and args hc he = logic_proc_and-Keeps n args
  run_builtin-Keeps call eval n Builtin.logic_or args hc he = logic_proc_or-Keeps n args
  run_builtin-Keeps call eval n Builtin.logic_xor args hc he = logic_proc_xor-Keeps n args
  run_builtin-Keeps call eval n Builtin.logic_if args hc he = logic_proc_if-Keeps call n args hc
  run_builtin-Keeps call eval n Builtin.math_add args hc he = float_proc-Keeps _ n args
  run_builtin-Keeps call eval n Builtin.math_sub args hc he = float_proc-Keeps _ n args
  run_builtin-Keeps call eval n Builtin.math_mul args hc he = float_proc-Keeps _ n args
  run_builtin-Keeps call eval n Builtin.math_div args hc he = math_proc_div-Keeps n args
  run_builtin-Keeps call eval n Builtin.math_mod args hc he = math_proc_mod-Keeps n args
  run_builtin-Keeps call eval n Builtin.math_and args hc he = bits_proc-Keeps bit_and n args
  run_builtin-Keeps call eval n Builtin.math_or args hc he = bits_proc-Keeps bit_or n args
  run_builtin-Keeps call eval n Builtin.math_xor args hc he = bits_proc-Keeps bit_xor n args
  run_builtin-Keeps call eval n Builtin.math_lt args hc he = compare_proc-Keeps _ n args
  run_builtin-Keeps call eval n Builtin.math_le args hc he = compare_proc-Keeps _ n args
  run_builtin-Keeps call eval n Builtin.math_gt args hc he = compare_proc-Keeps _ n args
  run_builtin-Keeps call eval n Builtin.math_ge args hc he = compare_proc-Keeps _ n args
  run_builtin-Keeps call eval n Builtin.loop_map args hc he = loop_proc_map-Keeps call n args hc
  run_builtin-Keeps call eval n Builtin.loop_loop args hc he = loop_proc_loop-Keeps call n args hc
  run_builtin-Keeps call eval n Builtin.loop_range args hc he = loop_proc_range-Keeps n args
  run_builtin-Keeps call eval n Builtin.exc_try args hc he = exc_proc_try-Keeps call hc n args
  run_builtin-Keeps call eval n Builtin.proc_new args hc he = proc_proc_proc-Keeps n args
  run_builtin-Keeps call eval n Builtin.core_nop args hc he = pure-Keeps _
  run_builtin-Keeps call eval n Builtin.core_echo args hc he = core_proc_echo-Keeps n args
  run_builtin-Keeps call eval n Builtin.core_yield args hc he = pure-Keeps _
  run_builtin-Keeps call eval n Builtin.core_return args hc he = core_proc_return-Keeps n args
  run_builtin-Keeps call eval n Builtin.core_continue args hc he = pure-Keeps _
  run_builtin-Keeps call eval n Builtin.core_break args hc he = pure-Keeps _
  run_builtin-Keeps call eval n Builtin.core_throw args hc he = core_proc_throw-Keeps n args
  run_builtin-Keeps call eval n Builtin.core_exit args hc he = core_proc_exit-Keeps n args
  run_builtin-Keeps call eval n Builtin.core_local args hc he = core_proc_local-Keeps n args
  run_builtin-Keeps call eval n Builtin.core_global args hc he = core_proc_global-Keeps n args
  run_builtin-Keeps call eval n Builtin.core_export args hc he = core_proc_export-Keeps n args
  run_builtin-Keeps call eval n Builtin.core_eval args hc he = core_proc_eval-Keeps eval n args he
  run_builtin-Keeps call eval n Builtin.core_repr args hc he = core_proc_repr-Keeps n args
  run_builtin-Keeps call eval n Builtin.core_call args hc he = core_proc_call-Keeps call n args hc
  run_builtin-Keeps call eval n Builtin.core_source args hc he =
      core_proc_source-Keeps call n args hc

  run_with-Keeps :
      (call eval : Ptr → M Res) (n : ℕ)
      → ((p : Ptr) → Keeps (call p))
      → ((p : Ptr) → Keeps (eval p))
      → (p : Proc) (args : Ptr) → Keeps (run_with call eval n p args)
  unfolding run_with
  run_with-Keeps call eval n hc he obj_proc args = obj_decode-Keeps n args
  run_with-Keeps call eval n hc he (builtin b) args = run_builtin-Keeps call eval n b args hc he
  run_with-Keeps call eval n hc he (user body priv) args = proc_proc-Keeps call n body priv args hc

  stmt_call-Keeps : (n stmt : ℕ) → Keeps (stmt_call n stmt)
  unfolding stmt_call
  stmt_call-Keeps zero stmt = stuck-Keeps
  stmt_call-Keeps (suc n) stmt =
      let hc : (p : Ptr) → Keeps (call_with (stmt_call n) n p) =
        λ p. call_with-Keeps (stmt_call n) n p (stmt_call-Keeps n) in
      let he : (p : Ptr) → Keeps (eval_with (stmt_call n) n p) =
        λ p. eval_with-Keeps (stmt_call n) n p (stmt_call-Keeps n) in
      stmt_call_with-Keeps (run_with (call_with (stmt_call n) n) (eval_with (stmt_call n) n) n)
        (eval_with (stmt_call n) n) n stmt
        (run_with-Keeps (call_with (stmt_call n) n) (eval_with (stmt_call n) n) n hc he) he

  -- Whatever a script does, and whichever built-in procedures and procedures of its own it calls,
  -- where it ends with a result, the frames of the call stack and their number are those of before.
  pub call-Keeps : (n stmts : ℕ) → Keeps (call n stmts)
  unfolding call
  call-Keeps n stmts = call_with-Keeps (stmt_call n) n stmts (stmt_call-Keeps n)
