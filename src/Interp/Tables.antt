-- ===== src/Interp/Tables.antt =====
-- The tables of built-in objects: static const struct b6b_ext_obj in src/b6b_str.c and the other
-- files of procedures, each entry with its name, its text and its procedure. The entry of
-- b6b_core.c for `source` is left out, and that for `spawn` needs threads.
use b6b.Base.{List, [], ◌∷◌, ◌++◌, Bytes, codes}
use b6b.Store.{Builtin}

-- struct b6b_ext_obj, whose type is always B6B_TYPE_STR here
pub record Entry : Type 0 where
  pub name : Bytes
  pub val : Bytes
  pub proc : Builtin

abbrev entry : Bytes → Builtin → Entry
entry s p = record { name = s; val = s; proc = p }

unfoldable pub str_table : List Entry
str_table =
    entry (codes "str.len") Builtin.str_len
    ∷ entry (codes "str.index") Builtin.str_index
    ∷ entry (codes "str.range") Builtin.str_range
    ∷ entry (codes "str.join") Builtin.str_join
    ∷ entry (codes "str.split") Builtin.str_split
    ∷ entry (codes "str.ord") Builtin.str_ord
    ∷ entry (codes "str.chr") Builtin.str_chr
    ∷ entry (codes "str.expand") Builtin.str_expand
    ∷ entry (codes "str.in") Builtin.str_in
    ∷ entry (codes "rtrim") Builtin.str_rtrim
    ∷ entry (codes "ltrim") Builtin.str_ltrim
    ∷ []

unfoldable pub list_table : List Entry
list_table =
    entry (codes "list.new") Builtin.list_new
    ∷ entry (codes "list.len") Builtin.list_len
    ∷ entry (codes "list.copy") Builtin.list_copy
    ∷ entry (codes "list.append") Builtin.list_append
    ∷ entry (codes "list.extend") Builtin.list_extend
    ∷ entry (codes "list.index") Builtin.list_index
    ∷ entry (codes "list.range") Builtin.list_range
    ∷ entry (codes "list.in") Builtin.list_in
    ∷ entry (codes "list.pop") Builtin.list_pop
    ∷ []

unfoldable pub dict_table : List Entry
dict_table =
    entry (codes "dict.get") Builtin.dict_get
    ∷ entry (codes "dict.set") Builtin.dict_set
    ∷ entry (codes "dict.unset") Builtin.dict_unset
    ∷ []

unfoldable pub logic_table : List Entry
logic_table =
    entry (codes "!") Builtin.logic_not
    ∷ entry (codes "==") Builtin.logic_eq
    ∷ entry (codes "!=") Builtin.logic_ne
    ∷ entry (codes "&&") Builtin.logic_and
    ∷ entry (codes "||") Builtin.logic_or
    ∷ entry (codes "^^") Builtin.logic_xor
    ∷ entry (codes "if") Builtin.logic_if
    ∷ []

unfoldable pub math_table : List Entry
math_table =
    entry (codes "+") Builtin.math_add
    ∷ entry (codes "-") Builtin.math_sub
    ∷ entry (codes "*") Builtin.math_mul
    ∷ entry (codes "/") Builtin.math_div
    ∷ entry (codes "%") Builtin.math_mod
    ∷ entry (codes "&") Builtin.math_and
    ∷ entry (codes "|") Builtin.math_or
    ∷ entry (codes "^") Builtin.math_xor
    ∷ entry (codes "<") Builtin.math_lt
    ∷ entry (codes "<=") Builtin.math_le
    ∷ entry (codes ">") Builtin.math_gt
    ∷ entry (codes ">=") Builtin.math_ge
    ∷ []

unfoldable pub loop_table : List Entry
loop_table =
    entry (codes "map") Builtin.loop_map
    ∷ entry (codes "loop") Builtin.loop_loop
    ∷ entry (codes "range") Builtin.loop_range
    ∷ []

unfoldable pub exc_table : List Entry
exc_table = entry (codes "try") Builtin.exc_try ∷ []

unfoldable pub proc_table : List Entry
proc_table = entry (codes "proc") Builtin.proc_new ∷ []

unfoldable pub core_table : List Entry
core_table =
    entry (codes "nop") Builtin.core_nop
    ∷ entry (codes "echo") Builtin.core_echo
    ∷ entry (codes "yield") Builtin.core_yield
    ∷ entry (codes "return") Builtin.core_return
    ∷ entry (codes "continue") Builtin.core_continue
    ∷ entry (codes "break") Builtin.core_break
    ∷ entry (codes "throw") Builtin.core_throw
    ∷ entry (codes "exit") Builtin.core_exit
    ∷ entry (codes "local") Builtin.core_local
    ∷ entry (codes "global") Builtin.core_global
    ∷ entry (codes "export") Builtin.core_export
    ∷ entry (codes "eval") Builtin.core_eval
    ∷ entry (codes "repr") Builtin.core_repr
    ∷ entry (codes "call") Builtin.core_call
    ∷ entry (codes "source") Builtin.core_source
    ∷ []

-- All tables, one after another
unfoldable pub extensions : List Entry
unfolding str_table list_table dict_table logic_table math_table loop_table exc_table proc_table
    core_table
extensions =
    str_table
    ++ (list_table
        ++ (dict_table
            ++ (logic_table
                ++ (math_table ++ (loop_table ++ (exc_table ++ (proc_table ++ (core_table))))))))
