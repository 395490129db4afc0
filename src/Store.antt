-- ===== src/Store.antt =====
-- include/b6b/obj.h, interp.h, frame.h, core.h: objects, the store that holds them, the state of
-- an interpreter, and the monad of the C code over it.
--
-- Objects are shared and changed in place, so a pointer is a number and the store maps it to the
-- object. A cell is never given back: reference counts only decide when a cell that nothing
-- points to is freed, and they are not modelled. Allocation succeeds, as the code takes it to
-- where it is built with B6B_OPTIMISTIC_ALLOC.
pub mod Monad
pub mod Keeps
pub mod Gives
use b6b.Base.{ℕ, ◌+◌, Bool, true, false, List, [], Option, Bytes}
use b6b.Base.Int.{ℤ, pos}

-- struct b6b_obj *
abbrev pub Ptr : Type 0
Ptr = ℕ

-- The functions that `proc` may point to: one for each entry of the tables of built-in objects
-- (static const struct b6b_ext_obj), b6b_obj_proc, and b6b_proc_proc with its `priv`.
pub data Builtin : Type 0 where
  str_len str_index str_range str_join str_split str_ord : Builtin
  str_chr str_expand str_in str_rtrim str_ltrim : Builtin
  list_new list_len list_copy list_append list_extend : Builtin
  list_index list_range list_in list_pop : Builtin
  dict_get dict_set dict_unset : Builtin
  logic_not logic_eq logic_ne logic_and logic_or logic_xor logic_if : Builtin
  math_add math_sub math_mul math_div math_mod : Builtin
  math_and math_or math_xor math_lt math_le math_gt math_ge : Builtin
  loop_map loop_loop loop_range : Builtin
  core_nop core_echo core_yield core_return core_continue core_break core_throw : Builtin
  core_exit core_local core_global core_export core_eval core_repr core_call core_source : Builtin
  exc_try proc_new : Builtin

pub data Proc : Type 0 where
  obj_proc : Proc
  builtin : Builtin → Proc
  -- b6b_proc_proc, where `priv` is a struct b6b_proc: the body, and the private object.
  user : Ptr → Ptr → Proc

-- struct b6b_obj: the representations that `flags` marks are valid, the others are not read.
-- `slen` is the length of `s`.
pub record Obj : Type 0 where
  pub l : List Ptr
  pub s : Bytes
  pub i : ℤ
  pub f : ℕ
  pub hash : ℕ
  pub proc : Proc
  pub is_list : Bool
  pub is_str : Bool
  pub is_int : Bool
  pub is_float : Bool
  pub is_hashed : Bool

-- struct b6b_frame: `prev` is the frame behind it in the list of frames.
pub record Frame : Type 0 where
  pub locals : Ptr
  pub args : Ptr

-- struct b6b_interp with its one thread `fg`, as built without B6B_HAVE_THREADS: `under` is
-- `fg->_`, `frames` is `fg->curr` and the frames that `prev` leads to, and `underscore` is `_`.
pub record State : Type 0 where
  pub cell : Ptr → Option Obj
  pub next : Ptr
  pub under : Ptr
  pub frames : List Frame
  pub depth : ℕ
  pub global : Frame
  pub null : Ptr
  pub zero_obj : Ptr
  pub one : Ptr
  pub dot : Ptr
  pub at : Ptr
  pub underscore : Ptr
  pub opt_raise : Bool

-- enum b6b_res
pub data Res : Type 0 where
  ok err yield break cont ret exit : Res

-- b6b_new: no representation is valid yet.
abbrev pub blank_obj : Obj
blank_obj = record {
  l = [];
  s = [];
  i = pos 0;
  f = 0;
  hash = 0;
  proc = obj_proc;
  is_list = false;
  is_str = false;
  is_int = false;
  is_float = false;
  is_hashed = false;
}
