-- ===== src/Lists.antt =====
-- src/b6b_list.c: the operations on list objects, in Ops, and the procedures over them, in Procs.
pub mod Ops
pub mod Procs
