-- ===== src/Dict.antt =====
-- src/b6b_dict.c: a dictionary is a list of keys, each with its value behind it. Ops holds the
-- operations, Procs the procedures.
pub mod Ops
pub mod Procs
