-- ===== src/Str.antt =====
-- src/b6b_str.c: the procedures over texts. Trim, Split, Expand and Search hold the loops and what
-- they compute, Procs the procedures around them.
pub mod Trim
pub mod Split
pub mod Expand
pub mod Search
pub mod Procs
pub mod Decode
