-- ===== src/Interp.antt =====
-- src/b6b_interp.c, b6b_frame.c and b6b_proc.c: frames, variables, and the evaluation of
-- statements. Dispatch ties the evaluator to the built-in procedures.
pub mod Main
pub mod Nested
pub mod Complete
pub mod Frame
pub mod Eval
pub mod Tables
pub mod Dispatch
pub mod Boot
pub mod Keeps
pub mod Words
pub mod Balance
