-- ===== src/Control.antt =====
-- src/b6b_logic.c, b6b_math.c, b6b_loop.c, b6b_exc.c, b6b_core.c and b6b_proc.c: the procedures
-- that decide, compute, repeat, catch, bind and define. Those that run code take b6b_call and
-- b6b_eval as arguments.
pub mod Source
pub mod Logic
pub mod Math
pub mod Loop
pub mod Exc
pub mod Core
