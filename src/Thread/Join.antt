-- ===== src/Thread/Join.antt =====
-- src/b6b_interp.c, b6b_join and b6b_start: the main thread lets the others end, and a thread starts
-- another one.
pub mod Scan
pub mod Chain
pub mod Alone
use b6b.Base.{
  ℕ, zero, suc, Bool, true, false, Option, none, some, List, [], ◌∷◌, ◌++◌, ◌==◌, if◌then◌else◌,
}
use b6b.CLib.{CLib}
use b6b.Store.{Ptr, Res, ok, err}
use b6b.Store.Monad.{M, ◌>>=◌, pure}
use b6b.Object.Args.{get_args}
use b6b.Thread.{Thread, Sched, thread_new, start, yield, finish}

-- b6b_start: `made` is whether the thread's stack and context could be had.
abbrev pub b6b_start : Bool → ℕ → Sched → Bool × Sched
b6b_start true id s = (true, start (thread_new id) s)
b6b_start false id s = (false, s)

abbrev pub spawn_result : Bool × Sched → Res × Sched
spawn_result (true, s) = (ok, s)
spawn_result (false, s) = (err, s)

-- b6b_core_proc_spawn
unfoldable pub core_proc_spawn : ⦃c : CLib⦄ → ℕ → Bool → ℕ → Sched → Ptr → M (Res × Sched)
unfolding get_args
core_proc_spawn n made id s args = do
  a ← get_args n args (b'o' ∷ b'o' ∷ []) (false ∷ true ∷ [])
  pure (if a.argc == 0 then (err, s) else spawn_result (b6b_start made id s))

abbrev pub further : (Sched → Option Sched) → Option (Bool × Sched) → Option Sched
further again none = none
further again (some (switch, s)) = again s

-- With `exit` set, a thread that runs ends at its next statement: the threads from one that
-- the main thread switched to on, up to the main thread.
unfoldable pub others_end : ℕ → ℕ → Sched → Option Sched
unfolding finish
others_end main zero s = none
others_end main (suc n) s =
    let rest = further (others_end main n) (finish s) in if s.fg.id == main then some s else rest

abbrev pub or_again : (Sched → Option Sched) → Option Sched → Option Sched
or_again again none = none
or_again again (some s) = again s

abbrev pub joined :
    (Sched → Option Sched) → (Sched → Option Sched) → Option (Bool × Sched) → Option Sched
joined ends again none = none
joined ends again (some (false, s)) = some s
joined ends again (some (true, s)) = or_again again (ends s)

-- The loop of b6b_join, in the thread with the number `main`.
unfoldable pub join_loop : ℕ → ℕ → Sched → Option Sched
unfolding others_end yield
join_loop main zero s = none
join_loop main (suc n) s = joined (others_end main n) (join_loop main n) (yield s)

-- b6b_thread_pop of the first thread
abbrev pub pop_first : List Thread → List Thread
pop_first [] = []
pop_first (t ∷ ts) = ts

abbrev pub left_of : Option Sched → Option (List Thread)
left_of none = none
left_of (some s) = some (pop_first (s.before ++ s.fg ∷ s.after))

-- b6b_join: the threads that are left. The threads of offloads are not stopped.
unfoldable pub b6b_join : ℕ → Sched → Option (List Thread)
unfolding join_loop
b6b_join n s = left_of (join_loop s.fg.id n s)
