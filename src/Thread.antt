-- ===== src/Thread.antt =====
-- include/b6b/thread.h, src/b6b_thread.c, and the scheduler of src/b6b_interp.c, as built with
-- B6B_HAVE_THREADS: which thread runs next. What a thread does between two switches is left open.

pub mod Await
pub mod Fair
pub mod Join
pub mod Kept
pub mod Offload
pub mod Once
pub mod Quantum
use b6b.Base.{
  ℕ, ◌+◌, ◌%◌, Bool, true, false, not, ◌&&◌, Option, none, some, List, [], ◌∷◌, ◌++◌, ◌==◌,
  if◌then◌else◌,
}

-- struct b6b_thread: `id` tells threads apart, `bg`, `fg`, `done` and `blocked` are the bits of
-- `flags`. `saved` says that `ucp` was left by swapcontext in b6b_yield, not by makecontext.
pub record Thread : Type 0 where
  pub id : ℕ
  pub bg : Bool
  pub fg : Bool
  pub done : Bool
  pub blocked : Bool
  pub saved : Bool

-- struct b6b_interp: the list of threads is `before`, the thread that `fg` points to, and `after`.
pub record Sched : Type 0 where
  pub before : List Thread
  pub fg : Thread
  pub after : List Thread
  pub qstep : ℕ

-- b6b_thread_new: what b6b_thread_prep leaves in `flags`
abbrev pub thread_new : ℕ → Thread
thread_new id = record {
  id = id;
  bg = true;
  fg = false;
  done = false;
  blocked = false;
  saved = false;
}

-- b6b_thread_self, which is the first thread, and b6b_interp_new, which pushes it
abbrev pub sched_new : ℕ → Sched
sched_new id = record {
  before = [];
  fg = record (thread_new id) { bg = false; fg = true };
  after = [];
  qstep = 0;
}

-- b6b_thread_push in b6b_start: behind the thread that runs
abbrev pub start : Thread → Sched → Sched
start t s = record s { after = t ∷ s.after }

-- THREAD_PENDING
abbrev pub pending : Thread → Bool
pending t = t.bg && not t.done

-- The loops of b6b_yield: the first thread that is pending, and what is around it.
pub record Found : Type 0 where
  pub skipped : List Thread
  pub thread : Thread
  pub rest : List Thread

abbrev pub skip : Thread → Option Found → Option Found
skip t none = none
skip t (some f) = some (record f { skipped = t ∷ f.skipped })

unfoldable pub scan : List Thread → Option Found
scan [] = none
scan (t ∷ ts) =
    let rest = skip t (scan ts) in
    if pending t then some (record { skipped = []; thread = t; rest = ts }) else rest

-- b6b_thread_swap: the flags of both; the context of the one that stops is saved.
abbrev pub stopped : Thread → Thread
stopped t = record t { fg = false; bg = true; saved = true }

abbrev pub resumed : Thread → Thread
resumed t = record t { bg = false; fg = true }

-- The threads that b6b_wait leaves in the list.
unfoldable pub alive : List Thread → List Thread
alive [] = []
alive (t ∷ ts) = let rest = alive ts in if t.done then rest else t ∷ rest

-- b6b_wait. `none`: the thread that runs is freed, with the stack that it runs on.
unfoldable pub wait : Sched → Option Sched
unfolding alive
wait s =
    if s.fg.done then none else some (record s { before = alive s.before; after = alive s.after })

-- Behind swapcontext: a thread that was saved in b6b_yield goes on there, with b6b_wait; a new one
-- starts with its function.
abbrev pub switched : Sched → Option (Bool × Sched)
switched s =
    if s.fg.saved then elim (wait s) [ none ↦ none | some s' ↦ some (true, s') ] else some (true, s)

abbrev pub swap_before : Sched → Option Found → Option (Bool × Sched)
swap_before s none = elim (wait s) [ none ↦ none | some s' ↦ some (false, s') ]
swap_before s (some f) = switched (record {
  before = f.skipped;
  fg = resumed f.thread;
  after = f.rest ++ stopped s.fg ∷ s.after;
  qstep = 0;
})

abbrev pub swap_after : Sched → Option Found → Option (Bool × Sched)
swap_after s none = swap_before s (scan s.before)
swap_after s (some f) = switched (record {
  before = s.before ++ stopped s.fg ∷ f.skipped;
  fg = resumed f.thread;
  after = f.rest;
  qstep = 0;
})

-- b6b_yield: whether there was a switch, and the threads behind it, when the next one goes on.
unfoldable pub yield : Sched → Option (Bool × Sched)
unfolding scan wait
yield s = swap_after s (scan s.after)

-- The end of b6b_thread_routine.
unfoldable pub finish : Sched → Option (Bool × Sched)
unfolding yield
finish s = yield (record s { fg = record s.fg { done = true } })

-- B6B_QUANT_LEN
abbrev pub quant_len : ℕ
quant_len = 16

-- b6b_on_res, what it does with `qstep` behind a statement
unfoldable pub after_stmt : Sched → Option (Bool × Sched)
unfolding yield
after_stmt s =
    let q = (s.qstep + 1) % 256 in
    let s' : Sched = record s { qstep = q } in if q == quant_len then yield s' else some (false, s')

-- b6b_threaded
abbrev pub threaded : Sched → Bool
threaded s = elim (s.before ++ s.fg ∷ s.after) as (λ x. Bool) [
  | [] ↦ false
  | t ∷ ts ↦ elim ts as (λ x. Bool) [ [] ↦ false | u ∷ us ↦ true ]
]
