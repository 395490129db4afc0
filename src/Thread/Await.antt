-- ===== src/Thread/Await.antt =====
-- src/b6b_interp.c, b6b_pick_thread and b6b_offload: a thread hands a function to an offload thread
-- and lets the other threads run until it was called.
pub mod Switch
pub mod Loops
pub mod Total
use b6b.Base.{
  ℕ, zero, suc, Bool, true, false, not, ◌||◌, Option, none, some, List, [], ◌∷◌, ◌++◌, get_elem?,
  if◌then◌else◌,
}
use b6b.Thread.{Thread, Sched, stopped, yield, threaded}
use b6b.Thread.Offload.{OffloadState, init, up, idle, running, finished, Offload}

-- What a call of b6b_offload sees: the threads, `offths`, and how often a function was called by the
-- thread that needs it.
pub record Offloads : Type 0 where
  pub sched : Sched
  pub offths : List Offload
  pub called : ℕ

-- What happens beside it. `others t` is what the other threads and the offload threads do from where
-- b6b_yield stopped `t` to where it goes on; `kill` and `sigwait` are pthread_kill and sigwait for
-- an offload thread, whether they succeed, the latter with what happens in the meantime.
pub record Beside : Type 0 where
  pub others : Thread → Offloads → Offloads
  pub kill : ℕ → Offloads → Bool
  pub sigwait : ℕ → Offloads → Bool × Offloads

-- b6b_thread_block and b6b_thread_unblock, of the thread that runs
abbrev pub thread_block : Offloads → Offloads
thread_block w = record w { sched = record w.sched { fg = record w.sched.fg { blocked = true } } }

abbrev pub thread_unblock : Offloads → Offloads
thread_unblock w = record w {
  sched = record w.sched { fg = record w.sched.fg { blocked = false } };
}

-- b6b_offload_ready
abbrev pub offload_ready : OffloadState → Bool
offload_ready init = false
offload_ready up = false
offload_ready idle = true
offload_ready running = false
offload_ready finished = false

-- b6b_offload_done
abbrev pub offload_done : OffloadState → Bool
offload_done init = false
offload_done up = false
offload_done idle = false
offload_done running = false
offload_done finished = true

abbrev pub counted : Option ℕ → Option ℕ
counted none = none
counted (some i) = some (suc i)

-- b6b_pick_thread
unfoldable pub pick_thread : List Offload → Option ℕ
pick_thread [] = none
pick_thread (o ∷ os) =
    let rest = counted (pick_thread os) in if offload_ready o.state then some 0 else rest

-- Writing to `offths[i]`
abbrev pub change : (Offload → Offload) → ℕ → List Offload → List Offload
change f i [] = []
change f zero (o ∷ os) = f o ∷ os
change f (suc i) (o ∷ os) = o ∷ change f i os

abbrev pub handed_over : Bool → Offload → Offload
handed_over true o = record o {
  state = running;
  handed = suc o.handed;
  to_worker = suc o.to_worker;
}
handed_over false o = record o { state = running; handed = suc o.handed }

-- The loop over the threads: `pending` and `swap`.
unfoldable pub poll_flags : List Thread → Bool → Bool → Bool × Bool
poll_flags [] pending swap = (pending, swap)
poll_flags (t ∷ ts) pending swap =
    let marked = poll_flags ts true swap in
    let free = poll_flags ts pending true in
    if t.blocked
    then (if swap then (true, swap) else marked)
    else if pending
    then (pending, true)
    else free

abbrev pub is_done : ℕ → List Offload → Bool
is_done i os = elim (get_elem? os i) as (λ x. Bool) [ none ↦ false | some o ↦ offload_done o.state ]

abbrev pub come_back :
    (Thread → Offloads → Offloads) → Offloads → Option (Bool × Sched) → Option (Bool × Offloads)
come_back others w none = none
come_back others w (some (false, s)) = some (false, record w { sched = s })
come_back others w (some (true, s)) =
    some (true, others (stopped w.sched.fg) (record w { sched = s }))

module _ (b : Beside) where
  -- b6b_yield, for the thread that calls it
  unfoldable pub pass : Offloads → Option (Bool × Offloads)
  unfolding yield
  pass w = come_back b.others w (yield w.sched)

  abbrev pub retried :
      (Offloads → Option (Option ℕ × Offloads))
      → Option (Bool × Offloads)
      → Option (Option ℕ × Offloads)
  retried again none = none
  retried again (some (false, w)) = some (none, w)
  retried again (some (true, w)) = again w

  abbrev pub or_retry :
      Option ℕ → Offloads → Option (Option ℕ × Offloads) → Option (Option ℕ × Offloads)
  or_retry none w again = again
  or_retry (some i) w again = some (some i, w)

  -- The loop that waits for an offload thread
  unfoldable pub await_ready : ℕ → Offloads → Option (Option ℕ × Offloads)
  unfolding pick_thread pass
  await_ready zero w = none
  await_ready (suc n) w = or_retry (pick_thread w.offths) w (retried (await_ready n) (pass w))

  -- b6b_offload_start
  abbrev pub offload_start : ℕ → Offloads → Bool × Offloads
  offload_start i w =
      let sent = b.kill i w in (sent, record w { offths = change (handed_over sent) i w.offths })

  abbrev pub repolled :
      ℕ
      → Bool
      → (Offloads → Option (Bool × Offloads))
      → Option (Bool × Offloads)
      → Option (Bool × Offloads)
  repolled i pending again none = none
  repolled i pending again (some (false, w)) = some (pending, w)
  repolled i pending again (some (true, w)) =
      let more = again w in if is_done i w.offths then some (pending, w) else more

  -- The loop that polls, with its last `pending`
  unfoldable pub await_done : ℕ → ℕ → Bool → Offloads → Option (Bool × Offloads)
  unfolding poll_flags pass
  await_done zero i pending w = none
  await_done (suc n) i pending w =
      let flags = poll_flags (w.sched.before ++ w.sched.after) false false in
      let next = repolled i flags.0 (await_done n i flags.0) (pass w) in
      if not (threaded w.sched)
      then some (pending, w)
      else if not flags.1
      then some (flags.0, w)
      else next

  abbrev pub recycled : Offload → Offload
  recycled o = record o { state = idle }

  -- b6b_offload_finish
  abbrev pub offload_finish : ℕ → Offloads → Bool × Offloads
  offload_finish i w =
      let (heard, w') = b.sigwait i w in
      if heard then (true, record w' { offths = change recycled i w'.offths }) else (false, w')

  abbrev pub gave_way : Option (Bool × Offloads) → Option (Bool × Offloads)
  gave_way none = none
  gave_way (some (swapped, w)) = some (true, w)

  abbrev pub finished_with : Bool → Bool × Offloads → Option (Bool × Offloads)
  finished_with pending (false, w) = some (false, w)
  finished_with pending (true, w) = if pending then gave_way (pass w) else some (true, w)

  abbrev pub awaited : ℕ → Option (Bool × Offloads) → Option (Bool × Offloads)
  awaited i none = none
  awaited i (some (pending, w)) = finished_with pending (offload_finish i (thread_unblock w))

  abbrev pub begun : ℕ → ℕ → Bool × Offloads → Option (Bool × Offloads)
  begun n i (false, w) = some (false, thread_unblock w)
  begun n i (true, w) = awaited i (await_done n i false w)

  abbrev pub picked : ℕ → Option (Option ℕ × Offloads) → Option (Bool × Offloads)
  picked n none = none
  picked n (some (none, w)) = some (false, thread_unblock w)
  picked n (some (some i, w)) = begun n i (offload_start i w)

  -- b6b_offload
  unfoldable pub b6b_offload : ℕ → Offloads → Option (Bool × Offloads)
  unfolding await_ready await_done pass
  b6b_offload n w =
      let handed = picked n (await_ready n (thread_block w)) in
      if threaded w.sched then handed else some (true, record w { called = suc w.called })
