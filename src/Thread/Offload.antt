-- ===== src/Thread/Offload.antt =====
-- src/b6b_offload.c and include/b6b/offload.h: one offload thread, and the thread that runs the
-- scripts. They share `state`, and wake one another with a queued signal. Each move below is one
-- access to what they share; any order of the moves of the two may happen. That signals and atomic
-- stores work as POSIX documents them is part of the relation; calls that fail are left out.
use b6b.Base.{ℕ, suc, ◌≡◌, ◌≢◌}

-- enum b6b_offload_state
pub data OffloadState : Type 0 where
  init up idle running finished : OffloadState

-- struct b6b_offload_thread: the state and the signals that are queued for the two threads; and, to
-- tell what happened, how often a function was handed over and how often one was called.
pub record Offload : Type 0 where
  pub state : OffloadState
  pub to_worker : ℕ
  pub to_main : ℕ
  pub handed : ℕ
  pub called : ℕ

-- Where the main thread is: in the loop of b6b_offload_thread_start, behind its sigwait, behind
-- b6b_offload_finish; in b6b_offload_start behind the store; waiting in b6b_offload or
-- b6b_offload_finish; behind the sigwait of b6b_offload_finish.
pub data Main : Type 0 where
  starting up_seen free handing waiting woken : Main

-- Where b6b_offload_thread_routine is: at its start, before its first signal, in sigwait, behind it,
-- in `fn`, behind `fn`, before the signal that it is done, and past the loop.
pub data Worker : Type 0 where
  booting announcing sleeping testing working storing telling exited : Worker

pub data Move (o : Offload) : Main → Worker → Offload → Main → Worker → Type 0 where
  -- b6b_offload_thread_routine, up to the loop
  boot : {m : Main} → Move o m booting (record o { state = up }) m announcing
  announce : {m : Main} → Move o m announcing (record o { to_main = suc o.to_main }) m sleeping
  -- b6b_offload_thread_start
  hear_up :
      {w : Worker} {n : ℕ}
      → o.to_main ≡ suc n
      → o.state ≡ up
      → Move o starting w (record o { to_main = n }) up_seen w
  hear_early :
      {w : Worker} {n : ℕ}
      → o.to_main ≡ suc n
      → o.state ≢ up
      → Move o starting w (record o { to_main = n }) starting w
  ready : {w : Worker} → Move o up_seen w (record o { state = idle }) free w
  -- b6b_offload_start, where b6b_offload_ready
  hand :
      {w : Worker}
      → o.state ≡ idle
      → Move o free w (record o { state = running; handed = suc o.handed }) handing w
  wake : {w : Worker} → Move o handing w (record o { to_worker = suc o.to_worker }) waiting w
  -- The loop of b6b_offload_thread_routine
  sigwait :
      {m : Main} {n : ℕ}
      → o.to_worker ≡ suc n
      → Move o m sleeping (record o { to_worker = n }) m testing
  run : {m : Main} → o.state ≡ running → Move o m testing o m working
  leave : {m : Main} → o.state ≢ running → Move o m testing o m exited
  call : {m : Main} → Move o m working (record o { called = suc o.called }) m storing
  end : {m : Main} → Move o m storing (record o { state = finished }) m telling
  tell : {m : Main} → Move o m telling (record o { to_main = suc o.to_main }) m sleeping
  -- b6b_offload_finish
  hear_end :
      {w : Worker} {n : ℕ} → o.to_main ≡ suc n → Move o waiting w (record o { to_main = n }) woken w
  recycle : {w : Worker} → Move o woken w (record o { state = idle }) free w

-- What b6b_offload_thread_init leaves, and where the two threads begin.
abbrev pub fresh : Offload
fresh = record { state = init; to_worker = 0; to_main = 0; handed = 0; called = 0 }

pub data Reached : Offload → Main → Worker → Type 0 where
  begin : Reached fresh starting booting
  step :
      {o o' : Offload} {m m' : Main} {w w' : Worker}
      → Reached o m w
      → Move o m w o' m' w'
      → Reached o' m' w'
