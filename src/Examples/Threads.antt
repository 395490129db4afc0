-- ===== src/Examples/Threads.antt =====
-- The theorems on threads, on scripts in files and on the program's status at concrete inputs.
use b6b.Base.{suc, ◌+◌, ◌<◌, ◌≡◌, ◌≢◌, refl, true, some, [], ◌∷◌, arith}
use b6b.Base.Int.{pos}
use b6b.Tests.{toy}
use b6b.Store.{State, exit, blank_obj}
use b6b.Store.Monad.{done}
use b6b.Interp.Boot.{empty}
use b6b.Thread.{Sched, thread_new, sched_new, start, yield}
use b6b.Thread.Fair.{behind, yields, ends, starts, Runs, At-Runs}
use b6b.Thread.Join.{b6b_join}
use b6b.Thread.Join.Alone.{b6b_join-alone}
use b6b.Thread.Kept.{Same, yield-Same}
use b6b.Thread.Offload.{
  Offload, fresh, Main, handing, free, Worker, sleeping, working, exited, Move, boot, announce,
  hear_up, ready, hand, wake, sigwait, run, call, end, tell, hear_end, recycle, idle, Reached,
  begin, step, waiting,
}
use b6b.Thread.Once.{Next, rank, offload_safe, offload_ends}
use b6b.Interp.Main.{exit_status}

-- The main thread started 1 and then 2, which is first in the list.
abbrev three : Sched
three = start (thread_new 2) (start (thread_new 1) (sched_new 0))

At-Runs_example : Runs (thread_new 1) (yields ∷ starts (thread_new 3) ∷ ends ∷ yields ∷ []) three
At-Runs_example =
    At-Runs (yields ∷ starts (thread_new 3) ∷ ends ∷ yields ∷ []) (thread_new 1) three 1 refl
      (behind (thread_new 2 ∷ []) [] refl) (omega arith)

yield-Same_example : Same three (yield three)
yield-Same_example = yield-Same three (record {
  runs = (refl, refl);
  before_waits = tt;
  after_waits = ((refl, refl), ((refl, refl), tt));
})

-- The worker is up, and one function was handed over, called and waited for.
abbrev rested : Offload
rested = record fresh { state = idle; handed = 1; called = 1 }

rested-Reached : Reached rested free sleeping
rested-Reached =
    let up_ = step (step (step (step begin boot) announce) (hear_up refl refl)) ready in
    let given = step (step (step (step up_ (hand refl)) wake) (sigwait refl)) (run refl) in
    step (step (step (step (step given call) end) tell) (hear_end refl)) recycle

offload_safe_example :
    (free ≡ free
      → (sleeping ≡ sleeping)
        × (rested.called ≡ rested.handed)
        × (rested.to_worker + rested.to_main ≡ 0))
    × (sleeping ≡ working → (free ≡ waiting) × (suc rested.called ≡ rested.handed))
    × (sleeping ≢ exited)
offload_safe_example = offload_safe rested-Reached

offload_ends_example :
    Next rested free sleeping
    × ((o' : Offload) (m' : Main) (w' : Worker)
        → Move rested free sleeping o' m' w'
        → free ≢ free
        → rank o' m' w' < rank rested free sleeping)
    × (free ≡ handing → rank rested free sleeping ≡ 8)
    × (rank rested free sleeping ≡ 0 → free ≡ free)
offload_ends_example = offload_ends rested free sleeping rested-Reached

-- `_` is the object of the number 7.
abbrev seven : State
seven = record empty { cell = λ p. some (record blank_obj { i = pos 7; is_int = true }); next = 1 }

exit_status-seven : exit_status 5 exit seven ≡ done (pos 7) seven
unfolding exit_status
exit_status-seven = refl

b6b_join-alone_example : b6b_join 5 three ≡ some []
b6b_join-alone_example =
    b6b_join-alone three.fg 5 0 three.after refl ((refl, refl), ((refl, refl), tt))
      (refl, (refl, tt)) (omega arith)
