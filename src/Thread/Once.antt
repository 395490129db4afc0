-- ===== src/Thread/Once.antt =====
-- src/b6b_offload.c: the invariant of the two threads, and what follows from it.
use b6b.Base.{ℕ, suc, ◌+◌, ◌*◌, ◌<◌, ◌≡◌, ◌≢◌, refl, arith}
use b6b.Thread.Offload.{
  OffloadState, init, up, idle, running, finished, Offload, Main, starting, up_seen, free, handing,
  waiting, woken, Worker, booting, announcing, sleeping, testing, working, storing, telling, exited,
  Move, boot, announce, hear_up, hear_early, ready, hand, wake, sigwait, run, leave, call, end,
  tell, hear_end, recycle, Reached, begin, step,
}

-- What the two share, and how many functions were handed over and not called yet.
abbrev pub At : Offload → OffloadState → ℕ → ℕ → ℕ → Type 0
At o s to_worker to_main left =
    (o.state ≡ s) × (o.to_worker ≡ to_worker) × (o.to_main ≡ to_main) × (o.handed ≡ o.called + left)

-- Where the two can stand, and what holds there.
data Inv (o : Offload) : Main → Worker → Type 0 where
  not_up : At o init 0 0 0 → Inv o starting booting
  is_up : At o up 0 0 0 → Inv o starting announcing
  told_up : At o up 0 1 0 → Inv o starting sleeping
  heard_up : At o up 0 0 0 → Inv o up_seen sleeping
  at_rest : At o idle 0 0 0 → Inv o free sleeping
  given : At o running 0 0 1 → Inv o handing sleeping
  asked : At o running 1 0 1 → Inv o waiting sleeping
  tests : At o running 0 0 1 → Inv o waiting testing
  works : At o running 0 0 1 → Inv o waiting working
  stores : At o running 0 0 0 → Inv o waiting storing
  tells : At o finished 0 0 0 → Inv o waiting telling
  told_end : At o finished 0 1 0 → Inv o waiting sleeping
  heard_end : At o finished 0 0 0 → Inv o woken sleeping

Move-Inv :
    (o o' : Offload) (m m' : Main) (w w' : Worker) → Inv o m w → Move o m w o' m' w' → Inv o' m' w'
Move-Inv o _ _ _ _ _ (not_up h) boot = is_up (ground arith)
Move-Inv o _ _ _ _ _ (not_up h) (hear_up e g) = absurd (ground arith)
Move-Inv o _ _ _ _ _ (not_up h) (hear_early e g) = absurd (ground arith)
Move-Inv o _ _ _ _ _ (is_up h) announce = told_up (ground arith)
Move-Inv o _ _ _ _ _ (is_up h) (hear_up e g) = absurd (ground arith)
Move-Inv o _ _ _ _ _ (is_up h) (hear_early e g) = absurd (ground arith)
Move-Inv o _ _ _ _ _ (told_up h) (hear_up e g) = heard_up (ground arith)
Move-Inv o _ _ _ _ _ (told_up h) (hear_early e g) = absurd (ground arith)
Move-Inv o _ _ _ _ _ (told_up h) (sigwait e) = absurd (ground arith)
Move-Inv o _ _ _ _ _ (heard_up h) ready = at_rest (ground arith)
Move-Inv o _ _ _ _ _ (heard_up h) (sigwait e) = absurd (ground arith)
Move-Inv o _ _ _ _ _ (at_rest h) (hand e) = given (ground arith)
Move-Inv o _ _ _ _ _ (at_rest h) (sigwait e) = absurd (ground arith)
Move-Inv o _ _ _ _ _ (given h) wake = asked (ground arith)
Move-Inv o _ _ _ _ _ (given h) (sigwait e) = absurd (ground arith)
Move-Inv o _ _ _ _ _ (asked h) (sigwait e) = tests (ground arith)
Move-Inv o _ _ _ _ _ (asked h) (hear_end e) = absurd (ground arith)
Move-Inv o _ _ _ _ _ (tests h) (run e) = works (ground arith)
Move-Inv o _ _ _ _ _ (tests h) (leave e) = absurd (ground arith)
Move-Inv o _ _ _ _ _ (tests h) (hear_end e) = absurd (ground arith)
Move-Inv o _ _ _ _ _ (works h) call = stores (ground arith)
Move-Inv o _ _ _ _ _ (works h) (hear_end e) = absurd (ground arith)
Move-Inv o _ _ _ _ _ (stores h) end = tells (ground arith)
Move-Inv o _ _ _ _ _ (stores h) (hear_end e) = absurd (ground arith)
Move-Inv o _ _ _ _ _ (tells h) tell = told_end (ground arith)
Move-Inv o _ _ _ _ _ (tells h) (hear_end e) = absurd (ground arith)
Move-Inv o _ _ _ _ _ (told_end h) (hear_end e) = heard_end (ground arith)
Move-Inv o _ _ _ _ _ (told_end h) (sigwait e) = absurd (ground arith)
Move-Inv o _ _ _ _ _ (heard_end h) recycle = at_rest (ground arith)
Move-Inv o _ _ _ _ _ (heard_end h) (sigwait e) = absurd (ground arith)

Reached-Inv : {o : Offload} {m : Main} {w : Worker} → Reached o m w → Inv o m w
Reached-Inv begin = not_up (refl, refl, refl, refl)
Reached-Inv (step r mv) = Move-Inv _ _ _ _ _ _ (Reached-Inv r) mv

-- How far the two are from the end of what was begun.
abbrev pub rank : Offload → Main → Worker → ℕ
rank o starting booting = 14
rank o starting announcing = 13
rank o starting w = 12
rank o up_seen w = 11
rank o free w = 0
rank o handing w = 8
rank o waiting testing = 6
rank o waiting working = 5
rank o waiting storing = 4
rank o waiting telling = 3
rank o waiting w = 2 + 5 * o.to_worker
rank o woken w = 1

Move-rank :
    (o o' : Offload) (m m' : Main) (w w' : Worker)
    → Inv o m w
    → Move o m w o' m' w'
    → m ≢ free
    → rank o' m' w' < rank o m w
Move-rank o _ _ _ _ _ (not_up h) boot n = ground arith
Move-rank o _ _ _ _ _ (not_up h) (hear_up e g) n = absurd (ground arith)
Move-rank o _ _ _ _ _ (not_up h) (hear_early e g) n = absurd (ground arith)
Move-rank o _ _ _ _ _ (is_up h) announce n = ground arith
Move-rank o _ _ _ _ _ (is_up h) (hear_up e g) n = absurd (ground arith)
Move-rank o _ _ _ _ _ (is_up h) (hear_early e g) n = absurd (ground arith)
Move-rank o _ _ _ _ _ (told_up h) (hear_up e g) n = ground arith
Move-rank o _ _ _ _ _ (told_up h) (hear_early e g) n = absurd (ground arith)
Move-rank o _ _ _ _ _ (told_up h) (sigwait e) n = absurd (ground arith)
Move-rank o _ _ _ _ _ (heard_up h) ready n = ground arith
Move-rank o _ _ _ _ _ (heard_up h) (sigwait e) n = absurd (ground arith)
Move-rank o _ _ _ _ _ (at_rest h) (hand e) n = absurd (n refl)
Move-rank o _ _ _ _ _ (at_rest h) (sigwait e) n = absurd (n refl)
Move-rank o _ _ _ _ _ (given h) wake n = ground arith
Move-rank o _ _ _ _ _ (given h) (sigwait e) n = absurd (ground arith)
Move-rank o _ _ _ _ _ (asked h) (sigwait e) n = ground arith
Move-rank o _ _ _ _ _ (asked h) (hear_end e) n = absurd (ground arith)
Move-rank o _ _ _ _ _ (tests h) (run e) n = ground arith
Move-rank o _ _ _ _ _ (tests h) (leave e) n = absurd (ground arith)
Move-rank o _ _ _ _ _ (tests h) (hear_end e) n = absurd (ground arith)
Move-rank o _ _ _ _ _ (works h) call n = ground arith
Move-rank o _ _ _ _ _ (works h) (hear_end e) n = absurd (ground arith)
Move-rank o _ _ _ _ _ (stores h) end n = ground arith
Move-rank o _ _ _ _ _ (stores h) (hear_end e) n = absurd (ground arith)
Move-rank o _ _ _ _ _ (tells h) tell n = ground arith
Move-rank o _ _ _ _ _ (tells h) (hear_end e) n = absurd (ground arith)
Move-rank o _ _ _ _ _ (told_end h) (hear_end e) n = ground arith
Move-rank o _ _ _ _ _ (told_end h) (sigwait e) n = absurd (ground arith)
Move-rank o _ _ _ _ _ (heard_end h) recycle n = ground arith
Move-rank o _ _ _ _ _ (heard_end h) (sigwait e) n = absurd (ground arith)

-- There is a move.
abbrev pub Next : Offload → Main → Worker → Type 0
Next o m w = (o' : Offload) × (m' : Main) × (w' : Worker) × Move o m w o' m' w'

Inv-Next : (o : Offload) (m : Main) (w : Worker) → Inv o m w → Next o m w
Inv-Next o _ _ (not_up h) = (_, _, _, boot)
Inv-Next o _ _ (is_up h) = (_, _, _, announce)
Inv-Next o _ _ (told_up (hs, _, hm, _)) = (_, _, _, hear_up hm hs)
Inv-Next o _ _ (heard_up h) = (_, _, _, ready)
Inv-Next o _ _ (at_rest (hs, _, _, _)) = (_, _, _, hand hs)
Inv-Next o _ _ (given h) = (_, _, _, wake)
Inv-Next o _ _ (asked (_, hw, _, _)) = (_, _, _, sigwait hw)
Inv-Next o _ _ (tests (hs, _, _, _)) = (_, _, _, run hs)
Inv-Next o _ _ (works h) = (_, _, _, call)
Inv-Next o _ _ (stores h) = (_, _, _, end)
Inv-Next o _ _ (tells h) = (_, _, _, tell)
Inv-Next o _ _ (told_end (_, _, hm, _)) = (_, _, _, hear_end hm)
Inv-Next o _ _ (heard_end h) = (_, _, _, recycle)

Inv-safe :
    (o : Offload) (m : Main) (w : Worker)
    → Inv o m w
    → (m ≡ free → (w ≡ sleeping) × (o.called ≡ o.handed) × (o.to_worker + o.to_main ≡ 0))
      × (w ≡ working → (m ≡ waiting) × (suc o.called ≡ o.handed))
      × (w ≢ exited)
Inv-safe o _ _ (not_up h) = ground arith
Inv-safe o _ _ (is_up h) = ground arith
Inv-safe o _ _ (told_up h) = ground arith
Inv-safe o _ _ (heard_up h) = ground arith
Inv-safe o _ _ (at_rest h) = ground arith
Inv-safe o _ _ (given h) = ground arith
Inv-safe o _ _ (asked h) = ground arith
Inv-safe o _ _ (tests h) = ground arith
Inv-safe o _ _ (works h) = ground arith
Inv-safe o _ _ (stores h) = ground arith
Inv-safe o _ _ (tells h) = ground arith
Inv-safe o _ _ (told_end h) = ground arith
Inv-safe o _ _ (heard_end h) = ground arith

handing_rank : (o : Offload) (m : Main) (w : Worker) → m ≡ handing → rank o m w ≡ 8
handing_rank o m w e = ground arith

rank_zero : (o : Offload) (m : Main) (w : Worker) → rank o m w ≡ 0 → m ≡ free
rank_zero o m w e = ground arith

-- Whatever the order of the moves: when the main thread is done with an offload, every function that
-- was handed over was called once, the worker sleeps and no signal is queued; a function is called
-- only while the main thread waits for just that one; and the worker never leaves its loop.
pub offload_safe :
    {o : Offload} {m : Main} {w : Worker}
    → Reached o m w
    → (m ≡ free → (w ≡ sleeping) × (o.called ≡ o.handed) × (o.to_worker + o.to_main ≡ 0))
      × (w ≡ working → (m ≡ waiting) × (suc o.called ≡ o.handed))
      × (w ≢ exited)
offload_safe r = Inv-safe _ _ _ (Reached-Inv r)

-- The two threads never block one another: there always is a move, and until the main thread is done
-- every move comes nearer to that, so an offload ends after at most eight moves.
pub offload_ends :
    (o : Offload) (m : Main) (w : Worker)
    → Reached o m w
    → Next o m w
      × ((o' : Offload) (m' : Main) (w' : Worker)
          → Move o m w o' m' w'
          → m ≢ free
          → rank o' m' w' < rank o m w)
      × (m ≡ handing → rank o m w ≡ 8)
      × (rank o m w ≡ 0 → m ≡ free)
offload_ends o m w r =
    let i = Reached-Inv r in
    (
      Inv-Next _ _ _ i,
      λ o' m' w' mv n. Move-rank _ o' _ m' _ w' i mv n,
      λ e. handing_rank o m w e,
      λ e. rank_zero o m w e,
    )
