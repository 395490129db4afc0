-- ===== src/Thread/Await/Switch.antt =====
-- b6b_yield in src/b6b_interp.c, of a thread that is not done: how it ends.
use b6b.Base.{
  ◌≡◌, refl, inl, inr, arith, Bool, true, false, Option, none, some, List, [], ◌∷◌, Bool-cases,
}
use b6b.Thread.{
  Thread, Sched, pending, Found, skip, scan, alive, wait, switched, swap_before, swap_after, yield,
}

-- What is found waits, so it is not done.
IsLive : Option Found → Type 0
IsLive none = Unit
IsLive (some f) = f.thread.done ≡ false

skip-IsLive : (t : Thread) (r : Option Found) → IsLive r → IsLive (skip t r)
unfolding IsLive
skip-IsLive t none h = tt
skip-IsLive t (some f) h = h

pending-live : (t : Thread) → pending t ≡ true → t.done ≡ false
pending-live t h = ground (arith, h)

scan-IsLive : (ts : List Thread) → IsLive (scan ts)
unfolding scan IsLive
scan-IsLive [] = tt
scan-IsLive (t ∷ ts) = elim (Bool-cases (pending t)) [
  | inl y ↦ simp y (pending-live t y)
  | inr n ↦ simp n (skip-IsLive t (scan ts) (scan-IsLive ts))
]

-- A yield of a thread that is not done ends, with another thread or where it was.
pub data Yielded (s : Sched) : Option (Bool × Sched) → Type 0 where
  alone : (s' : Sched) → s'.fg ≡ s.fg → Yielded s (some (false, s'))
  elsewhere : (s' : Sched) → Yielded s (some (true, s'))

switched-Yielded : (s s' : Sched) → s'.fg.done ≡ false → Yielded s (switched s')
unfolding wait
switched-Yielded s s' h = elim (Bool-cases s'.fg.saved) [
  | inl y ↦ simp (y, h) (elsewhere _)
  | inr n ↦ simp n (elsewhere s')
]

wait-running :
    (s : Sched)
    → s.fg.done ≡ false
    → wait s ≡ some (record s { before = alive s.before; after = alive s.after })
unfolding wait
wait-running s d = simp d refl

stays-Yielded :
    (s : Sched) (o : Option Sched) (s' : Sched)
    → o ≡ some s'
    → s'.fg ≡ s.fg
    → Yielded s (elim o [ none ↦ none | some s' ↦ some (false, s') ])
stays-Yielded s none s' e h = absurd (cc)
stays-Yielded s (some t) s' e h = alone t (ground (arith, e, h))

swap_before-Yielded :
    (s : Sched) (r : Option Found) → IsLive r → s.fg.done ≡ false → Yielded s (swap_before s r)
unfolding IsLive
swap_before-Yielded s none h d = stays-Yielded s (wait s) _ (wait-running s d) refl
swap_before-Yielded s (some f) h d = switched-Yielded s _ h

swap_after-Yielded :
    (s : Sched) (r : Option Found) → IsLive r → s.fg.done ≡ false → Yielded s (swap_after s r)
unfolding IsLive
swap_after-Yielded s none h d = swap_before-Yielded s (scan s.before) (scan-IsLive s.before) d
swap_after-Yielded s (some f) h d = switched-Yielded s _ h

pub yield-Yielded : (s : Sched) → s.fg.done ≡ false → Yielded s (yield s)
unfolding yield
yield-Yielded s d = swap_after-Yielded s (scan s.after) (scan-IsLive s.after) d
