-- ===== src/Thread/Join/Chain.antt =====
-- src/b6b_interp.c: the threads that run between two turns of the main thread
-- in b6b_join.
use b6b.Base.{
  ℕ, zero, suc, ◌+◌, ◌<◌, ◌≡◌, refl, ap, inl, inr, arith, true, false, Option, some, List, [], ◌∷◌,
  ◌++◌, ◌==◌, Bool-cases, All, length,
}
use mathlib.Core.Path.{subst}
use b6b.Thread.{
  Thread, Sched, pending, Found, scan, stopped, resumed, alive, wait, switched, swap_after, yield,
  finish,
}
use b6b.Thread.Kept.{Waits}
use b6b.Thread.Join.{further, others_end}
use b6b.Thread.Join.Scan.{
  Ended, Scanned, nothing, something, scan-Scanned, alive-Ended, All-split, All-join, alive-All,
  alive-length, split-length,
}

-- The main thread waits, and will go on behind its swapcontext.
pub record Sleeps (m : Thread) : Type 0 where
  pub awaits : pending m ≡ true
  pub lives : m.done ≡ false
  pub was_saved : m.saved ≡ true

abbrev pub IsOther : ℕ → Thread → Type 0
IsOther main t = (t.id == main) ≡ false

-- The list where another thread runs, with what is done between the main thread and it.
abbrev pub chain : Thread → List Thread → Thread → List Thread → ℕ → Sched
chain m ds t rest q = record { before = m ∷ ds; fg = t; after = rest; qstep = q }

-- Only the main thread is left.
abbrev pub home_sched : Thread → Sched
home_sched m = record { before = []; fg = resumed m; after = []; qstep = 0 }

module _ (m : Thread) (sl : Sleeps m) where
  switched-home :
      (xs : List Thread)
      → All Ended xs
      → switched (record { before = []; fg = resumed m; after = xs; qstep = 0 })
        ≡ some (true, home_sched m)
  unfolding wait alive
  switched-home xs h = simp (sl.was_saved, sl.lives, alive-Ended xs h) refl

  pub switched-chain :
      (ds rest : List Thread) (t : Thread)
      → t.saved ≡ true
      → t.done ≡ false
      → All Ended ds
      → switched (chain m ds (resumed t) rest 0)
        ≡ some (true, chain m [] (resumed t) (alive rest) 0)
  unfolding wait alive
  switched-chain ds rest t v d h = simp (v, d, sl.lives, alive-Ended ds h) refl

  pub switched-new :
      (ds rest : List Thread) (t : Thread)
      → t.saved ≡ false
      → switched (chain m ds (resumed t) rest 0) ≡ some (true, chain m ds (resumed t) rest 0)
  switched-new ds rest t v = simp v refl

  home-ends : (n : ℕ) → 0 < n → others_end m.id n (home_sched m) ≡ some (home_sched m)
  unfolding others_end
  home-ends zero l = absurd (omega arith)
  home-ends (suc n) l = ground arith

  -- From any other thread on.
  abbrev pub Ends : ℕ → Type 0
  Ends n =
      (ds : List Thread) (t : Thread) (rest : List Thread) (q : ℕ)
      → All Ended ds
      → (t.id == m.id) ≡ false
      → All Waits rest
      → All (IsOther m.id) rest
      → length rest + 1 < n
      → others_end m.id n (chain m ds t rest q) ≡ some (home_sched m)

  found-ends :
      (n : ℕ) (ds : List Thread) (f : Found)
      → All Ended ds
      → f.thread.done ≡ false
      → (f.thread.id == m.id) ≡ false
      → All Waits f.rest
      → All (IsOther m.id) f.rest
      → length f.rest + 1 < n
      → Ends n
      → further (others_end m.id n) (switched (chain m ds (resumed f.thread) f.rest 0))
        ≡ some (home_sched m)
  found-ends n ds f h d o ws os l again = elim (Bool-cases f.thread.saved) [
    | inl y ↦
        let l' = alive-length f.rest in
        rw (switched-chain ds f.rest f.thread y d h) (
          again [] (resumed f.thread) (alive f.rest) 0 tt o (alive-All Waits f.rest ws)
            (alive-All (IsOther m.id) f.rest os) (omega (arith, l, l')))
    | inr u ↦
        rw (switched-new ds f.rest f.thread u) (again ds (resumed f.thread) f.rest 0 h o ws os l)
  ]

  swap_after-ends :
      (n : ℕ) (ds : List Thread) (t : Thread) (rest : List Thread) (q : ℕ) (r : Option Found)
      → Scanned rest r
      → All Ended ds
      → Ended t
      → All Waits rest
      → All (IsOther m.id) rest
      → length rest < n
      → Ends n
      → further (others_end m.id n) (swap_after (chain m ds t rest q) r) ≡ some (home_sched m)
  unfolding scan
  swap_after-ends n ds t rest q _ (nothing g) h e ws os l again = simp sl.awaits (
      rw (switched-home (ds ++ stopped t ∷ rest) (All-join Ended ds (stopped t ∷ rest) h (e, g)))
        (home-ends n (omega (arith, l))))
  swap_after-ends n ds t rest q _ (something f p g d) h e ws os l again =
      let (a, (b, ws')) = All-split Waits f.skipped (f.thread ∷ f.rest) (subst (All Waits) p ws) in
      let (c, (o, os')) =
        All-split (IsOther m.id) f.skipped (f.thread ∷ f.rest) (subst (All (IsOther m.id)) p os) in
      found-ends n (ds ++ stopped t ∷ f.skipped) f
        (All-join Ended ds (stopped t ∷ f.skipped) h (e, g)) d o ws' os'
        (omega (arith, l, ap length p, split-length f.skipped f.rest f.thread)) again

  pub others-end : (n : ℕ) → Ends n
  unfolding others_end finish yield
  others-end zero ds t rest q h o ws os l = absurd (omega (arith, l))
  others-end (suc n) ds t rest q h o ws os l = simp o (
      swap_after-ends n ds (record t { done = true }) rest q (scan rest) (scan-Scanned rest ws) h
        refl ws os (omega (arith, l)) (others-end n))
