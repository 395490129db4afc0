-- ===== src/Thread/Join/Alone.antt =====
-- src/b6b_interp.c: how the loop of b6b_join ends.
use b6b.Base.{
  ℕ, zero, suc, ◌+◌, ◌<◌, ◌≡◌, refl, ap, ◌∙◌, inl, inr, arith, Bool, true, false, Option, none,
  some, List, [], ◌∷◌, ◌==◌, Bool-cases, All, length,
}
use mathlib.Core.Path.{subst}
use b6b.Thread.{
  Thread, Sched, Found, scan, stopped, resumed, alive, wait, switched, swap_after, yield,
}
use b6b.Thread.Kept.{Waits}
use b6b.Thread.Join.{others_end, or_again, joined, join_loop, left_of, b6b_join}
use b6b.Thread.Join.Scan.{
  Ended, Scanned, nothing, something, scan-Scanned, alive-Ended, All-split, alive-All, alive-length,
  split-length,
}
use b6b.Thread.Join.Chain.{
  Sleeps, IsOther, chain, home_sched, switched-chain, switched-new, others-end,
}

stopped-Sleeps : (m : Thread) → m.done ≡ false → Sleeps (stopped m)
stopped-Sleeps m d = record { awaits = ground (arith, d); lives = d; was_saved = refl }

home-joins :
    (m : Thread) (n : ℕ)
    → m.done ≡ false
    → 0 < n
    → join_loop m.id n (home_sched (stopped m)) ≡ some (home_sched (stopped m))
unfolding join_loop yield scan wait alive
home-joins m zero d l = absurd (omega arith)
home-joins m (suc n) d l = simp d refl

-- The loop goes on where the main thread is alone.
then-home :
    (m : Thread) (n : ℕ) (s : Sched)
    → m.done ≡ false
    → 0 < n
    → others_end m.id n s ≡ some (home_sched (stopped m))
    → left_of (joined (others_end m.id n) (join_loop m.id n) (some (true, s))) ≡ some []
then-home m n s d l e =
    ap (λ o. left_of (or_again (join_loop m.id n) o)) e ∙ ap left_of (home-joins m n d l)

-- Where the main thread found one that ends.
found-joins :
    (m : Thread) (n : ℕ) (f : Found)
    → m.done ≡ false
    → All Ended f.skipped
    → f.thread.done ≡ false
    → (f.thread.id == m.id) ≡ false
    → All Waits f.rest
    → All (IsOther m.id) f.rest
    → length f.rest + 1 < n
    → left_of (
        joined
          (others_end m.id n)
          (join_loop m.id n)
          (switched (chain (stopped m) f.skipped (resumed f.thread) f.rest 0)))
      ≡ some []
found-joins m n f d g e o ws os l =
    let sl = stopped-Sleeps m d in
    let after : Option (Bool × Sched) → Option (List Thread) =
      λ r. left_of (joined (others_end m.id n) (join_loop m.id n) r) in
    elim (Bool-cases f.thread.saved) [
      | inl y ↦
          let ended =
            others-end (stopped m) sl n [] (resumed f.thread) (alive f.rest) 0 tt o
              (alive-All Waits f.rest ws) (alive-All (IsOther m.id) f.rest os)
              (omega (arith, l, alive-length f.rest)) in
          ap after (switched-chain (stopped m) sl f.skipped f.rest f.thread y e g)
          ∙ then-home m n _ d (omega (arith, l)) ended
      | inr u ↦
          let ended =
            others-end (stopped m) sl n f.skipped (resumed f.thread) f.rest 0 g o ws os l in
          ap after (switched-new (stopped m) sl f.skipped f.rest f.thread u)
          ∙ then-home m n _ d (omega (arith, l)) ended
    ]

wait-alone :
    (m : Thread) (q : ℕ) (ts : List Thread)
    → m.done ≡ false
    → All Ended ts
    → wait (record { before = []; fg = m; after = ts; qstep = q })
      ≡ some (record { before = []; fg = m; after = []; qstep = q })
unfolding wait alive
wait-alone m q ts d g = simp (d, alive-Ended ts g) refl

swap_after-joins :
    (m : Thread) (n q : ℕ) (ts : List Thread) (r : Option Found)
    → m.done ≡ false
    → Scanned ts r
    → All Waits ts
    → All (IsOther m.id) ts
    → length ts < n
    → left_of (
        joined
          (others_end m.id n)
          (join_loop m.id n)
          (swap_after (record { before = []; fg = m; after = ts; qstep = q }) r))
      ≡ some []
unfolding scan
swap_after-joins m n q ts _ d (nothing g) ws os l =
    ap
      (λ o. left_of (
        joined (others_end m.id n) (join_loop m.id n)
          (elim o as (λ x. Option (Bool × Sched)) [ none ↦ none | some s' ↦ some (false, s') ])))
      (wait-alone m q ts d g)
swap_after-joins m n q ts _ d (something f p g e) ws os l =
    let (a, (b, ws')) = All-split Waits f.skipped (f.thread ∷ f.rest) (subst (All Waits) p ws) in
    let (c, (o, os')) =
      All-split (IsOther m.id) f.skipped (f.thread ∷ f.rest) (subst (All (IsOther m.id)) p os) in
    found-joins m n f d g e o ws' os'
      (omega (arith, l, ap length p, split-length f.skipped f.rest f.thread))

-- The main thread, which is first in the list and not done, waits for the others, which have other
-- numbers and of which none is marked as running; where each of them ends when it runs next,
-- b6b_join ends as well, and no thread is left.
pub b6b_join-alone :
    (m : Thread) (n q : ℕ) (ts : List Thread)
    → m.done ≡ false
    → All Waits ts
    → All (λ t. (t.id == m.id) ≡ false) ts
    → length ts + 1 < n
    → b6b_join n (record { before = []; fg = m; after = ts; qstep = q }) ≡ some []
unfolding b6b_join join_loop yield
b6b_join-alone m zero q ts d ws os l = absurd (omega arith)
b6b_join-alone m (suc n) q ts d ws os l =
    swap_after-joins m n q ts (scan ts) d (scan-Scanned ts ws) ws os (omega (arith, l))
