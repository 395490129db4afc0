-- ===== src/Thread/Fair.antt =====
-- b6b_yield in src/b6b_interp.c: how many switches a thread waits for its turn.
use b6b.Base.{
  ℕ, suc, ◌+◌, ◌≤◌, ◌<◌, ◌≡◌, refl, sym, ap, ◌∙◌, ◌⊎◌, inl, inr, Bool, true, false, Option, none,
  some, List, [], ◌∷◌, ◌++◌, append_assoc, arith, Bool-cases, length,
}
use mathlib.Core.Path.{subst}
use b6b.Thread.{
  Thread, Sched, pending, Found, skip, scan, stopped, resumed, alive, wait, switched, swap_before,
  swap_after, yield, finish, start,
}

-- The thread stands somewhere in the list, and `d` threads are asked before it: those behind the
-- one that runs, and then those in front of it.
pub data At (u : Thread) (s : Sched) : ℕ → Type 0 where
  behind : (p q : List Thread) → s.after ≡ p ++ u ∷ q → At u s (length p)
  ahead : (p q : List Thread) → s.before ≡ p ++ u ∷ q → At u s (length s.after + length p)

-- What is found in a list where `u` is pending: `u`, or a thread in front of it.
data Hit (u : Thread) (p q : List Thread) : Option Found → Type 0 where
  it : Hit u p q (some (record { skipped = p; thread = u; rest = q }))
  sooner :
      (a : List Thread) (t : Thread) (m : List Thread)
      → length m < length p
      → Hit u p q (some (record { skipped = a; thread = t; rest = m ++ u ∷ q }))

Hit-skip :
    (u x : Thread) (p q : List Thread) (r : Option Found) → Hit u p q r → Hit u (x ∷ p) q (skip x r)
Hit-skip u x p q r it = it
Hit-skip u x p q r (sooner a t m h) = sooner (x ∷ a) t m (omega arith)

scan-Hit : (u : Thread) (p q : List Thread) → pending u ≡ true → Hit u p q (scan (p ++ u ∷ q))
unfolding scan
scan-Hit u [] q h = rw h it
scan-Hit u (x ∷ p) q h = elim (Bool-cases (pending x)) [
  | inl y ↦ rw y (sooner [] x p (omega arith))
  | inr n ↦ rw n (Hit-skip u x p q _ (scan-Hit u p q h))
]

alive-append : (xs ys : List Thread) → alive (xs ++ ys) ≡ alive xs ++ alive ys
unfolding alive
alive-append [] ys = refl
alive-append (x ∷ xs) ys = elim (Bool-cases x.done) [
  | inl y ↦ rw (y, alive-append xs ys) refl
  | inr n ↦ rw (n, alive-append xs ys) refl
]

length-alive : (xs : List Thread) → length (alive xs) ≤ length xs
unfolding alive
length-alive [] = omega arith
length-alive (x ∷ xs) = ground (arith, length-alive xs)

alive-split :
    (u : Thread) (p q : List Thread) → u.done ≡ false → alive (p ++ u ∷ q) ≡ alive p ++ u ∷ alive q
unfolding alive
alive-split u p q h = alive-append p (u ∷ q) ∙ rw h refl

-- What is said of a thread that waits: it runs, or it stands no further than `d`.
abbrev pub Turn : Thread → ℕ → Option (Bool × Sched) → Type 0
Turn u d none = ⊥
Turn u d (some (switch, s)) =
    (switch ≡ true) × ((s.fg ≡ resumed u) ⊎ ((d' : ℕ) × (d' < d) × At u s d'))

wait-At :
    (u : Thread) (s : Sched) (d : ℕ)
    → u.done ≡ false
    → At u s d
    → (d' : ℕ) × (d' ≤ d) × At u (record s { before = alive s.before; after = alive s.after }) d'
wait-At u s d h (behind p q e) = (
  length (alive p),
  length-alive p,
  behind (alive p) (alive q) (ap alive e ∙ alive-split u p q h),
)
wait-At u s d h (ahead p q e) = (
  length (alive s.after) + length (alive p),
  omega (arith, length-alive s.after, length-alive p),
  ahead (alive p) (alive q) (ap alive e ∙ alive-split u p q h),
)

-- Behind the switch to a thread that is not done.
switched-Turn :
    (u : Thread) (s : Sched) (d : ℕ)
    → u.done ≡ false
    → s.fg.done ≡ false
    → (s.fg ≡ resumed u) ⊎ ((d' : ℕ) × (d' < d) × At u s d')
    → Turn u d (switched s)
unfolding wait
switched-Turn u s d h hf (inl e) = elim (Bool-cases s.fg.saved) [
  | inl y ↦ simp (y, hf) (refl, inl e)
  | inr n ↦ simp n (refl, inl e)
]
switched-Turn u s d h hf (inr (d', less, a)) = elim (Bool-cases s.fg.saved) [
  | inl y ↦ let (d'', le, b) = wait-At u s d' h a in simp (y, hf) (refl, inr (d'', omega arith, b))
  | inr n ↦ simp n (refl, inr (d', less, a))
]

not_done : (u : Thread) → pending u ≡ true → u.done ≡ false
not_done u h = ground arith

-- What is found is not done, and stands in the list.
abbrev IsFound : List Thread → Option Found → Type 0
IsFound ts none = Unit
IsFound ts (some f) = (f.thread.done ≡ false) × (length f.rest < length ts)

skip-IsFound :
    (t : Thread) (ts : List Thread) (r : Option Found) → IsFound ts r → IsFound (t ∷ ts) (skip t r)
skip-IsFound t ts none h = tt
skip-IsFound t ts (some f) (h, l) = (h, omega arith)

scan-IsFound : (ts : List Thread) → IsFound ts (scan ts)
unfolding scan
scan-IsFound [] = tt
scan-IsFound (t ∷ ts) = elim (Bool-cases (pending t)) [
  | inl y ↦ simp y (not_done t y, omega arith)
  | inr n ↦ simp n (skip-IsFound t ts (scan ts) (scan-IsFound ts))
]

swap_before-Turn :
    (u : Thread) (s : Sched) (p q : List Thread) (r : Option Found)
    → u.done ≡ false
    → Hit u p q r
    → IsFound s.before r
    → Turn u (length s.after + length p) (swap_before s r)
swap_before-Turn u s p q _ h it hr = switched-Turn u _ _ h h (inl refl)
swap_before-Turn u s p q _ h (sooner a t m less) (hr, _) =
    switched-Turn u _ _ h hr (
      inr
        (length m, omega arith, behind m (q ++ stopped s.fg ∷ s.after) (append_assoc m (u ∷ q) _)))

swap_after-behind :
    (u : Thread) (s : Sched) (p q : List Thread) (r : Option Found)
    → u.done ≡ false
    → Hit u p q r
    → IsFound s.after r
    → Turn u (length p) (swap_after s r)
swap_after-behind u s p q _ h it hr = switched-Turn u _ _ h h (inl refl)
swap_after-behind u s p q _ h (sooner a t m less) (hr, _) =
    switched-Turn u _ _ h hr (inr (length m, less, behind m q refl))

swap_after-ahead :
    (u : Thread) (s : Sched) (p q : List Thread) (r : Option Found)
    → pending u ≡ true
    → s.before ≡ p ++ u ∷ q
    → IsFound s.after r
    → Turn u (length s.after + length p) (swap_after s r)
swap_after-ahead u s p q none h e hr =
    swap_before-Turn u s p q (scan s.before) (not_done u h)
      (subst (λ ts. Hit u p q (scan ts)) (sym e) (scan-Hit u p q h)) (scan-IsFound s.before)
swap_after-ahead u s p q (some f) h e (hr, less) = switched-Turn u _ _ (not_done u h) hr (
    inr (
      length f.rest + length p,
      omega arith,
      ahead p (q ++ stopped s.fg ∷ f.skipped)
          (ap (λ x. x ++ stopped s.fg ∷ f.skipped) e ∙ append_assoc p (u ∷ q) _),
    ))

-- One switch: a thread that is pending runs, or one that was to be asked before it does.
yield-Turn : (u : Thread) (s : Sched) (d : ℕ) → pending u ≡ true → At u s d → Turn u d (yield s)
unfolding yield
yield-Turn u s d h (behind p q e) =
    swap_after-behind u s p q (scan s.after) (not_done u h)
      (subst (λ ts. Hit u p q (scan ts)) (sym e) (scan-Hit u p q h)) (scan-IsFound s.after)
yield-Turn u s d h (ahead p q e) =
    swap_after-ahead u s p q (scan s.after) h e (scan-IsFound s.after)

-- What the running thread does up to the next switch: it starts a thread, or yields, or ends.
pub data Act : Type 0 where
  starts : Thread → Act
  yields : Act
  ends : Act

abbrev pub act : Act → Sched → Option (Bool × Sched)
act (starts t) s = some (false, start t s)
act yields s = yield s
act ends s = finish s

-- The thread gets to run behind one of the first switches of the list.
pub data Runs (u : Thread) : List Act → Sched → Type 0 where
  now : {as_ : List Act} {s : Sched} → s.fg ≡ resumed u → Runs u as_ s
  later :
      {a : Act} {as_ : List Act} {s s' : Sched} {switch : Bool}
      → act a s ≡ some (switch, s')
      → Runs u as_ s'
      → Runs u (a ∷ as_) s

-- How many switches are in the list, and how many threads are started.
abbrev pub switches : List Act → ℕ
switches [] = 0
switches (starts t ∷ xs) = switches xs
switches (yields ∷ xs) = suc (switches xs)
switches (ends ∷ xs) = suc (switches xs)

abbrev pub started : List Act → ℕ
started [] = 0
started (starts t ∷ xs) = suc (started xs)
started (yields ∷ xs) = started xs
started (ends ∷ xs) = started xs

start-At : (u t : Thread) (s : Sched) (d : ℕ) → At u s d → At u (start t s) (suc d)
start-At u t s _ (behind p q e) = behind (t ∷ p) q (ap (◌∷◌ t) e)
start-At u t s _ (ahead p q e) = subst (At u (start t s)) (omega arith) (ahead p q e)

-- A thread that ends is still where it was, until the next one goes on.
end-At :
    (u : Thread) (s : Sched) (d : ℕ)
    → At u s d
    → At u (record s { fg = record s.fg { done = true } }) d
end-At u s _ (behind p q e) = behind p q e
end-At u s _ (ahead p q e) = ahead p q e

after-Turn :
    (u : Thread) (s : Sched) (d : ℕ) (a : Act) (xs : List Act) (r : Option (Bool × Sched))
    → act a s ≡ r
    → Turn u d r
    → ((s' : Sched) (d' : ℕ) → d' < d → At u s' d' → Runs u xs s')
    → Runs u (a ∷ xs) s
after-Turn u s d a xs none e t h = absurd t
after-Turn u s d a xs (some (switch, s')) e (_, inl runs) h = later e (now runs)
after-Turn u s d a xs (some (switch, s')) e (_, inr (d', less, at)) h = later e (h s' d' less at)

-- A thread that is pending, with `d` threads to be asked before it, runs behind one of the next
-- `d + 1` switches and as many more as threads are started in between, whatever thread yields or
-- ends, and no switch faults before it does.
pub At-Runs :
    (xs : List Act) (u : Thread) (s : Sched) (d : ℕ)
    → pending u ≡ true
    → At u s d
    → d + started xs < switches xs
    → Runs u xs s
unfolding finish
At-Runs [] u s d h a less = absurd (omega arith)
At-Runs (starts t ∷ xs) u s d h a less =
    later refl (At-Runs xs u (start t s) (suc d) h (start-At u t s d a) (omega arith))
At-Runs (yields ∷ xs) u s d h a less =
    after-Turn u s d yields xs (yield s) refl (yield-Turn u s d h a)
      λ s' d' l b. At-Runs xs u s' d' h b (omega arith)
At-Runs (ends ∷ xs) u s d h a less =
    after-Turn u s d ends xs (finish s) refl (yield-Turn u _ d h (end-At u s d a))
      λ s' d' l b. At-Runs xs u s' d' h b (omega arith)
