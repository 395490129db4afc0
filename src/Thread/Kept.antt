-- ===== src/Thread/Kept.antt =====
-- b6b_yield in src/b6b_interp.c: what a switch does to the list of threads and to their flags.
use b6b.Base.{
  ℕ, ◌≡◌, refl, sym, ap, ◌∙◌, inl, inr, Bool, true, false, Option, none, some, List, [], ◌∷◌, ◌++◌,
  append_assoc, if◌then◌else◌, Bool-cases, All,
}
use b6b.Thread.{
  Thread, Sched, pending, Found, skip, scan, stopped, resumed, alive, wait, switched, swap_before,
  swap_after, yield, start,
}

-- The threads that are not done, in the list's order.
pub living : List Thread → List ℕ
living [] = []
living (t ∷ ts) = let rest = living ts in if t.done then rest else t.id ∷ rest

abbrev pub all_living : Sched → List ℕ
all_living s = living (s.before ++ s.fg ∷ s.after)

-- The flags of a thread that does not run.
abbrev pub Waits : Thread → Type 0
Waits t = (t.bg ≡ true) × (t.fg ≡ false)

-- One thread runs, the one that `fg` points to.
pub record IsSound (s : Sched) : Type 0 where
  pub runs : (s.fg.fg ≡ true) × (s.fg.bg ≡ false)
  pub before_waits : All Waits s.before
  pub after_waits : All Waits s.after

living-append : (xs ys : List Thread) → living (xs ++ ys) ≡ living xs ++ living ys
unfolding living
living-append [] ys = refl
living-append (x ∷ xs) ys = elim (Bool-cases x.done) [
  | inl y ↦ simp (y, living-append xs ys) refl
  | inr n ↦ simp (n, living-append xs ys) refl
]

living-alive : (xs : List Thread) → living (alive xs) ≡ living xs
unfolding living alive
living-alive [] = refl
living-alive (x ∷ xs) = elim (Bool-cases x.done) [
  | inl y ↦ simp (y, living-alive xs) refl
  | inr n ↦ simp (n, living-alive xs) refl
]

-- The list around one thread.
around :
    (xs ys : List Thread) (t : Thread)
    → living (xs ++ t ∷ ys) ≡ living xs ++ (living (t ∷ []) ++ living ys)
around xs ys t = living-append xs (t ∷ ys) ∙ ap (λ l. living xs ++ l) (living-append (t ∷ []) ys)

All-append {ℓ κ} :
    {A : Type ℓ} (P : A → Type κ) (xs ys : List A) → All P xs → All P ys → All P (xs ++ ys)
All-append P [] ys h k = k
All-append P (x ∷ xs) ys (h, hs) k = (h, All-append P xs ys hs k)

All-alive : (xs : List Thread) → All Waits xs → All Waits (alive xs)
unfolding alive
All-alive [] h = tt
All-alive (x ∷ xs) (h, hs) = elim (Bool-cases x.done) [
  | inl y ↦ simp y (All-alive xs hs)
  | inr n ↦ simp n (h, All-alive xs hs)
]

-- Where a scan finds a thread, and what the flags around it are.
abbrev Splits : List Thread → Option Found → Type 0
Splits ts none = Unit
Splits ts (some f) =
    (ts ≡ f.skipped ++ f.thread ∷ f.rest)
    × (All Waits ts → All Waits f.skipped × Waits f.thread × All Waits f.rest)

skip-Splits :
    (t : Thread) (ts : List Thread) (r : Option Found) → Splits ts r → Splits (t ∷ ts) (skip t r)
skip-Splits t ts none h = tt
skip-Splits t ts (some f) (e, h) = (ap (◌∷◌ t) e, λ (w, ws). let (a, b, c) = h ws in ((w, a), b, c))

scan-Splits : (ts : List Thread) → Splits ts (scan ts)
unfolding scan
scan-Splits [] = tt
scan-Splits (t ∷ ts) = elim (Bool-cases (pending t)) [
  | inl y ↦ simp y (refl, λ (w, ws). (tt, w, ws))
  | inr n ↦ simp n (skip-Splits t ts (scan ts) (scan-Splits ts))
]

-- The same threads live, and one runs.
abbrev pub Same : Sched → Option (Bool × Sched) → Type 0
Same s none = Unit
Same s (some (switch, s')) = (all_living s' ≡ all_living s) × IsSound s'

-- Threads that differ in other flags than `done`, and what stands around them.
cons-stopped :
    (t : Thread) (xs ys : List Thread)
    → living xs ≡ living ys
    → living (stopped t ∷ xs) ≡ living (t ∷ ys)
unfolding living
cons-stopped t xs ys e = ap (λ l. if t.done then l else t.id ∷ l) e

cons-resumed :
    (t : Thread) (xs ys : List Thread)
    → living xs ≡ living ys
    → living (resumed t ∷ xs) ≡ living (t ∷ ys)
unfolding living
cons-resumed t xs ys e = ap (λ l. if t.done then l else t.id ∷ l) e

behind : (zs xs ys : List Thread) → living xs ≡ living ys → living (zs ++ xs) ≡ living (zs ++ ys)
behind zs xs ys e = living-append zs xs ∙ ap (λ l. living zs ++ l) e ∙ sym (living-append zs ys)

wait-Same :
    (s0 s : Sched) (switch : Bool)
    → all_living s ≡ all_living s0
    → IsSound s
    → Same s0 (elim (wait s) as (λ x. Option (Bool × Sched)) [
      | none ↦ none
      | some s' ↦ some (switch, s')
    ])
unfolding wait
wait-Same s0 s switch e h = elim (Bool-cases s.fg.done) [
  | inl y ↦ simp y tt
  | inr n ↦ simp n (
    around (alive s.before) (alive s.after) s.fg
        ∙ ap (λ l. l ++ (living (s.fg ∷ []) ++ living (alive s.after))) (living-alive s.before)
        ∙ ap (λ l. living s.before ++ (living (s.fg ∷ []) ++ l)) (living-alive s.after)
        ∙ sym (around s.before s.after s.fg)
        ∙ e,
    record {
      runs = h.runs;
      before_waits = All-alive s.before h.before_waits;
      after_waits = All-alive s.after h.after_waits;
    },
  )
]

switched-Same : (s0 s : Sched) → all_living s ≡ all_living s0 → IsSound s → Same s0 (switched s)
switched-Same s0 s e h = elim (Bool-cases s.fg.saved) [
  | inl y ↦ simp y (wait-Same s0 s true e h)
  | inr n ↦ simp n (e, h)
]

swap_before-Same :
    (s : Sched) (r : Option Found) → IsSound s → Splits s.before r → Same s (swap_before s r)
swap_before-Same s none h p = wait-Same s s false refl h
swap_before-Same s (some f) h (e, w) =
    let (ws, wt, wr) = w h.before_waits in
    switched-Same s _
      (behind f.skipped _ _
          (cons-resumed f.thread _ _ (behind f.rest _ _ (cons-stopped s.fg s.after s.after refl)))
        ∙ ap living (sym (append_assoc f.skipped (f.thread ∷ f.rest) (s.fg ∷ s.after)))
        ∙ ap (λ l. living (l ++ s.fg ∷ s.after)) (sym e))
      (record {
        runs = (refl, refl);
        before_waits = ws;
        after_waits =
            All-append Waits f.rest (stopped s.fg ∷ s.after) wr ((refl, refl), h.after_waits);
      })

swap_after-Same :
    (s : Sched) (r : Option Found) → IsSound s → Splits s.after r → Same s (swap_after s r)
swap_after-Same s none h p = swap_before-Same s (scan s.before) h (scan-Splits s.before)
swap_after-Same s (some f) h (e, w) =
    let (ws, wt, wr) = w h.after_waits in
    switched-Same s _
      (ap living (append_assoc s.before (stopped s.fg ∷ f.skipped) (resumed f.thread ∷ f.rest))
        ∙ behind s.before _ _ (
            cons-stopped s.fg _ _ (behind f.skipped _ _ (cons-resumed f.thread f.rest f.rest refl)))
        ∙ ap (λ l. living (s.before ++ s.fg ∷ l)) (sym e))
      (record {
        runs = (refl, refl);
        before_waits =
            All-append Waits s.before (stopped s.fg ∷ f.skipped) h.before_waits ((refl, refl), ws);
        after_waits = wr;
      })

-- A switch keeps the threads that are not done, each once and in their order, and behind it again
-- just the thread that `fg` points to is marked as running.
pub yield-Same : (s : Sched) → IsSound s → Same s (yield s)
unfolding yield
yield-Same s h = swap_after-Same s (scan s.after) h (scan-Splits s.after)

-- A thread that starts runs next, and behind a full quantum of statements the thread is switched.
pub start-next :
    (s : Sched) (t : Thread)
    → pending t ≡ true
    → t.saved ≡ false
    → yield (start t s)
      ≡ some (
        true,
        record {
          before = s.before ++ stopped s.fg ∷ [];
          fg = resumed t;
          after = s.after;
          qstep = 0;
        },
      )
unfolding yield scan
start-next s t h hs = simp (h, hs) refl
