-- ===== src/Thread/Await/Loops.antt =====
-- b6b_offload in src/b6b_interp.c: how its two loops end.
use b6b.Base.{
  ℕ, zero, suc, ◌<◌, ◌≡◌, refl, ap, ◌∙◌, inl, inr, arith, Bool, true, false, Option, none, some,
  List, [], ◌∷◌, ◌++◌, if◌then◌else◌, Bool-cases, length,
}
use b6b.Thread.{Thread, Sched, stopped, resumed, yield, threaded}
use b6b.Thread.Offload.{init, up, idle, running, finished, Offload}
use b6b.Thread.Await.Switch.{Yielded, alone, elsewhere, yield-Yielded}
use b6b.Thread.Await.{
  Offloads, Beside, pick_thread, poll_flags, is_done, come_back, pass, retried, or_retry,
  await_ready, repolled, await_done, change, handed_over, offload_ready, counted,
}

unfoldable pub is_running : ℕ → List Offload → Bool
is_running i [] = false
is_running zero (o ∷ os) = elim o.state as (λ x. Bool) [
  | init ↦ false
  | up ↦ false
  | idle ↦ false
  | running ↦ true
  | finished ↦ false
]
is_running (suc i) (o ∷ os) = is_running i os

-- The rest of the program: a yield goes on in the thread that called it; while the other threads
-- run, an offload thread becomes idle where none is, and one that runs a function runs it until it
-- is done. `left` and `undone` count the rounds that this takes, fewer than `most`.
pub record IsBeside (b : Beside) (left : List Offload → ℕ) (undone : ℕ → List Offload → ℕ)
    (most : ℕ) : Type 0 where
  pub comes_back : (t : Thread) (w : Offloads) → (b.others t w).sched.fg ≡ resumed t
  pub as_many : (t : Thread) (w : Offloads) → length (b.others t w).offths ≡ length w.offths
  pub nearer_ready :
      (t : Thread) (w : Offloads)
      → 0 < length w.offths
      → pick_thread w.offths ≡ none
      → left (b.others t w).offths < left w.offths
  pub nearer_done :
      (t : Thread) (w : Offloads) (i : ℕ)
      → is_running i w.offths ≡ true
      → is_done i (b.others t w).offths ≡ false
      → (is_running i (b.others t w).offths ≡ true)
        × (undone i (b.others t w).offths < undone i w.offths)
  pub only_waits : (i : ℕ) (w : Offloads) → (b.sigwait i w).1.sched ≡ w.sched
  pub few_left : (os : List Offload) → left os < most
  pub few_undone : (i : ℕ) (os : List Offload) → undone i os < most

-- The thread that runs is `me`, marked as blocked or not as `me` is.
abbrev pub Stays : Thread → Offloads → Type 0
Stays me w = (w.sched.fg.id ≡ me.id) × (w.sched.fg.done ≡ false) × (w.sched.fg.blocked ≡ me.blocked)

-- A result, with that thread running.
pub data Returned (me : Thread) {A : Type 0} : Option (A × Offloads) → Type 0 where
  got : (a : A) (w : Offloads) → Stays me w → Returned me (some (a, w))

-- An offload thread that is idle, or none, with that thread running.
pub data HasReady (me : Thread) : Option (Option ℕ × Offloads) → Type 0 where
  given_up : (w : Offloads) → Stays me w → HasReady me (some (none, w))
  found :
      (i : ℕ) (w : Offloads)
      → pick_thread w.offths ≡ some i
      → Stays me w
      → HasReady me (some (some i, w))

-- A yield that came back without a switch, or with one, behind which the others ran.
pub data Passed (me : Thread) (w : Offloads) (others : Thread → Offloads → Offloads)
    : Option (Bool × Offloads) → Type 0 where
  stayed : (w' : Offloads) → Stays me w' → Passed me w others (some (false, w'))
  resumes :
      (t : Thread) (w' : Offloads)
      → w'.offths ≡ w.offths
      → Stays me (others t w')
      → Passed me w others (some (true, others t w'))

picked-later :
    (here : Bool) (r : Option ℕ) (i : ℕ)
    → (if here then some 0 else counted r) ≡ some (suc i)
    → r ≡ some i
picked-later true r i p = ground (arith, p)
picked-later false none i p = absurd (cc)
picked-later false (some j) i p = ground (arith, p)

pub handed-running :
    (sent : Bool) (i : ℕ) (os : List Offload)
    → pick_thread os ≡ some i
    → is_running i (change (handed_over sent) i os) ≡ true
unfolding pick_thread is_running
handed-running sent i [] p = absurd (cc)
handed-running true zero (o ∷ os) p = refl
handed-running false zero (o ∷ os) p = refl
handed-running sent (suc i) (o ∷ os) p =
    handed-running sent i os (picked-later (offload_ready o.state) (pick_thread os) i p)

module _ (b : Beside) (left : List Offload → ℕ) (undone : ℕ → List Offload → ℕ) (most : ℕ)
    (h : IsBeside b left undone most) where
  come_back-Passed :
      (me : Thread) (w : Offloads) (r : Option (Bool × Sched))
      → Yielded w.sched r
      → Stays me w
      → Passed me w b.others (come_back b.others w r)
  come_back-Passed me w _ (alone s e) k = stayed (record w { sched = s }) (ground (arith, e, k))
  come_back-Passed me w _ (elsewhere s) k =
      let e = h.comes_back (stopped w.sched.fg) (record w { sched = s }) in
      resumes (stopped w.sched.fg) (record w { sched = s }) refl (ground (arith, e, k))

  pub pass-Passed : (me : Thread) (w : Offloads) → Stays me w → Passed me w b.others (pass b w)
  unfolding pass
  pass-Passed me w (e, d, f) =
      come_back-Passed me w (yield w.sched) (yield-Yielded w.sched d) (e, d, f)

  retried-HasReady :
      (me : Thread) (n : ℕ) (w : Offloads) (r : Option (Bool × Offloads))
      → Passed me w b.others r
      → 0 < length w.offths
      → pick_thread w.offths ≡ none
      → left w.offths < suc n
      → ((w' : Offloads)
          → 0 < length w'.offths
          → left w'.offths < n
          → Stays me w'
          → HasReady me (await_ready b n w'))
      → HasReady me (retried b (await_ready b n) r)
  retried-HasReady me n w _ (stayed w' k) m p l again = given_up w' k
  retried-HasReady me n w _ (resumes t w' e k) m p l again =
      let p' : pick_thread w'.offths ≡ none = ap pick_thread e ∙ p in
      let m' : 0 < length w'.offths = omega (arith, ap length e, m) in
      again (b.others t w') (omega (arith, h.as_many t w', m'))
        (omega (arith, h.nearer_ready t w' m' p', ap left e, l)) k

  or_retry-HasReady :
      (me : Thread) (n : ℕ) (w : Offloads) (r : Option ℕ)
      → pick_thread w.offths ≡ r
      → 0 < length w.offths
      → left w.offths < suc n
      → Stays me w
      → ((w' : Offloads)
          → 0 < length w'.offths
          → left w'.offths < n
          → Stays me w'
          → HasReady me (await_ready b n w'))
      → HasReady me (or_retry b r w (retried b (await_ready b n) (pass b w)))
  or_retry-HasReady me n w none p m l k again =
      retried-HasReady me n w (pass b w) (pass-Passed me w k) m p l again
  or_retry-HasReady me n w (some i) p m l k again = found i w p k

  pub await_ready-HasReady :
      (me : Thread) (n : ℕ) (w : Offloads)
      → 0 < length w.offths
      → left w.offths < n
      → Stays me w
      → HasReady me (await_ready b n w)
  unfolding await_ready
  await_ready-HasReady me zero w m l k = absurd (omega (arith, l))
  await_ready-HasReady me (suc n) w m l k =
      or_retry-HasReady me n w (pick_thread w.offths) refl m l k (await_ready-HasReady me n)

  repolled-Returned :
      (me : Thread) (n i : ℕ) (p : Bool) (w : Offloads) (r : Option (Bool × Offloads))
      → Passed me w b.others r
      → is_running i w.offths ≡ true
      → undone i w.offths < suc n
      → ((w' : Offloads)
          → is_running i w'.offths ≡ true
          → undone i w'.offths < n
          → Stays me w'
          → Returned me (await_done b n i p w'))
      → Returned me (repolled b i p (await_done b n i p) r)
  repolled-Returned me n i p w _ (stayed w' k) g l again = got p w' k
  repolled-Returned me n i p w _ (resumes t w' e k) g l again =
      elim (Bool-cases (is_done i (b.others t w').offths)) [
        | inl y ↦ simp y (got p (b.others t w') k)
        | inr m ↦
            let (g', l') = h.nearer_done t w' i (ap (is_running i) e ∙ g) m in
            simp m (again (b.others t w') g' (omega (arith, l', ap (undone i) e, l)) k)
      ]

  pub await_done-Returned :
      (me : Thread) (n i : ℕ) (p : Bool) (w : Offloads)
      → is_running i w.offths ≡ true
      → undone i w.offths < n
      → Stays me w
      → Returned me (await_done b n i p w)
  unfolding await_done
  await_done-Returned me zero i p w g l k = absurd (omega (arith, l))
  await_done-Returned me (suc n) i p w g l k =
      let flags = poll_flags (w.sched.before ++ w.sched.after) false false in
      elim (Bool-cases (threaded w.sched)) [
        | inr m ↦ simp m (got p w k)
        | inl y ↦ elim (Bool-cases flags.1) [
          | inr f ↦ simp (y, f) (got flags.0 w k)
          | inl f ↦
              simp (y, f)
                (repolled-Returned me n i flags.0 w (pass b w) (pass-Passed me w k) g l
                  (await_done-Returned me n i flags.0))
        ]
      ]
