-- ===== src/Examples/Handed.antt =====
-- A function handed to an offload thread, at a concrete input.
use b6b.Base.{
  Option, if◌then◌else◌, ℕ, zero, suc, ◌<◌, ◌≡◌, refl, ap, Bool, true, false, none, some, List, [],
  ◌∷◌, arith, length,
}
use b6b.Thread.{thread_new, sched_new, start, resumed, threaded}
use b6b.Thread.Offload.{OffloadState, init, up, idle, running, finished, Offload, fresh}
use b6b.Thread.Await.{Offloads, Beside, pick_thread, counted, offload_ready, is_done, b6b_offload}
use b6b.Thread.Await.Loops.{is_running, IsBeside}
use b6b.Thread.Await.Total.{b6b_offload_lem}

-- In each round, what was begun comes one state state_after.
abbrev state_after : OffloadState → OffloadState
state_after init = idle
state_after up = idle
state_after idle = idle
state_after running = finished
state_after finished = idle

abbrev settled : List Offload → List Offload
settled [] = []
settled (o ∷ os) = record o { state = state_after o.state } ∷ settled os

abbrev left_state : OffloadState → ℕ
left_state init = 1
left_state up = 1
left_state idle = 0
left_state running = 2
left_state finished = 1

abbrev left_head : List Offload → ℕ
left_head [] = 0
left_head (o ∷ os) = left_state o.state

state_nearer :
    (s : OffloadState) (r : Option ℕ)
    → (if offload_ready s then some 0 else counted r) ≡ none
    → left_state (state_after s) < left_state s
state_nearer init r p = omega arith
state_nearer up r p = omega arith
state_nearer idle r p = absurd (cc)
state_nearer running r p = omega arith
state_nearer finished r p = omega arith

settled-nearer :
    (os : List Offload)
    → 0 < length os
    → pick_thread os ≡ none
    → left_head (settled os) < left_head os
unfolding pick_thread
settled-nearer [] m p = absurd (omega arith)
settled-nearer (o ∷ os) m p = state_nearer o.state (pick_thread os) p

settled-length : (os : List Offload) → length (settled os) ≡ length os
settled-length [] = refl
settled-length (o ∷ os) = ap suc (settled-length os)

state_ended :
    (o : Offload)
    → is_running 0 (o ∷ []) ≡ true
    → is_done 0 (record o { state = state_after o.state } ∷ []) ≡ true
unfolding is_running
state_ended o = by_state o.state
  where
    by_state :
        (s : OffloadState)
        → is_running 0 (record fresh { state = s } ∷ []) ≡ true
        → is_done 0 (record fresh { state = state_after s } ∷ []) ≡ true
    by_state init h = absurd (cc)
    by_state up h = absurd (cc)
    by_state idle h = absurd (cc)
    by_state running h = refl
    by_state finished h = absurd (cc)

settled-ended : (i : ℕ) (os : List Offload) → is_running i os ≡ true → is_done i (settled os) ≡ true
unfolding is_running
settled-ended i [] h = absurd (cc)
settled-ended zero (o ∷ os) h = state_ended o h
settled-ended (suc i) (o ∷ os) h = settled-ended i os h

left_state-few : (s : OffloadState) → left_state s < 3
left_state-few init = omega arith
left_state-few up = omega arith
left_state-few idle = omega arith
left_state-few running = omega arith
left_state-few finished = omega arith

left_head-few : (os : List Offload) → left_head os < 3
left_head-few [] = omega arith
left_head-few (o ∷ os) = left_state-few o.state

abbrev beside : Beside
beside = record {
  others = λ t w. record w {
    sched = record { before = []; fg = resumed t; after = thread_new 1 ∷ []; qstep = 0 };
    offths = settled w.offths;
  };
  kill = λ i w. true;
  sigwait = λ i w. (true, w);
}

beside-IsBeside : IsBeside beside left_head (λ i os. 0) 3
beside-IsBeside = record {
  comes_back = λ t w. refl;
  as_many = λ t w. settled-length w.offths;
  nearer_ready = λ t w m p. settled-nearer w.offths m p;
  nearer_done = λ t w i g d. absurd (ended_twice (settled-ended i w.offths g) d);
  only_waits = λ i w. refl;
  few_left = left_head-few;
  few_undone = λ i os. omega arith;
}
  where
    ended_twice : {b : Bool} → b ≡ true → b ≡ false → ⊥
    ended_twice h k = ground (arith, h, k)

-- The only offload thread ended what another thread gave it; two threads are there.
abbrev busy : Offloads
busy = record {
  sched = start (thread_new 1) (sched_new 0);
  offths = record fresh { state = finished; handed = 1; called = 1 } ∷ [];
  called = 0;
}

b6b_offload_lem_example :
    (ok : Bool) × (w' : Offloads) × (b6b_offload beside 3 busy ≡ some (ok, w'))
    × (w'.sched.fg.id ≡ 0)
    × (w'.sched.fg.blocked ≡ false)
    × (threaded busy.sched ≡ false → (ok ≡ true) × (w'.called ≡ 1))
b6b_offload_lem_example =
    b6b_offload_lem beside left_head (λ i os. 0) 3 beside-IsBeside 3 busy (omega arith)
      (omega arith) refl refl
