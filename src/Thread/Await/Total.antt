-- ===== src/Thread/Await/Total.antt =====
-- b6b_offload in src/b6b_interp.c: what its loops leave in the flags of the thread that waits.
use b6b.Base.{
  ℕ, suc, ◌≤◌, ◌<◌, ◌≡◌, refl, inl, inr, arith, Bool, true, false, Option, some, List, Bool-cases,
  length,
}
use b6b.Thread.{Thread, threaded}
use b6b.Thread.Offload.{Offload}
use b6b.Thread.Await.{
  Offloads, Beside, thread_block, thread_unblock, pass, await_ready, offload_start, await_done,
  offload_finish, gave_way, finished_with, awaited, begun, picked, b6b_offload,
}
use b6b.Thread.Await.Loops.{
  is_running, IsBeside, Stays, Returned, got, HasReady, given_up, found, Passed, stayed, resumes,
  handed-running, pass-Passed, await_ready-HasReady, await_done-Returned,
}

module _ (b : Beside) (left : List Offload → ℕ) (undone : ℕ → List Offload → ℕ) (most : ℕ)
    (h : IsBeside b left undone most) where
  freed-Stays :
      (me : Thread) (w : Offloads)
      → Stays me w
      → Stays (record me { blocked = false }) (thread_unblock w)
  freed-Stays me w (e, d, f) = (e, d, refl)

  gave_way-Returned :
      (me : Thread) (w : Offloads) (r : Option (Bool × Offloads))
      → Passed me w b.others r
      → Returned me (gave_way b r)
  gave_way-Returned me w _ (stayed w' k) = got true w' k
  gave_way-Returned me w _ (resumes t w' e k) = got true (b.others t w') k

  finished_with-Returned :
      (me : Thread) (p ok : Bool) (w : Offloads)
      → Stays me w
      → Returned me (finished_with b p (ok, w))
  finished_with-Returned me p false w k = got false w k
  finished_with-Returned me true true w k =
      gave_way-Returned me w (pass b w) (pass-Passed b left undone most h me w k)
  finished_with-Returned me false true w k = got true w k

  offload_finish-Stays :
      (me : Thread) (i : ℕ) (w : Offloads) → Stays me w → Stays me (offload_finish b i w).1
  offload_finish-Stays me i w k =
      let e = h.only_waits i w in
      elim (Bool-cases (b.sigwait i w).0) [
        | inl y ↦ simp y (ground (arith, e, k))
        | inr n ↦ simp n (ground (arith, e, k))
      ]

  awaited-Returned :
      (me : Thread) (i : ℕ) (r : Option (Bool × Offloads))
      → Returned me r
      → Returned (record me { blocked = false }) (awaited b i r)
  awaited-Returned me i _ (got p w k) =
      let me' : Thread = record me { blocked = false } in
      let f = offload_finish b i (thread_unblock w) in
      finished_with-Returned me' p f.0 f.1
        (offload_finish-Stays me' i (thread_unblock w) (freed-Stays me w k))

  begun-Returned :
      (me : Thread) (n i : ℕ) (ok : Bool) (w : Offloads)
      → most ≤ n
      → is_running i w.offths ≡ true
      → Stays me w
      → Returned (record me { blocked = false }) (begun b n i (ok, w))
  begun-Returned me n i false w l g k = got false (thread_unblock w) (freed-Stays me w k)
  begun-Returned me n i true w l g k = awaited-Returned me i (await_done b n i false w) (
      await_done-Returned b left undone most h me n i false w g
        (omega (arith, l, h.few_undone i w.offths)) k)

  picked-Returned :
      (me : Thread) (n : ℕ) (r : Option (Option ℕ × Offloads))
      → most ≤ n
      → HasReady me r
      → Returned (record me { blocked = false }) (picked b n r)
  picked-Returned me n _ l (given_up w k) = got false (thread_unblock w) (freed-Stays me w k)
  picked-Returned me n _ l (found i w p k) =
      let s = offload_start b i w in
      begun-Returned me n i s.0 s.1 l (handed-running (b.kill i w) i w.offths p) k

  Returned-ends :
      (me : Thread) (r : Option (Bool × Offloads))
      → Returned me r
      → (ok : Bool) × (w' : Offloads) × (r ≡ some (ok, w')) × Stays me w'
  Returned-ends me _ (got ok w k) = (ok, w, refl, k)

  -- A thread calls b6b_offload that is neither done nor marked as blocked; there are offload
  -- threads, which become idle and end what they were given within fewer than `most` of the rounds
  -- in which the other threads run, and the others leave the flags of the caller as they are. Then
  -- b6b_offload ends within `most` rounds of either of its loops, whether an offload thread could be
  -- had or not, and whether waking it and waiting for it worked; the thread that runs is the one
  -- that called it, and it is not marked as blocked. As the only thread it succeeds, and called the
  -- function once more itself.
  pub b6b_offload_lem :
      (n : ℕ) (w : Offloads)
      → most ≤ n
      → 0 < length w.offths
      → w.sched.fg.done ≡ false
      → w.sched.fg.blocked ≡ false
      → (ok : Bool) × (w' : Offloads) × (b6b_offload b n w ≡ some (ok, w'))
        × (w'.sched.fg.id ≡ w.sched.fg.id)
        × (w'.sched.fg.blocked ≡ false)
        × (threaded w.sched ≡ false → (ok ≡ true) × (w'.called ≡ suc w.called))
  unfolding b6b_offload
  b6b_offload_lem n w l m d f = elim (Bool-cases (threaded w.sched)) [
    | inr z ↦ (true, record w { called = suc w.called }, simp z refl, refl, f, λ t. (refl, refl))
    | inl y ↦
        let me : Thread = record w.sched.fg { blocked = true } in
        let few : left w.offths < n = omega (arith, l, h.few_left w.offths) in
        let (ok, w', e, (i, k, g)) =
          Returned-ends (record me { blocked = false })
            (picked b n (await_ready b n (thread_block w)))
            (picked-Returned me n (await_ready b n (thread_block w)) l (
              await_ready-HasReady b left undone most h me n (thread_block w) m few
                (refl, d, refl))) in
        (ok, w', simp y e, i, g, λ z. absurd (cc))
  ]
