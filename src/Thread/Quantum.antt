-- ===== src/Thread/Quantum.antt =====
-- b6b_on_res in src/b6b_interp.c: after how many statements a thread is switched.
use b6b.Base.{
  ℕ, zero, suc, ◌+◌, ◌-◌, ◌%◌, ◌<◌, ◌≡◌, refl, ap, Bool, true, false, Option, none, some, ◌==◌,
  if◌then◌else◌, arith,
}
use b6b.Thread.{Sched, yield, quant_len, after_stmt}

-- What follows a statement behind which there was no switch.
abbrev pub go_on : (Sched → Option (Bool × Sched)) → Option (Bool × Sched) → Option (Bool × Sched)
go_on again none = none
go_on again (some (switch, s)) = if switch then some (true, s) else again s

-- The running thread executes that many statements, if it is not switched before.
unfoldable pub stmts : ℕ → Sched → Option (Bool × Sched)
unfolding after_stmt
stmts zero s = some (false, s)
stmts (suc k) s = go_on (stmts k) (after_stmt s)

-- How many statements go by without a switch.
abbrev pub due : ℕ → ℕ
due q = (271 - q) % 256

abbrev at_step : Sched → ℕ → Sched
at_step s q = record s { qstep = q }

stmts-due :
    (k q : ℕ) (s : Sched) → q < 256 → due q ≡ k → stmts k (at_step s q) ≡ some (false, at_step s 15)
unfolding stmts after_stmt
stmts-due zero q s h e = let z : q ≡ 15 = omega arith in ap (λ x. some (false, at_step s x)) z
stmts-due (suc k) q s h e =
    let no : ((q + 1) % 256 == quant_len) ≡ false = ground arith in
    rw no (stmts-due k ((q + 1) % 256) s (omega arith) (omega arith))

-- In a thread that was just switched to, `qstep` is 0: 15 statements go by, and behind the sixteenth
-- another thread gets its turn. But where no other thread was there to switch to, `qstep` is not
-- reset and counts on past 16: then 255 statements go by, until the byte has wrapped around.
pub quantum_lem :
    (s : Sched)
    → s.qstep < 256
    → (stmts (due s.qstep) s ≡ some (false, at_step s 15))
      × (after_stmt (at_step s 15) ≡ yield (at_step s 16))
unfolding after_stmt
quantum_lem s h = (stmts-due (due s.qstep) s.qstep s h refl, refl)
