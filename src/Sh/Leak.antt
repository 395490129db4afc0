-- ===== src/Sh/Leak.antt =====
-- src/b6b_sh.c: the table of descriptors behind `sh`.
use b6b.Base.{
  ℕ, Bool, true, false, ◌||◌, Option, none, some, ◌⊎◌, inl, inr, ◌==◌, if◌then◌else◌, Bytes, ◌≡◌,
  refl, ◌∙◌, sym, codes, Bool-cases, ==_iff, arith,
}
use b6b.Store.{Ptr, State, Res}
use mathlib.Core.Path.{subst}
use b6b.Store.Monad.{Outcome, M, done, fault, timeout, ◌>>=◌, pure, done-bind}
use b6b.Strm.{StrmOps, Strm}
use b6b.Device.{return_strerror}
use b6b.Device.Fd.{Descriptor}
use b6b.Sh.{
  return_pipes, Shell, Sh, Pipe, Made, mine, pipe_made, pipe_ends, sh_new_pipe, sh_forked,
  with_stderr, with_stdout, with_stdin, sh_run, sh_in_ops, sh_out_ops,
}

module _ {D W : Type 0} (w : Shell D W) (l : Descriptor D) (is_open : W → ℕ → Bool) where
  -- The table of descriptors, as the system documents it: pipe2 opens two numbers that were free,
  -- close frees its number, and the other calls leave the table.
  pub record IsTable : Type 0 where
    pub frees :
        (world : W) (d : D) (m : ℕ)
        → is_open (w.close world d) m ≡ (if m == l.number d then false else is_open world m)
    pub opens :
        (world world' : W) (d0 d1 : D)
        → w.pipe2 world ≡ (inr (d0, d1), world')
        → (is_open world (l.number d0) ≡ false)
          × (is_open world (l.number d1) ≡ false)
          × ((l.number d0 == l.number d1) ≡ false)
          × ((m : ℕ)
              → is_open world' m ≡ (m == l.number d0 || (m == l.number d1 || is_open world m)))
    pub opens_none :
        (world world' : W) (e : ℕ)
        → w.pipe2 world ≡ (inl e, world')
        → (m : ℕ) → is_open world' m ≡ is_open world m
    pub nonblocks : (world : W) (d : D) (m : ℕ) → is_open (w.nonblock world d).1 m ≡ is_open world m
    pub forks :
        (world : W) (a b c : D) (cmd : Bytes) (m : ℕ)
        → is_open (w.fork world a b c cmd).1 m ≡ is_open world m

  module _ (h : IsTable) (n : ℕ) where
    -- Whatever comes out of `sh` without streams has the descriptor `n` open.
    unfoldable Leaks : Outcome (Res × Option (Strm (Sh D) × Strm (Sh D) × Strm (Sh D)) × W) → Type 0
    Leaks (done (res, none, world) st) = is_open world n ≡ true
    Leaks _ = Unit

    -- A pipe, or none, by whose making `n` stayed open; the stream is on another descriptor.
    unfoldable Spares : Option (Pipe D) × W → Type 0
    Spares (none, world) = is_open world n ≡ true
    Spares (some p, world) = (is_open world n ≡ true) × ((n == l.number p.strm.priv.dev) ≡ false)

    MadeBy : M (Option (Pipe D) × W) → State → Type 0
    MadeBy run st = (r : Option (Pipe D) × W) × (st' : State) × (run st ≡ done r st') × Spares r

    close_other :
        (world : W) (d : D)
        → is_open world n ≡ true
        → (n == l.number d) ≡ false
        → is_open (w.close world d) n ≡ true
    close_other world d o e = h.frees world d n ∙ rw (e) o

    -- A number that was free is not that of an open descriptor.
    fresh :
        (world : W) (m : ℕ) → is_open world n ≡ true → is_open world m ≡ false → (n == m) ≡ false
    fresh world m o f = elim (Bool-cases (n == m)) [
      | inl y ↦ let same : n ≡ m = (==_iff n m).0 y in absurd (cc)
      | inr e ↦ e
    ]

    unnamed :
        (world : W) (t : Option Bytes) (st : State)
        → is_open world n ≡ true
        → MadeBy (do _ ← return_strerror t; pure (none, world)) st
    unfolding return_strerror Spares MadeBy
    unnamed world none st o = (_, _, refl, o)
    unnamed world (some t) st o = (_, _, refl, o)

    pipe_made-Spares :
        (pid : Ptr) (ops : StrmOps (Sh D)) (type : Bytes) (end : Bool) (d0 d1 : D)
        (c : Option ℕ × W) (st : State)
        → is_open c.1 n ≡ true
        → (n == l.number d0) ≡ false
        → (n == l.number d1) ≡ false
        → MadeBy (pipe_made w l pid ops type end d0 d1 c) st
    unfolding MadeBy Spares b6b.Strm.Procs.strm_fmt
    pipe_made-Spares pid ops type end d0 d1 (some e, world) st o n0 n1 =
        unnamed _ (l.strerror e) st
          (close_other (w.close world d1) d0 (close_other world d1 o n1) n0)
    pipe_made-Spares pid ops type true d0 d1 (none, world) st o n0 n1 = (_, _, refl, (o, n1))
    pipe_made-Spares pid ops type false d0 d1 (none, world) st o n0 n1 = (_, _, refl, (o, n0))

    pipe_ends-Spares :
        (world : W) (pid : Ptr) (ops : StrmOps (Sh D)) (type : Bytes) (end : Bool)
        (c : (ℕ ⊎ D × D) × W) (st : State)
        → is_open world n ≡ true
        → w.pipe2 world ≡ c
        → MadeBy (pipe_ends w l pid ops type end c) st
    pipe_ends-Spares world pid ops type end (inl e, world') st o q =
        unnamed world' (l.strerror e) st (h.opens_none world world' e q n ∙ o)
    pipe_ends-Spares world pid ops type end (inr (d0, d1), world') st o q =
        let free = h.opens world world' d0 d1 q in
        let n0 = fresh world (l.number d0) o free.0 in
        let n1 = fresh world (l.number d1) o free.1 in
        pipe_made-Spares pid ops type end d0 d1 (w.nonblock world' (mine w l end d0 d1)) st
          (h.nonblocks world' (mine w l end d0 d1) n ∙ free.3 n ∙ rw (n0, n1) o) n0 n1

    pipe-Spares :
        (world : W) (pid : Ptr) (ops : StrmOps (Sh D)) (type : Bytes) (end : Bool) (st : State)
        → is_open world n ≡ true
        → MadeBy (sh_new_pipe w l world pid ops type end) st
    unfolding sh_new_pipe
    pipe-Spares world pid ops type end st o = pipe_ends-Spares world pid ops type end _ st o refl

    -- A child's number or none, from fork.
    forked-Leaks :
        (pid : Ptr) (p0 p1 p2 : Pipe D) (c : Option ℕ × W) (st : State)
        → is_open c.1 n ≡ true
        → (n == l.number p0.strm.priv.dev) ≡ false
        → (n == l.number p1.strm.priv.dev) ≡ false
        → (n == l.number p2.strm.priv.dev) ≡ false
        → Leaks (sh_forked w l pid p0 p1 p2 c st)
    unfolding Leaks
    forked-Leaks pid p0 p1 p2 (none, world) st o n0 n1 n2 =
        close_other _ p0.strm.priv.dev
          (close_other _ p1.strm.priv.dev (close_other world p2.strm.priv.dev o n2) n1) n0
    forked-Leaks pid p0 p1 p2 (some child, world) st o n0 n1 n2 =
        returned (return_pipes w l pid child p0 p1 p2 st)
      where
        returned :
            (r : Outcome Res)
            → Leaks
                (elim r
                  as (λ x. Outcome (Res × Option (Strm (Sh D) × Strm (Sh D) × Strm (Sh D)) × W)) [
                    | done res st' ↦
                        done
                          (
                            res,
                            some (p0.strm, p1.strm, p2.strm),
                            w.close (w.close (w.close world p0.child) p1.child) p2.child,
                          )
                          st'
                    | fault ↦ fault
                    | timeout ↦ timeout
                  ])
        returned (done res st') = tt
        returned fault = tt
        returned timeout = tt

    with_stderr-Leaks :
        (cmd : Bytes) (pid : Ptr) (p0 p1 : Pipe D) (c : Option (Pipe D) × W) (st : State)
        → Spares c
        → (n == l.number p0.strm.priv.dev) ≡ false
        → (n == l.number p1.strm.priv.dev) ≡ false
        → Leaks (with_stderr w l cmd pid p0 p1 c st)
    unfolding Leaks Spares
    with_stderr-Leaks cmd pid p0 p1 (none, world) st o n0 n1 =
        close_other _ p0.strm.priv.dev (close_other world p1.strm.priv.dev o n1) n0
    with_stderr-Leaks cmd pid p0 p1 (some p2, world) st o n0 n1 =
        forked-Leaks pid p0 p1 p2 (w.fork world p0.child p1.child p2.child cmd) st
          (h.forks world p0.child p1.child p2.child cmd n ∙ o.0) n0 n1 o.1

    -- What follows a pipe leaks if it does so for each pipe that spares `n`.
    next-Leaks :
        (run : M (Option (Pipe D) × W)) (k : Option (Pipe D) × W → Made w l) (st : State)
        → MadeBy run st
        → ((c : Option (Pipe D) × W) (st' : State) → Spares c → Leaks (k c st'))
        → Leaks ((run >>= k) st)
    unfolding MadeBy
    next-Leaks run k st (c, st', q, o) f =
        subst (λ x. Leaks x) (sym (done-bind run k st c st' q)) (f c st' o)

    with_stdout-Leaks :
        (cmd : Bytes) (pid : Ptr) (p0 : Pipe D) (c : Option (Pipe D) × W) (st : State)
        → Spares c
        → (n == l.number p0.strm.priv.dev) ≡ false
        → Leaks (with_stdout w l cmd pid p0 c st)
    unfolding Leaks Spares
    with_stdout-Leaks cmd pid p0 (none, world) st o n0 = close_other world p0.strm.priv.dev o n0
    with_stdout-Leaks cmd pid p0 (some p1, world) st o n0 =
        next-Leaks (sh_new_pipe w l world pid (sh_out_ops l) (codes "stderr") false)
          (with_stderr w l cmd pid p0 p1) st
          (pipe-Spares world pid (sh_out_ops l) (codes "stderr") false st o.0)
          (λ c st' o'. with_stderr-Leaks cmd pid p0 p1 c st' o' n0 o.1)

    with_stdin-Leaks :
        (cmd : Bytes) (pid : Ptr) (p0 : Pipe D) (world : W) (st : State)
        → is_open world n ≡ true
        → (n == l.number p0.strm.priv.dev) ≡ false
        → Leaks (with_stdin w l cmd pid (some p0, world) st)
    with_stdin-Leaks cmd pid p0 world st o n0 =
        next-Leaks (sh_new_pipe w l world pid (sh_out_ops l) (codes "stdout") false)
          (with_stdout w l cmd pid p0) st
          (pipe-Spares world pid (sh_out_ops l) (codes "stdout") false st o)
          (λ c st' o'. with_stdout-Leaks cmd pid p0 c st' o' n0)

    stdin-Leaks :
        (cmd : Bytes) (pid : Ptr) (d0 d1 : D) (c : Option ℕ × W) (st : State)
        → c.0 ≡ none
        → is_open c.1 n ≡ true
        → (n == l.number d1) ≡ false
        → Leaks (
            (pipe_made w l pid (sh_in_ops l) (codes "stdin") true d0 d1 c
                >>= with_stdin w l cmd pid)
              st)
    unfolding b6b.Strm.Procs.strm_fmt
    stdin-Leaks cmd pid d0 d1 (none, world) st q o n1 = with_stdin-Leaks cmd pid _ world _ o n1
    stdin-Leaks cmd pid d0 d1 (some e, world) st q o n1 = absurd (cc)

  ==_refl : (a : ℕ) → (a == a) ≡ true
  ==_refl a = ground arith

  -- Where `sh` has its first pipe and then fails, whether at another pipe, at fcntl or at fork, the
  -- end of that pipe that the child was to have was not open before, and stays open.
  pub sh_leaks :
      (h : IsTable) (world world1 world' : W) (d0 d1 : D) (cmd : Bytes) (st st' : State) (res : Res)
      → w.pipe2 world ≡ (inr (d0, d1), world1)
      → (w.nonblock world1 d1).0 ≡ none
      → sh_run w l world cmd st ≡ done (res, none, world') st'
      → (is_open world (l.number d0) ≡ false) × (is_open world' (l.number d0) ≡ true)
  unfolding Leaks sh_run sh_new_pipe b6b.Store.Monad.int_new
  sh_leaks h world world1 world' d0 d1 cmd st st' res q k run =
      let free = h.opens world world1 d0 d1 q in
      let open1 = h.nonblocks world1 d1 (l.number d0) ∙ free.3 (l.number d0) in
      let stays : Leaks h (l.number d0) (sh_run w l world cmd st) = rw (q) (
        stdin-Leaks h (l.number d0) cmd _ d0 d1 (w.nonblock world1 d1) _ k
          (open1 ∙ rw (==_refl (l.number d0)) refl) free.2) in
      (free.0, subst (λ x. Leaks h (l.number d0) x) run stays)
