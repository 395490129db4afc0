-- ===== src/Examples/Pipes.antt =====
-- `sh` where a system has room for one pipe.
use b6b.Base.{
  ◌&&◌, ap, ℕ, ◌≡◌, refl, true, false, Bool, ◌||◌, ◌⊎◌, inl, inr, none, [], length, codes, arith,
  ◌==◌, if◌then◌else◌,
}
use b6b.Store.{State, err}
use b6b.Store.Monad.{done, fault, timeout, int_new}
use b6b.Device.{return_strerror}
use b6b.Device.Fd.{Descriptor}
use b6b.Sh.{Shell, sh_new_pipe, sh_run}
use b6b.Sh.Leak
use b6b.Sh.Leak.{sh_leaks}
use b6b.Interp.Boot.{empty}

-- The ends of the one pipe that a system has room for.
data End : Type 0 where
  reading writing : End

abbrev pipe_fd : Descriptor End
pipe_fd = record {
  fionread = λ d. none;
  read = λ d len. (inr [], d);
  recv = λ d len. (inr [], d);
  write = λ d buf. (inr (length buf), d);
  send = λ d buf. (inr (length buf), d);
  close = λ d. d;
  number = λ d. elim d [ reading ↦ 3 | writing ↦ 4 ];
  eagain = 11;
  ewouldblock = 11;
  strerror = λ e. none;
  strtoull = λ s. none;
  eventfd = λ n. inl 24;
}

abbrev made_pipe : Bool × Bool → (ℕ ⊎ End × End) × (Bool × Bool)
made_pipe (false, false) = (inr (reading, writing), (true, true))
made_pipe w = (inl 24, w)

abbrev one_pipe : Shell End (Bool × Bool)
one_pipe = record {
  pipe2 = made_pipe;
  nonblock = λ world d. (none, world);
  fork = λ world a b c cmd. (none, world);
  close = λ world d. elim d [ reading ↦ (false, world.1) | writing ↦ (world.0, false) ];
  address = λ d. 4096;
}

abbrev has_end : Bool × Bool → ℕ → Bool
has_end world m = m == 3 && world.0 || m == 4 && world.1

one_pipe-frees :
    (a b : Bool) (d : End) (m : ℕ)
    → has_end (one_pipe.close (a, b) d) m
      ≡ (if m == pipe_fd.number d then false else has_end (a, b) m)
one_pipe-frees a b reading m = ground arith
one_pipe-frees a b writing m = ground arith

one_pipe-opens :
    (w w' : Bool × Bool) (d0 d1 : End)
    → made_pipe w ≡ (inr (d0, d1), w')
    → (has_end w (pipe_fd.number d0) ≡ false)
      × (has_end w (pipe_fd.number d1) ≡ false)
      × ((pipe_fd.number d0 == pipe_fd.number d1) ≡ false)
      × ((m : ℕ)
          → has_end w' m ≡ (m == pipe_fd.number d0 || (m == pipe_fd.number d1 || has_end w m)))
one_pipe-opens (false, false) (true, true) reading writing q = (refl, refl, refl, λ m. ground arith)
one_pipe-opens (false, false) (true, true) writing d1 q = absurd (cc)
one_pipe-opens (false, false) (true, true) reading reading q = absurd (cc)
one_pipe-opens (false, false) (false, b) d0 d1 q = absurd (cc)
one_pipe-opens (false, false) (true, false) d0 d1 q = absurd (cc)
one_pipe-opens (true, b) w' d0 d1 q = absurd (cc)
one_pipe-opens (false, true) w' d0 d1 q = absurd (cc)

one_pipe-opens_none :
    (w w' : Bool × Bool) (e : ℕ) → made_pipe w ≡ (inl e, w') → (m : ℕ) → has_end w' m ≡ has_end w m
one_pipe-opens_none (false, false) w' e q m = absurd (cc)
one_pipe-opens_none (true, b) w' e q m = let s : w' ≡ (true, b) = cc in ap (λ x. has_end x m) s
one_pipe-opens_none (false, true) w' e q m =
    let s : w' ≡ (false, true) = cc in ap (λ x. has_end x m) s

one_pipe-IsTable : Leak.IsTable one_pipe pipe_fd has_end
one_pipe-IsTable = record {
  frees = λ world d m. one_pipe-frees world.0 world.1 d m;
  opens = one_pipe-opens;
  opens_none = one_pipe-opens_none;
  nonblocks = λ world d m. refl;
  forks = λ world a b c cmd m. refl;
}

abbrev after_sh : State
after_sh = elim (sh_run one_pipe pipe_fd (false, false) (codes "ls") empty) [
  | done q st ↦ st
  | fault ↦ empty
  | timeout ↦ empty
]

failed_sh :
    sh_run one_pipe pipe_fd (false, false) (codes "ls") empty
    ≡ done (err, none, (true, false)) after_sh
unfolding sh_run sh_new_pipe return_strerror int_new
failed_sh = refl

sh_leaks_example : (has_end (false, false) 3 ≡ false) × (has_end (true, false) 3 ≡ true)
sh_leaks_example =
    sh_leaks one_pipe pipe_fd has_end one_pipe-IsTable (false, false) (true, true) (true, false)
      reading writing (codes "ls") empty after_sh err refl refl failed_sh
