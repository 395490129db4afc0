-- ===== src/Time.antt =====
-- src/b6b_time.c (`sleep`) and src/b6b_timer.c. The clock's calls are a parameter; without offload
-- threads, b6b_syscall makes the call.
use b6b.Base.{
  ℕ, zero, suc, ◌-◌, ◌^◌, true, false, ◌||◌, Option, none, some, ◌⊎◌, inl, inr, List, [], ◌∷◌, ◌==◌,
  if◌then◌else◌, Bytes, codes,
}
use b6b.Base.Int.{ℤ, pos}
use b6b.CLib.{CLib}
use b6b.Store.{Ptr, Res, ok, err}
use b6b.Store.Monad.{M, ◌>>=◌, pure, crash, stuck, load, return_obj}
use b6b.Object.Args.{get_args}
use b6b.Strm.{StrmOps, Strm}
use b6b.Strm.Procs.{strm_fmt}
use b6b.Device.{return_strerror}
use b6b.Device.Fd.{Descriptor, fd_fd, fd_close, fd_peeksz_u64, fd_read_u64}

-- struct timespec
pub record Timespec : Type 0 where
  pub sec : ℤ
  pub nsec : ℕ

-- The clock, which `W` is, and conversions that C has no more words for. A call that fails gives the
-- number that it leaves in errno.
pub record Clock (D W : Type 0) : Type 0 where
  -- (time_t)floor(f)
  pub seconds : ℕ → ℤ
  -- labs((long)f)
  pub labs : ℕ → ℕ
  -- nanosleep: the error, and what it leaves in `rem`.
  pub nanosleep : W → Timespec → Option ℕ × Timespec × W
  -- timerfd_create(CLOCK_MONOTONIC, TFD_NONBLOCK | TFD_CLOEXEC)
  pub timerfd_create : W → (ℕ ⊎ D) × W
  -- timerfd_settime, of a time and an interval that are the same
  pub timerfd_settime : W → D → Timespec → Option ℕ × W
  pub close : W → D → W
  pub eintr : ℕ
  pub strerror : ℕ → Option Bytes

-- The loop of b6b_time_proc_sleep; the fuel bounds the calls of nanosleep.
abbrev pub nap_done :
    {W : Type 0}
    → (ℕ → Option Bytes)
    → ℕ
    → (Timespec → W → M (Res × W))
    → Option ℕ × Timespec × W
    → M (Res × W)
nap_done strerror eintr again (none, rem, world) = pure (ok, world)
nap_done strerror eintr again (some e, rem, world) =
    if e == eintr
    then again rem world
    else (do res ← return_strerror (strerror e); pure (res, world))

module _ {D W : Type 0} (k : Clock D W) where
  unfoldable pub nap : ℕ → Timespec → W → M (Res × W)
  unfolding return_strerror
  nap zero req world = stuck
  nap (suc n) req world = nap_done k.strerror k.eintr (nap n) (k.nanosleep world req)

  module _ ⦃c : CLib⦄ where
    -- UINT_MAX, as a double
    abbrev pub longest : ℕ
    longest = c.of_int (pos (2 ^ 32 - 1))

    -- The time that a double stands for.
    abbrev pub timespec_of : ℕ → Timespec
    timespec_of f = record {
      sec = k.seconds f;
      nsec = k.labs (c.mul (c.of_int (pos (10 ^ 9))) (c.sub f (c.of_int (k.seconds f))));
    }

    abbrev pub checked_nap : ℕ → W → ℕ → M (Res × W)
    checked_nap n world f =
        if c.lt f c.zero_double || c.lt longest f
        then pure (err, world)
        else if c.nonzero f
        then nap n (timespec_of f) world
        else pure (ok, world)

    abbrev pub sleep_args : ℕ → W → List Ptr → M (Res × W)
    sleep_args n world (p ∷ []) = do o ← load p; checked_nap n world o.f
    sleep_args n world _ = crash

    -- b6b_time_proc_sleep
    unfoldable pub time_proc_sleep : ℕ → W → Ptr → M (Res × W)
    unfolding get_args load nap
    time_proc_sleep n world args = do
      a ← get_args n args (codes "of") (false ∷ true ∷ [])
      if a.argc == 0 then pure (err, world) else sleep_args n world a.out

  module _ (l : Descriptor D) where
    unfoldable pub timer_ops : StrmOps D
    unfolding fd_peeksz_u64 fd_read_u64
    timer_ops = record {
      peeksz = some (fd_peeksz_u64 ⦃l = l⦄);
      read = some (fd_read_u64 ⦃l = l⦄);
      write = none;
      peer = none;
      accept = none;
      fd = fd_fd ⦃l = l⦄;
      close = some (fd_close ⦃l = l⦄);
    }

    abbrev pub timer_set : D → Option ℕ × W → M (Res × Option (Strm D) × W)
    timer_set d (some e, world) = do
      res ← return_strerror (k.strerror e)
      pure (res, none, k.close world d)
    timer_set d (none, world) = do
      (o, s) ← strm_fmt timer_ops d (l.number d) (codes "timer")
      res ← return_obj o
      pure (res, some s, world)

    abbrev pub timer_made : Timespec → (ℕ ⊎ D) × W → M (Res × Option (Strm D) × W)
    timer_made t (inl e, world) = do res ← return_strerror (k.strerror e); pure (res, none, world)
    timer_made t (inr d, world) = timer_set d (k.timerfd_settime world d t)

    module _ ⦃c : CLib⦄ where
      abbrev pub timer_args : W → List Ptr → M (Res × Option (Strm D) × W)
      timer_args world (p ∷ []) = do
        o ← load p
        if c.nonzero o.f
            then timer_made (timespec_of o.f) (k.timerfd_create world)
            else pure (err, none, world)
      timer_args world _ = crash

      -- b6b_timer_proc_timer
      unfoldable pub timer_proc_timer : ℕ → W → Ptr → M (Res × Option (Strm D) × W)
      unfolding get_args load return_strerror strm_fmt return_obj timer_ops
      timer_proc_timer n world args = do
        a ← get_args n args (codes "of") (false ∷ true ∷ [])
        if a.argc == 0 then pure (err, none, world) else timer_args world a.out
