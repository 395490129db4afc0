-- ===== src/Signal.antt =====
-- src/b6b_signal.c: `signal`, and the streams of signals. The calls of the system are a parameter.
use b6b.Base.{
  ℕ, suc, Bool, false, ◌||◌, Option, none, some, ◌⊎◌, inl, inr, List, [], ◌∷◌, ltb, leb, ◌==◌,
  if◌then◌else◌, length, codes, take,
}
use b6b.Base.Int.{ℤ, pos, negsuc}
use b6b.Base.Words.{word_of}
use b6b.CLib.{CLib}
use b6b.Store.{Ptr, Res, err}
use b6b.Store.Monad.{M, ◌>>=◌, pure, load, return_obj}
use b6b.Object.{format_int, as_int}
use b6b.Strm.{Got, StrmOps, Strm}
use b6b.Strm.Procs.{strm_fmt}
use b6b.Device.{return_strerror}
use b6b.Device.Fd.{Descriptor, fd_read}
use b6b.Rand.{int_max}

-- The process's mask of blocked signals and its table of descriptors, which `W` is. A set of signals
-- is the list of its numbers.
pub record Masks (D W : Type 0) : Type 0 where
  -- sigaddset refuses a number that is no signal's.
  pub is_signal : ℕ → Bool
  -- sigprocmask of SIG_BLOCK; `some` has the error's number.
  pub block : W → List ℕ → Option ℕ × W
  -- signalfd(-1, set, SFD_NONBLOCK | SFD_CLOEXEC)
  pub signalfd : W → List ℕ → (ℕ ⊎ D) × W
  -- sigprocmask of SIG_UNBLOCK, on the signals that a descriptor has
  pub unblock : D → List ℕ → D
  -- where malloc puts the struct of a descriptor
  pub address : D → ℕ

-- struct b6b_signal; `fd` and what the system keeps for it are the device.
pub record Signal (D : Type 0) : Type 0 where
  pub dev : D
  pub set : List ℕ

-- sizeof(struct signalfd_siginfo)
abbrev pub siginfo_size : ℕ
siginfo_size = 128

-- The number of the signal, `ssi_signo`, in decimal, where it fits.
abbrev pub print_signo : ℕ → Got → Option Got
print_signo len g =
    let text = format_int (pos (word_of (take 4 g.bytes))) in
    if leb len (length text) then none else some (record g { bytes = text; again = false })

abbrev pub signal_got : ℕ → Got → Option Got
signal_got len g =
    if length g.bytes == 0
    then some g
    else if length g.bytes == siginfo_size
    then print_signo len g
    else none

module _ {D : Type 0} where
  -- b6b_signal_peeksz
  abbrev pub signal_peeksz : Signal D → M (Option ℕ × Signal D)
  signal_peeksz s = pure (some (suc (length (codes "4294967295"))), s)

  abbrev pub signal_after : Signal D → ℕ → Option Got × D → M (Option Got × Signal D)
  signal_after s len (none, d) = pure (none, record s { dev = d })
  signal_after s len (some g, d) = pure (signal_got len g, record s { dev = d })

  module _ (l : Descriptor D) where
    -- b6b_signal_read
    unfoldable pub signal_read : Signal D → ℕ → M (Option Got × Signal D)
    unfolding fd_read format_int word_of
    signal_read s len = fd_read ⦃l = l⦄ s.dev siginfo_size >>= signal_after s len

    -- b6b_signal_fd
    abbrev pub signal_fd : Signal D → ℤ
    signal_fd s = pos (l.number s.dev)

    module _ {W : Type 0} (w : Masks D W) where
      -- b6b_signal_close
      abbrev pub signal_close : Signal D → Signal D
      signal_close s = record s { dev = l.close (w.unblock s.dev s.set) }

      unfoldable pub signal_ops : StrmOps (Signal D)
      unfolding signal_read
      signal_ops = record {
        peeksz = some signal_peeksz;
        read = some signal_read;
        write = none;
        peer = none;
        accept = none;
        fd = signal_fd;
        close = some signal_close;
      }

      -- A signal's number that the set takes.
      abbrev pub signal_number : ℤ → Option ℕ
      signal_number (negsuc n) = none
      signal_number (pos n) =
          if n == 0 || ltb int_max n then none else if w.is_signal n then some n else none

      abbrev pub and_number : Option ℕ → Option (List ℕ) → Option (List ℕ)
      and_number none ns = none
      and_number (some n) none = none
      and_number (some n) (some ns) = some (n ∷ ns)

      -- The loop over the arguments: the set, or `none` at the first that is no signal.
      abbrev pub signal_set : ⦃c : CLib⦄ → ℕ → List Ptr → M (Option (List ℕ))
      signal_set n [] = pure (some [])
      signal_set n (p ∷ ps) = do
        known ← as_int n p
        o ← load p
        if known then with_number n (signal_number o.i) (signal_set n ps) else pure none
        where
          with_number : ℕ → Option ℕ → M (Option (List ℕ)) → M (Option (List ℕ))
          with_number n none rest = pure none
          with_number n (some i) rest = do ns ← rest; pure (and_number (some i) ns)

      abbrev pub signal_opened : List ℕ → (ℕ ⊎ D) × W → M (Res × Option (Strm (Signal D)) × W)
      signal_opened set (inl e, world) = do
        res ← return_strerror (l.strerror e)
        pure (res, none, world)
      signal_opened set (inr d, world) = do
        (o, s) ← strm_fmt signal_ops (record { dev = d; set = set }) (w.address d) (codes "signal")
        res ← return_obj o
        pure (res, some s, world)

      -- The mask stays as it is where signalfd fails.
      abbrev pub signal_blocked : List ℕ → Option ℕ × W → M (Res × Option (Strm (Signal D)) × W)
      signal_blocked set (some e, world) = do
        res ← return_strerror (l.strerror e)
        pure (res, none, world)
      signal_blocked set (none, world) = signal_opened set (w.signalfd world set)

      abbrev pub signal_with : W → Option (List ℕ) → M (Res × Option (Strm (Signal D)) × W)
      signal_with world none = pure (err, none, world)
      signal_with world (some set) = signal_blocked set (w.block world set)

      -- The items of the call, the procedure first.
      abbrev pub signal_args :
          ⦃c : CLib⦄ → ℕ → W → List Ptr → M (Res × Option (Strm (Signal D)) × W)
      signal_args n world (p ∷ q ∷ ps) = signal_set n (q ∷ ps) >>= signal_with world
      signal_args n world _ = pure (err, none, world)

      -- b6b_signal_proc_signal
      unfoldable pub signal_proc_signal :
          ⦃c : CLib⦄ → ℕ → W → Ptr → M (Res × Option (Strm (Signal D)) × W)
      unfolding load as_int return_strerror strm_fmt return_obj signal_ops
      signal_proc_signal n world args = do o ← load args; signal_args n world o.l
