-- ===== src/Device/Fd.antt =====
-- src/b6b_fdops.c and include/b6b/fdops.h: streams over a descriptor of the system, of its bytes or
-- of one 64-bit number at a time; and src/b6b_sem.c.
pub mod Number
pub mod Sem
pub mod End
use b6b.Base.{
  ℕ, zero, suc, ◌+◌, ◌-◌, ◌*◌, ◌/◌, ◌%◌, ◌^◌, Bool, true, false, ◌||◌, Option, none, some, ◌⊎◌, inl,
  inr, List, [], ◌∷◌, ltb, leb, ◌==◌, if◌then◌else◌, length, Bytes, codes,
}
use b6b.Base.Int.{ℤ, pos, negsuc}
use b6b.Base.Words.{bytes_of, word_of}
use b6b.CLib.{CLib}
use b6b.Store.{Ptr, Res, err}
use b6b.Store.Monad.{M, ◌>>=◌, pure, crash, load, return_obj}
use b6b.Object.{format_int}
use b6b.Object.Args.{c_str, get_args}
use b6b.Strm.{Got, StrmOps, Strm}
use b6b.Strm.Procs.{strm_fmt}
use b6b.Device.{return_strerror}

-- A descriptor, with all that it stands for in the system: what the code calls with it, and what is
-- behind it after the call. A call that fails gives the number that it leaves in errno.
pub record Descriptor (D : Type 0) : Type 0 where
  -- ioctl(fd, FIONREAD, &ilen), or `none` where it fails.
  pub fionread : D → Option ℕ
  pub read : D → ℕ → (ℕ ⊎ Bytes) × D
  -- recv(fd, buf, len, 0) and send(fd, buf, len, MSG_NOSIGNAL)
  pub recv : D → ℕ → (ℕ ⊎ Bytes) × D
  pub write : D → Bytes → (ℕ ⊎ ℕ) × D
  pub send : D → Bytes → (ℕ ⊎ ℕ) × D
  pub close : D → D
  -- fd itself
  pub number : D → ℕ
  -- EAGAIN and EWOULDBLOCK
  pub eagain : ℕ
  pub ewouldblock : ℕ
  -- strerror_r; `none` is NULL.
  pub strerror : ℕ → Option Bytes
  -- strtoull(s, &end, 0), or `none` where it sets errno, reads nothing or does not read all.
  pub strtoull : Bytes → Option ℕ
  -- eventfd(n, EFD_NONBLOCK | EFD_CLOEXEC | EFD_SEMAPHORE)
  pub eventfd : ℕ → ℕ ⊎ D

abbrev pub would_block : {D : Type 0} → Descriptor D → ℕ → Bool
would_block l e = e == l.eagain || e == l.ewouldblock

-- sizeof(uint64_t), UINT64_MAX and UINT_MAX
abbrev pub u64_size : ℕ
u64_size = 8

abbrev pub u64_max : ℕ
u64_max = 2 ^ 64 - 1

abbrev pub uint_max : ℕ
uint_max = 2 ^ 32 - 1

abbrev pub got : Bytes → Bool → Option Got
got bs again = some (record { bytes = bs; eof = false; again = again })

-- Behind the call of b6b_fd_read, where it read something.
abbrev pub read_number : ℕ → Bytes → Option Got
read_number len bs =
    if length bs == u64_size
    then (let text = format_int (pos (word_of bs)) in
        if leb len (length text) then none else got text false)
    else none

-- (unsigned int)n->i, where n->i > UINT_MAX was refused.
abbrev pub to_unsigned : ℤ → ℕ
to_unsigned (pos n) = n
to_unsigned (negsuc n) = uint_max - n % 2 ^ 32

abbrev pub above_uint : ℤ → Bool
above_uint (pos n) = ltb uint_max n
above_uint (negsuc n) = false

module _ {D : Type 0} ⦃l : Descriptor D⦄ where
  -- b6b_fd_peeksz
  unfoldable pub fd_peeksz : D → M (Option ℕ × D)
  fd_peeksz d = pure (l.fionread d, d)

  -- b6b_fd_on_read: `*eof = 0` where nothing is read, which it was before.
  unfoldable pub fd_on_read : (ℕ ⊎ Bytes) × D → M (Option Got × D)
  unfolding return_strerror
  fd_on_read (inl e, d) =
      if would_block l e
      then pure (got [] true, d)
      else (do _ ← return_strerror (l.strerror e); pure (none, d))
  fd_on_read (inr bs, d) = pure (got bs true, d)

  -- b6b_fd_read
  unfoldable pub fd_read : D → ℕ → M (Option Got × D)
  unfolding fd_on_read
  fd_read d len = fd_on_read (l.read d len)

  -- b6b_fd_recv
  unfoldable pub fd_recv : D → ℕ → M (Option Got × D)
  unfolding fd_on_read
  fd_recv d len = fd_on_read (l.recv d len)

  -- b6b_fd_on_write
  unfoldable pub fd_on_write : (ℕ ⊎ ℕ) × D → M (Option ℕ × D)
  unfolding return_strerror
  fd_on_write (inl e, d) =
      if would_block l e
      then pure (some 0, d)
      else (do _ ← return_strerror (l.strerror e); pure (none, d))
  fd_on_write (inr n, d) = pure (some n, d)

  -- b6b_fd_write
  unfoldable pub fd_write : D → Bytes → M (Option ℕ × D)
  unfolding fd_on_write
  fd_write d buf = fd_on_write (l.write d buf)

  -- b6b_fd_send
  unfoldable pub fd_send : D → Bytes → M (Option ℕ × D)
  unfolding fd_on_write
  fd_send d buf = fd_on_write (l.send d buf)

  -- b6b_fd_fd
  abbrev pub fd_fd : D → ℤ
  fd_fd d = pos (l.number d)

  -- b6b_fd_close
  abbrev pub fd_close : D → D
  fd_close d = l.close d

  -- b6b_fd_peeksz_u64
  unfoldable pub fd_peeksz_u64 : D → M (Option ℕ × D)
  fd_peeksz_u64 d = pure (some (suc (length (codes "18446744073709551615"))), d)

  abbrev pub after_read : ℕ → Option Got × D → M (Option Got × D)
  after_read len (none, d) = pure (none, d)
  after_read len (some g, d) =
      if length g.bytes == 0 then pure (some g, d) else pure (read_number len g.bytes, d)

  -- b6b_fd_read_u64
  unfoldable pub fd_read_u64 : D → ℕ → M (Option Got × D)
  unfolding fd_read format_int word_of
  fd_read_u64 d len = fd_read d u64_size >>= after_read len

  abbrev pub after_write : Bytes → Option ℕ × D → M (Option ℕ × D)
  after_write buf (none, d) = pure (none, d)
  after_write buf (some out, d) = pure (if out == u64_size then some (length buf) else none, d)

  abbrev pub write_number : D → Bytes → Option ℕ → M (Option ℕ × D)
  write_number d buf none = pure (none, d)
  write_number d buf (some n) =
      if ltb u64_max n then pure (none, d) else fd_write d (bytes_of u64_size n) >>= after_write buf

  -- b6b_fd_write_u64
  unfoldable pub fd_write_u64 : D → Bytes → M (Option ℕ × D)
  unfolding fd_write bytes_of
  fd_write_u64 d buf = write_number d buf (l.strtoull (c_str buf))

  -- b6b_sem_ops
  unfoldable pub sem_ops : StrmOps D
  unfolding fd_peeksz_u64 fd_read_u64 fd_write_u64
  sem_ops = record {
    peeksz = some fd_peeksz_u64;
    read = some fd_read_u64;
    write = some fd_write_u64;
    peer = none;
    accept = none;
    fd = fd_fd;
    close = some fd_close;
  }

  -- The stream, where there is one.
  abbrev pub sem_opened : ℕ ⊎ D → M (Res × Option (Strm D))
  sem_opened (inl e) = do res ← return_strerror (l.strerror e); pure (res, none)
  sem_opened (inr d) = do
    (o, s) ← strm_fmt sem_ops d (l.number d) (codes "sem")
    res ← return_obj o
    pure (res, some s)

  module _ ⦃c : CLib⦄ where
    abbrev pub sem_args : List Ptr → M (Res × Option (Strm D))
    sem_args (n ∷ []) = do
      o ← load n
      if above_uint o.i then pure (err, none) else sem_opened (l.eventfd (to_unsigned o.i))
    sem_args _ = crash

    -- b6b_sem_proc_sem
    unfoldable pub sem_proc : ℕ → Ptr → M (Res × Option (Strm D))
    unfolding get_args load strm_fmt return_obj return_strerror sem_ops
    sem_proc n args = do
      a ← get_args n args (codes "oi") (false ∷ true ∷ [])
      if a.argc == 0 then pure (err, none) else sem_args a.out
