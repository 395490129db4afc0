-- ===== src/Sh.antt =====
-- src/b6b_sh.c: `sh`, in the parent process. The system's calls are a parameter; the child runs the
-- command, or exits.
pub mod Leak
pub mod End
use b6b.Base.{
  ℕ, Bool, true, false, Option, none, some, ◌⊎◌, inl, inr, List, [], ◌∷◌, ◌==◌, if◌then◌else◌,
  Bytes, codes,
}
use b6b.Base.Int.{ℤ, pos}
use b6b.CLib.{CLib}
use b6b.Store.{Ptr, Res, err}
use b6b.Store.Monad.{M, ◌>>=◌, ◌>>◌, pure, crash, load, store, int_new, list_new, return_obj}
use b6b.Object.{list_add}
use b6b.Object.Args.{c_str, get_args}
use b6b.Strm.{Got, StrmOps, Strm}
use b6b.Strm.Procs.{strm_fmt}
use b6b.Device.{return_strerror}
use b6b.Device.Fd.{Descriptor, fd_peeksz, fd_read, fd_write}

-- What `sh` asks of the system, and the table of descriptors, which `W` is.
pub record Shell (D W : Type 0) : Type 0 where
  -- pipe2(fds, O_CLOEXEC): fds[0], which reads, and fds[1], which writes
  pub pipe2 : W → (ℕ ⊎ D × D) × W
  -- fcntl of F_GETFL, and of F_SETFL with O_NONBLOCK; `some` has the error's number.
  pub nonblock : W → D → Option ℕ × W
  -- fork, and in the child dup2 of the three ends that it has, execl of the shell with the command, and
  -- exit; in the parent the child's number, or `none` for -1
  pub fork : W → D → D → D → Bytes → Option ℕ × W
  pub close : W → D → W
  -- where malloc puts the struct of a descriptor
  pub address : D → ℕ

-- struct b6b_sh; `fd` and what the system keeps for it are the device.
pub record Sh (D : Type 0) : Type 0 where
  pub pid : Ptr
  pub dev : D

module _ {D : Type 0} where
  abbrev pub at_fd : {A : Type 0} → Sh D → A × D → M (A × Sh D)
  at_fd s (a, d) = pure (a, record s { dev = d })

module _ {D : Type 0} (l : Descriptor D) where
  -- b6b_sh_peeksz
  unfoldable pub sh_peeksz : Sh D → M (Option ℕ × Sh D)
  unfolding fd_peeksz
  sh_peeksz s = fd_peeksz ⦃l = l⦄ s.dev >>= at_fd s

  -- b6b_sh_read
  unfoldable pub sh_read : Sh D → ℕ → M (Option Got × Sh D)
  unfolding fd_read
  sh_read s len = fd_read ⦃l = l⦄ s.dev len >>= at_fd s

  -- b6b_sh_write
  unfoldable pub sh_write : Sh D → Bytes → M (Option ℕ × Sh D)
  unfolding fd_write
  sh_write s buf = fd_write ⦃l = l⦄ s.dev buf >>= at_fd s

  -- b6b_sh_fd
  abbrev pub sh_fd : Sh D → ℤ
  sh_fd s = pos (l.number s.dev)

  -- b6b_sh_close
  abbrev pub sh_close : Sh D → Sh D
  sh_close s = record s { dev = l.close s.dev }

  unfoldable pub sh_in_ops : StrmOps (Sh D)
  unfolding sh_write
  sh_in_ops = record {
    peeksz = none;
    read = none;
    write = some sh_write;
    peer = none;
    accept = none;
    fd = sh_fd;
    close = some sh_close;
  }

  unfoldable pub sh_out_ops : StrmOps (Sh D)
  unfolding sh_peeksz sh_read
  sh_out_ops = record {
    peeksz = some sh_peeksz;
    read = some sh_read;
    write = none;
    peer = none;
    accept = none;
    fd = sh_fd;
    close = some sh_close;
  }

-- A pipe: the stream's object, the stream, and the end that is the child's.
pub record Pipe (D : Type 0) : Type 0 where
  pub obj : Ptr
  pub strm : Strm (Sh D)
  pub child : D

module _ {D W : Type 0} (w : Shell D W) (l : Descriptor D) where
  -- fds[end] and fds[!end]
  abbrev pub mine : Bool → D → D → D
  mine true d0 d1 = d1
  mine false d0 d1 = d0

  abbrev pub other : Bool → D → D → D
  other true d0 d1 = d0
  other false d0 d1 = d1

  abbrev pub pipe_made :
      Ptr → StrmOps (Sh D) → Bytes → Bool → D → D → Option ℕ × W → M (Option (Pipe D) × W)
  pipe_made pid ops type end d0 d1 (some e, world) = do
    _ ← return_strerror (l.strerror e)
    pure (none, w.close (w.close world d1) d0)
  pipe_made pid ops type end d0 d1 (none, world) = do
    (o, s) ←
        strm_fmt ops (record { pid = pid; dev = mine end d0 d1 }) (w.address (mine end d0 d1)) type
    pure (some (record { obj = o; strm = s; child = other end d0 d1 }), world)

  abbrev pub pipe_ends :
      Ptr → StrmOps (Sh D) → Bytes → Bool → (ℕ ⊎ D × D) × W → M (Option (Pipe D) × W)
  pipe_ends pid ops type end (inl e, world) = do
    _ ← return_strerror (l.strerror e)
    pure (none, world)
  pipe_ends pid ops type end (inr (d0, d1), world) =
      pipe_made pid ops type end d0 d1 (w.nonblock world (mine end d0 d1))

  -- b6b_sh_new_pipe, where `end` is whether the stream has fds[1]
  unfoldable pub sh_new_pipe : W → Ptr → StrmOps (Sh D) → Bytes → Bool → M (Option (Pipe D) × W)
  unfolding return_strerror strm_fmt
  sh_new_pipe world pid ops type end = pipe_ends pid ops type end (w.pipe2 world)

  -- b6b_destroy of a stream, which closes the stream's end.
  abbrev pub destroy_pipe : W → Pipe D → W
  destroy_pipe world p = w.close world p.strm.priv.dev

  abbrev pub Made : Type 0
  Made = M (Res × Option (Strm (Sh D) × Strm (Sh D) × Strm (Sh D)) × W)

  -- The list that a call returns in the parent.
  abbrev pub return_pipes : Ptr → ℕ → Pipe D → Pipe D → Pipe D → M Res
  return_pipes pid child p0 p1 p2 = do
    o ← load pid
    store pid (record o { i = pos child })
    p ← list_new
    list_add p pid
    list_add p p0.obj
    list_add p p1.obj
    list_add p p2.obj
    return_obj p

  abbrev pub sh_forked : Ptr → Pipe D → Pipe D → Pipe D → Option ℕ × W → Made
  sh_forked pid p0 p1 p2 (none, world) =
      pure (err, none, destroy_pipe (destroy_pipe (destroy_pipe world p2) p1) p0)
  sh_forked pid p0 p1 p2 (some child, world) = do
    res ← return_pipes pid child p0 p1 p2
    pure (
      res,
      some (p0.strm, p1.strm, p2.strm),
      w.close (w.close (w.close world p0.child) p1.child) p2.child,
    )

  abbrev pub with_stderr : Bytes → Ptr → Pipe D → Pipe D → Option (Pipe D) × W → Made
  with_stderr cmd pid p0 p1 (none, world) =
      pure (err, none, destroy_pipe (destroy_pipe world p1) p0)
  with_stderr cmd pid p0 p1 (some p2, world) =
      sh_forked pid p0 p1 p2 (w.fork world p0.child p1.child p2.child cmd)

  abbrev pub with_stdout : Bytes → Ptr → Pipe D → Option (Pipe D) × W → Made
  with_stdout cmd pid p0 (none, world) = pure (err, none, destroy_pipe world p0)
  with_stdout cmd pid p0 (some p1, world) =
      sh_new_pipe world pid (sh_out_ops l) (codes "stderr") false >>= with_stderr cmd pid p0 p1

  abbrev pub with_stdin : Bytes → Ptr → Option (Pipe D) × W → Made
  with_stdin cmd pid (none, world) = pure (err, none, world)
  with_stdin cmd pid (some p0, world) =
      sh_new_pipe world pid (sh_out_ops l) (codes "stdout") false >>= with_stdout cmd pid p0

  -- Behind the check of the arguments.
  unfoldable pub sh_run : W → Bytes → Made
  unfolding int_new sh_new_pipe sh_in_ops sh_out_ops load store list_new list_add return_obj
  sh_run world cmd = do
    pid ← int_new (pos 0)
    r ← sh_new_pipe world pid (sh_in_ops l) (codes "stdin") true
    with_stdin cmd pid r

  module _ ⦃c : CLib⦄ where
    abbrev pub sh_args : W → List Ptr → Made
    sh_args world (cmd ∷ []) = do x ← load cmd; sh_run world (c_str x.s)
    sh_args world _ = crash

    -- b6b_sh_proc_sh; the number's object, with its destructor, reaps the child.
    unfoldable pub sh_proc_sh : ℕ → W → Ptr → Made
    unfolding get_args load sh_run
    sh_proc_sh n world args = do
      a ← get_args n args (codes "os") (false ∷ true ∷ [])
      if a.argc == 0 then pure (err, none, world) else sh_args world a.out
