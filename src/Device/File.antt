-- ===== src/Device/File.antt =====
-- src/b6b_file.c: `open`.
use b6b.Base.{
  ℕ, ◌⊎◌, inl, inr, Bool, true, false, Option, none, some, List, [], ◌∷◌, ◌==◌, if◌then◌else◌,
  Bytes, codes, bytes_eq,
}
use b6b.Base.Int.{ℤ}
use b6b.CLib.{CLib}
use b6b.Store.{Ptr, Res, err}
use b6b.Store.Monad.{M, ◌>>=◌, pure, crash, load, return_obj}
use b6b.Object.{as_str}
use b6b.Object.Args.{c_str, get_args}
use b6b.Strm.{StrmOps, Strm, strm_close}
use b6b.Strm.Procs.{strm_fmt}
use b6b.Device.{CFile, return_strerror}
use b6b.Device.Stdio.{StdioStrm, stdio_peeksz, stdio_read, stdio_write, stdio_close}

-- _IOLBF, _IOFBF and _IONBF
pub data Buffering : Type 0 where
  lbf fbf nbf : Buffering

-- Which of the three tables a mode stands with.
pub data Table : Type 0 where
  read_only write_only read_write : Table

-- struct b6b_file_mode
pub record FileMode : Type 0 where
  pub mode : Bytes
  pub fmode : Bytes
  pub ops : Table
  pub bmode : Buffering

abbrev entry : Bytes → Bytes → Table → Buffering → FileMode
entry mode fmode ops bmode = record { mode = mode; fmode = fmode; ops = ops; bmode = bmode }

-- b6b_file_def_mode
abbrev pub file_def_mode : FileMode
file_def_mode = entry (codes "r") (codes "r") read_only lbf

-- b6b_file_modes
abbrev pub file_modes : List FileMode
file_modes =
    file_def_mode
    ∷ entry (codes "w") (codes "w") write_only lbf
    ∷ entry (codes "a") (codes "a") write_only lbf
    ∷ entry (codes "rb") (codes "r") read_only fbf
    ∷ entry (codes "wb") (codes "w") write_only fbf
    ∷ entry (codes "ab") (codes "a") write_only fbf
    ∷ entry (codes "ru") (codes "r") read_only nbf
    ∷ entry (codes "wu") (codes "w") write_only nbf
    ∷ entry (codes "au") (codes "a") write_only nbf
    ∷ entry (codes "r+") (codes "r+") read_write lbf
    ∷ entry (codes "w+") (codes "w+") read_write lbf
    ∷ entry (codes "a+") (codes "a+") read_write lbf
    ∷ entry (codes "r+b") (codes "r+") read_write fbf
    ∷ entry (codes "w+b") (codes "w+") read_write fbf
    ∷ entry (codes "a+b") (codes "a+") read_write fbf
    ∷ entry (codes "r+u") (codes "r+") read_write nbf
    ∷ entry (codes "w+u") (codes "w+") read_write nbf
    ∷ entry (codes "a+u") (codes "a+") read_write nbf
    ∷ []

-- The loop of b6b_file_mode.
unfoldable pub find_mode : List FileMode → Bytes → Option FileMode
find_mode [] mode = none
find_mode (m ∷ ms) mode =
    let rest = find_mode ms mode in if bytes_eq m.mode (c_str mode) then some m else rest

-- b6b_file_mode
unfoldable pub file_mode : Bytes → Option FileMode
unfolding find_mode
file_mode = find_mode file_modes

-- What becomes of the FILE: a stream with its object, or nothing but the FILE, or none was opened.
pub data Opened (F : Type 0) : Type 0 where
  strm : Ptr → Strm (StdioStrm F) → Opened F
  dropped : F → Opened F
  nothing : Opened F

module _ {F : Type 0} ⦃l : CFile F⦄ where
  -- b6b_ro_file_ops, b6b_wo_file_ops and b6b_rw_file_ops
  abbrev pub file_ops : Table → StrmOps (StdioStrm F)
  file_ops t = record {
    peeksz = elim t [
      | read_only ↦ some stdio_peeksz
      | write_only ↦ none
      | read_write ↦ some stdio_peeksz
    ];
    read = elim t [
      | read_only ↦ some stdio_read
      | write_only ↦ none
      | read_write ↦ some stdio_read
    ];
    write = elim t [
      | read_only ↦ none
      | write_only ↦ some stdio_write
      | read_write ↦ some stdio_write
    ];
    peer = none;
    accept = none;
    fd = λ s. s.fd;
    close = some stdio_close;
  }

  -- Where setvbuf fails, the object is destroyed, which closes the stream.
  abbrev pub after_setvbuf : Ptr × Strm (StdioStrm F) → Bool × F → Opened F
  after_setvbuf (o, s) (true, fp) =
      dropped (strm_close (record s { priv = record s.priv { fp = fp } })).priv.fp
  after_setvbuf (o, s) (false, fp) = strm o (record s { priv = record s.priv { fp = fp } })

  abbrev pub buffered : F → Buffering → Ptr × Strm (StdioStrm F) → Opened F
  buffered fp nbf (o, s) = strm o (record s { priv = record s.priv { fp = l.setbuf fp } })
  buffered fp lbf (o, s) = after_setvbuf (o, s) (l.setvbuf fp 1)
  buffered fp fbf (o, s) = after_setvbuf (o, s) (l.setvbuf fp 0)

  -- b6b_file_new; `addr` is where the struct was allocated.
  unfoldable pub file_new : ℕ → F → ℤ → Buffering → Table → M (Opened F)
  unfolding strm_fmt strm_close
  file_new addr fp fd bmode t = do
    made ← strm_fmt (file_ops t) (record { fp = fp; fd = fd }) addr (codes "file")
    pure (buffered fp bmode made)

  -- Where b6b_file_new gave NULL, the FILE is closed.
  abbrev pub return_opened : Opened F → M (Res × Opened F)
  return_opened (strm o s) = do res ← return_obj o; pure (res, strm o s)
  return_opened (dropped fp) = pure (err, dropped (l.fclose fp))
  return_opened nothing = pure (err, nothing)

  abbrev pub open_cloexec : ℕ → FileMode → F → Option ℕ → M (Res × Opened F)
  open_cloexec addr m fp (some e) = do
    res ← return_strerror (l.strerror e)
    pure (res, dropped (l.fclose fp))
  open_cloexec addr m fp none = file_new addr fp (l.fileno fp) m.bmode m.ops >>= return_opened

  -- Behind b6b_file_do_fopen.
  abbrev pub open_fp : ℕ → FileMode → ℕ ⊎ F → M (Res × Opened F)
  open_fp addr m (inl e) = do res ← return_strerror (l.strerror e); pure (res, nothing)
  open_fp addr m (inr fp) = open_cloexec addr m fp (l.set_cloexec fp)

  -- case 2, and what case 3 goes on with
  unfoldable pub open_path : ℕ → Bytes → FileMode → M (Res × Opened F)
  unfolding return_strerror file_new return_obj
  open_path addr path m = open_fp addr m (l.fopen (c_str path) m.fmode)

  -- `einval` is EINVAL.
  abbrev pub open_mode : ℕ → ℕ → Bytes → Option FileMode → M (Res × Opened F)
  open_mode einval addr path none = do
    res ← return_strerror (l.strerror einval)
    pure (res, nothing)
  open_mode einval addr path (some m) = open_path addr path m

  module _ ⦃c : CLib⦄ where
    abbrev pub open_args : ℕ → ℕ → ℕ → List Ptr → M (Res × Opened F)
    open_args n einval addr (path ∷ []) = do o ← load path; open_path addr o.s file_def_mode
    open_args n einval addr (path ∷ mode ∷ []) = do
      o ← load path
      known ← as_str n mode
      m ← load mode
      if known then open_mode einval addr o.s (file_mode m.s) else pure (err, nothing)
    open_args n einval addr _ = crash

    -- b6b_file_proc_open
    unfoldable pub file_proc_open : ℕ → ℕ → ℕ → Ptr → M (Res × Opened F)
    unfolding get_args load as_str open_path file_mode return_strerror
    file_proc_open n einval addr args = do
      a ← get_args n args (codes "os|s") (false ∷ true ∷ true ∷ [])
      if a.argc == 0 then pure (err, nothing) else open_args n einval addr a.out
