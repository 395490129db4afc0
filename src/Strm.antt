-- ===== src/Strm.antt =====
-- include/b6b/strm.h and src/b6b_strm.c: streams, on top of a table of functions that a device
-- fills. `D` is what `priv` points to, with all that it stands for outside of the program.
pub mod Procs
pub mod Contract
pub mod Loop
pub mod Read
pub mod Leads
pub mod Flags
pub mod Write
use b6b.Base.{
  ℕ, zero, suc, ◌+◌, ◌-◌, ◌*◌, ◌/◌, ◌%◌, Bool, true, false, not, ◌&&◌, ◌||◌, Option, none, some,
  List, [], ◌∷◌, ◌++◌, ltb, ◌==◌, if◌then◌else◌, length, drop, Bytes,
}
use b6b.Base.Int.{ℤ, pos}
use b6b.Store.{Ptr, Res, ok, err}
use b6b.Store.Monad.{
  M, ◌>>=◌, ◌>>◌, pure, crash, stuck, str_copy, list_new, return_obj, return_int, return_str,
}
use b6b.Object.{is_empty, list_add}

-- What `read` leaves: the bytes at `buf`, whose number it returns, and the two flags. It is only
-- called with `*eof` 0 and `*again` 1.
pub record Got : Type 0 where
  pub bytes : Bytes
  pub eof : Bool
  pub again : Bool

-- struct b6b_strm_ops. A pointer that may be NULL is an option, and so is a number of bytes, with
-- `none` for a negative one. `accept` gives `none` for its result 0 and then the object or NULL.
pub record StrmOps (D : Type 0) : Type 0 where
  pub peeksz : Option (D → M (Option ℕ × D))
  pub read : Option (D → ℕ → M (Option Got × D))
  pub write : Option (D → Bytes → M (Option ℕ × D))
  pub peer : Option (D → M (Option Ptr × D))
  pub accept : Option (D → M (Option (Option Ptr) × D))
  pub fd : D → ℤ
  pub close : Option (D → D)

-- struct b6b_strm, with the two bits of `flags`.
pub record Strm (D : Type 0) : Type 0 where
  pub ops : StrmOps D
  pub priv : D
  pub closed : Bool
  pub eof : Bool

-- B6B_STRM_BUFSIZ
abbrev pub bufsiz : ℕ
bufsiz = 64 * 1024

abbrev pub min : ℕ → ℕ → ℕ
min a b = if ltb b a then b else a

-- What the loop of b6b_strm_read leaves: the bytes read, whether the end was seen, and the length
-- of the buffer. `none` is `return B6B_ERR`.
pub record Filled : Type 0 where
  pub out : Bytes
  pub eof : Bool
  pub len : ℕ

module _ {D : Type 0} where
  abbrev pub run_close : Option (D → D) → D → D
  run_close none d = d
  run_close (some f) d = f d

  -- b6b_strm_close
  unfoldable pub strm_close : Strm D → Strm D
  strm_close s =
      if s.closed
      then s
      else record s { priv = run_close s.ops.close s.priv; closed = true; eof = true }

  -- b6b_strm_peeksz
  abbrev pub strm_peeksz : Option (D → M (Option ℕ × D)) → D → M (Option ℕ × D)
  strm_peeksz none d = pure (some bufsiz, d)
  strm_peeksz (some f) d = f d

  -- The loop of b6b_strm_read. Before each call of `read`, `out` bytes of the `len` are taken, and
  -- `est` more are free for it; a device that leaves more than that, or a buffer without that room,
  -- is a fault. `again` is the next round, behind the second b6b_strm_peeksz.
  abbrev pub read_next :
      (ℕ → ℕ → D → M (Option Filled × D)) → ℕ → Filled → Option ℕ × D → M (Option Filled × D)
  read_next again want b (none, d) = pure (none, d)
  read_next again want b (some est, d) =
      if est == 0 then pure (some b, d) else again want (min est want) d

  abbrev pub read_got :
      (Bytes → ℕ → ℕ → D → M (Option Filled × D))
      → Option (D → M (Option ℕ × D))
      → ℕ
      → ℕ
      → ℕ
      → Bytes
      → Option Got × D
      → M (Option Filled × D)
  read_got again peek want est len out (none, d) = pure (none, d)
  read_got again peek want est len out (some g, d) =
      let more = length g.bytes in
      let b : Filled = record { out = out ++ g.bytes; eof = g.eof; len = len } in
      if ltb est more
      then crash
      else if g.eof
      then pure (some b, d)
      else if more == 0 || not g.again
      then pure (some b, d)
      else if want - more == 0
      then pure (some b, d)
      else strm_peeksz peek d >>= read_next (again (out ++ g.bytes)) (want - more) b

  unfoldable pub read_loop :
      ℕ
      → Option (D → M (Option ℕ × D))
      → (D → ℕ → M (Option Got × D))
      → ℕ
      → Bytes
      → ℕ
      → ℕ
      → D
      → M (Option Filled × D)
  read_loop zero peek f len out want est d = stuck
  read_loop (suc k) peek f len out want est d =
      let grown = len + est in
      if est == 0
      then pure (some (record { out = out; eof = false; len = grown }), d)
      else if ltb grown (length out + est)
      then crash
      else f d est >>= read_got (read_loop k peek f grown) peek want est grown out

  -- Behind the loop: the text is ended by a NUL and returned.
  abbrev pub finish_read : Strm D → Option Filled × D → M (Res × Strm D)
  finish_read s (none, d) = pure (err, record s { priv = d })
  finish_read s (some b, d) =
      if ltb (length b.out) b.len
      then (do res ← return_str b.out; pure (res, record s { priv = d; eof = b.eof }))
      else crash

  abbrev pub start_read :
      Strm D → ℕ → (D → ℕ → M (Option Got × D)) → Option ℕ × D → M (Res × Strm D)
  start_read s want f (none, d) = pure (err, record s { priv = d })
  start_read s want f (some est, d) =
      read_loop (suc want) s.ops.peeksz f 1 [] want (min est want) d >>= finish_read s

  abbrev pub read_open : Strm D → ℕ → Option (D → ℕ → M (Option Got × D)) → M (Res × Strm D)
  read_open s want none = pure (err, s)
  read_open s want (some f) =
      if s.closed then pure (err, s) else strm_peeksz s.ops.peeksz s.priv >>= start_read s want f

  -- b6b_strm_read
  unfoldable pub strm_read : Strm D → ℕ → M (Res × Strm D)
  unfolding read_loop return_str
  strm_read s want = if s.eof then pure (ok, s) else read_open s want s.ops.read

  -- The loop of b6b_strm_write: what is left of the text, and the bytes that are out.
  abbrev pub wrote :
      (ℕ → Bytes → D → M (Option ℕ × D)) → Bytes → ℕ → Option ℕ × D → M (Option ℕ × D)
  wrote again rest out (none, d) = pure (none, d)
  wrote again rest out (some chunk, d) =
      if chunk == 0 then pure (some out, d) else again (out + chunk) (drop chunk rest) d

  unfoldable pub write_loop : ℕ → (D → Bytes → M (Option ℕ × D)) → ℕ → Bytes → D → M (Option ℕ × D)
  write_loop zero f out rest d = stuck
  write_loop (suc k) f out rest d =
      if is_empty rest then pure (some out, d) else f d rest >>= wrote (write_loop k f) rest out

  abbrev pub finish_write : Strm D → Option ℕ × D → M (Res × Strm D)
  finish_write s (none, d) = pure (err, record s { priv = d })
  finish_write s (some out, d) = do res ← return_int (pos out); pure (res, record s { priv = d })

  abbrev pub write_open : Strm D → Bytes → Option (D → Bytes → M (Option ℕ × D)) → M (Res × Strm D)
  write_open s buf none = pure (err, s)
  write_open s buf (some f) =
      if s.closed
      then pure (err, s)
      else write_loop (suc (length buf)) f 0 buf s.priv >>= finish_write s

  -- b6b_strm_write
  unfoldable pub strm_write : Strm D → Bytes → M (Res × Strm D)
  unfolding write_loop return_int
  strm_write s buf = write_open s buf s.ops.write

  -- b6b_strm_writeln
  unfoldable pub strm_writeln : Strm D → Bytes → M (Res × Strm D)
  unfolding strm_write
  strm_writeln s buf = strm_write s (buf ++ b'\n' ∷ [])

  -- The loop of b6b_strm_accept: false is `return B6B_ERR`.
  abbrev pub accepted : (D → M (Bool × D)) → Ptr → Option (Option Ptr) × D → M (Bool × D)
  accepted again l (none, d) = pure (false, d)
  accepted again l (some none, d) = pure (true, d)
  accepted again l (some (some o), d) = list_add l o >> again d

  unfoldable pub accept_loop : ℕ → (D → M (Option (Option Ptr) × D)) → Ptr → D → M (Bool × D)
  unfolding list_add
  accept_loop zero f l d = stuck
  accept_loop (suc k) f l d = f d >>= accepted (accept_loop k f l) l

  abbrev pub finish_accept : Strm D → Ptr → Bool × D → M (Res × Strm D)
  finish_accept s l (false, d) = pure (err, record s { priv = d })
  finish_accept s l (true, d) = do res ← return_obj l; pure (res, record s { priv = d })

  abbrev pub accept_open : ℕ → Strm D → Option (D → M (Option (Option Ptr) × D)) → M (Res × Strm D)
  accept_open k s none = pure (err, s)
  accept_open k s (some f) =
      if s.closed
      then pure (err, s)
      else (do l ← list_new; accept_loop k f l s.priv >>= finish_accept s l)

  -- b6b_strm_accept; the fuel bounds the connections that wait.
  unfoldable pub strm_accept : ℕ → Strm D → M (Res × Strm D)
  unfolding accept_loop list_new return_obj
  strm_accept k s = accept_open k s s.ops.accept

  abbrev pub finish_peer : Strm D → Option Ptr × D → M (Res × Strm D)
  finish_peer s (none, d) = pure (err, record s { priv = d })
  finish_peer s (some o, d) = do res ← return_obj o; pure (res, record s { priv = d })

  abbrev pub peer_with : Strm D → Option (D → M (Option Ptr × D)) → M (Res × Strm D)
  peer_with s none = pure (err, s)
  peer_with s (some f) = f s.priv >>= finish_peer s

  -- b6b_strm_peer, which does not look at the flags
  unfoldable pub strm_peer : Strm D → M (Res × Strm D)
  unfolding return_obj
  strm_peer s = peer_with s s.ops.peer

  -- b6b_strm_fd; the reference to the stream that the number keeps is not modelled.
  unfoldable pub strm_fd : Strm D → M (Res × Strm D)
  unfolding return_int
  strm_fd s =
      if s.closed then pure (err, s) else (do res ← return_int (s.ops.fd s.priv); pure (res, s))

  -- b6b_strm_new, where the object was made
  abbrev pub strm_new : StrmOps D → D → Strm D
  strm_new ops priv = record { ops = ops; priv = priv; closed = false; eof = false }

  -- b6b_strm_copy
  unfoldable pub strm_copy : StrmOps D → D → Bytes → M (Ptr × Strm D)
  unfolding str_copy
  strm_copy ops priv s = do o ← str_copy s; pure (o, strm_new ops priv)
