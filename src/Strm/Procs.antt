-- ===== src/Strm/Procs.antt =====
-- src/b6b_strm.c, b6b_strm_proc: what a script can do with a stream. The stream that `o->priv`
-- points to is passed, and given back.
use b6b.Base.{
  ℕ, ◌+◌, ◌-◌, ◌/◌, ◌%◌, ◌^◌, Bool, true, false, ◌||◌, List, [], ◌∷◌, ◌++◌, ltb, leb, ◌==◌,
  if◌then◌else◌, Bytes, codes, bytes_eq, zero, suc,
}
use b6b.Base.Int.{ℤ, pos, negsuc}
use b6b.CLib.{CLib}
use b6b.Store.{Ptr, Res, ok, err}
use b6b.Store.Monad.{M, ◌>>=◌, pure, crash, load, str_copy, fail_with}
use b6b.Object.{as_str, as_int}
use b6b.Object.Args.{c_str, get_args}
use b6b.Strm.{
  StrmOps, Strm, strm_new, strm_close, strm_read, strm_write, strm_writeln, strm_accept, strm_peer,
  strm_fd,
}

abbrev pub ssize_max : ℕ
ssize_max = 2 ^ 63 - 1

-- strcmp(s, word) == 0
abbrev pub is_op : Bytes → Bytes → Bool
is_op s word = bytes_eq (c_str s) word

-- "%lx": the fuel is one more than the number.
abbrev pub hex_digit_of : ℕ → ℕ
hex_digit_of d = if ltb d 10 then d + b'0' else d - 10 + b'a'

unfoldable pub hex : ℕ → ℕ → Bytes
hex zero n = []
hex (suc k) n =
    let rest = hex k (n / 16) ++ hex_digit_of (n % 16) ∷ [] in
    if ltb n 16 then hex_digit_of n ∷ [] else rest

module _ {D : Type 0} where
  -- b6b_strm_fmt, where `addr` is the address that `priv` is
  unfoldable pub strm_fmt : StrmOps D → D → ℕ → Bytes → M (Ptr × Strm D)
  unfolding str_copy hex
  strm_fmt ops priv addr type = do
    o ← str_copy (type ++ b':' ∷ hex (suc addr) addr)
    pure (o, strm_new ops priv)

  -- b6b_return_fmt(interp, "bad strm op: %s", op->s), and B6B_ERR
  unfoldable pub bad_op : Strm D → Bytes → M (Res × Strm D)
  unfolding fail_with
  bad_op s op = do res ← fail_with (codes "bad strm op: " ++ c_str op); pure (res, s)

  -- `read` with no size
  unfoldable pub strm_read_all : Strm D → M (Res × Strm D)
  unfolding strm_read
  strm_read_all s = strm_read s (ssize_max - 1)

  -- case 2
  unfoldable pub strm_op : ℕ → Strm D → Bytes → M (Res × Strm D)
  unfolding strm_read_all strm_accept strm_peer strm_fd strm_close bad_op
  strm_op n s op =
      if is_op op (codes "read")
      then strm_read_all s
      else if is_op op (codes "accept")
      then strm_accept n s
      else if is_op op (codes "peer")
      then strm_peer s
      else if is_op op (codes "fd")
      then strm_fd s
      else if is_op op (codes "close")
      then pure (ok, strm_close s)
      else bad_op s op

  abbrev pub read_size : Strm D → ℤ → M (Res × Strm D)
  read_size s (negsuc i) = pure (err, s)
  read_size s (pos i) = if leb ssize_max i || i == 0 then pure (err, s) else strm_read s i

  abbrev pub read_arg : Strm D → Ptr → Bool → M (Res × Strm D)
  read_arg s arg false = pure (err, s)
  read_arg s arg true = do o ← load arg; read_size s o.i

  abbrev pub write_arg : (Bytes → M (Res × Strm D)) → Strm D → Ptr → Bool → M (Res × Strm D)
  write_arg write s arg false = pure (err, s)
  write_arg write s arg true = do o ← load arg; write o.s

  module _ ⦃c : CLib⦄ where
    -- case 3
    unfoldable pub strm_op_arg : ℕ → Strm D → Bytes → Ptr → M (Res × Strm D)
    unfolding as_int as_str load strm_read strm_write strm_writeln bad_op
    strm_op_arg n s op arg =
        if is_op op (codes "read")
        then as_int n arg >>= read_arg s arg
        else if is_op op (codes "write")
        then as_str n arg >>= write_arg (strm_write s) s arg
        else if is_op op (codes "writeln")
        then as_str n arg >>= write_arg (strm_writeln s) s arg
        else bad_op s op

    abbrev pub strm_args : ℕ → Strm D → List Ptr → M (Res × Strm D)
    strm_args n s (o ∷ op ∷ []) = do x ← load op; strm_op n s x.s
    strm_args n s (o ∷ op ∷ arg ∷ []) = do x ← load op; strm_op_arg n s x.s arg
    strm_args n s _ = crash

    -- b6b_strm_proc
    unfoldable pub strm_proc : ℕ → Strm D → Ptr → M (Res × Strm D)
    unfolding get_args load strm_op strm_op_arg
    strm_proc n s args = do
      a ← get_args n args (codes "os|o") (true ∷ true ∷ true ∷ [])
      if a.argc == 0 then pure (err, s) else strm_args n s a.out
