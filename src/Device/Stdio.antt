-- ===== src/Device/Stdio.antt =====
-- src/b6b_stdio.c and include/b6b/stdio.h: a stream over a FILE. Without offload threads,
-- b6b_offload calls the function that it is given.
use b6b.Base.{
  ℕ, zero, suc, ◌+◌, ◌-◌, Bool, true, ◌&&◌, Option, none, some, ltb, ◌==◌, if◌then◌else◌, length,
  drop, Bytes,
}
use b6b.Base.Int.{ℤ}
use b6b.CLib.{CLib}
use b6b.Store.{Ptr}
use b6b.Store.Monad.{M, ◌>>=◌, pure, stuck}
use b6b.Interp.Frame.{set_global}
use b6b.Strm.{Got, StrmOps, Strm, bufsiz, strm_copy}
use b6b.Strm.Procs.{ssize_max}
use b6b.Device.{CFile, return_strerror}

-- struct b6b_stdio_strm. `buf` only holds what setvbuf uses.
pub record StdioStrm (F : Type 0) : Type 0 where
  pub fp : F
  pub fd : ℤ

-- The end of b6b_stdio_peeksz, with both positions known.
abbrev pub peek_size : ℕ → ℕ → ℕ
peek_size here end = if ltb here end then end - here else bufsiz

module _ {F : Type 0} ⦃l : CFile F⦄ where
  abbrev pub at_fp : StdioStrm F → F → StdioStrm F
  at_fp s fp = record s { fp = fp }

  -- b6b_return_strerror(interp, err); return -1;
  unfoldable pub fail : {A : Type 0} → ℕ → StdioStrm F → M (Option A × StdioStrm F)
  unfolding return_strerror
  fail e s = do _ ← return_strerror (l.strerror e); pure (none, s)

  abbrev pub peek_back : StdioStrm F → ℕ → ℕ → Option ℕ × F → M (Option ℕ × StdioStrm F)
  peek_back s here end (some e, fp) = fail e (at_fp s fp)
  peek_back s here end (none, fp) = pure (some (peek_size here end), at_fp s fp)

  abbrev pub peek_end : StdioStrm F → ℕ → F → Option ℕ → M (Option ℕ × StdioStrm F)
  peek_end s here fp none = pure (none, at_fp s fp)
  peek_end s here fp (some end) =
      if ltb ssize_max end
      then pure (none, at_fp s fp)
      else if ltb here end
      then peek_back s here end (l.seek_set fp here)
      else pure (some (peek_size here end), at_fp s fp)

  abbrev pub peek_seek : StdioStrm F → ℕ → Option ℕ × F → M (Option ℕ × StdioStrm F)
  peek_seek s here (some e, fp) = fail e (at_fp s fp)
  peek_seek s here (none, fp) = peek_end s here fp (l.ftello fp)

  abbrev pub peek_here : StdioStrm F → Option ℕ → M (Option ℕ × StdioStrm F)
  peek_here s none = pure (none, s)
  peek_here s (some here) =
      if ltb ssize_max here then pure (none, s) else peek_seek s here (l.seek_end s.fp)

  -- b6b_stdio_peeksz
  unfoldable pub stdio_peeksz : StdioStrm F → M (Option ℕ × StdioStrm F)
  unfolding fail
  stdio_peeksz s = peek_here s (l.ftello s.fp)

  -- Behind the call of b6b_stdio_do_fread.
  abbrev pub after_fread : StdioStrm F → ℕ → Bytes × F → M (Option Got × StdioStrm F)
  after_fread s len (bs, fp) =
      let short = ltb (length bs) len in
      if short && l.ferror fp
      then fail (if length bs == 0 then l.errno fp else 0) (at_fp s (l.clearerr fp))
      else pure (some (record { bytes = bs; eof = short && l.feof fp; again = true }), at_fp s fp)

  -- b6b_stdio_read
  unfoldable pub stdio_read : StdioStrm F → ℕ → M (Option Got × StdioStrm F)
  unfolding fail
  stdio_read s len = after_fread s len (l.fread s.fp len)

  -- One round of the loop of b6b_stdio_write; `again` is the next one.
  abbrev pub after_fwrite :
      (ℕ → Bytes → StdioStrm F → M (Option ℕ × StdioStrm F))
      → StdioStrm F
      → ℕ
      → Bytes
      → ℕ × F
      → M (Option ℕ × StdioStrm F)
  after_fwrite again s total buf (ret, fp) =
      if ret == 0
      then (if l.ferror fp
          then fail (l.errno fp) (at_fp s (l.clearerr fp))
          else pure (some total, at_fp s fp))
      else if ltb ret (length buf)
      then again (total + ret) (drop ret buf) (at_fp s fp)
      else pure (some (total + ret), at_fp s fp)

  unfoldable pub fwrite_loop : ℕ → ℕ → Bytes → StdioStrm F → M (Option ℕ × StdioStrm F)
  unfolding fail
  fwrite_loop zero total buf s = stuck
  fwrite_loop (suc k) total buf s = after_fwrite (fwrite_loop k) s total buf (l.fwrite s.fp buf)

  -- b6b_stdio_write
  unfoldable pub stdio_write : StdioStrm F → Bytes → M (Option ℕ × StdioStrm F)
  unfolding fwrite_loop
  stdio_write s buf = fwrite_loop (suc (length buf)) 0 buf s

  -- b6b_stdio_close
  abbrev pub stdio_close : StdioStrm F → StdioStrm F
  stdio_close s = at_fp s (l.fclose s.fp)

  -- b6b_stdio_ro_pipe_ops, and b6b_stdio_wo_pipe_ops: their `close` only frees the struct.
  unfoldable pub ro_pipe_ops : StrmOps (StdioStrm F)
  unfolding stdio_read
  ro_pipe_ops = record {
    peeksz = none;
    read = some stdio_read;
    write = none;
    peer = none;
    accept = none;
    fd = λ s. s.fd;
    close = some (λ s. s);
  }

  unfoldable pub wo_pipe_ops : StrmOps (StdioStrm F)
  unfolding stdio_write
  wo_pipe_ops = record {
    peeksz = none;
    read = none;
    write = some stdio_write;
    peer = none;
    accept = none;
    fd = λ s. s.fd;
    close = some (λ s. s);
  }

  module _ ⦃c : CLib⦄ where
    -- b6b_stdio_wrap: the stream, under its name in the global frame; `nbf` is B6B_OPT_NBF.
    unfoldable pub stdio_wrap :
        ℕ → Bytes → F → ℤ → Bool → StrmOps (StdioStrm F) → M (Option (Ptr × Strm (StdioStrm F)))
    unfolding strm_copy set_global
    stdio_wrap n name fp fd nbf ops = do
      (o, s) ← strm_copy ops (record { fp = if nbf then l.setbuf fp else fp; fd = fd }) name
      stored ← set_global n o o
      pure (if stored then some (o, s) else none)
