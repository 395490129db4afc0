-- ===== src/Sh/End.antt =====
-- src/b6b_sh.c over b6b_fd_on_read of src/b6b_fdops.c: what the streams of a child's output know of
-- their end.
use b6b.Base.{ℕ, ◌≡◌, Option, none, some, ap}
use b6b.Store.{State, Res}
use b6b.Store.Monad.{done}
use b6b.Store.Gives.{Gives, pure-Gives, then-Gives}
use b6b.Strm.{Got, Strm, strm_read}
use b6b.Device.Fd.{Descriptor, fd_read}
use b6b.Device.Fd.End.{Quiet, IsQuiet, fd_read-Quiet, strm_read-SameEnd}
use b6b.Sh.{Sh, at_fd, sh_read, sh_out_ops}

at_fd-Quiet : {D : Type 0} (s : Sh D) (r : Option Got × D) → Quiet r → Gives Quiet (at_fd s r)
at_fd-Quiet s (none, d) h = pure-Gives Quiet _ tt
at_fd-Quiet s (some g, d) h = pure-Gives Quiet _ h

module _ {D : Type 0} (l : Descriptor D) where
  sh_read-Quiet : IsQuiet (sh_read l)
  unfolding sh_read
  sh_read-Quiet s len =
      then-Gives Quiet Quiet (fd_read ⦃l = l⦄ s.dev len) (at_fd s) (fd_read-Quiet ⦃l = l⦄ s.dev len)
        (at_fd-Quiet s)

  -- Reading from the standard output or error of a child leaves the stream's note of its end as it
  -- was, whatever the system answers, also where a read of 0 bytes tells that the child is gone.
  pub sh_out-SameEnd :
      (s : Strm (Sh D)) (want : ℕ) (st : State) (res : Res) (s' : Strm (Sh D)) (st' : State)
      → s.ops ≡ sh_out_ops l
      → strm_read s want st ≡ done (res, s') st'
      → s'.eof ≡ s.eof
  unfolding sh_out_ops
  sh_out-SameEnd s want st res s' st' e =
      (strm_read-SameEnd s want (sh_read l) (ap (λ o. o.read) e) (sh_read-Quiet)).gives st (res, s')
        st'
