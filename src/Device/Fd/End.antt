-- ===== src/Device/Fd/End.antt =====
-- src/b6b_fdops.c, b6b_fd_on_read: what a stream over a descriptor knows of the end.
use b6b.Base.{
  ℕ, zero, suc, ◌+◌, ◌-◌, ◌≡◌, refl, sym, ◌∙◌, ◌⊎◌, inl, inr, false, not, ◌||◌, Option, none, some,
  [], ◌++◌, ltb, ◌==◌, length, Bytes,
}
use mathlib.Core.Path.{subst}
use b6b.Store.{Res}
use b6b.Store.Monad.{M, return_str}
use b6b.Store.Gives.{Gives, pure-Gives, crash-Gives, stuck-Gives, bind-Gives, then-Gives, if-Gives}
use b6b.Strm.{
  Got, Filled, Strm, min, strm_peeksz, read_loop, read_got, read_next, finish_read, start_read,
  read_open, strm_read,
}
use b6b.Device.{return_strerror}
use b6b.Device.Fd.{Descriptor, would_block, fd_on_read, fd_read}

module _ {D : Type 0} where
  abbrev pub Quiet : Option Got × D → Type 0
  Quiet (none, d) = Unit
  Quiet (some g, d) = g.eof ≡ false

  abbrev QuietLoop : Option Filled × D → Type 0
  QuietLoop (none, d) = Unit
  QuietLoop (some b, d) = b.eof ≡ false

  -- A device function that never notes an end.
  abbrev pub IsQuiet : (D → ℕ → M (Option Got × D)) → Type 0
  IsQuiet f = (d : D) (len : ℕ) → Gives Quiet (f d len)

  module _ (peek : Option (D → M (Option ℕ × D))) where
    next-Quiet :
        (again : ℕ → ℕ → D → M (Option Filled × D)) (want : ℕ) (b : Filled) (r : Option ℕ × D)
        → b.eof ≡ false
        → ((want est : ℕ) (d : D) → Gives QuietLoop (again want est d))
        → Gives QuietLoop (read_next again want b r)
    next-Quiet again want b (none, d) hb h = pure-Gives QuietLoop _ tt
    next-Quiet again want b (some est, d) hb h =
        if-Gives QuietLoop (est == 0) _ _ (λ _. pure-Gives QuietLoop _ hb)
          λ _. h want (min est want) d

    got-Quiet :
        (again : Bytes → ℕ → ℕ → D → M (Option Filled × D)) (want est len : ℕ) (out : Bytes)
        (r : Option Got × D)
        → Quiet r
        → ((out : Bytes) (want est : ℕ) (d : D) → Gives QuietLoop (again out want est d))
        → Gives QuietLoop (read_got again peek want est len out r)
    got-Quiet again want est len out (none, d) hr h = pure-Gives QuietLoop _ tt
    got-Quiet again want est len out (some g, d) hr h =
        if-Gives QuietLoop (ltb est (length g.bytes)) _ _ (λ _. crash-Gives QuietLoop)
          λ _.
            if-Gives QuietLoop g.eof _ _ (λ _. pure-Gives QuietLoop _ hr)
              λ _.
                if-Gives QuietLoop (length g.bytes == 0 || not g.again) _ _
                  (λ _. pure-Gives QuietLoop _ hr)
                  λ _.
                    if-Gives QuietLoop (want - length g.bytes == 0) _ _
                      (λ _. pure-Gives QuietLoop _ hr)
                      λ _. bind-Gives QuietLoop (strm_peeksz peek d) _ λ p.
                        next-Quiet (again (out ++ g.bytes)) (want - length g.bytes) _ p hr
                          (h (out ++ g.bytes))

    read_loop-Quiet :
        (f : D → ℕ → M (Option Got × D))
        → IsQuiet f
        → (k len : ℕ) (out : Bytes) (want est : ℕ) (d : D)
        → Gives QuietLoop (read_loop k peek f len out want est d)
    unfolding read_loop
    read_loop-Quiet f h zero len out want est d = stuck-Gives QuietLoop
    read_loop-Quiet f h (suc k) len out want est d =
        if-Gives QuietLoop (est == 0) _ _ (λ _. pure-Gives QuietLoop _ refl)
          λ _.
            if-Gives QuietLoop (ltb (len + est) (length out + est)) _ _ (λ _. crash-Gives QuietLoop)
              λ _. then-Gives QuietLoop Quiet (f d est) _ (h d est) λ r hr.
                got-Quiet (read_loop k peek f (len + est)) want est (len + est) out r hr
                  (read_loop-Quiet f h k (len + est))

  module _ (s : Strm D) where
    abbrev pub SameEnd : Res × Strm D → Type 0
    SameEnd x = x.1.eof ≡ s.eof

    finish-SameEnd :
        (b : Option Filled × D) → QuietLoop b → s.eof ≡ false → Gives SameEnd (finish_read s b)
    finish-SameEnd (none, d) hb he = pure-Gives SameEnd _ refl
    finish-SameEnd (some b, d) hb he =
        if-Gives SameEnd (ltb (length b.out) b.len) _ _
          (λ _. bind-Gives SameEnd (return_str b.out) _ λ r. pure-Gives SameEnd _ (hb ∙ sym he))
          λ _. crash-Gives SameEnd

    start-SameEnd :
        (want : ℕ) (f : D → ℕ → M (Option Got × D)) (r : Option ℕ × D)
        → IsQuiet f
        → s.eof ≡ false
        → Gives SameEnd (start_read s want f r)
    start-SameEnd want f (none, d) h he = pure-Gives SameEnd _ refl
    start-SameEnd want f (some est, d) h he =
        then-Gives SameEnd QuietLoop
          (read_loop (suc want) s.ops.peeksz f 1 [] want (min est want) d) (finish_read s)
          (read_loop-Quiet s.ops.peeksz f h (suc want) 1 [] want (min est want) d)
          λ b hb. finish-SameEnd b hb he

    open-SameEnd :
        (want : ℕ) (f : D → ℕ → M (Option Got × D))
        → IsQuiet f
        → s.eof ≡ false
        → Gives SameEnd (read_open s want (some f))
    open-SameEnd want f h he =
        if-Gives SameEnd s.closed _ _ (λ _. pure-Gives SameEnd _ refl)
          λ _.
            bind-Gives SameEnd (strm_peeksz s.ops.peeksz s.priv) _ λ r. start-SameEnd want f r h he

    pub strm_read-SameEnd :
        (want : ℕ) (f : D → ℕ → M (Option Got × D))
        → s.ops.read ≡ some f
        → IsQuiet f
        → Gives SameEnd (strm_read s want)
    unfolding strm_read
    strm_read-SameEnd want f e h =
        if-Gives SameEnd s.eof _ _ (λ _. pure-Gives SameEnd _ refl)
          λ he. subst (λ g. Gives SameEnd (read_open s want g)) (sym e) (open-SameEnd want f h he)

module _ {D : Type 0} ⦃l : Descriptor D⦄ where
  fd_on_read-Quiet : (r : (ℕ ⊎ Bytes) × D) → Gives Quiet (fd_on_read r)
  unfolding fd_on_read
  fd_on_read-Quiet (inl e, d) =
      if-Gives Quiet (would_block l e) _ _ (λ _. pure-Gives Quiet _ refl)
        λ _. bind-Gives Quiet (return_strerror (l.strerror e)) _ λ r. pure-Gives Quiet _ tt
  fd_on_read-Quiet (inr bs, d) = pure-Gives Quiet _ refl

  -- b6b_fd_read
  pub fd_read-Quiet : IsQuiet (fd_read ⦃l = l⦄)
  unfolding fd_read
  fd_read-Quiet d len = fd_on_read-Quiet (l.read d len)
