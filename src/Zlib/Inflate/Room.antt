-- ===== src/Zlib/Inflate/Room.antt =====
-- src/b6b_zlib.c, b6b_zlib_do_inflate: the room that miniz is told of.
use b6b.Base.{
  ℕ, suc, ◌+◌, ◌-◌, ◌≤◌, ◌<◌, ◌^◌, ◌≡◌, refl, true, false, arith, leb, ltb, length, length-append,
  ◌++◌,
}
use b6b.Store.{State}
use b6b.Store.Monad.{fault}
use b6b.Zlib.{mz_ok, Miniz, MzStream, step_of, moved, size_max}
use b6b.Zlib.Inflate.{out_chunk, grown, do_inflate}

-- Where a call of miniz succeeds and leaves more than one byte of the room that it was told of, the next
-- call is told of that much more than the buffer has; where it fills what it was told of, as it may, the
-- code writes past the end of the buffer.
pub inflate_overflow :
    {Z : Type 0} (l : Miniz Z) (k dlen : ℕ) (s : MzStream Z) (st : State)
    → (step_of l.inflate false s).status ≡ mz_ok
    → length s.out + length (step_of l.inflate false s).output ≤ dlen
    → length (step_of l.inflate false s).output + 1 < s.avail_out
    → s.avail_out + dlen + out_chunk < 2 ^ 32
    → length
        (step_of l.inflate false
          (grown (dlen + out_chunk) (moved s (step_of l.inflate false s)))).output
      ≡ (grown (dlen + out_chunk) (moved s (step_of l.inflate false s))).avail_out
    → do_inflate l (suc (suc k)) dlen s st ≡ fault
unfolding do_inflate
inflate_overflow l k dlen s st ok fits left small full =
    let r = step_of l.inflate false s in
    let r' = step_of l.inflate false (grown (dlen + out_chunk) (moved s r)) in
    let room : ltb (dlen + 1 - length s.out) (length r.output) ≡ false = ground arith in
    let go_on : leb (size_max - out_chunk - 1) dlen ≡ false = ground arith in
    let over : ltb (dlen + out_chunk + 1 - length (s.out ++ r.output)) (length r'.output) ≡ true =
      ground (arith, length-append s.out r.output, full) in
    rw (room, ok, go_on, over) refl
