-- ===== src/Device/Fd/Number.antt =====
-- src/b6b_fdops.c: 64-bit numbers that are written and read as text.
use b6b.Base.{ℕ, ◌≤◌, ◌≡◌, refl, false, none, inr, leb, if◌then◌else◌, arith, length}
use b6b.Base.Int.{pos}
use b6b.Base.Words.{bytes_of, length-bytes_of, word_of-bytes_of}
use b6b.Store.{State}
use b6b.Store.Monad.{done}
use b6b.Object.{format_int}
use b6b.Device.Fd.{Descriptor, u64_size, u64_max, got, fd_on_read, fd_read, fd_read_u64}

module _ {D : Type 0} ⦃l : Descriptor D⦄ where
  -- Where a descriptor gives the 8 bytes of a number, its digits are read if the size wanted has room
  -- for them and a NUL; if not, reading fails, and the number is taken from the descriptor and lost.
  pub fd_read_u64_lem :
      (d d' : D) (n len : ℕ) (st : State)
      → n ≤ u64_max
      → l.read d u64_size ≡ (inr (bytes_of u64_size n), d')
      → fd_read_u64 d len st
        ≡ done
            (
              if leb len (length (format_int (pos n)))
                  then none
                  else got (format_int (pos n)) false,
              d',
            )
            st
  unfolding fd_read_u64 fd_read fd_on_read
  fd_read_u64_lem d d' n len st hn hr =
      rw (hr, length-bytes_of u64_size n, word_of-bytes_of u64_size n (omega arith)) refl
