-- ===== src/Zlib/Deflate/Total.antt =====
-- src/b6b_zlib.c, b6b_zlib_do_deflate and b6b_zlib_deflate: how compressing ends.
use b6b.Base.{ℕ, ◌+◌, ◌-◌, ◌≤◌, ◌<◌, ◌≡◌, ◌⊎◌, false, Bool, Option, none, some, ◌++◌, length, Bytes}
use b6b.Base.Int.{ℤ}
use b6b.Store.{Obj, State, Res, ok, err}
use b6b.Store.Monad.{Outcome, done}
use b6b.Zlib.{mz_ok, Miniz, MzStream, uint32_max}
use b6b.Zlib.Deflate.{Wrap}

-- A compressor, as miniz documents it: a call takes no more than the input it was given, and puts out
-- no more than there is room for; a call that can make no progress is an error, MZ_BUF_ERROR.
pub record IsDeflater {Z : Type 0} (l : Miniz Z) : Type 0 where
  pub takes :
      (z : Z) (finish : Bool) (input : Bytes) (room : ℕ)
      → (l.deflate z finish input room).used ≤ length input
  pub fits :
      (z : Z) (finish : Bool) (input : Bytes) (room : ℕ)
      → length (l.deflate z finish input room).output ≤ room
  pub progress :
      (z : Z) (input : Bytes) (room : ℕ)
      → 0 < length input
      → (l.deflate z false input room).status ≡ mz_ok
      → 0 < (l.deflate z false input room).used + length (l.deflate z false input room).output

module _ {Z : Type 0} (l : Miniz Z) (h : IsDeflater l) where
  -- The input that was taken is in the text, and the output and the room that is left in the buffer.
  record Within (cap : ℕ) (s : MzStream Z) : Type 0 where
    taken : s.total_in ≤ length s.src
    room : length s.out + s.avail_out ≤ cap

  -- An error; or all of the input is taken, and the stream is within its bounds.
  abbrev Deflated : ℕ → Bytes → Outcome (Option (MzStream Z)) → State → Type 0
  Deflated cap src o st =
      (o ≡ done none st)
      ⊎ ((s' : MzStream Z) × (o ≡ done (some s') st)
          × (s'.src ≡ src)
          × (s'.total_in ≡ length src)
          × Within cap s')

  -- What compressing comes to: an error, or a text of the compressed bytes, which fit.
  abbrev pub Ended : Wrap → Bytes → ℤ → Outcome Res → Type 0
  Ended w src level o =
      ((st' : State) × (o ≡ done err st'))
      ⊎ ((st' : State) × (out : Bytes) × (obj : Obj) × (o ≡ done ok st')
          × (length out ≤ uint32_max - w.head - w.foot)
          × (st'.cell st'.under ≡ some obj)
          × (obj.s ≡ w.front level ++ (out ++ w.back src)))
