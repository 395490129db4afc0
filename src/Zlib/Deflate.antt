-- ===== src/Zlib/Deflate.antt =====
-- src/b6b_zlib.c: `deflate`, `compress` and `gzip`.
pub mod Total
use b6b.Base.{
  ℕ, zero, suc, ◌+◌, ◌-◌, ◌*◌, ◌%◌, ◌^◌, ◌||◌, Bool, true, false, Option, none, some, List, [], ◌∷◌,
  ◌++◌, ltb, leb, ◌==◌, if◌then◌else◌, length, Bytes, codes,
}
use b6b.Base.Int.{ℤ, pos_part, neg_part}
use b6b.CLib.{CLib}
use b6b.Store.{Ptr, Res, err}
use b6b.Store.Monad.{M, ◌>>=◌, pure, crash, stuck, load, return_str}
use b6b.Object.Args.{get_args}
use b6b.Interp.Main.{is_int_status}
use b6b.Zlib.{
  MzStatus, mz_ok, mz_stream_end, mz_error, Step, Miniz, MzStream, mz_stream, step_of, moved,
  uint32_max, gzip_header, gzip_footer, gzip_head, gzip_foot,
}

-- B6B_DEFLATE_CHUNK_SZ
abbrev pub deflate_chunk : ℕ
deflate_chunk = 64 * 1024

-- What goes in front of the compressed data, and what behind it: `head` and `foot` bytes.
pub record Wrap : Type 0 where
  pub head : ℕ
  pub foot : ℕ
  pub bits : ℤ
  pub front : ℤ → Bytes
  pub back : Bytes → Bytes

abbrev pub return_wrapped : Wrap → ℕ → Bytes → ℤ → Option Bytes → M Res
return_wrapped w limit src level none = pure err
return_wrapped w limit src level (some out) =
    if ltb limit (length out) then pure err else return_str (w.front level ++ (out ++ w.back src))

abbrev pub bare : ℤ → Wrap
bare bits = record { head = 0; foot = 0; bits = bits; front = λ level. []; back = λ src. [] }

module _ {Z : Type 0} (l : Miniz Z) where
  -- Behind a call of mz_deflate: output past the `cap` bytes that the buffer has for it is a fault.
  abbrev pub deflated :
      (MzStream Z → M (Option (MzStream Z))) → ℕ → MzStream Z → Step Z → M (Option (MzStream Z))
  deflated again cap s r =
      if ltb (cap - length s.out) (length r.output) then crash else elim r.status [
        | mz_ok ↦ again (moved s r)
        | mz_stream_end ↦ pure none
        | mz_error ↦ pure none
      ]

  -- b6b_zlib_do_deflate; `none` is `ok` 0. What remains is the length without `total_in`.
  unfoldable pub do_deflate : ℕ → ℕ → MzStream Z → M (Option (MzStream Z))
  do_deflate zero cap s = stuck
  do_deflate (suc k) cap s =
      let rem = length s.src - s.total_in in
      let given = record s { avail_in = if ltb deflate_chunk rem then deflate_chunk else rem } in
      let more = deflated (do_deflate k cap) cap given (step_of l.deflate false given) in
      if rem == 0 then pure (some s) else more

  abbrev pub finished : ℕ → MzStream Z → Step Z → M (Option Bytes)
  finished cap s r = if ltb (cap - length s.out) (length r.output) then crash else elim r.status [
    | mz_ok ↦ pure none
    | mz_stream_end ↦ pure (some (s.out ++ r.output))
    | mz_error ↦ pure none
  ]

  -- The call of mz_deflate with MZ_FINISH, behind the loop.
  abbrev pub finish_deflate : ℕ → Option (MzStream Z) → M (Option Bytes)
  finish_deflate cap none = pure none
  finish_deflate cap (some s) = finished cap s (step_of l.deflate true s)

  -- b6b_zlib_deflate behind mz_deflateInit2.
  abbrev pub deflate_with : Wrap → ℕ → Bytes → ℤ → Option Z → M Res
  deflate_with w limit src level none = pure err
  deflate_with w limit src level (some z) =
      let dlen = l.deflate_bound z (length src) in
      if leb limit dlen
      then pure err
      else do_deflate (suc (length src + dlen)) dlen (mz_stream z src 0 dlen)
        >>= finish_deflate dlen
        >>= return_wrapped w limit src level

  -- b6b_zlib_deflate with the text and the level.
  unfoldable pub deflate_text : Wrap → Bytes → ℤ → M Res
  unfolding do_deflate return_str
  deflate_text w src level =
      let limit = uint32_max - w.head - w.foot in
      if ltb limit (length src)
      then pure err
      else deflate_with w limit src level (l.deflate_init level w.bits)

  -- b6b_zlib_gzip_finish
  abbrev pub gzip_wrap : Wrap
  gzip_wrap = record {
    head = gzip_head;
    foot = gzip_foot;
    bits = l.raw_bits;
    front =
        λ level. gzip_header (if l.is_best level then 2 else if l.is_fastest level then 4 else 0);
    back = λ src. gzip_footer (l.crc32 src) (length src % uint32_max);
  }

  abbrev pub deflate_args : Wrap → List Ptr → M Res
  deflate_args w (s ∷ []) = do x ← load s; deflate_text w x.s l.default_level
  deflate_args w (s ∷ level ∷ []) = do
    x ← load s
    y ← load level
    if is_int_status y.i then deflate_text w x.s y.i else pure err
  deflate_args w _ = crash

  module _ ⦃c : CLib⦄ where
    -- b6b_zlib_deflate
    unfoldable pub zlib_deflate : Wrap → ℕ → Ptr → M Res
    unfolding get_args load deflate_text
    zlib_deflate w n args = do
      a ← get_args n args (codes "os|i") (false ∷ true ∷ true ∷ [])
      if a.argc == 0 then pure err else deflate_args w a.out

    unfoldable pub zlib_proc_deflate : ℕ → Ptr → M Res
    unfolding zlib_deflate
    zlib_proc_deflate = zlib_deflate (bare l.raw_bits)

    unfoldable pub zlib_proc_compress : ℕ → Ptr → M Res
    unfolding zlib_deflate
    zlib_proc_compress = zlib_deflate (bare l.zlib_bits)

    unfoldable pub zlib_proc_gzip : ℕ → Ptr → M Res
    unfolding zlib_deflate gzip_header gzip_footer
    zlib_proc_gzip = zlib_deflate gzip_wrap
