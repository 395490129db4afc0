-- ===== src/Zlib/Inflate.antt =====
-- src/b6b_zlib.c: `inflate`, `decompress` and `gunzip`.
pub mod Room
use b6b.Base.{
  ℕ, zero, suc, ◌+◌, ◌-◌, ◌*◌, ◌%◌, ◌^◌, ◌||◌, Bool, true, false, Option, none, some, List, [], ◌∷◌,
  ◌++◌, ltb, leb, ◌==◌, if◌then◌else◌, length, take, drop, Bytes, codes,
}
use b6b.Base.Int.{ℤ}
use b6b.Base.Words.{word_of}
use b6b.CLib.{CLib}
use b6b.Store.{Ptr, Res, err}
use b6b.Store.Monad.{M, ◌>>=◌, pure, crash, stuck, load, return_str}
use b6b.Object.Args.{get_args}
use b6b.Zlib.{
  MzStatus, mz_ok, mz_stream_end, mz_error, Step, Miniz, MzStream, mz_stream, step_of, moved,
  uint32_max, size_max, gzip_head, gzip_foot,
}

-- B6B_INFLATE_IN_CHUNK_SZ and B6B_INFLATE_OUT_CHUNK_SZ
abbrev pub in_chunk : ℕ
in_chunk = 64 * 1024

abbrev pub out_chunk : ℕ
out_chunk = 256 * 1024

-- The buffer grows: what the next call is told of the room, which is an unsigned int, and of the input.
abbrev pub grown : {Z : Type 0} → ℕ → MzStream Z → MzStream Z
grown dlen s =
    let rem = length s.src - s.total_in in
    record s {
      avail_out = (s.avail_out + (dlen - length s.out)) % 2 ^ 32;
      avail_in = if ltb in_chunk rem then in_chunk else rem;
    }

-- b6b_zlib_gzip_get_size: the last four bytes
abbrev pub gzip_get_size : Bytes → ℕ
gzip_get_size buf = word_of (drop (length buf - 4) buf)

-- `dlen`, from get_size or without one
abbrev pub first_size : Option ℕ → ℕ
first_size none = out_chunk
first_size (some size) = if size == 0 then 1 else size

abbrev pub inflate_args : (Bytes → M Res) → List Ptr → M Res
inflate_args inflate (s ∷ []) = do x ← load s; inflate x.s
inflate_args inflate _ = crash

module _ {Z : Type 0} (l : Miniz Z) where
  -- Behind a call of mz_inflate: output past the end of the buffer, which has `dlen` bytes and one for
  -- the NUL, is a fault.
  abbrev pub inflated :
      (ℕ → MzStream Z → M (Option (ℕ × MzStream Z)))
      → ℕ
      → MzStream Z
      → Step Z
      → M (Option (ℕ × MzStream Z))
  inflated again dlen s r =
      if ltb (dlen + 1 - length s.out) (length r.output) then crash else elim r.status [
        | mz_ok ↦
            if leb (size_max - out_chunk - 1) dlen
            then pure none
            else again (dlen + out_chunk) (grown (dlen + out_chunk) (moved s r))
        | mz_stream_end ↦ pure (some (dlen, moved s r))
        | mz_error ↦ pure none
      ]

  -- b6b_zlib_do_inflate: `dlen`, and the stream; `none` is `ok` 0.
  unfoldable pub do_inflate : ℕ → ℕ → MzStream Z → M (Option (ℕ × MzStream Z))
  do_inflate zero dlen s = stuck
  do_inflate (suc k) dlen s = inflated (do_inflate k) dlen s (step_of l.inflate false s)

  abbrev pub ended : ℕ → MzStream Z → Step Z → M Res
  ended dlen s r =
      if ltb (dlen + 1 - length s.out) (length r.output) then crash else elim r.status [
        | mz_ok ↦ pure err
        | mz_stream_end ↦ return_str (s.out ++ r.output)
        | mz_error ↦ pure err
      ]

  -- The call of mz_inflate with MZ_FINISH, behind the loop.
  abbrev pub finish_inflate : Option (ℕ × MzStream Z) → M Res
  finish_inflate none = pure err
  finish_inflate (some (dlen, s)) = ended dlen s (step_of l.inflate true s)

  abbrev pub inflate_with : ℕ → ℕ → Bytes → Option Z → M Res
  inflate_with n dlen src none = pure err
  inflate_with n dlen src (some z) =
      do_inflate n dlen (mz_stream z src (length src) dlen) >>= finish_inflate

  -- b6b_zlib_inflate with the text; the fuel bounds the calls of mz_inflate. A size is below SIZE_MAX,
  -- as it has 32 bits.
  unfoldable pub inflate_text : ℤ → ℕ → ℕ → (Bytes → Option ℕ) → ℕ → Bytes → M Res
  unfolding do_inflate return_str
  inflate_text bits head foot get_size n s =
      if ltb uint32_max (length s)
      then pure err
      else if leb (length s) (head + foot)
      then pure err
      else inflate_with n (first_size (get_size s)) (take (length s - (head + foot)) (drop head s))
          (l.inflate_init bits)

  module _ ⦃c : CLib⦄ where
    -- b6b_zlib_inflate
    unfoldable pub zlib_inflate : ℤ → ℕ → ℕ → (Bytes → Option ℕ) → ℕ → Ptr → M Res
    unfolding get_args load inflate_text
    zlib_inflate bits head foot get_size n args = do
      a ← get_args n args (codes "os") (false ∷ true ∷ [])
      if a.argc == 0 then pure err else inflate_args (inflate_text bits head foot get_size n) a.out

    unfoldable pub zlib_proc_inflate : ℕ → Ptr → M Res
    unfolding zlib_inflate
    zlib_proc_inflate = zlib_inflate l.raw_bits 0 0 (λ buf. none)

    unfoldable pub zlib_proc_decompress : ℕ → Ptr → M Res
    unfolding zlib_inflate
    zlib_proc_decompress = zlib_inflate l.zlib_bits 0 0 (λ buf. none)

    unfoldable pub zlib_proc_gunzip : ℕ → Ptr → M Res
    unfolding zlib_inflate word_of
    zlib_proc_gunzip = zlib_inflate l.raw_bits gzip_head gzip_foot (λ buf. some (gzip_get_size buf))
