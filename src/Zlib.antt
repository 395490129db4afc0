-- ===== src/Zlib.antt =====
-- src/b6b_zlib.c: compression by miniz, which is a parameter. Without offload threads, b6b_offload
-- calls the function that it is given.
pub mod Deflate
pub mod Inflate
use b6b.Base.{
  ℕ, ◌+◌, ◌-◌, ◌*◌, ◌^◌, Bool, true, false, Option, none, some, List, [], ◌∷◌, ◌++◌, ltb, leb, ◌==◌,
  if◌then◌else◌, length, take, drop, Bytes,
}
use b6b.Base.Int.{ℤ}
use b6b.Base.Words.{bytes_of}

pub data MzStatus : Type 0 where
  mz_ok mz_stream_end mz_error : MzStatus

-- What a call of mz_deflate or mz_inflate does: how many bytes of input it takes, what it puts out, and
-- the compressor behind it.
pub record Step (Z : Type 0) : Type 0 where
  pub status : MzStatus
  pub used : ℕ
  pub output : Bytes
  pub z : Z

-- miniz. A call gets whether the flush is MZ_FINISH, the input that is available, and avail_out.
pub record Miniz (Z : Type 0) : Type 0 where
  -- mz_deflateInit2 with the level and the window's bits, or `none` for an error.
  pub deflate_init : ℤ → ℤ → Option Z
  pub deflate_bound : Z → ℕ → ℕ
  pub deflate : Z → Bool → Bytes → ℕ → Step Z
  pub inflate_init : ℤ → Option Z
  pub inflate : Z → Bool → Bytes → ℕ → Step Z
  -- mz_crc32 of a block, from mz_crc32(0, NULL, 0) on
  pub crc32 : Bytes → ℕ
  -- MZ_DEFAULT_COMPRESSION, MZ_BEST_COMPRESSION, MZ_BEST_SPEED, MZ_DEFAULT_WINDOW_BITS, and its
  -- negative
  pub default_level : ℤ
  pub is_best : ℤ → Bool
  pub is_fastest : ℤ → Bool
  pub zlib_bits : ℤ
  pub raw_bits : ℤ

-- mz_stream over a copy of the input, `src`, where next_in has passed `total_in` bytes, and an output
-- buffer, where next_out stands behind `out`.
pub record MzStream (Z : Type 0) : Type 0 where
  pub z : Z
  pub src : Bytes
  pub total_in : ℕ
  pub avail_in : ℕ
  pub out : Bytes
  pub avail_out : ℕ

module _ {Z : Type 0} where
  abbrev pub mz_stream : Z → Bytes → ℕ → ℕ → MzStream Z
  mz_stream z src avail_in avail_out = record {
    z = z;
    src = src;
    total_in = 0;
    avail_in = avail_in;
    out = [];
    avail_out = avail_out;
  }

  -- A call of miniz on the stream.
  abbrev pub step_of : (Z → Bool → Bytes → ℕ → Step Z) → Bool → MzStream Z → Step Z
  step_of f finish s = f s.z finish (take s.avail_in (drop s.total_in s.src)) s.avail_out

  abbrev pub moved : MzStream Z → Step Z → MzStream Z
  moved s r = record s {
    z = r.z;
    total_in = s.total_in + r.used;
    avail_in = s.avail_in - r.used;
    out = s.out ++ r.output;
    avail_out = s.avail_out - length r.output;
  }

abbrev pub uint32_max : ℕ
uint32_max = 2 ^ 32 - 1

abbrev pub size_max : ℕ
size_max = 2 ^ 64 - 1

-- struct gzip_hdr, in the order of the bytes in memory: `sig` is htons(0x1f8b)
unfoldable pub gzip_header : ℕ → Bytes
gzip_header cfl = 0x1f ∷ 0x8b ∷ 8 ∷ 0 ∷ 0 ∷ 0 ∷ 0 ∷ 0 ∷ cfl ∷ 3 ∷ []

-- struct gzip_ftr
unfoldable pub gzip_footer : ℕ → ℕ → Bytes
unfolding bytes_of
gzip_footer crc len = bytes_of 4 crc ++ bytes_of 4 len

-- sizeof(struct gzip_hdr) and sizeof(struct gzip_ftr)
abbrev pub gzip_head : ℕ
gzip_head = 10

abbrev pub gzip_foot : ℕ
gzip_foot = 8
